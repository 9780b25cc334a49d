-- ===== src/Registry/Tests.antt =====
-- The theorems on the registry at concrete inputs.
use mlxd.Base.{
  ℕ, ◌≤◌, ◌≡◌, ◌⊎◌, refl, true, false, none, some, ◌>>=◌, List, [], ◌∷◌, ◌++◌, length, get_elem?,
  arith, codes, pos, negsuc,
}
use mlxd.Registry.Spec.{
  Spec, Env, split_at, reg_spec_parse, reg_spec_charset_ok, is_empty, cache_name,
}
use mlxd.Registry.Spec.Safe.{IsRemote, IsLocal, IsName, AllName, parsed-IsSpec, cache_name_lem}
use mlxd.Registry.Spec.RoundTrip.{written, parse-written}
use mlxd.Registry.Names.{split_on, Item, reg_parse_file_plan, id_from_dirname, hub_id_from_dirname}
use mlxd.Registry.Names.Ids.{id-cache_name}
use mlxd.Registry.Names.Inside.{Planned, plan-Planned}
use mlxd.Registry.Discover.{
  Info, Snapshot, usable, reg_find_latest_snapshot, Arr, add_info, ModelDir, HubDir,
  registry_discover,
}
use mlxd.Registry.Discover.Bounds.{ModelsGrow, HubGrows, discover_in_bounds, failed_growth_overruns}
use mlxd.Registry.Discover.Latest.{Chosen, AtLeast, latest_lem}

abbrev usual : Env
usual = record {
  home = some (codes "/home/u");
  local_ok = true;
  revision_ok = true;
  org_ok = true;
  model_ok = true;
}

abbrev parsed : Spec
parsed = record {
  org = some (codes "org");
  model = some (codes "m.1");
  revision = some (codes "v2");
  local_path = none;
}

parsed-IsSpec_example : IsRemote parsed ⊎ IsLocal parsed
unfolding reg_spec_parse
parsed-IsSpec_example = parsed-IsSpec usual (codes "org/m.1:v2") parsed refl

cache_name_lem_example :
    (split_at 47 (cache_name (codes "org") (codes "m.1")) ≡ none)
    × (4 ≤ length (cache_name (codes "org") (codes "m.1")))
unfolding reg_spec_parse
cache_name_lem_example =
    cache_name_lem usual (codes "org/m.1:v2") parsed (codes "org") (codes "m.1") refl refl refl

org-IsName : IsName (codes "org")
unfolding is_empty reg_spec_charset_ok
org-IsName = record { some_char = refl; charset = refl }

model-IsName : IsName (codes "m.1")
unfolding is_empty reg_spec_charset_ok
model-IsName = record { some_char = refl; charset = refl }

revision-AllName : AllName (some (codes "v2"))
unfolding is_empty reg_spec_charset_ok AllName
revision-AllName = record { some_char = refl; charset = refl }

parse-written_example :
    reg_spec_parse usual (written (codes "org") (codes "m.1") (some (codes "v2"))) ≡ some parsed
parse-written_example =
    parse-written usual (record { revision_ok = refl; org_ok = refl; model_ok = refl }) 111
      (codes "rg") (codes "m.1") (some (codes "v2")) org-IsName (λ e. absurd (omega arith))
      model-IsName revision-AllName

id-cache_name_example :
    (id_from_dirname true (cache_name (codes "org") (codes "m.1")) ≡ some (codes "org/m.1"))
    × (hub_id_from_dirname true (codes "models--" ++ cache_name (codes "org") (codes "m.1"))
        ≡ some (codes "org/m.1"))
unfolding is_empty split_on
id-cache_name_example = id-cache_name (codes "org") (codes "m.1") refl refl refl

abbrev listed : List Item
listed =
    record { rfilename = some (codes "../a.safetensors"); size = some (pos 1) }
    ∷ record { rfilename = some (codes "x/b.safetensors"); size = none }
    ∷ []

plan-Planned_example : Planned ((codes "x/b.safetensors", negsuc 0) ∷ [])
unfolding reg_parse_file_plan
plan-Planned_example =
    plan-Planned (λ k. true) listed ((codes "x/b.safetensors", negsuc 0) ∷ []) refl

abbrev early : Snapshot
early = record { d_name = codes "aa"; path_ok = true; has_config = true; stat = some 5; files = [] }

abbrev snaps : List Snapshot
snaps = early ∷ record early { stat = some 9 } ∷ record early { has_config = false } ∷ []

latest_lem_example :
    ((c : Snapshot × ℕ) → reg_find_latest_snapshot snaps ≡ some c → Chosen snaps c)
    × ((i n : ℕ) (t : Snapshot)
        → get_elem? snaps i ≡ some t
        → usable t ≡ true
        → t.stat ≡ some n
        → AtLeast n (reg_find_latest_snapshot snaps))
latest_lem_example = latest_lem snaps

abbrev cached : List ModelDir
cached =
    record {
      d_name = codes "org--m.1";
      path_ok = true;
      has_config = true;
      id_ok = true;
      grow_ok = true;
      files = [];
    }
    ∷ []

abbrev in_hub : List HubDir
in_hub =
    record {
      d_name = codes "models--org--n";
      id_ok = true;
      path_ok = true;
      first_ok = true;
      grow_ok = true;
      snapshots = snaps;
    }
    ∷ []

discover_in_bounds_example :
    (infos : List Info) × (registry_discover (codes "/c/models") cached (codes "/h/hub") in_hub
      ≡ some infos)
unfolding ModelsGrow HubGrows
discover_in_bounds_example =
    discover_in_bounds (codes "/c/models") cached (codes "/h/hub") in_hub (refl, tt) (refl, tt)

abbrev model : Info
model = record { id = codes "org/m"; path = codes "/c/models/org--m"; size_bytes = 1; mtime = 1 }

abbrev full : Arr
full = record {
  infos = model ∷ model ∷ model ∷ model ∷ model ∷ model ∷ model ∷ model ∷ [];
  places = 8;
  cap = 8;
}

failed_growth_overruns_example : (add_info false full model >>= λ b. add_info true b model) ≡ none
failed_growth_overruns_example =
    failed_growth_overruns full model model true refl refl (omega arith)
