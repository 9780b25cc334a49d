-- ===== src/Registry/Discover/Bounds.antt =====
-- Writes to the array of the models that are found.
use mathlib.Core.Path.{subst}
use mlxd.Base.{
  ℕ, ◌*◌, ◌≤◌, ◌<◌, ◌≡◌, ◌⊎◌, refl, sym, Bool, true, false, not, ◌&&◌, inl, inr, Option, none, some,
  ◌>>=◌, List, [], ◌∷◌, length, length-append, ltb, leb, ◌==◌, if_elim, arith, Bytes,
}
use mlxd.Registry.Names.{id_from_dirname, hub_id_from_dirname}
use mlxd.Registry.Discover.{
  Info, File, Snapshot, is_hidden, reg_find_latest_snapshot, Arr, put_info, add_info, ModelDir,
  info_of, add_named, mlxd_round, scan_mlxd_cache, id_in_list, HubDir, add_first, add_snapshot,
  snapshot_path, add_new, hub_round, scan_hub_cache, handed_on, registry_discover,
}

-- An array whose `cap` is within its places.
record Fits (a : Arr) : Type 0 where
  pub known : a.cap ≤ a.places
  pub held : length a.infos ≤ a.cap
  pub some_place : 8 ≤ a.cap

-- Or one that is NULL and holds nothing.
HubFits : Arr → Type 0
HubFits a = ((a.places ≡ 0) × (length a.infos ≡ 0)) ⊎ Fits a

Leaves : Option Arr → Type 0
Leaves none = ⊥
Leaves (some a) = Fits a

HubLeaves : Option Arr → Type 0
HubLeaves none = ⊥
HubLeaves (some a) = HubFits a

put-Leaves : (a : Arr) (x : Info) → Fits a → length a.infos < a.cap → Leaves (put_info a x)
unfolding put_info Leaves
put-Leaves a x f lt =
    if_elim Leaves (ltb (length a.infos) a.places)
      (λ _. record {
        known = f.known;
        held = omega (arith, length-append a.infos (x ∷ []));
        some_place = f.some_place;
      })
      (λ h. let k = f.known in absurd (ground arith))

add-Leaves : (a : Arr) (x : Info) → Fits a → Leaves (add_info true a x)
unfolding add_info
add-Leaves a x f =
    let p = f.some_place in
    if_elim Leaves (leb a.cap (length a.infos))
      (λ full.
        let k = f.held in
        put-Leaves (record a { places = a.cap * 2; cap = a.cap * 2 }) x
          (record { known = omega arith; held = ground arith; some_place = omega arith })
          (ground arith))
      (λ free. put-Leaves a x f (ground arith))

grow-Leaves :
    (grow_ok : Bool) (a : Arr) (x : Info) → grow_ok ≡ true → Fits a → Leaves (add_info grow_ok a x)
grow-Leaves grow_ok a x e f = subst (λ b. Leaves (add_info b a x)) (sym e) (add-Leaves a x f)

named-Leaves :
    (a : Arr) (path : Bytes) (files : List File) (grow_ok : Bool) (o : Option Bytes)
    → grow_ok ≡ true
    → Fits a
    → Leaves (add_named grow_ok a path files o)
unfolding add_named
named-Leaves a path files grow_ok none e f = unfold Leaves in f
named-Leaves a path files grow_ok (some id) e f = grow-Leaves grow_ok a (info_of id path files) e f

-- Every `realloc` that a scan calls succeeds.
unfoldable pub ModelsGrow : List ModelDir → Type 0
ModelsGrow [] = Unit {0}
ModelsGrow (d ∷ ds) = (d.grow_ok ≡ true) × ModelsGrow ds

unfoldable pub HubGrows : List HubDir → Type 0
HubGrows [] = Unit {0}
HubGrows (d ∷ ds) = (d.grow_ok ≡ true) × HubGrows ds

round-Leaves :
    (dir : Bytes) (a : Arr) (d : ModelDir) → d.grow_ok ≡ true → Fits a → Leaves (mlxd_round dir a d)
unfolding mlxd_round
round-Leaves dir a d e f =
    if_elim Leaves (not (is_hidden d.d_name) && d.path_ok && d.has_config)
      (λ _. named-Leaves a _ d.files d.grow_ok (id_from_dirname d.id_ok d.d_name) e f)
      (λ _. unfold Leaves in f)

chain-Leaves :
    (o : Option Arr) (k : Arr → Option Arr)
    → Leaves o
    → ((a : Arr) → Fits a → Leaves (k a))
    → Leaves (o >>= k)
unfolding Leaves
chain-Leaves none k h g = absurd h
chain-Leaves (some a) k h g = g a h

mlxd-Leaves :
    (dir : Bytes) (ds : List ModelDir) (a : Arr)
    → ModelsGrow ds
    → Fits a
    → Leaves (scan_mlxd_cache dir ds a)
unfolding scan_mlxd_cache ModelsGrow
mlxd-Leaves dir [] a g f = unfold Leaves in f
mlxd-Leaves dir (d ∷ ds) a (e, g) f =
    chain-Leaves (mlxd_round dir a d) (scan_mlxd_cache dir ds) (round-Leaves dir a d e f)
      (λ b. mlxd-Leaves dir ds b g)

hub_from : (o : Option Arr) → Leaves o → HubLeaves o
unfolding Leaves HubLeaves HubFits
hub_from none h = h
hub_from (some a) h = inr h

first-Leaves :
    (first_ok grow_ok : Bool) (a : Arr) (x : Info)
    → grow_ok ≡ true
    → HubFits a
    → HubLeaves (add_first first_ok grow_ok a x)
unfolding add_first HubFits
first-Leaves first_ok grow_ok a x e f =
    if_elim HubLeaves (a.places == 0)
      (λ z.
        let n : length a.infos ≡ 0 = empty_held a f (ground arith) in
        if_elim HubLeaves first_ok
          (λ _. hub_from _ (
            grow-Leaves grow_ok (record a { places = 8; cap = 8 }) x e
              (record { known = omega arith; held = omega arith; some_place = omega arith })))
          (λ _. unfold HubLeaves in inl (ground arith, n)))
      (λ z. hub_from _ (grow-Leaves grow_ok a x e (placed a f z)))
  where
    empty_held : (a : Arr) → HubFits a → a.places ≡ 0 → length a.infos ≡ 0
    empty_held a (inl (p, n)) z = n
    empty_held a (inr f) z = omega (arith, f.known, f.held, z)

    placed : (a : Arr) → HubFits a → (a.places == 0) ≡ false → Fits a
    placed a (inl (p, n)) z = absurd (ground (arith, p, z))
    placed a (inr f) z = f

snapshot-Leaves :
    (hub : Bytes) (d : HubDir) (a : Arr) (id : Bytes) (o : Option (Snapshot × ℕ))
    → d.grow_ok ≡ true
    → HubFits a
    → HubLeaves (add_snapshot hub d a id o)
unfolding add_snapshot
snapshot-Leaves hub d a id none e f = unfold HubLeaves in f
snapshot-Leaves hub d a id (some (s, mtime)) e f =
    first-Leaves d.first_ok d.grow_ok a (info_of id (snapshot_path hub d.d_name s.d_name) s.files) e
      f

new-Leaves :
    (hub : Bytes) (d : HubDir) (a : Arr) (o : Option Bytes)
    → d.grow_ok ≡ true
    → HubFits a
    → HubLeaves (add_new hub d a o)
unfolding add_new
new-Leaves hub d a none e f = unfold HubLeaves in f
new-Leaves hub d a (some id) e f =
    if_elim HubLeaves (id_in_list a.infos id) (λ _. unfold HubLeaves in f)
      (λ _.
        if_elim HubLeaves d.path_ok
          (λ _. snapshot-Leaves hub d a id (reg_find_latest_snapshot d.snapshots) e f)
          (λ _. unfold HubLeaves in f))

hub_round-Leaves :
    (hub : Bytes) (a : Arr) (d : HubDir)
    → d.grow_ok ≡ true
    → HubFits a
    → HubLeaves (hub_round hub a d)
unfolding hub_round
hub_round-Leaves hub a d e f =
    if_elim HubLeaves (is_hidden d.d_name) (λ _. unfold HubLeaves in f)
      (λ _. new-Leaves hub d a (hub_id_from_dirname d.id_ok d.d_name) e f)

chain-HubLeaves :
    (o : Option Arr) (k : Arr → Option Arr)
    → HubLeaves o
    → ((a : Arr) → HubFits a → HubLeaves (k a))
    → HubLeaves (o >>= k)
unfolding HubLeaves
chain-HubLeaves none k h g = absurd h
chain-HubLeaves (some a) k h g = g a h

hub-Leaves :
    (hub : Bytes) (hs : List HubDir) (a : Arr)
    → HubGrows hs
    → HubFits a
    → HubLeaves (scan_hub_cache hub hs a)
unfolding scan_hub_cache HubGrows
hub-Leaves hub [] a g f = unfold HubLeaves in f
hub-Leaves hub (d ∷ ds) a (e, g) f =
    chain-HubLeaves (hub_round hub a d) (scan_hub_cache hub ds) (hub_round-Leaves hub a d e f)
      (λ b. hub-Leaves hub ds b g)

handed-HubFits : (a : Arr) → Fits a → HubFits (handed_on a)
unfolding handed_on HubFits
handed-HubFits a f =
    let p = f.some_place in
    let k = f.known in
    let h = f.held in
    if_elim HubFits (length a.infos == 0) (λ _. inl (refl, refl))
      (λ n. inr (record { known = ground arith; held = ground arith; some_place = ground arith }))

Found : Option (List Info) → Type 0
Found o = (infos : List Info) × (o ≡ some infos)

hub-Found : (o : Option Arr) → HubLeaves o → Found (o >>= λ b. some b.infos)
unfolding Found HubLeaves
hub-Found none h = absurd h
hub-Found (some b) h = (b.infos, refl)

both-Found :
    (o : Option Arr) (hub : Bytes) (hs : List HubDir)
    → HubGrows hs
    → Leaves o
    → Found (o >>= λ a. scan_hub_cache hub hs (handed_on a) >>= λ b. some b.infos)
unfolding Leaves
both-Found none hub hs g h = absurd h
both-Found (some a) hub hs g h =
    hub-Found (scan_hub_cache hub hs (handed_on a))
      (hub-Leaves hub hs (handed_on a) g (handed-HubFits a h))

-- If every `realloc` of the scans succeeds, then the search for models writes within its array,
-- whatever the two directories hold and whatever else has no memory.
pub discover_in_bounds :
    (models_dir : Bytes) (ds : List ModelDir) (hub : Bytes) (hs : List HubDir)
    → ModelsGrow ds
    → HubGrows hs
    → (infos : List Info) × (registry_discover models_dir ds hub hs ≡ some infos)
unfolding registry_discover Found
discover_in_bounds models_dir ds hub hs g k =
    both-Found (scan_mlxd_cache models_dir ds (record { infos = []; places = 8; cap = 8 })) hub hs k
      (mlxd-Leaves models_dir ds (record { infos = []; places = 8; cap = 8 }) g
        (record { known = omega arith; held = omega arith; some_place = omega arith }))

-- Where the array is full and has a place, a model whose `realloc` fails and then another, whatever its
-- own, write outside the array.
pub failed_growth_overruns :
    (a : Arr) (x y : Info) (grow_ok : Bool)
    → a.cap ≡ a.places
    → length a.infos ≡ a.places
    → 1 ≤ a.places
    → (add_info false a x >>= λ b. add_info grow_ok b y) ≡ none
unfolding add_info put_info
failed_growth_overruns a x y grow_ok c n pos =
    let full : leb a.cap (length a.infos) ≡ true = ground arith in
    let free : leb (a.cap * 2) (length a.infos) ≡ false = ground arith in
    let outside : ltb (length a.infos) a.places ≡ false = ground arith in
    rw full (rw (free, outside) refl)
