-- ===== src/Registry/Spec.antt =====
-- registry/registry.c: specifiers of models, and the directories that they lead to.
pub mod Safe
pub mod RoundTrip
use mlxd.Base.{
  ℕ, Bool, true, false, not, ◌&&◌, ◌||◌, Option, none, some, List, [], ◌∷◌, ◌++◌, length, leb, ◌==◌,
  if◌then◌else◌, Bytes, codes,
}

-- `reg_spec_t`: a NULL pointer is none.
pub record Spec : Type 0 where
  pub org : Option Bytes
  pub model : Option Bytes
  pub revision : Option Bytes
  pub local_path : Option Bytes

-- The environment's `HOME`, and the outcomes of the allocations.
pub record Env : Type 0 where
  pub home : Option Bytes
  pub local_ok : Bool
  pub revision_ok : Bool
  pub org_ok : Bool
  pub model_ok : Bool

unfoldable pub extend : ℕ → Option (Bytes × Bytes) → Option (Bytes × Bytes)
extend x none = none
extend x (some (before, behind)) = some (x ∷ before, behind)

-- `strchr`, with what stands before and behind the character.
unfoldable pub split_at : ℕ → Bytes → Option (Bytes × Bytes)
unfolding extend
split_at c [] = none
split_at c (x ∷ xs) = let rest = split_at c xs in if x == c then some ([], xs) else extend x rest

-- `reg_path_join`, where its allocation succeeds
pub reg_path_join : Bytes → Bytes → Bytes
reg_path_join dir name = dir ++ (47 ∷ name)

-- `reg_spec_char_ok`
unfoldable pub reg_spec_char_ok : ℕ → Bool
reg_spec_char_ok c =
    (leb 65 c && leb c 90)
    || (leb 97 c && leb c 122)
    || (leb 48 c && leb c 57)
    || (c == 46 || c == 95 || c == 45)

-- `reg_spec_charset_ok`, and `reg_spec_charset_ok_n` of the bytes it looks at
unfoldable pub reg_spec_charset_ok : Bytes → Bool
unfolding reg_spec_char_ok
reg_spec_charset_ok [] = true
reg_spec_charset_ok (c ∷ cs) = reg_spec_char_ok c && reg_spec_charset_ok cs

unfoldable pub is_empty : Bytes → Bool
is_empty [] = true
is_empty (c ∷ cs) = false

local_at : Bool → Bytes → Option Spec
local_at ok path =
    if ok
    then some (record { org = none; model = none; revision = none; local_path = some path })
    else none

-- A specifier that begins with `~`, by what is behind it.
in_home : Env → Option Bytes → Bytes → Option Spec
unfolding local_at reg_path_join is_empty
in_home env none rest = none
in_home env (some home) rest = if is_empty home then none else (elim rest [
  | [] ↦ local_at env.local_ok home
  | c ∷ path ↦ if c == 47 then local_at env.local_ok (reg_path_join home path) else none
])

-- The checks on the parts of `org/model:revision`, then their copies.
remote : Env → Bytes → Bytes → Option Bytes → Option Spec
unfolding is_empty reg_spec_charset_ok
remote env org model revision =
    if is_empty model
    then none
    else if not (reg_spec_charset_ok org) || not (reg_spec_charset_ok model)
    then none
    else if env.org_ok && env.model_ok
    then some
        (record { org = some org; model = some model; revision = revision; local_path = none })
    else none

-- What is behind the slash, split at a colon.
with_revision : Env → Bytes → Bytes → Option (Bytes × Bytes) → Option Spec
unfolding remote
with_revision env org after none = remote env org after none
with_revision env org after (some (model, revision)) =
    if is_empty revision
    then none
    else if not (reg_spec_charset_ok revision)
    then none
    else if env.revision_ok
    then remote env org model (some revision)
    else none

has_slash : Option (Bytes × Bytes) → Bool
has_slash none = false
has_slash (some p) = true

at_slash : Env → Option (Bytes × Bytes) → Option Spec
unfolding with_revision split_at has_slash is_empty
at_slash env none = none
at_slash env (some (org, after)) =
    if is_empty org
    then none
    else if has_slash (split_at 47 after)
    then none
    else with_revision env org after (split_at 58 after)

-- `reg_spec_parse`; none is -1, which leaves nothing in `out`.
unfoldable pub reg_spec_parse : Env → Bytes → Option Spec
unfolding in_home local_at at_slash split_at
reg_spec_parse env [] = none
reg_spec_parse env (c ∷ cs) =
    if c == 126
    then in_home env env.home cs
    else if c == 46 || c == 47
    then local_at env.local_ok (c ∷ cs)
    else at_slash env (split_at 47 (c ∷ cs))

-- The name of a model's directory in the cache.
unfoldable pub cache_name : Bytes → Bytes → Bytes
cache_name org model = org ++ (codes "--" ++ model)

-- `reg_cache_root`, from `MLXD_CACHE_DIR` and `HOME`
reg_cache_root : Option Bytes → Option Bytes → Option Bytes
unfolding is_empty
reg_cache_root none none = none
reg_cache_root none (some home) = some (home ++ codes "/.cache/mlxd")
reg_cache_root (some dir) home =
    if is_empty dir
    then elim home [ none ↦ none | some h ↦ some (h ++ codes "/.cache/mlxd") ]
    else some dir

-- `reg_model_cache_dir`, where its allocations succeed
pub reg_model_cache_dir : Option Bytes → Option Bytes → Bytes → Bytes → Option Bytes
unfolding reg_cache_root cache_name
reg_model_cache_dir dir home org model = elim (reg_cache_root dir home) [
  | none ↦ none
  | some root ↦ some (root ++ (codes "/models/" ++ cache_name org model))
]
