-- ===== src/Registry/Names.antt =====
-- registry/registry.c, registry/hub_client.c and registry/discover.c: the names of the files that are
-- downloaded, and the names of models that are read from directories.
pub mod Ids
pub mod Inside
use mlxd.Base.{
  ℕ, zero, suc, ◌+◌, ◌-◌, Bool, true, false, not, ◌&&◌, ◌||◌, Option, none, some, List, [], ◌∷◌,
  ◌++◌, length, drop, leb, ◌==◌, if◌then◌else◌, Bytes, bytes_eq, codes, ℤ, negsuc,
}
use mlxd.Registry.Spec.{extend, split_at, is_empty}

-- `strncmp(s, prefix, strlen(prefix)) == 0`
pub begins : Bytes → Bytes → Bool
begins [] s = true
begins (p ∷ ps) [] = false
begins (p ∷ ps) (x ∷ xs) = x == p && begins ps xs

-- `strstr` for a text that is not empty, with what stands before and behind it.
unfoldable pub split_on : Bytes → Bytes → Option (Bytes × Bytes)
unfolding begins extend
split_on p [] = none
split_on p (x ∷ xs) =
    let rest = split_on p xs in
    if begins p (x ∷ xs) then some ([], drop (length p) (x ∷ xs)) else extend x rest

-- `has_suffix`
has_suffix : Bytes → Bytes → Bool
unfolding bytes_eq
has_suffix s suffix =
    leb (length suffix) (length s) && bytes_eq (drop (length s - length suffix) s) suffix

-- `EXACT_FILES`
exact_files : List Bytes
exact_files =
    codes "config.json"
    ∷ codes "tokenizer.json"
    ∷ codes "tokenizer_config.json"
    ∷ codes "generation_config.json"
    ∷ codes "special_tokens_map.json"
    ∷ codes "chat_template.jinja"
    ∷ codes "chat_template.json"
    ∷ codes "tokenizer.model"
    ∷ codes "vocab.json"
    ∷ codes "merges.txt"
    ∷ []

is_one_of : List Bytes → Bytes → Bool
unfolding bytes_eq
is_one_of [] s = false
is_one_of (f ∷ fs) s = bytes_eq s f || is_one_of fs s

-- `reg_file_wanted`
pub reg_file_wanted : Bytes → Bool
unfolding is_one_of exact_files has_suffix
reg_file_wanted s =
    is_one_of exact_files s
    || has_suffix s (codes ".safetensors")
    || has_suffix s (codes ".safetensors.index.json")

is_found : Option (Bytes × Bytes) → Bool
is_found none = false
is_found (some p) = true

-- `reg_rfilename_safe`
pub reg_rfilename_safe : Bytes → Bool
unfolding split_on split_at is_found
reg_rfilename_safe [] = false
reg_rfilename_safe (c ∷ cs) =
    if c == 47
    then false
    else if is_found (split_on (codes "..") (c ∷ cs))
    then false
    else not (is_found (split_at 92 (c ∷ cs)))

-- An element of `siblings`: its `rfilename`, and its `size` if that is an integer.
pub record Item : Type 0 where
  pub rfilename : Option Bytes
  pub size : Option ℤ

size_of : Option ℤ → ℤ
size_of none = negsuc 0
size_of (some n) = n

-- An element with its name, where the loop over the rest gives `files`.
keep_item : Bool → Bytes → Option ℤ → Option (List (Bytes × ℤ)) → Option (List (Bytes × ℤ))
unfolding size_of
keep_item dup_ok name size none = none
keep_item dup_ok name size (some files) =
    if dup_ok then some ((name, size_of size) ∷ files) else none

-- An element that is kept, or that the loop goes on without.
keep_or_skip :
    Bool
    → Option ℤ
    → Option (List (Bytes × ℤ))
    → Option (List (Bytes × ℤ))
    → Option Bytes
    → Option (List (Bytes × ℤ))
unfolding keep_item
keep_or_skip dup_ok size skipped kept none = skipped
keep_or_skip dup_ok size skipped kept (some name) = keep_item dup_ok name size kept

-- The name of an element, unless the loop goes on without it.
wanted_name : Option Bytes → Option Bytes
unfolding reg_rfilename_safe reg_file_wanted
wanted_name none = none
wanted_name (some name) =
    if reg_rfilename_safe name && reg_file_wanted name then some name else none

-- The loop of `reg_parse_file_plan`, from the `count`-th file on, with the outcomes of `reg_dup_str`;
-- none is -1.
pub plan_from : (ℕ → Bool) → ℕ → List Item → Option (List (Bytes × ℤ))
unfolding wanted_name keep_or_skip
plan_from dups count [] = some []
plan_from dups count (item ∷ items) =
    keep_or_skip (dups count) item.size (plan_from dups count items)
      (plan_from dups (suc count) items) (wanted_name item.rfilename)

-- `reg_parse_file_plan`, for a document with a list `siblings`
unfoldable pub reg_parse_file_plan : (ℕ → Bool) → List Item → Option (List (Bytes × ℤ))
unfolding plan_from
reg_parse_file_plan dups siblings = plan_from dups 0 siblings

-- `id_from_dirname`, with the outcome of `malloc`
id_at : Bool → Option (Bytes × Bytes) → Option Bytes
unfolding is_empty
id_at alloc none = none
id_at alloc (some (org, model)) =
    if is_empty org
    then none
    else if is_empty model
    then none
    else if alloc
    then some (org ++ (47 ∷ model))
    else none

pub id_from_dirname : Bool → Bytes → Option Bytes
unfolding id_at split_on
id_from_dirname alloc dirname = id_at alloc (split_on (codes "--") dirname)

-- `hub_id_from_dirname`
pub hub_id_from_dirname : Bool → Bytes → Option Bytes
unfolding id_at split_on begins
hub_id_from_dirname alloc dirname =
    if begins (codes "models--") dirname
    then id_at alloc (split_on (codes "--") (drop 8 dirname))
    else none
