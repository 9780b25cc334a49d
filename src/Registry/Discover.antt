-- ===== src/Registry/Discover.antt =====
-- registry/discover.c: the models that are found in the two caches. A directory is the list of its
-- entries, each with what the file system says of it and whether the allocations for it succeed.
pub mod Bounds
pub mod Latest
use mlxd.Base.{
  ℕ, zero, suc, ◌+◌, ◌*◌, ◌%◌, ◌^◌, Bool, true, false, not, ◌&&◌, ◌||◌, Option, none, some, ◌>>=◌,
  List, [], ◌∷◌, ◌++◌, length, ltb, leb, ◌==◌, if◌then◌else◌, Bytes, bytes_eq, codes,
}
use mlxd.Registry.Spec.{reg_path_join, is_empty}
use mlxd.Registry.Names.{id_from_dirname, hub_id_from_dirname}

-- `registry_model_info_t`
pub record Info : Type 0 where
  pub id : Bytes
  pub path : Bytes
  pub size_bytes : ℕ
  pub mtime : ℕ

-- An entry in the directory of a model: whether it is a regular file that can be examined.
pub record File : Type 0 where
  pub d_name : Bytes
  pub path_ok : Bool
  pub is_regular : Bool
  pub st_size : ℕ
  pub st_mtime : ℕ

is_hidden : Bytes → Bool
is_hidden [] = false
is_hidden (c ∷ cs) = c == 46

-- `scan_dir_stats`, with the sums so far
scan_dir_stats : List File → ℕ → ℕ → ℕ × ℕ
unfolding is_hidden
scan_dir_stats [] size mtime = (size, mtime)
scan_dir_stats (f ∷ fs) size mtime =
    if not (is_hidden f.d_name) && f.path_ok && f.is_regular
    then scan_dir_stats fs ((size + f.st_size) % 2 ^ 64)
        (if ltb mtime f.st_mtime then f.st_mtime else mtime)
    else scan_dir_stats fs size mtime

-- An entry of `snapshots`: `stat` is none where it fails.
pub record Snapshot : Type 0 where
  pub d_name : Bytes
  pub path_ok : Bool
  pub has_config : Bool
  pub stat : Option ℕ
  pub files : List File

-- A snapshot against the best so far.
pub better : Snapshot → Option ℕ → Option (Snapshot × ℕ) → Option (Snapshot × ℕ)
better s none best = best
better s (some mtime) none = some (s, mtime)
better s (some mtime) (some (b, best)) = if ltb best mtime then some (s, mtime) else some (b, best)

pub usable : Snapshot → Bool
unfolding is_hidden
usable s = not (is_hidden s.d_name) && s.path_ok && s.has_config

-- The loop of `reg_find_latest_snapshot`
pub find_latest : List Snapshot → Option (Snapshot × ℕ) → Option (Snapshot × ℕ)
unfolding usable better
find_latest [] best = best
find_latest (s ∷ ss) best =
    if usable s then find_latest ss (better s s.stat best) else find_latest ss best

-- `reg_find_latest_snapshot`, in a directory of snapshots that can be read
pub reg_find_latest_snapshot : List Snapshot → Option (Snapshot × ℕ)
unfolding find_latest
reg_find_latest_snapshot ss = find_latest ss none

-- The array: what it holds, the places that it has, and `cap`.
pub record Arr : Type 0 where
  pub infos : List Info
  pub places : ℕ
  pub cap : ℕ

-- A write at `*count`; none where the array has no such place.
pub put_info : Arr → Info → Option Arr
put_info a x =
    if ltb (length a.infos) a.places then some (record a { infos = a.infos ++ x ∷ [] }) else none

-- The end of a round: the array grows if it is full, and a round without memory is given up.
pub add_info : Bool → Arr → Info → Option Arr
unfolding put_info
add_info grow_ok a x =
    if leb a.cap (length a.infos)
    then if grow_ok
      then put_info (record a { places = a.cap * 2; cap = a.cap * 2 }) x
      else some (record a { cap = a.cap * 2 })
    else put_info a x

-- An entry of the cache's `models`.
pub record ModelDir : Type 0 where
  pub d_name : Bytes
  pub path_ok : Bool
  pub has_config : Bool
  pub id_ok : Bool
  pub grow_ok : Bool
  pub files : List File

info_of : Bytes → Bytes → List File → Info
unfolding scan_dir_stats
info_of id path files =
    let (size, mtime) = scan_dir_stats files 0 0 in
    record { id = id; path = path; size_bytes = size; mtime = mtime }

add_named : Bool → Arr → Bytes → List File → Option Bytes → Option Arr
unfolding add_info info_of
add_named grow_ok a path files none = some a
add_named grow_ok a path files (some id) = add_info grow_ok a (info_of id path files)

-- A round of `scan_mlxd_cache`
mlxd_round : Bytes → Arr → ModelDir → Option Arr
unfolding is_hidden add_named
mlxd_round models_dir a d =
    if not (is_hidden d.d_name) && d.path_ok && d.has_config
    then add_named d.grow_ok a (reg_path_join models_dir d.d_name) d.files
        (id_from_dirname d.id_ok d.d_name)
    else some a

-- `scan_mlxd_cache`, in a directory that can be read and with the first array
pub scan_mlxd_cache : Bytes → List ModelDir → Arr → Option Arr
unfolding mlxd_round
scan_mlxd_cache models_dir [] a = some a
scan_mlxd_cache models_dir (d ∷ ds) a = mlxd_round models_dir a d >>= scan_mlxd_cache models_dir ds

-- `id_in_list`
pub id_in_list : List Info → Bytes → Bool
unfolding bytes_eq
id_in_list [] id = false
id_in_list (x ∷ xs) id = bytes_eq x.id id || id_in_list xs id

-- An entry of the Hub's cache: the outcomes of its path and of the first array, and its snapshots.
pub record HubDir : Type 0 where
  pub d_name : Bytes
  pub id_ok : Bool
  pub path_ok : Bool
  pub first_ok : Bool
  pub grow_ok : Bool
  pub snapshots : List Snapshot

-- An array of no places is NULL, for which the first one is made.
add_first : Bool → Bool → Arr → Info → Option Arr
unfolding add_info
add_first first_ok grow_ok a x =
    if a.places == 0
    then if first_ok
      then add_info grow_ok (record a { places = 8; cap = 8 }) x
      else some (record a { cap = 8 })
    else add_info grow_ok a x

-- The path of a snapshot in the directory `hub`.
snapshot_path : Bytes → Bytes → Bytes → Bytes
snapshot_path hub dir name =
    reg_path_join (reg_path_join (reg_path_join hub dir) (codes "snapshots")) name

add_snapshot : Bytes → HubDir → Arr → Bytes → Option (Snapshot × ℕ) → Option Arr
unfolding add_first info_of snapshot_path
add_snapshot hub d a id none = some a
add_snapshot hub d a id (some (s, mtime)) =
    add_first d.first_ok d.grow_ok a (info_of id (snapshot_path hub d.d_name s.d_name) s.files)

add_new : Bytes → HubDir → Arr → Option Bytes → Option Arr
unfolding id_in_list add_snapshot reg_find_latest_snapshot
add_new hub d a none = some a
add_new hub d a (some id) =
    if id_in_list a.infos id
    then some a
    else if d.path_ok
    then add_snapshot hub d a id (reg_find_latest_snapshot d.snapshots)
    else some a

hub_round : Bytes → Arr → HubDir → Option Arr
unfolding add_new is_hidden
hub_round hub a d =
    if is_hidden d.d_name then some a else add_new hub d a (hub_id_from_dirname d.id_ok d.d_name)

-- `scan_hub_cache`, in a directory that can be read
pub scan_hub_cache : Bytes → List HubDir → Arr → Option Arr
unfolding hub_round
scan_hub_cache hub [] a = some a
scan_hub_cache hub (d ∷ ds) a = hub_round hub a d >>= scan_hub_cache hub ds

-- What `registry_discover` makes of the first scan: nothing found is NULL, and `cap` is guessed.
handed_on : Arr → Arr
handed_on a =
    let n : ℕ = length a.infos in
    if n == 0
    then record { infos = []; places = 0; cap = 0 }
    else record a { cap = if ltb n 8 then 8 else n }

-- `registry_discover`, with the two directories, of which the first has its array. None is a write
-- outside the array.
pub registry_discover : Bytes → List ModelDir → Bytes → List HubDir → Option (List Info)
unfolding scan_mlxd_cache scan_hub_cache handed_on
registry_discover models_dir ds hub hs = do
  a ← scan_mlxd_cache models_dir ds (record { infos = []; places = 8; cap = 8 })
  b ← scan_hub_cache hub hs (handed_on a)
  some b.infos
