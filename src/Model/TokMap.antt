-- ===== src/Model/TokMap.antt =====
-- model/tok_map.c: the two open-addressing hash maps of the tokenizer. They are the same code, once for
-- texts and once for pairs of texts, and one definition here, over the type of keys.
pub mod Pow2
pub mod Probing
pub mod Content
pub mod Updates
pub mod Growth
pub mod Histories
use Prim.Native.Nat.{bit_and, bit_or, bit_xor}
use mlxd.Base.{
  ℕ, zero, suc, ◌+◌, ◌-◌, ◌*◌, ◌/◌, ◌%◌, ◌^◌, Bool, true, false, ◌&&◌, Option, none, some, ◌>>=◌,
  List, [], ◌∷◌, length, get_elem?, set, replicate, ltb, leb, ◌==◌, if◌then◌else◌, Bytes, bytes_eq,
}

-- `fnv1a_update`, on 64 bits
fnv1a_update : ℕ → Bytes → ℕ
fnv1a_update h [] = h
fnv1a_update h (c ∷ cs) = fnv1a_update ((bit_xor h c * 0x100000001b3) % 2 ^ 64) cs

-- `fnv1a`
fnv1a : Bytes → ℕ
unfolding fnv1a_update
fnv1a cs = fnv1a_update 0xcbf29ce484222325 cs

-- `merge_hash`
merge_hash : Bytes × Bytes → ℕ
unfolding fnv1a_update
merge_hash (l, r) =
    fnv1a_update ((bit_xor (fnv1a_update 0xcbf29ce484222325 l) 0xFF * 0x100000001b3) % 2 ^ 64) r

-- `merge_eq`
merge_eq : Bytes × Bytes → Bytes × Bytes → Bool
unfolding bytes_eq
merge_eq (l, r) (l', r') = bytes_eq l l' && bytes_eq r r'

smeared : ℕ → ℕ → ℕ
smeared s v = bit_or v (v / 2 ^ s)

-- `v |= v >> 1` up to `v |= v >> 16`
smear : ℕ → ℕ
unfolding smeared
smear v = smeared 16 (smeared 8 (smeared 4 (smeared 2 (smeared 1 v))))

-- `next_pow2`, on 32 bits
pub next_pow2 : ℕ → ℕ
unfolding smear
next_pow2 v = if v == 0 then 1 else (smear (v - 1) + 1) % 2 ^ 32

-- What a map does with its keys.
pub record Key {ℓ} (K : Type ℓ) : Type ℓ where
  pub hash : K → ℕ
  pub eq : K → K → Bool

-- The keys of a `str_u32_map` and of a `merge_map`.
pub str_key : Key Bytes
unfolding fnv1a bytes_eq
str_key = record { hash = fnv1a; eq = bytes_eq }

pub merge_key : Key (Bytes × Bytes)
unfolding merge_hash merge_eq
merge_key = record { hash = merge_hash; eq = merge_eq }

-- `str_u32_entry`, `merge_entry`: a slot whose pointer is NULL is none.
pub record Entry (K : Type 0) : Type 0 where
  pub key : K
  pub hash : ℕ
  pub val : ℕ

abbrev pub Slots : Type 0 → Type 0
Slots K = List (Option (Entry K))

-- `str_u32_map`, `merge_map`
pub record Table (K : Type 0) : Type 0 where
  pub entries : Slots K
  pub cap : ℕ
  pub count : ℕ

-- Where a probe ends: at an entry that passes its test, at an empty slot, or not at all.
pub data Probe (K : Type 0) : Type 0 where
  hit : ℕ → Entry K → Probe K
  vacant : ℕ → Probe K
  spent : Probe K

module _ {K : Type 0} where
  probe_at : (Entry K → Bool) → Probe K → ℕ → Option (Option (Entry K)) → Probe K
  probe_at test rest i none = spent
  probe_at test rest i (some none) = vacant i
  probe_at test rest i (some (some e)) = if test e then hit i e else rest

  -- The loop from slot `i` on, for at most as many rounds as there are slots.
  pub probe : (Entry K → Bool) → ℕ → Slots K → ℕ → ℕ → Probe K
  unfolding probe_at
  probe test zero es mask i = spent
  probe test (suc n) es mask i =
      probe_at test (probe test n es mask (bit_and (i + 1) mask)) i (get_elem? es i)

  -- An entry of the old table at the end of its probe; none where the probe has no end.
  pub placed : Slots K → Entry K → Probe K → Option (Slots K)
  placed new e (hit i e') = none
  placed new e (vacant i) = some (set new i (some e))
  placed new e spent = none

  pub place : ℕ → Slots K → Entry K → Option (Slots K)
  unfolding probe placed
  place new_cap new e =
      placed new e (probe (λ _. false) new_cap new (new_cap - 1) (bit_and e.hash (new_cap - 1)))

  -- The loop of `grow` over the old table.
  pub rehash : ℕ → Slots K → Slots K → Option (Slots K)
  unfolding place
  rehash new_cap [] new = some new
  rehash new_cap (none ∷ old) new = rehash new_cap old new
  rehash new_cap (some e ∷ old) new = do new' ← place new_cap new e; rehash new_cap old new'

  -- `str_u32_map_grow`, `merge_map_grow`, with the outcome of `calloc`. None does not return.
  pub grow : Bool → Table K → Option (Bool × Table K)
  unfolding rehash
  grow alloc t =
      if ltb ((2 ^ 32 - 1) / 2) t.cap
      then some (false, t)
      else if alloc
      then (do
        es ← rehash (t.cap * 2) t.entries (replicate (t.cap * 2) none)
        some (true, record t { entries = es; cap = t.cap * 2 }))
      else some (false, t)

  -- `str_u32_map_init`, `merge_map_init`
  pub map_init : Bool → ℕ → Option (Table K)
  unfolding next_pow2
  map_init alloc initial_cap =
      let hint : ℕ = if ltb (2 ^ 30) initial_cap then 2 ^ 30 else initial_cap in
      let cap : ℕ = next_pow2 (if ltb hint 4 then 4 else hint) in
      if alloc then some (record { entries = replicate cap none; cap = cap; count = 0 }) else none

  -- What `get` gives: a value or false; none does not return.
  pub get_at : Probe K → Option (Option ℕ)
  get_at (hit i e) = some (some e.val)
  get_at (vacant i) = some none
  get_at spent = none

module _ {K : Type 0} (key : Key K) where
  pub is_entry_of : K → Entry K → Bool
  is_entry_of k e = e.hash == key.hash k && key.eq e.key k

  pub found : Table K → K → Probe K
  unfolding probe is_entry_of
  found t k = probe (is_entry_of k) t.cap t.entries (t.cap - 1) (bit_and (key.hash k) (t.cap - 1))

  -- An insert into the last empty slot is refused.
  pub put_at : Table K → K → ℕ → Probe K → Option (Bool × Table K)
  put_at t k v (hit i e) =
      some (true, record t { entries = set t.entries i (some (record e { val = v })) })
  put_at t k v (vacant i) =
      if leb t.cap (t.count + 1)
      then some (false, t)
      else some (
        true,
        record t {
          entries = set t.entries i (some (record { key = k; hash = key.hash k; val = v }));
          count = t.count + 1;
        },
      )
  put_at t k v spent = none

  -- `str_u32_map_put`, `merge_map_put`
  pub map_put : Bool → Table K → K → ℕ → Option (Bool × Table K)
  unfolding grow put_at found
  map_put alloc t k v = do
    r ←
        (if leb ((t.cap * 3) % 2 ^ 32) ((t.count * 4) % 2 ^ 32)
          then grow alloc t
          else some (false, t))
    put_at r.1 k v (found r.1 k)

  -- `str_u32_map_get`, `merge_map_get`
  pub map_get : Table K → K → Option (Option ℕ)
  unfolding get_at found
  map_get t k = get_at (found t k)

-- The two maps.
pub str_u32_map_put : Bool → Table Bytes → Bytes → ℕ → Option (Bool × Table Bytes)
unfolding map_put
str_u32_map_put alloc m k v = map_put str_key alloc m k v

pub str_u32_map_get : Table Bytes → Bytes → Option (Option ℕ)
unfolding map_get
str_u32_map_get m k = map_get str_key m k

pub merge_map_put :
    Bool → Table (Bytes × Bytes) → Bytes → Bytes → ℕ → Option (Bool × Table (Bytes × Bytes))
unfolding map_put
merge_map_put alloc m l r rank = map_put merge_key alloc m (l, r) rank

pub merge_map_get : Table (Bytes × Bytes) → Bytes → Bytes → Option (Option ℕ)
unfolding map_get
merge_map_get m l r = map_get merge_key m (l, r)
