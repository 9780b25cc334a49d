-- ===== src/Model/TokMap/Histories.antt =====
-- A hash map through a history of puts.
use mlxd.Base.{
  ℕ, ◌*◌, ◌%◌, ◌^◌, ◌≤◌, ◌≡◌, refl, sym, ap, ◌∙◌, Bool, true, false, ◌&&◌, Option, none, some,
  ◌>>=◌, List, [], ◌∷◌, get_elem?, replicate, ltb, leb, if_elim, if◌then◌else◌, arith, Bytes,
  bytes_eq_refl, eq_of_bytes_eq, bytes_eq,
}
use mathlib.Core.Path.{subst}
use mlxd.Base.Bits.{pow_pos}
use mlxd.Model.TokMap.{
  Table, Key, str_key, merge_key, merge_eq, found, next_pow2, map_init, put_at, map_put, get_at,
  map_get, str_u32_map_put, str_u32_map_get, merge_map_put, merge_map_get,
}
use mlxd.Model.TokMap.Pow2.{next_pow2_lem}
use mlxd.Model.TokMap.Content.{IsExact, IsLaid, IsMap, there, nowhere, sought}
use mlxd.Model.TokMap.Updates.{Puts, put_at-Puts}
use mlxd.Model.TokMap.Growth.{Grows, grow-Grows, empty-IsLaid, empty_slots, occupied-empty}

pub str_key-IsExact : IsExact str_key
unfolding str_key
str_key-IsExact = record { same = bytes_eq_refl; sound = eq_of_bytes_eq }

pub merge_key-IsExact : IsExact merge_key
unfolding merge_key merge_eq
merge_key-IsExact = record {
  same = λ (l, r). rw (bytes_eq_refl l, bytes_eq_refl r) refl;
  sound = λ (l, r) (l', r') h.
      let p : l ≡ l' = eq_of_bytes_eq l l' (ground (arith, h)) in
      let q : r ≡ r' = eq_of_bytes_eq r r' (ground (arith, h)) in λ i. (p i, q i);
}

-- A capacity at the start is a power of two.
init_cap :
    (hint : ℕ) → hint ≤ 2 ^ 30 → (k : ℕ) × (next_pow2 (if ltb hint 4 then 4 else hint) ≡ 2 ^ k)
init_cap hint le =
    let n : ℕ = if ltb hint 4 then 4 else hint in
    let (k, e, _, _) = next_pow2_lem n (ground arith) (ground arith) in (k, e)

module _ {K : Type 0} (key : Key K) where
  chosen :
      (b : Bool) (v : ℕ) (o : Option (Option ℕ)) (p : Option ℕ)
      → o ≡ some p
      → (if b then some (some v) else o) ≡ some (if b then some v else p)
  chosen true v o p h = refl
  chosen false v o p h = h

  same-Puts :
      (t t' : Table K) (x : K) (v : ℕ) (o : Option (Bool × Table K))
      → ((y : K) → map_get key t' y ≡ map_get key t y)
      → Puts key t' x v o
      → Puts key t x v o
  unfolding Puts
  same-Puts t t' x v none same p = absurd p
  same-Puts t t' x v (some (b, r)) same (m, gets, refused) = (
    m,
    λ y. gets y ∙ ap (λ o. if b && key.eq x y then some (some v) else o) (same y),
    λ h. sym (same x) ∙ refused h,
  )

  after-Puts :
      (t : Table K) (x : K) (v : ℕ) (o : Option (Bool × Table K))
      → IsExact key
      → Grows key t o
      → Puts key t x v (o >>= λ r. put_at key r.1 x v (found key r.1 x))
  unfolding Grows
  after-Puts t x v none law g = absurd g
  after-Puts t x v (some (b, t')) law (m, same) =
      same-Puts t t' x v _ same (put_at-Puts key t' x v law m)

  put-Puts :
      (alloc : Bool) (t : Table K) (x : K) (v : ℕ)
      → IsExact key
      → IsMap key t
      → Puts key t x v (map_put key alloc t x v)
  unfolding map_put
  put-Puts alloc t x v law m = after-Puts t x v _ law (
      if_elim (Grows key t) (leb ((t.cap * 3) % 2 ^ 32) ((t.count * 4) % 2 ^ 32))
        (λ _. grow-Grows key alloc t law m) (λ _. unfold Grows in (m, λ y. refl)))

  taken :
      (t : Table K) (x : K) (v : ℕ) (o : Option (Bool × Table K))
      → Puts key t x v o
      → (b : Bool) × (t' : Table K) × (o ≡ some (b, t'))
        × IsMap key t'
        × ((y : K)
            → map_get key t' y ≡ (if b && key.eq x y then some (some v) else map_get key t y))
        × (b ≡ false → map_get key t x ≡ some none)
  unfolding Puts
  taken t x v none p = absurd p
  taken t x v (some (b, t')) (m, gets, refused) = (b, t', refl, m, gets, refused)

  -- For a map whose equality of keys is exact, whether or not its table grows and its allocation
  -- succeeds: a put comes to an end and leaves a map; if it returns true, then its key has the value
  -- and every other key the value it had; if it returns false, no key has changed and its key was not
  -- in the map.
  pub put_updates :
      (alloc : Bool) (t : Table K) (x : K) (v : ℕ)
      → IsExact key
      → IsMap key t
      → (b : Bool) × (t' : Table K) × (map_put key alloc t x v ≡ some (b, t'))
        × IsMap key t'
        × ((y : K)
            → map_get key t' y ≡ (if b && key.eq x y then some (some v) else map_get key t y))
        × (b ≡ false → map_get key t x ≡ some none)
  put_updates alloc t x v law m = taken t x v (map_put key alloc t x v) (put-Puts alloc t x v law m)

  -- The puts in turn, with what they return.
  pub put_all : Table K → List (Bool × K × ℕ) → Option (List Bool × Table K)
  put_all t [] = some ([], t)
  put_all t ((alloc, x, v) ∷ puts) = do
    (b, t') ← map_put key alloc t x v
    (bs, t'') ← put_all t' puts
    some (b ∷ bs, t'')

  -- An association of values that the puts which return true update.
  pub updated : (K → Option ℕ) → List (Bool × K × ℕ) → List Bool → K → Option ℕ
  updated f [] bs = f
  updated f (p ∷ puts) [] = f
  updated f ((alloc, x, v) ∷ puts) (b ∷ bs) =
      updated (λ y. if b && key.eq x y then some v else f y) puts bs

  all-updated :
      (t : Table K) (puts : List (Bool × K × ℕ)) (f : K → Option ℕ)
      → IsExact key
      → IsMap key t
      → ((y : K) → map_get key t y ≡ some (f y))
      → (bs : List Bool) × (t' : Table K) × (put_all t puts ≡ some (bs, t'))
        × IsMap key t'
        × ((y : K) → map_get key t' y ≡ some (updated f puts bs y))
  unfolding put_all updated
  all-updated t [] f law m h = ([], t, refl, m, h)
  all-updated t ((alloc, x, v) ∷ puts) f law m h =
      let (b, t', p, m', gets, refused) = put_updates alloc t x v law m in
      let (bs, t'', q, m'', values) =
        all-updated t' puts _ law m'
          (λ y. gets y ∙ chosen (b && key.eq x y) v (map_get key t y) (f y) (h y)) in
      (b ∷ bs, t'', rw (p, q) refl, m'', values)

  empty_gets :
      (t : Table K) (n : ℕ)
      → t.entries ≡ replicate n none
      → IsExact key
      → IsMap key t
      → (y : K) → map_get key t y ≡ some none
  unfolding map_get
  empty_gets t n e law m y = elim (sought key t y law m) [
    | there i x f at same ↦ absurd (empty_slots n i x (ap (λ es. get_elem? es i) (sym e) ∙ at))
    | nowhere i f at misses ↦ ap get_at f
  ]

  new_gets :
      (n : ℕ)
      → IsExact key
      → (t : Table K) × (map_init true n ≡ some t)
        × IsMap key t
        × ((y : K) → map_get key t y ≡ some none)
  unfolding map_init
  new_gets n law =
      let hint : ℕ = if ltb (2 ^ 30) n then 2 ^ 30 else n in
      let cap : ℕ = next_pow2 (if ltb hint 4 then 4 else hint) in
      let t : Table K = record { entries = replicate cap none; cap = cap; count = 0 } in
      let (k, e) = init_cap hint (ground arith) in
      let m : IsMap key t = record {
        bits = k;
        cap_bits = e;
        laid = subst (λ c. IsLaid key k (replicate c none)) (sym e) (empty-IsLaid key k);
        counted = occupied-empty K cap;
        room = omega (arith, e, pow_pos k);
      } in
      (t, refl, m, empty_gets t cap refl law m)

  -- For a map whose equality of keys is exact: made with any capacity where its allocation succeeds, and
  -- then given any puts, whatever becomes of their allocations, it comes to an end with each, stays
  -- a map, and then every search ends and gives the last value that was put with success.
  pub history_gets :
      (n : ℕ) (puts : List (Bool × K × ℕ))
      → IsExact key
      → (t : Table K) × (bs : List Bool) × (t' : Table K) × (map_init true n ≡ some t)
        × (put_all t puts ≡ some (bs, t'))
        × IsMap key t'
        × ((y : K) → map_get key t' y ≡ some (updated (λ _. none) puts bs y))
  history_gets n puts law =
      let (t, p, m, h) = new_gets n law in
      let (bs, t', q, m', gets) = all-updated t puts (λ _. none) law m h in
      (t, bs, t', p, q, m', gets)

-- What a put of either map does to what the map gets. It ends in a map in which only its key has
-- changed, and if it returns true then the key has its value.
pub str_u32_map_put_lem :
    (alloc : Bool) (m : Table Bytes) (k : Bytes) (v : ℕ)
    → IsMap str_key m
    → (m' : Table Bytes) × (b : Bool) × (str_u32_map_put alloc m k v ≡ some (b, m'))
      × ((y : Bytes)
          → str_u32_map_get m' y
            ≡ (if b && bytes_eq k y then some (some v) else str_u32_map_get m y))
unfolding str_u32_map_put str_u32_map_get
str_u32_map_put_lem alloc m k v h =
    let (b, m', p, _, gets, _) = put_updates str_key alloc m k v str_key-IsExact h in
    (m', b, p, unfold str_key in gets)

pub merge_map_put_lem :
    (alloc : Bool) (m : Table (Bytes × Bytes)) (l r : Bytes) (rank : ℕ)
    → IsMap merge_key m
    → (m' : Table (Bytes × Bytes)) × (b : Bool) × (merge_map_put alloc m l r rank ≡ some (b, m'))
      × ((x y : Bytes)
          → merge_map_get m' x y ≡ (
              if b && (bytes_eq l x && bytes_eq r y)
              then some (some rank)
              else merge_map_get m x y))
unfolding merge_map_put merge_map_get
merge_map_put_lem alloc m l r rank h =
    let (b, m', p, _, gets, _) = put_updates merge_key alloc m (l, r) rank merge_key-IsExact h in
    (m', b, p, λ x y. unfold merge_key merge_eq in gets (x, y))
