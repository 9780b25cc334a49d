-- ===== src/Model/TokMap/Content.antt =====
-- The invariant of a hash map, and what it holds.
use Prim.Native.Nat.{bit_and}
use native.Mathlib.Nat.{mod-lt}
use mathlib.Core.Path.{subst}
use mlxd.Base.{
  ℕ, zero, suc, ◌-◌, ◌^◌, ◌<◌, ◌≡◌, ◌≢◌, refl, sym, ap, ◌∙◌, true, none, some, [], ◌∷◌, length,
  get_elem?, set, arith,
}
use mlxd.Base.Bits.{bit_and-mask, pow_pos}
use mlxd.Model.TokMap.{
  Entry, Slots, Table, Key, Probe, hit, vacant, spent, probe, found, is_entry_of, get_at, map_get,
}
use mlxd.Model.TokMap.Probing.{Ends, probe-Ends, probe_ends}

-- The equality of keys that a map computes is equality.
pub record IsExact {ℓ} {K : Type ℓ} (key : Key K) : Type ℓ where
  pub same : (a : K) → key.eq a a ≡ true
  pub sound : (a b : K) → key.eq a b ≡ true → a ≡ b

module _ {K : Type 0} where
  unfoldable pub occupied : Slots K → ℕ
  occupied [] = 0
  occupied (none ∷ es) = occupied es
  occupied (some e ∷ es) = suc (occupied es)

  pub occupied-fill :
      (es : Slots K) (i : ℕ) (e : Entry K)
      → get_elem? es i ≡ some none
      → occupied (set es i (some e)) ≡ suc (occupied es)
  unfolding occupied
  occupied-fill [] i e h = cc
  occupied-fill (none ∷ es) zero e h = refl
  occupied-fill (some x ∷ es) zero e h = cc
  occupied-fill (none ∷ es) (suc i) e h = occupied-fill es i e h
  occupied-fill (some x ∷ es) (suc i) e h = ap suc (occupied-fill es i e h)

  pub occupied-replace :
      (es : Slots K) (i : ℕ) (x e : Entry K)
      → get_elem? es i ≡ some (some x)
      → occupied (set es i (some e)) ≡ occupied es
  unfolding occupied
  occupied-replace [] i x e h = cc
  occupied-replace (none ∷ es) zero x e h = cc
  occupied-replace (some y ∷ es) zero x e h = refl
  occupied-replace (none ∷ es) (suc i) x e h = occupied-replace es i x e h
  occupied-replace (some y ∷ es) (suc i) x e h = ap suc (occupied-replace es i x e h)

  pub free_slot : (es : Slots K) → occupied es < length es → (i : ℕ) × (get_elem? es i ≡ some none)
  unfolding occupied
  free_slot [] h = absurd (omega arith)
  free_slot (none ∷ es) h = (0, refl)
  free_slot (some e ∷ es) h = let (i, p) = free_slot es (omega arith) in (suc i, p)

module _ {K : Type 0} (key : Key K) where
  -- Where a key is found in a table of `2 ^ k` slots.
  unfoldable pub seek : ℕ → Slots K → K → Probe K
  seek k es x = probe (is_entry_of key x) (2 ^ k) es (2 ^ k - 1) (bit_and (key.hash x) (2 ^ k - 1))

  -- Every entry has its key's hash, and is found by its key.
  pub record IsLaid (k : ℕ) (es : Slots K) : Type 0 where
    pub size : length es ≡ 2 ^ k
    pub hashed : (i : ℕ) (e : Entry K) → get_elem? es i ≡ some (some e) → e.hash ≡ key.hash e.key
    pub reached : (i : ℕ) (e : Entry K) → get_elem? es i ≡ some (some e) → seek k es e.key ≡ hit i e

  pub record IsMap (t : Table K) : Type 0 where
    pub bits : ℕ
    pub cap_bits : t.cap ≡ 2 ^ bits
    pub laid : IsLaid bits t.entries
    pub counted : occupied t.entries ≡ t.count
    pub room : t.count < t.cap

  pub is_entry_self :
      (x : K) (e : Entry K)
      → IsExact key
      → e.hash ≡ key.hash x
      → e.key ≡ x
      → is_entry_of key x e ≡ true
  unfolding is_entry_of
  is_entry_self x e law h k =
      let s : key.eq e.key x ≡ true = ap (λ y. key.eq e.key y) (sym k) ∙ law.same e.key in
      ground (arith, s)

  pub is_entry-key : (x : K) (e : Entry K) → IsExact key → is_entry_of key x e ≡ true → e.key ≡ x
  unfolding is_entry_of
  is_entry-key x e law h = law.sound e.key x (ground arith)

  pub seek-hit :
      (k : ℕ) (es : Slots K) (x : K) (i : ℕ) (e : Entry K)
      → IsExact key
      → seek k es x ≡ hit i e
      → (get_elem? es i ≡ some (some e)) × (e.key ≡ x)
  unfolding seek Ends
  seek-hit k es x i e law h =
      let (at, t) =
        subst (Ends (is_entry_of key x) es) h (probe-Ends (is_entry_of key x) _ es _ _) in
      (at, is_entry-key x e law t)

  pub seek-vacant :
      (k : ℕ) (es : Slots K) (x : K) (i : ℕ) → seek k es x ≡ vacant i → get_elem? es i ≡ some none
  unfolding seek Ends
  seek-vacant k es x i h =
      subst (Ends (is_entry_of key x) es) h (probe-Ends (is_entry_of key x) _ es _ _)

  pub seek-spent :
      (k : ℕ) (es : Slots K) (x : K)
      → length es ≡ 2 ^ k
      → occupied es < length es
      → seek k es x ≢ spent
  unfolding seek
  seek-spent k es x size lt h =
      let (i, free) = free_slot es lt in
      let home : bit_and (key.hash x) (2 ^ k - 1) < length es =
        omega (arith, bit_and-mask k (key.hash x), mod-lt (key.hash x) (pow_pos k)) in
      probe_ends (is_entry_of key x) k es i _ size free home (
        ap (λ n. probe (is_entry_of key x) n es (2 ^ k - 1) (bit_and (key.hash x) (2 ^ k - 1))) size
        ∙ h)

  -- In a map, `get` reads what the probe finds.
  pub found-seek :
      (t : Table K) (k : ℕ) (x : K) → t.cap ≡ 2 ^ k → found key t x ≡ seek k t.entries x
  unfolding found seek
  found-seek t k x e =
      ap (λ c. probe (is_entry_of key x) c t.entries (c - 1) (bit_and (key.hash x) (c - 1))) e

  -- The end of a search in a map: an entry with the key, or no entry with it.
  pub data Sought (t : Table K) (x : K) : Type 0 where
    there :
        (i : ℕ) (e : Entry K)
        → found key t x ≡ hit i e
        → get_elem? t.entries i ≡ some (some e)
        → e.key ≡ x
        → Sought t x
    nowhere :
        (i : ℕ)
        → found key t x ≡ vacant i
        → get_elem? t.entries i ≡ some none
        → ((j : ℕ) (e : Entry K) → get_elem? t.entries j ≡ some (some e) → e.key ≢ x)
        → Sought t x

  pub reached-found :
      (t : Table K) (i : ℕ) (e : Entry K) (x : K)
      → IsMap t
      → get_elem? t.entries i ≡ some (some e)
      → e.key ≡ x
      → found key t x ≡ hit i e
  reached-found t i e x m at same =
      found-seek t m.bits x m.cap_bits
      ∙ ap (seek m.bits t.entries) (sym same)
      ∙ m.laid.reached i e at

  pub sought : (t : Table K) (x : K) → IsExact key → IsMap t → Sought t x
  sought t x law m = by (seek m.bits t.entries x) refl
    where
      by : (p : Probe K) → seek m.bits t.entries x ≡ p → Sought t x
      by (hit i e) h =
          let (at, same) = seek-hit m.bits t.entries x i e law h in
          there i e (found-seek t m.bits x m.cap_bits ∙ h) at same
      by (vacant i) h =
          nowhere i (found-seek t m.bits x m.cap_bits ∙ h) (seek-vacant m.bits t.entries x i h)
            (λ j e at same.
              let r = reached-found t j e x m at same in
              let l = found-seek t m.bits x m.cap_bits ∙ h in cc (sym l ∙ r))
      by spent h = absurd (
          seek-spent m.bits t.entries x m.laid.size
            (omega (arith, m.laid.size, m.cap_bits, m.counted, m.room)) h)

  -- Two maps whose entries with a key are the same have the same value of it.
  pub get_same :
      (t t' : Table K) (x : K)
      → IsExact key
      → IsMap t
      → IsMap t'
      → ((i : ℕ) (e : Entry K)
          → get_elem? t.entries i ≡ some (some e)
          → e.key ≡ x
          → (j : ℕ) × (get_elem? t'.entries j ≡ some (some e)))
      → ((i : ℕ) (e : Entry K)
          → get_elem? t'.entries i ≡ some (some e)
          → e.key ≡ x
          → (j : ℕ) × (get_elem? t.entries j ≡ some (some e)))
      → map_get key t' x ≡ map_get key t x
  unfolding map_get get_at
  get_same t t' x law m m' to from = elim (sought t x law m) [
    | there i e f at same ↦
        let (j, at') = to i e at same in
        ap get_at (reached-found t' j e x m' at' same) ∙ sym (ap get_at f)
    | nowhere i f at misses ↦ elim (sought t' x law m') [
      | there i' e f' at' same ↦ let (j, back) = from i' e at' same in absurd (misses j e back same)
      | nowhere i' f' at' misses' ↦ ap get_at f' ∙ sym (ap get_at f)
    ]
  ]
