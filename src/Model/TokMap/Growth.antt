-- ===== src/Model/TokMap/Growth.antt =====
-- A map that grows holds what it held.
use Prim.Native.Nat.{bit_and}
use mlxd.Base.{
  ℕ, zero, suc, ◌+◌, ◌-◌, ◌*◌, ◌^◌, ◌<◌, ◌≡◌, ◌≢◌, ◌⊎◌, refl, sym, ap, ◌∙◌, Bool, true, false,
  Bool-cases, inl, inr, Option, none, some, ◌>>=◌, [], ◌∷◌, length-replicate, get_elem?,
  get_elem?-set_ne, get_elem?-set_found, set, ltb, ◌/◌, replicate, if_elim, arith, ℕ_discrete,
}
use mlxd.Base.Bits.{pow_suc}
use mlxd.Model.TokMap.{
  Entry, Slots, Table, Key, Probe, hit, vacant, spent, probe, is_entry_of, placed, place, rehash,
  grow, map_get,
}
use mlxd.Model.TokMap.Probing.{probe-none}
use mlxd.Model.TokMap.Content.{
  IsExact, occupied, occupied-fill, seek, IsLaid, IsMap, seek-hit, seek-vacant, seek-spent,
  is_entry-key, get_same,
}
use mlxd.Model.TokMap.Updates.{written, here, insert-IsLaid}

module _ {K : Type 0} where
  -- The entry stands in a slot.
  pub Holds : Slots K → Entry K → Type 0
  Holds es e = (i : ℕ) × (get_elem? es i ≡ some (some e))

  Holds-cons :
      (o : Option (Entry K)) (es : Slots K) (x : Entry K)
      → Holds (o ∷ es) x
      → (o ≡ some x) ⊎ Holds es x
  unfolding Holds
  Holds-cons o es x (zero, p) = inl cc
  Holds-cons o es x (suc j, p) = inr (j, p)

  pub empty_slots : (n i : ℕ) (e : Entry K) → get_elem? (replicate n none) i ≢ some (some e)
  empty_slots zero i e h = cc
  empty_slots (suc n) zero e h = cc
  empty_slots (suc n) (suc i) e h = empty_slots n i e h

  -- No two slots have the same key.
  IsUnique : Slots K → Type 0
  IsUnique es =
      (i j : ℕ) (a b : Entry K)
      → get_elem? es i ≡ some (some a)
      → get_elem? es j ≡ some (some b)
      → a.key ≡ b.key
      → i ≡ j

  rest-IsUnique : (o : Option (Entry K)) (es : Slots K) → IsUnique (o ∷ es) → IsUnique es
  unfolding IsUnique
  rest-IsUnique o es u i j a b p q r = omega (arith, u (suc i) (suc j) a b p q r)

  Apart : Slots K → Slots K → Type 0
  Apart new old = (a b : Entry K) → Holds new a → Holds old b → a.key ≢ b.key

pub occupied-empty : (K : Type 0) (n : ℕ) → occupied {K = K} (replicate n none) ≡ 0
unfolding occupied
occupied-empty K zero = refl
occupied-empty K (suc n) = occupied-empty K n

module _ {K : Type 0} (key : Key K) where
  -- The old entries, at the start of the loop over them.
  record Ready (k : ℕ) (old new : Slots K) : Type 0 where
    pub laid : IsLaid key k new
    pub unique : IsUnique old
    pub hashed : (e : Entry K) → Holds old e → e.hash ≡ key.hash e.key
    pub apart : Apart new old
    pub room : occupied new + occupied old < 2 ^ k

  -- The table at its end.
  record Moved (k : ℕ) (old new es : Slots K) : Type 0 where
    pub laid : IsLaid key k es
    pub counted : occupied es ≡ occupied new + occupied old
    pub from : (e : Entry K) → Holds es e → Holds new e ⊎ Holds old e
    pub keeps : (e : Entry K) → Holds new e → Holds es e
    pub moves : (e : Entry K) → Holds old e → Holds es e

  -- An entry whose key is new is placed in an empty slot.
  place_lem :
      (k : ℕ) (new : Slots K) (e : Entry K)
      → IsExact key
      → IsLaid key k new
      → occupied new < 2 ^ k
      → e.hash ≡ key.hash e.key
      → ((x : Entry K) → Holds new x → x.key ≢ e.key)
      → (i : ℕ) × (place (2 ^ k) new e ≡ some (set new i (some e)))
        × (get_elem? new i ≡ some none)
        × IsLaid key k (set new i (some e))
  unfolding place placed Holds seek
  place_lem k new e law l room h apart = by (seek key k new e.key) refl
    where
      misses :
          (i : ℕ) (x : Entry K) → get_elem? new i ≡ some (some x) → is_entry_of key e.key x ≡ false
      misses i x p = elim (Bool-cases (is_entry_of key e.key x)) [
        | inl t ↦ absurd (apart x (i, p) (is_entry-key key e.key x law t))
        | inr t ↦ t
      ]

      same :
          probe (λ _. false) (2 ^ k) new (2 ^ k - 1) (bit_and e.hash (2 ^ k - 1))
          ≡ seek key k new e.key
      same =
          ap (λ n. probe (λ _. false) (2 ^ k) new (2 ^ k - 1) (bit_and n (2 ^ k - 1))) h
          ∙ sym (probe-none (is_entry_of key e.key) (2 ^ k) new (2 ^ k - 1) _ misses)

      by :
          (p : Probe K)
          → seek key k new e.key ≡ p
          → (i : ℕ) × (place (2 ^ k) new e ≡ some (set new i (some e)))
            × (get_elem? new i ≡ some none)
            × IsLaid key k (set new i (some e))
      by (hit i x) q =
          let (at, s) = seek-hit key k new e.key i x law q in absurd (apart x (i, at) s)
      by (vacant i) q =
          let free = seek-vacant key k new e.key i q in
          (i, ap (placed new e) (same ∙ q), free, insert-IsLaid key k new i e law l free h q)
      by spent q = absurd (seek-spent key k new e.key l.size (omega (arith, l.size)) q)

  -- What the placed entry changes for the entries that are still to come.
  placed-Ready :
      (k : ℕ) (old new : Slots K) (i : ℕ) (e : Entry K)
      → Ready k (some e ∷ old) new
      → get_elem? new i ≡ some none
      → IsLaid key k (set new i (some e))
      → Ready k old (set new i (some e))
  unfolding Holds Apart IsUnique
  placed-Ready k old new i e r free l = record {
    laid = l;
    unique = rest-IsUnique (some e) old r.unique;
    hashed = λ x (j, p). r.hashed x (suc j, p);
    apart = λ a b (j, p) (n, q) s. elim (ℕ_discrete i j) [
      | yes at ↦
          let z = here key new i e j a free p at in
          let clash = r.unique 0 (suc n) e b refl q (ap (λ (x : Entry K). x.key) (sym z) ∙ s) in
          omega (arith, clash)
      | no away ↦ r.apart a b (j, written key new i e j a p away) (suc n, q) s
    ];
    room =
        let f : occupied (set new i (some e)) ≡ suc (occupied new) = occupied-fill new i e free in
        let g : occupied (some e ∷ old) ≡ suc (occupied old) = unfold occupied in refl in
        omega (arith, f, g, r.room);
  }

  placed-Moved :
      (k : ℕ) (old new es : Slots K) (i : ℕ) (e : Entry K)
      → get_elem? new i ≡ some none
      → Moved k old (set new i (some e)) es
      → Moved k (some e ∷ old) new es
  unfolding Holds
  placed-Moved k old new es i e free m = record {
    laid = m.laid;
    counted =
        let f : occupied (set new i (some e)) ≡ suc (occupied new) = occupied-fill new i e free in
        let g : occupied (some e ∷ old) ≡ suc (occupied old) = unfold occupied in refl in
        omega (arith, f, g, m.counted);
    from = λ x h. elim (m.from x h) [
      | inl (j, p) ↦ elim (ℕ_discrete i j) [
        | yes at ↦ inr (0, ap (λ y. some (some y)) (sym (here key new i e j x free p at)))
        | no away ↦ inl (j, written key new i e j x p away)
      ]
      | inr (j, p) ↦ inr (suc j, p)
    ];
    keeps = λ x (j, p). m.keeps x (j, get_elem?-set_ne new (some e) (λ q. cc) ∙ p);
    moves = λ x h. elim (Holds-cons (some e) old x h) [
      | inl p ↦
          let z : e ≡ x = cc in
          m.keeps x (i, get_elem?-set_found new i none (some e) free ∙ ap (λ y. some (some y)) z)
      | inr rest ↦ m.moves x rest
    ];
  }

  skipped-Ready : (k : ℕ) (old new : Slots K) → Ready k (none ∷ old) new → Ready k old new
  unfolding Holds Apart occupied
  skipped-Ready k old new r = record {
    laid = r.laid;
    unique = rest-IsUnique none old r.unique;
    hashed = λ x (j, p). r.hashed x (suc j, p);
    apart = λ a b h (j, p). r.apart a b h (suc j, p);
    room = r.room;
  }

  skipped-Moved : (k : ℕ) (old new es : Slots K) → Moved k old new es → Moved k (none ∷ old) new es
  unfolding Holds occupied
  skipped-Moved k old new es m = record {
    laid = m.laid;
    counted = m.counted;
    from = λ x h. elim (m.from x h) [ inl g ↦ inl g | inr (j, p) ↦ inr (suc j, p) ];
    keeps = m.keeps;
    moves = λ x h. elim (Holds-cons none old x h) [ inl p ↦ cc | inr rest ↦ m.moves x rest ];
  }

  -- The loop comes to its end with all entries.
  rehash_lem :
      (k : ℕ) (old new : Slots K)
      → IsExact key
      → Ready k old new
      → (es : Slots K) × (rehash (2 ^ k) old new ≡ some es) × Moved k old new es
  unfolding rehash
  rehash_lem k [] new law r = (
    new,
    refl,
    record {
      laid = r.laid;
      counted = unfold occupied in omega arith;
      from = λ e h. inl h;
      keeps = λ e h. h;
      moves = λ e h. unfold Holds in cc (h.1);
    },
  )
  rehash_lem k (none ∷ old) new law r =
      let (es, q, m) = rehash_lem k old new law (skipped-Ready k old new r) in
      (es, q, skipped-Moved k old new es m)
  rehash_lem k (some e ∷ old) new law r =
      let (i, q, free, l) =
        place_lem k new e law r.laid (omega (arith, r.room)) (unfold Holds in r.hashed e (0, refl))
          (λ x h. unfold Apart Holds in r.apart x e h (0, refl)) in
      let (es, q', m) =
        rehash_lem k old (set new i (some e)) law (placed-Ready k old new i e r free l) in
      (es, ap (λ o. o >>= rehash (2 ^ k) old) q ∙ q', placed-Moved k old new es i e free m)

  -- What a table that may have grown is: a map with the same values.
  unfoldable pub Grows : Table K → Option (Bool × Table K) → Type 0
  Grows t none = ⊥
  Grows t (some (b, t')) = IsMap key t' × ((y : K) → map_get key t' y ≡ map_get key t y)

  pub empty-IsLaid : (k : ℕ) → IsLaid key k (replicate (2 ^ k) none)
  empty-IsLaid k = record {
    size = length-replicate (2 ^ k) none;
    hashed = λ i e p. absurd (empty_slots (2 ^ k) i e p);
    reached = λ i e p. absurd (empty_slots (2 ^ k) i e p);
  }

  laid-IsUnique : (k : ℕ) (es : Slots K) → IsLaid key k es → IsUnique es
  unfolding IsUnique
  laid-IsUnique k es l i j a b p q s =
      let x : seek key k es a.key ≡ hit i a = l.reached i a p in
      let y : seek key k es b.key ≡ hit j b = l.reached j b q in
      cc (sym x ∙ ap (seek key k es) s ∙ y)

  grown-Ready :
      (t : Table K) (m : IsMap key t)
      → Ready (suc m.bits) t.entries (replicate (2 ^ suc m.bits) none)
  unfolding Holds Apart
  grown-Ready t m = record {
    laid = empty-IsLaid (suc m.bits);
    unique = laid-IsUnique m.bits t.entries m.laid;
    hashed = λ e (i, p). m.laid.hashed i e p;
    apart = λ a b (i, p). absurd (empty_slots _ i a p);
    room =
        omega
          (arith, occupied-empty K (2 ^ suc m.bits), m.counted, m.room, m.cap_bits, pow_suc m.bits);
  }

  grown-IsMap :
      (t : Table K) (m : IsMap key t) (es : Slots K)
      → Moved (suc m.bits) t.entries (replicate (2 ^ suc m.bits) none) es
      → IsMap key (record t { entries = es; cap = t.cap * 2 })
  grown-IsMap t m es v = record {
    bits = suc m.bits;
    cap_bits = omega (arith, m.cap_bits, pow_suc m.bits);
    laid = v.laid;
    counted = omega (arith, v.counted, occupied-empty K (2 ^ suc m.bits), m.counted);
    room = omega (arith, m.room);
  }

  grown-Grows :
      (t : Table K) (m : IsMap key t) (es : Slots K)
      → IsExact key
      → Moved (suc m.bits) t.entries (replicate (2 ^ suc m.bits) none) es
      → Grows t (some (true, record t { entries = es; cap = t.cap * 2 }))
  unfolding Grows Holds
  grown-Grows t m es law v =
      let m' = grown-IsMap t m es v in
      (
        m',
        λ y.
            get_same key t (record t { entries = es; cap = t.cap * 2 }) y law m m'
              (λ i e p _. v.moves e (i, p))
              (λ i e p _. elim (v.from e (i, p)) [
                | inl (j, q) ↦ absurd (empty_slots _ j e q)
                | inr h ↦ h
              ]),
      )

  pub grow-Grows : (alloc : Bool) (t : Table K) → IsExact key → IsMap key t → Grows t (grow alloc t)
  unfolding grow
  grow-Grows alloc t law m =
      if_elim (Grows t) (ltb ((2 ^ 32 - 1) / 2) t.cap) (λ _. unfold Grows in (m, λ y. refl))
        (λ _.
          if_elim (Grows t) alloc
            (λ _.
              let k = suc m.bits in
              let (es, q, v) =
                rehash_lem k t.entries (replicate (2 ^ k) none) law (grown-Ready t m) in
              let e : t.cap * 2 ≡ 2 ^ k = omega (arith, m.cap_bits, pow_suc m.bits) in
              let done : rehash (t.cap * 2) t.entries (replicate (t.cap * 2) none) ≡ some es =
                ap (λ c. rehash c t.entries (replicate c none)) e ∙ q in
              rw done (grown-Grows t m es law v))
            (λ _. unfold Grows in (m, λ y. refl)))
