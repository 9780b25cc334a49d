-- ===== src/Model/TokMap/Updates.antt =====
-- A value that is put in a map.
use mlxd.Base.{
  ℕ, ◌+◌, ◌-◌, ◌^◌, ◌≡◌, ◌≢◌, refl, sym, ap, ◌∙◌, Bool, true, false, ◌&&◌, Bool-cases, inl, inr,
  Option, none, some, length-set, get_elem?, get_elem?-set_ne, get_elem?-set_found, set, leb,
  if_elim, if◌then◌else◌, arith, ℕ_discrete,
}
use mlxd.Model.TokMap.{
  Entry, Slots, Table, Key, hit, vacant, found, is_entry_of, get_at, map_get, put_at,
}
use mlxd.Model.TokMap.Probing.{probe-fill, probe-insert, probe-away, probe-kept}
use mlxd.Model.TokMap.Content.{
  IsExact, occupied-fill, occupied-replace, seek, IsLaid, IsMap, is_entry_self, there, nowhere,
  sought, reached-found, found-seek, get_same,
}

module _ {K : Type 0} (key : Key K) where
  -- The entries of a table in which slot `i` was written.
  pub written :
      (es : Slots K) (i : ℕ) (e : Entry K) (j : ℕ) (x : Entry K)
      → get_elem? (set es i (some e)) j ≡ some (some x)
      → i ≢ j
      → get_elem? es j ≡ some (some x)
  written es i e j x h ne = sym (get_elem?-set_ne es (some e) ne) ∙ h

  pub here :
      (es : Slots K) (i : ℕ) (e : Entry K) {o : Option (Entry K)} (j : ℕ) (x : Entry K)
      → get_elem? es i ≡ some o
      → get_elem? (set es i (some e)) j ≡ some (some x)
      → i ≡ j
      → x ≡ e
  here es i e j x old h q =
      let new = get_elem?-set_found es i _ (some e) old in
      let h' : get_elem? (set es i (some e)) i ≡ some (some x) =
        ap (λ n. get_elem? (set es i (some e)) n) q ∙ h in
      cc (sym new ∙ h')

  -- A key that is nowhere takes the empty slot at the end of its search.
  pub insert-IsLaid :
      (k : ℕ) (es : Slots K) (i : ℕ) (e : Entry K)
      → IsExact key
      → IsLaid key k es
      → get_elem? es i ≡ some none
      → e.hash ≡ key.hash e.key
      → seek key k es e.key ≡ vacant i
      → IsLaid key k (set es i (some e))
  insert-IsLaid k es i e law l free h v = record {
    size = length-set es i (some e) ∙ l.size;
    hashed = λ j x p. elim (ℕ_discrete i j) [
      | yes q ↦
          let z = here es i e j x free p q in
          ap (λ (y : Entry K). y.hash) z ∙ h ∙ ap (λ (y : Entry K). key.hash y.key) (sym z)
      | no q ↦ l.hashed j x (written es i e j x p q)
    ];
    reached = λ j x p. elim (ℕ_discrete i j) [
      | yes q ↦
          let z = here es i e j x free p q in
          let new : seek key k (set es i (some e)) e.key ≡ hit i e =
            unfold seek in
            probe-insert (is_entry_of key e.key) (2 ^ k) es (2 ^ k - 1) i _ e free
              (is_entry_self key e.key e law h refl) v in
          ap (λ (y : Entry K). seek key k (set es i (some e)) y.key) z
          ∙ new
          ∙ (λ m. hit (q m) (sym z m))
      | no q ↦
          unfold seek in
          probe-fill (is_entry_of key x.key) (2 ^ k) es (2 ^ k - 1) i _ e free
            (l.reached j x (written es i e j x p q))
    ];
  }

  revalued : Entry K → ℕ → Entry K
  revalued e v = record e { val = v }

  revalue-IsLaid :
      (k : ℕ) (es : Slots K) (i : ℕ) (e : Entry K) (v : ℕ)
      → IsLaid key k es
      → get_elem? es i ≡ some (some e)
      → IsLaid key k (set es i (some (revalued e v)))
  unfolding revalued
  revalue-IsLaid k es i e v l at =
      let e' = revalued e v in
      record {
        size = length-set es i (some e') ∙ l.size;
        hashed = λ j x p. elim (ℕ_discrete i j) [
          | yes q ↦
              let z = here es i e' j x at p q in
              ap (λ (y : Entry K). y.hash) z
              ∙ l.hashed i e at
              ∙ ap (λ (y : Entry K). key.hash y.key) (sym z)
          | no q ↦ l.hashed j x (written es i e' j x p q)
        ];
        reached = λ j x p. elim (ℕ_discrete i j) [
          | yes q ↦
              let z = here es i e' j x at p q in
              let new : seek key k (set es i (some e')) e'.key ≡ hit i e' =
                unfold seek is_entry_of in
                probe-kept (is_entry_of key e.key) (2 ^ k) es (2 ^ k - 1) i _ e e' at refl
                  (l.reached i e at) in
              ap (λ (y : Entry K). seek key k (set es i (some e')) y.key) z
              ∙ new
              ∙ (λ m. hit (q m) (sym z m))
          | no q ↦
              unfold seek is_entry_of in
              probe-away (is_entry_of key x.key) (2 ^ k) es (2 ^ k - 1) i _ e e' at refl
                (λ r. q (sym r)) (l.reached j x (written es i e' j x p q))
        ];
      }

  -- What a put leaves: a map in which the key has the value and others have theirs. Only a new key is
  -- refused.
  unfoldable pub Puts : Table K → K → ℕ → Option (Bool × Table K) → Type 0
  Puts t x v none = ⊥
  Puts t x v (some (b, t')) =
      IsMap key t'
      × ((y : K) → map_get key t' y ≡ (if b && key.eq x y then some (some v) else map_get key t y))
      × (b ≡ false → map_get key t x ≡ some none)

  -- A slot is written with an entry of the key.
  wrote :
      (t t' : Table K) (x : K) (v i : ℕ) (e : Entry K)
      → IsExact key
      → IsMap key t
      → IsMap key t'
      → t'.entries ≡ set t.entries i (some e)
      → e.key ≡ x
      → e.val ≡ v
      → (o : Option (Entry K)) × (get_elem? t.entries i ≡ some o)
      → ((j : ℕ) (y : Entry K) → get_elem? t.entries j ≡ some (some y) → y.key ≢ x → i ≢ j)
      → Puts t x v (some (true, t'))
  unfolding Puts
  wrote t t' x v i e law m m' wr k w (o, old) other =
      let at : get_elem? t'.entries i ≡ some (some e) =
        ap (λ es. get_elem? es i) wr ∙ get_elem?-set_found t.entries i o (some e) old in
      (
        m',
        λ y. elim (Bool-cases (key.eq x y)) [
          | inl q ↦ rw q (
              unfold map_get in
              ap get_at (reached-found key t' i e y m' at (k ∙ law.sound x y q))
              ∙ ap (λ n. some (some n)) w)
          | inr q ↦
              let ne : x ≢ y =
                λ r. let s : key.eq x y ≡ true = ap (key.eq x) (sym r) ∙ law.same x in cc in
              rw q (
                get_same key t t' y law m m'
                  (λ j z p r.
                    let away : i ≢ j = other j z p (λ s. ne (sym s ∙ r)) in
                    (
                      j,
                      ap (λ es. get_elem? es j) wr ∙ get_elem?-set_ne t.entries (some e) away ∙ p,
                    ))
                  (λ j z p r.
                    let p' : get_elem? (set t.entries i (some e)) j ≡ some (some z) =
                      ap (λ es. get_elem? es j) (sym wr) ∙ p in
                    let away : i ≢ j = λ s.
                      let z≡e = here t.entries i e j z old p' s in
                      ne (sym k ∙ ap (λ (n : Entry K). n.key) (sym z≡e) ∙ r) in
                    (j, written t.entries i e j z p' away)))
        ],
        λ f. cc,
      )

  -- A put after the table may have grown.
  pub put_at-Puts :
      (t : Table K) (x : K) (v : ℕ)
      → IsExact key
      → IsMap key t
      → Puts t x v (put_at key t x v (found key t x))
  unfolding put_at revalued
  put_at-Puts t x v law m = elim (sought key t x law m) [
    | there i e f at same ↦
        let e' = revalued e v in
        let t' : Table K = record t { entries = set t.entries i (some e') } in
        rw f (
          wrote t t' x v i e' law m
            (record {
              bits = m.bits;
              cap_bits = m.cap_bits;
              laid = revalue-IsLaid m.bits t.entries i e v m.laid at;
              counted = occupied-replace t.entries i e e' at ∙ m.counted;
              room = m.room;
            })
            refl same refl (some e, at)
            (λ j y p ne q. let y≡e : y ≡ e = cc in ne (ap (λ (n : Entry K). n.key) y≡e ∙ same)))
    | nowhere i f free misses ↦
        let e : Entry K = record { key = x; hash = key.hash x; val = v } in
        let t' : Table K = record t { entries = set t.entries i (some e); count = t.count + 1 } in
        let vac : seek key m.bits t.entries x ≡ vacant i =
          sym (found-seek key t m.bits x m.cap_bits) ∙ f in
        rw f (
          if_elim (Puts t x v) (leb t.cap (t.count + 1))
            (λ full. unfold Puts map_get in (m, λ y. refl, λ b. ap get_at f))
            (λ fits.
              wrote t t' x v i e law m
                (record {
                  bits = m.bits;
                  cap_bits = m.cap_bits;
                  laid = insert-IsLaid m.bits t.entries i e law m.laid free refl vac;
                  counted = occupied-fill t.entries i e free ∙ omega (arith, m.counted);
                  room = ground arith;
                })
                refl refl refl (none, free) (λ j y p ne q. cc)))
  ]
