-- ===== src/Model/TokMap/Probing.antt =====
-- Where a probe ends, before and after a slot is written.
use Prim.Native.Nat.{bit_and}
use native.Mathlib.Nat.{mod-lt, mod-add-mod}
use mlxd.Base.{
  ℕ, zero, suc, ◌+◌, ◌-◌, ◌%◌, ◌^◌, ◌<◌, ◌≡◌, ◌≢◌, refl, sym, ap, ◌∙◌, Bool, true, false,
  Bool-cases, inl, inr, Option, none, some, length, get_elem?, get_elem?-set_ne,
  get_elem?-set_found, get_elem?-lt, set, if_elim, arith, mod_small, mod_once, leb, lt-get_elem?,
  ℕ_discrete,
}
use mlxd.Base.Bits.{bit_and-mask, pow_pos}
use mlxd.Model.TokMap.{Entry, Slots, Probe, hit, vacant, spent, probe_at, probe}

module _ {K : Type 0} (test : Entry K → Bool) where
  -- A hit is an entry that passes the test; a vacant slot is empty.
  unfoldable pub Ends : Slots K → Probe K → Type 0
  Ends es (hit i e) = (get_elem? es i ≡ some (some e)) × (test e ≡ true)
  Ends es (vacant i) = get_elem? es i ≡ some none
  Ends es spent = Unit {0}

  at-Ends :
      (es : Slots K) (rest : Probe K) (i : ℕ) (o : Option (Option (Entry K)))
      → get_elem? es i ≡ o
      → Ends es rest
      → Ends es (probe_at test rest i o)
  unfolding probe_at Ends
  at-Ends es rest i none h r = tt
  at-Ends es rest i (some none) h r = h
  at-Ends es rest i (some (some e)) h r = if_elim (Ends es) (test e) (λ t. (h, t)) (λ _. r)

  pub probe-Ends : (n : ℕ) (es : Slots K) (mask i : ℕ) → Ends es (probe test n es mask i)
  unfolding probe
  probe-Ends zero es mask i = unfold Ends in tt
  probe-Ends (suc n) es mask i =
      at-Ends es _ i (get_elem? es i) refl (probe-Ends n es mask (bit_and (i + 1) mask))

  passed :
      (rest : Probe K) (j : ℕ) (y : Entry K)
      → test y ≡ true
      → probe_at test rest j (some (some y)) ≡ hit j y
  unfolding probe_at
  passed rest j y t = rw t

  skipped :
      (rest : Probe K) (j : ℕ) (y : Entry K)
      → test y ≡ false
      → probe_at test rest j (some (some y)) ≡ rest
  unfolding probe_at
  skipped rest j y t = rw t

  -- A slot that is not written turns an end into another if a hit on it and the rest do.
  over :
      {rest rest' r r' : Probe K} (j : ℕ) (y : Entry K)
      → (hit j y ≡ r → hit j y ≡ r')
      → (rest ≡ r → rest' ≡ r')
      → probe_at test rest j (some (some y)) ≡ r
      → probe_at test rest' j (some (some y)) ≡ r'
  over {rest = rest} {rest' = rest'} j y h k p = elim (Bool-cases (test y)) [
    | inl t ↦ passed rest' j y t ∙ h (sym (passed rest j y t) ∙ p)
    | inr t ↦ skipped rest' j y t ∙ k (sym (skipped rest j y t) ∙ p)
  ]

  elsewhere :
      (es : Slots K) (i j : ℕ) (e : Entry K) {y : Entry K}
      → i ≢ j
      → get_elem? es j ≡ some (some y)
      → get_elem? (set es i (some e)) j ≡ some (some y)
  elsewhere es i j e ne h = get_elem?-set_ne es (some e) ne ∙ h

  -- The step of a probe at slot `j`, when slot `i` is written.
  Steps : Slots K → ℕ → Entry K → Probe K → Probe K → Probe K → Probe K → ℕ → Type 0
  Steps es i e rest rest' r r' j =
      (o : Option (Option (Entry K)))
      → get_elem? es j ≡ o
      → probe_at test rest j o ≡ r
      → probe_at test rest' j (get_elem? (set es i (some e)) j) ≡ r'

  -- An empty slot that is filled changes no hit, and becomes one for what it passes.
  fill-Steps :
      (es : Slots K) (i : ℕ) (e : Entry K) {rest rest' : Probe K} (j : ℕ) {a : ℕ} {x : Entry K}
      → get_elem? es i ≡ some none
      → (rest ≡ hit a x → rest' ≡ hit a x)
      → Steps es i e rest rest' (hit a x) (hit a x) j
  unfolding Steps probe_at
  fill-Steps es i e j free k none h p = cc
  fill-Steps es i e j free k (some none) h p = cc
  fill-Steps es i e j free k (some (some y)) h p =
      let ne : i ≢ j = λ q. cc in rw (elsewhere es i j e ne h) (over j y (λ q. q) k p)

  insert-Steps :
      (es : Slots K) (i : ℕ) (e : Entry K) {rest rest' : Probe K} (j : ℕ)
      → get_elem? es i ≡ some none
      → test e ≡ true
      → (rest ≡ vacant i → rest' ≡ hit i e)
      → Steps es i e rest rest' (vacant i) (hit i e) j
  unfolding Steps probe_at
  insert-Steps es i e j free t k none h p = cc
  insert-Steps es i e {rest' = rest'} j free t k (some none) h p =
      let q : j ≡ i = cc in
      let new : get_elem? (set es i (some e)) j ≡ some (some e) =
        ap (λ n. get_elem? (set es i (some e)) n) q ∙ get_elem?-set_found es i none (some e) free in
      rw new (passed rest' j e t ∙ ap (λ n. hit n e) q)
  insert-Steps es i e j free t k (some (some y)) h p =
      let ne : i ≢ j = λ q. cc in rw (elsewhere es i j e ne h) (over j y (λ q. cc) k p)

  -- An entry that is replaced by one with the same key changes no hit elsewhere, and stays one.
  away-Steps :
      (es : Slots K) (i : ℕ) (e e' : Entry K) {rest rest' : Probe K} (j : ℕ) {a : ℕ} {x : Entry K}
      → get_elem? es i ≡ some (some e)
      → test e' ≡ test e
      → a ≢ i
      → (rest ≡ hit a x → rest' ≡ hit a x)
      → Steps es i e' rest rest' (hit a x) (hit a x) j
  unfolding Steps probe_at
  away-Steps es i e e' j old same ne k none h p = cc
  away-Steps es i e e' j old same ne k (some none) h p = cc
  away-Steps es i e e' {rest = rest} {rest' = rest'} j {a = a} {x = x} old same ne k (some (some y))
        h p =
      elim (ℕ_discrete i j) [
        | yes q ↦
            let new : get_elem? (set es i (some e')) j ≡ some (some e') =
              ap (λ n. get_elem? (set es i (some e')) n) (sym q)
              ∙ get_elem?-set_found es i (some e) (some e') old in
            let y≡e : y ≡ e = cc in
            rw new (elim (Bool-cases (test y)) [
              | inl t ↦ let at : hit j y ≡ hit a x = sym (passed rest j y t) ∙ p in absurd (ne cc)
              | inr t ↦
                  skipped rest' j e' (same ∙ ap test (sym y≡e) ∙ t)
                  ∙ k (sym (skipped rest j y t) ∙ p)
            ])
        | no away ↦ rw (elsewhere es i j e' away h) (over j y (λ q. q) k p)
      ]

  kept-Steps :
      (es : Slots K) (i : ℕ) (e e' : Entry K) {rest rest' : Probe K} (j : ℕ) {x : Entry K}
      → get_elem? es i ≡ some (some e)
      → test e' ≡ test e
      → (rest ≡ hit i x → rest' ≡ hit i e')
      → Steps es i e' rest rest' (hit i x) (hit i e') j
  unfolding Steps probe_at
  kept-Steps es i e e' j old same k none h p = cc
  kept-Steps es i e e' j old same k (some none) h p = cc
  kept-Steps es i e e' {rest = rest} {rest' = rest'} j {x = x} old same k (some (some y)) h p =
      elim (ℕ_discrete i j) [
        | yes q ↦
            let new : get_elem? (set es i (some e')) j ≡ some (some e') =
              ap (λ n. get_elem? (set es i (some e')) n) (sym q)
              ∙ get_elem?-set_found es i (some e) (some e') old in
            let y≡e : y ≡ e = cc in
            rw new (elim (Bool-cases (test y)) [
              | inl t ↦
                  passed rest' j e' (same ∙ ap test (sym y≡e) ∙ t) ∙ ap (λ n. hit n e') (sym q)
              | inr t ↦
                  skipped rest' j e' (same ∙ ap test (sym y≡e) ∙ t)
                  ∙ k (sym (skipped rest j y t) ∙ p)
            ])
        | no away ↦ rw (elsewhere es i j e' away h) (over j y (λ q. absurd (away cc)) k p)
      ]

  pub probe-fill :
      (n : ℕ) (es : Slots K) (mask i j : ℕ) (e : Entry K) {a : ℕ} {x : Entry K}
      → get_elem? es i ≡ some none
      → probe test n es mask j ≡ hit a x
      → probe test n (set es i (some e)) mask j ≡ hit a x
  unfolding probe Steps
  probe-fill zero es mask i j e free p = p
  probe-fill (suc n) es mask i j e free p =
      fill-Steps es i e j free (probe-fill n es mask i (bit_and (j + 1) mask) e free)
        (get_elem? es j) refl p

  pub probe-insert :
      (n : ℕ) (es : Slots K) (mask i j : ℕ) (e : Entry K)
      → get_elem? es i ≡ some none
      → test e ≡ true
      → probe test n es mask j ≡ vacant i
      → probe test n (set es i (some e)) mask j ≡ hit i e
  unfolding probe Steps
  probe-insert zero es mask i j e free t p = cc
  probe-insert (suc n) es mask i j e free t p =
      insert-Steps es i e j free t (probe-insert n es mask i (bit_and (j + 1) mask) e free t)
        (get_elem? es j) refl p

  pub probe-away :
      (n : ℕ) (es : Slots K) (mask i j : ℕ) (e e' : Entry K) {a : ℕ} {x : Entry K}
      → get_elem? es i ≡ some (some e)
      → test e' ≡ test e
      → a ≢ i
      → probe test n es mask j ≡ hit a x
      → probe test n (set es i (some e')) mask j ≡ hit a x
  unfolding probe Steps
  probe-away zero es mask i j e e' old same ne p = p
  probe-away (suc n) es mask i j e e' old same ne p =
      away-Steps es i e e' j old same ne
        (probe-away n es mask i (bit_and (j + 1) mask) e e' old same ne) (get_elem? es j) refl p

  pub probe-kept :
      (n : ℕ) (es : Slots K) (mask i j : ℕ) (e e' : Entry K) {x : Entry K}
      → get_elem? es i ≡ some (some e)
      → test e' ≡ test e
      → probe test n es mask j ≡ hit i x
      → probe test n (set es i (some e')) mask j ≡ hit i e'
  unfolding probe Steps
  probe-kept zero es mask i j e e' old same p = cc
  probe-kept (suc n) es mask i j e e' old same p =
      kept-Steps es i e e' j old same (probe-kept n es mask i (bit_and (j + 1) mask) e e' old same)
        (get_elem? es j) refl p

  -- A test that no entry passes finds what the test that always fails finds.
  at-none :
      (es : Slots K) {rest rest' : Probe K} (j : ℕ) (o : Option (Option (Entry K)))
      → ((i : ℕ) (e : Entry K) → get_elem? es i ≡ some (some e) → test e ≡ false)
      → get_elem? es j ≡ o
      → rest ≡ rest'
      → probe_at test rest j o ≡ probe_at (λ _. false) rest' j o
  unfolding probe_at
  at-none es j none h e r = refl
  at-none es j (some none) h e r = refl
  at-none es j (some (some y)) h e r = rw (h j y e) r

  pub probe-none :
      (n : ℕ) (es : Slots K) (mask j : ℕ)
      → ((i : ℕ) (e : Entry K) → get_elem? es i ≡ some (some e) → test e ≡ false)
      → probe test n es mask j ≡ probe (λ _. false) n es mask j
  unfolding probe
  probe-none zero es mask j h = refl
  probe-none (suc n) es mask j h =
      at-none es j (get_elem? es j) h refl (probe-none n es mask (bit_and (j + 1) mask) h)

  -- A probe with no end has passed every slot.
  at-spent :
      (es : Slots K) {rest : Probe K} (j : ℕ) (o : Option (Option (Entry K)))
      → j < length es
      → get_elem? es j ≡ o
      → probe_at test rest j o ≡ spent
      → (get_elem? es j ≢ some none) × (rest ≡ spent)
  unfolding probe_at
  at-spent es j none lt h p = absurd (get_elem?-lt es j lt h)
  at-spent es j (some none) lt h p = cc
  at-spent es {rest = rest} j (some (some y)) lt h p = (
    λ q. cc,
    elim (Bool-cases (test y)) [
      | inl t ↦ cc (sym (passed rest j y t) ∙ p)
      | inr t ↦ sym (skipped rest j y t) ∙ p
    ],
  )

  pub probe-spent :
      (n k : ℕ) (es : Slots K) (j d : ℕ)
      → length es ≡ 2 ^ k
      → j < length es
      → d < n
      → probe test n es (2 ^ k - 1) j ≡ spent
      → get_elem? es ((j + d) % 2 ^ k) ≢ some none
  unfolding probe
  probe-spent zero k es j d size lt h p = absurd (omega arith)
  probe-spent (suc n) k es j zero size lt h p =
      let stays : (j + 0) % 2 ^ k ≡ j =
        ap (λ x. x % 2 ^ k) (omega arith) ∙ mod_small (omega arith) in
      λ q. (at-spent es j (get_elem? es j) lt refl p).0 (ap (λ x. get_elem? es x) (sym stays) ∙ q)
  probe-spent (suc n) k es j (suc d) size lt h p =
      let next : ℕ = (j + 1) % 2 ^ k in
      let turn : bit_and (j + 1) (2 ^ k - 1) ≡ next = bit_and-mask k (j + 1) in
      let rest : probe test n es (2 ^ k - 1) next ≡ spent =
        ap (λ x. probe test n es (2 ^ k - 1) x) (sym turn)
        ∙ (at-spent es j (get_elem? es j) lt refl p).1 in
      let below : next < length es = omega (arith, mod-lt (j + 1) (pow_pos k), size) in
      let ahead : (next + d) % 2 ^ k ≡ (j + suc d) % 2 ^ k =
        mod-add-mod (j + 1) (2 ^ k) d ∙ ap (λ x. x % 2 ^ k) (omega arith) in
      λ q.
        probe-spent n k es next d size below (omega arith) rest (ap (λ x. get_elem? es x) ahead ∙ q)

  -- A probe ends if it may take as many rounds as there are slots, of which one is empty.
  pub probe_ends :
      (k : ℕ) (es : Slots K) (i j : ℕ)
      → length es ≡ 2 ^ k
      → get_elem? es i ≡ some none
      → j < length es
      → probe test (length es) es (2 ^ k - 1) j ≢ spent
  probe_ends k es i j size free lt p =
      let in_range : i < length es = lt-get_elem? es i free in
      let back : (d : ℕ) → d < length es → (j + d) % 2 ^ k ≡ i → ⊥ =
        λ d h e. probe-spent (length es) k es j d size lt h p (ap (λ x. get_elem? es x) e ∙ free) in
      elim (Bool-cases (leb j i)) [
        | inl le ↦
            let h : j + (i - j) ≡ i = ground arith in
            back (i - j) (omega arith) (ap (λ x. x % 2 ^ k) h ∙ mod_small (omega arith))
        | inr gt ↦
            let h : i < j = ground arith in
            let m : j + (i + 2 ^ k - j) ≡ i + 2 ^ k = omega arith in
            back (i + 2 ^ k - j) (omega arith)
              (ap (λ x. x % 2 ^ k) m ∙ mod_once (omega arith) (omega arith) ∙ (omega arith))
      ]
