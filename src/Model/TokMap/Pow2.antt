-- ===== src/Model/TokMap/Pow2.antt =====
-- The bits of `next_pow2`.
use Prim.Native.Nat.{bit_or}
use mlxd.Base.{
  ℕ, zero, suc, ◌+◌, ◌-◌, ◌*◌, ◌/◌, ◌%◌, ◌^◌, ◌≤◌, ◌<◌, ◌≡◌, refl, sym, ap, ◌∙◌, ◌⊎◌, inl, inr,
  Bool-cases, arith, ◌==◌, if_elim,
}
use native.Mathlib.Nat.{div-div-eq-div-mul, div-one}
use mlxd.Base.Bits.{bit_or-digits, pow_suc}
use mlxd.Model.TokMap.{smeared, smear, next_pow2}

div_swap : (v m n : ℕ) → v / m / n ≡ v / n / m
div_swap v m n =
    div-div-eq-div-mul v m n ∙ ap (λ k. v / k) (omega arith) ∙ sym (div-div-eq-div-mul v n m)

-- A function that halves with its argument shifts with it.
Halves : (ℕ → ℕ) → Type 0
Halves g = (v : ℕ) → g v / 2 ≡ g (v / 2)

shifts : (g : ℕ → ℕ) → Halves g → (s v : ℕ) → g v / 2 ^ s ≡ g (v / 2 ^ s)
unfolding Halves
shifts g h zero v = div-one (g v) ∙ ap g (sym (div-one v))
shifts g h (suc s) v =
    ap (λ m. g v / m) (pow_suc s)
    ∙ sym (div-div-eq-div-mul (g v) 2 (2 ^ s))
    ∙ ap (λ x. x / 2 ^ s) (h v)
    ∙ shifts g h s (v / 2)
    ∙ ap g (div-div-eq-div-mul v 2 (2 ^ s) ∙ ap (λ m. v / m) (sym (pow_suc s)))

smeared-Halves : (s : ℕ) (g : ℕ → ℕ) → Halves g → Halves (λ v. smeared s (g v))
unfolding Halves smeared
smeared-Halves s g h v =
    omega (arith, bit_or-digits (g v) (g v / 2 ^ s))
    ∙ ap (λ x. bit_or (g v / 2) x) (div_swap (g v) (2 ^ s) 2)
    ∙ ap (λ x. bit_or x (x / 2 ^ s)) (h v)

-- What has a digit among its lowest `m` is made odd by `g`.
Gathers : ℕ → (ℕ → ℕ) → Type 0
Gathers m g = (v : ℕ) → 1 ≤ v % m → g v % 2 ≡ 1

smeared-Gathers :
    (s : ℕ) (g : ℕ → ℕ)
    → Halves g
    → Gathers (2 ^ s) g
    → (m : ℕ) → ((v : ℕ) → 1 ≤ v % m → (1 ≤ v % 2 ^ s) ⊎ (1 ≤ (v / 2 ^ s) % 2 ^ s))
    → Gathers m (λ v. smeared s (g v))
unfolding Gathers smeared
smeared-Gathers s g h k m split v le =
    let low = bit_or-digits (g v) (g v / 2 ^ s) in
    elim (split v le) [
      | inl here ↦ omega (arith, low, k v here)
      | inr there ↦ omega (arith, low, ap (λ x. x % 2) (shifts g h s v), k (v / 2 ^ s) there)
    ]

id-Halves : Halves (λ v. v)
unfolding Halves
id-Halves v = refl

id-Gathers : Gathers (2 ^ 1) (λ v. v)
unfolding Gathers
id-Gathers v le = omega arith

abbrev g₁ : ℕ → ℕ
g₁ v = smeared 1 v

abbrev g₂ : ℕ → ℕ
g₂ v = smeared 2 (g₁ v)

abbrev g₃ : ℕ → ℕ
g₃ v = smeared 4 (g₂ v)

abbrev g₄ : ℕ → ℕ
g₄ v = smeared 8 (g₃ v)

h₁ : Halves g₁
h₁ = smeared-Halves 1 (λ v. v) id-Halves

h₂ : Halves g₂
h₂ = smeared-Halves 2 g₁ h₁

h₃ : Halves g₃
h₃ = smeared-Halves 4 g₂ h₂

h₄ : Halves g₄
h₄ = smeared-Halves 8 g₃ h₃

smear-Halves : Halves smear
unfolding smear
smear-Halves = smeared-Halves 16 g₄ h₄

smear-Gathers : Gathers (2 ^ 32) smear
unfolding smear
smear-Gathers =
    let k₁ = smeared-Gathers 1 (λ v. v) id-Halves id-Gathers (2 ^ 2) (λ v le. ground arith) in
    let k₂ = smeared-Gathers 2 g₁ h₁ k₁ (2 ^ 4) (λ v le. ground arith) in
    let k₃ = smeared-Gathers 4 g₂ h₂ k₂ (2 ^ 8) (λ v le. ground arith) in
    let k₄ = smeared-Gathers 8 g₃ h₃ k₃ (2 ^ 16) (λ v le. ground arith) in
    smeared-Gathers 16 g₄ h₄ k₄ (2 ^ 32) (λ v le. ground arith)

smear_zero : smear 0 ≡ 0
unfolding smear smeared
smear_zero = refl

-- All digits up to the highest are ones.
Ones : ℕ → Type 0
Ones v = (t : ℕ) × (smear v + 1 ≡ 2 ^ suc t) × (2 ^ t ≤ v) × (v < 2 ^ suc t)

smear-Ones : (fuel v : ℕ) → v ≤ fuel → 1 ≤ v → v < 2 ^ 32 → Ones v
unfolding Ones Halves Gathers
smear-Ones zero v h pos lt = absurd (omega arith)
smear-Ones (suc fuel) v h pos lt =
    let odd = smear-Gathers v (omega arith) in
    let half = smear-Halves v in
    elim (Bool-cases (v / 2 == 0)) [
      | inl small ↦
          let no_half : v / 2 ≡ 0 = ground arith in
          let none_above : smear (v / 2) ≡ 0 = ap smear no_half ∙ smear_zero in
          (0, omega (arith, odd, half, none_above, pow_suc 0), omega arith, ground arith)
      | inr large ↦
          let (t, s, lo, hi) = smear-Ones fuel (v / 2) (omega arith) (ground arith) (omega arith) in
          (
            suc t,
            omega (arith, pow_suc (suc t), odd, half, s),
            omega (arith, pow_suc t),
            omega (arith, pow_suc (suc t)),
          )
    ]

-- From 1 to 2 ^ 31, `next_pow2` is the next power of two: at least its argument and below its double.
pub next_pow2_lem :
    (v : ℕ)
    → 1 ≤ v
    → v ≤ 2 ^ 31
    → (t : ℕ) × (next_pow2 v ≡ 2 ^ t) × (v ≤ next_pow2 v) × (next_pow2 v < 2 * v)
unfolding next_pow2 Ones
next_pow2_lem v pos le =
    let P : ℕ → Type 0 = λ r. (t : ℕ) × (r ≡ 2 ^ t) × (v ≤ r) × (r < 2 * v) in
    if_elim P (v == 0) (λ z. absurd (ground arith))
      (λ _. elim (Bool-cases (v - 1 == 0)) [
        | inl one ↦
            let e : v ≡ 1 = ground arith in
            let z : smear (v - 1) ≡ 0 = ap (λ x. smear (x - 1)) e ∙ smear_zero in
            (0, omega (arith, z), omega (arith, z), omega (arith, z))
        | inr more ↦
            let (t, e, lo, hi) =
              smear-Ones (v - 1) (v - 1) (omega arith) (ground arith) (omega arith) in
            (
              suc t,
              omega (arith, e, pow_suc t),
              omega (arith, e, pow_suc t),
              omega (arith, e, pow_suc t),
            )
      ])
