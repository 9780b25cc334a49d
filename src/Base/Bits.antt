-- ===== src/Base/Bits.antt =====
-- Binary digits: a mask of ones is a remainder, and `or` digit by digit.
use Prim.Native.Nat.{
  ℕ, zero, suc, ◌+◌, ◌-◌, ◌*◌, ◌/◌, ◌%◌, ◌^◌, ◌≤◌, ◌<◌, min, max, digits, bit_and, bit_and-bitwise,
  bit_or, bit_or-bitwise,
}
use mathlib.Core.Path.{◌≡◌, refl, sym, ap, ◌∙◌}
use native.Mathlib.Omega.{arith}
use native.Mathlib.Nat.{mod-eq_of_lt, mod-lt, div-add-mod, mul-add-mod_self_right}

pub pow_suc : (k : ℕ) → 2 ^ suc k ≡ 2 * 2 ^ k
pow_suc k = omega arith

pub pow_pos : (k : ℕ) → 1 ≤ 2 ^ k
pow_pos zero = omega arith
pow_pos (suc k) = omega (arith, pow_pos k)

double : (m x b : ℕ) → 1 ≤ m → b < 2 → (2 * x + b) % (2 * m) ≡ (x % m) * 2 + b
double m x b h k =
    let r : ℕ = (x % m) * 2 + b in
    let s : 2 * x + b ≡ (x / m) * (2 * m) + r = omega (arith, div-add-mod x m) in
    ap (λ y. y % (2 * m)) s
    ∙ mul-add-mod_self_right (x / m) (2 * m) r
    ∙ mod-eq_of_lt (omega (arith, mod-lt x h))

mask-digits : (n k a : ℕ) → a ≤ n → digits (λ b. zero) min n a (2 ^ k - 1) ≡ a % 2 ^ k
mask-digits zero k zero h = sym (mod-eq_of_lt (pow_pos k))
mask-digits zero k (suc a) h = absurd (omega arith)
mask-digits (suc n) k zero h = sym (mod-eq_of_lt (pow_pos k))
mask-digits (suc n) zero (suc a) h = omega (arith, mask-digits n zero (suc a / 2) (omega arith))
mask-digits (suc n) (suc k) (suc a) h =
    let q : (2 ^ suc k - 1) / 2 ≡ 2 ^ k - 1 = omega (arith, pow_pos k) in
    let r : (2 ^ suc k - 1) % 2 ≡ 1 = omega (arith, pow_pos k) in
    let e = mask-digits n k (suc a / 2) (omega arith) in
    let d = double (2 ^ k) (suc a / 2) (suc a % 2) (pow_pos k) (omega arith) in
    let f : suc a % 2 ^ suc k ≡ (2 * (suc a / 2) + suc a % 2) % (2 * 2 ^ k) =
      let v : suc a ≡ 2 * (suc a / 2) + suc a % 2 = omega arith in λ i. v i % pow_suc k i in
    rw (q, r) (omega (arith, e, d, f))

pub bit_and-mask : (k a : ℕ) → bit_and a (2 ^ k - 1) ≡ a % 2 ^ k
bit_and-mask k a = bit_and-bitwise a (2 ^ k - 1) ∙ mask-digits a k a (omega arith)

or_fuel : (n m a b : ℕ) → a ≤ n → a ≤ m → digits (λ b. b) max n a b ≡ digits (λ b. b) max m a b
or_fuel zero zero a b h k = refl
or_fuel zero (suc m) zero b h k = refl
or_fuel (suc n) zero zero b h k = refl
or_fuel (suc n) (suc m) zero b h k = refl
or_fuel zero m (suc a) b h k = absurd (omega arith)
or_fuel (suc n) zero (suc a) b h k = absurd (omega arith)
or_fuel (suc n) (suc m) (suc a) b h k =
    omega (arith, or_fuel n m (suc a / 2) (b / 2) (omega arith) (omega arith))

-- The digits of `or`: all but the lowest, and the lowest.
pub bit_or-digits : (a b : ℕ) → bit_or a b ≡ bit_or (a / 2) (b / 2) * 2 + max (a % 2) (b % 2)
bit_or-digits zero b = omega (arith, bit_or-bitwise 0 b, bit_or-bitwise 0 (b / 2))
bit_or-digits (suc a) b = omega (
  arith,
  bit_or-bitwise (suc a) b,
  bit_or-bitwise (suc a / 2) (b / 2),
  or_fuel a (suc a / 2) (suc a / 2) (b / 2) (omega arith) (omega arith),
)
