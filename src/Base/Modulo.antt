-- ===== src/Base/Modulo.antt =====
-- Remainders of ring indices, which are below twice the modulus.
use Prim.Native.Nat.{ℕ, ◌-◌, ◌%◌, ◌<◌, ◌≤◌}
use mathlib.Core.Path.{◌≡◌, ◌∙◌}
use native.Mathlib.Nat.{mod-eq_of_lt, mod-eq-sub-mod}

pub mod_small : {a m : ℕ} → a < m → a % m ≡ a
mod_small h = mod-eq_of_lt h

pub mod_once : {a m : ℕ} → m ≤ a → a - m < m → a % m ≡ a - m
mod_once h k = mod-eq-sub-mod h ∙ mod-eq_of_lt k
