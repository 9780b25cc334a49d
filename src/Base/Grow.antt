-- ===== src/Base/Grow.antt =====
-- Buffers that grow by doubling their capacity.
use Prim.Native.Nat.{ℕ, zero, suc, ◌+◌, ◌*◌, ◌≤◌}
use native.Mathlib.Omega.{arith}
use mlxd.Base.Tests.{ltb, ◌==◌, if◌then◌else◌}

-- `while (new_cap < need) new_cap *= 2`, for at most `fuel` rounds.
abbrev pub doubled : ℕ → ℕ → ℕ → ℕ
doubled zero cap need = cap
doubled (suc fuel) cap need =
    let rest : ℕ = doubled fuel (cap * 2) need in if ltb cap need then rest else cap

-- As many rounds as bytes are needed are enough, whatever the capacity above 0.
pub le-doubled : (fuel cap need : ℕ) → 1 ≤ cap → need ≤ cap + fuel → need ≤ doubled fuel cap need
le-doubled zero cap need h k = omega arith
le-doubled (suc fuel) cap need h k =
    ground (arith, le-doubled fuel (cap * 2) need (omega arith) (omega arith))

-- A capacity of 0 starts at 64.
abbrev pub new_cap : ℕ → ℕ → ℕ
new_cap cap need = doubled need (if cap == 0 then 64 else cap) need

pub le-new_cap : (cap need : ℕ) → need ≤ new_cap cap need
le-new_cap cap need =
    le-doubled need (if cap == 0 then 64 else cap) need (ground arith) (omega arith)
