-- ===== src/Core/Sampling.antt =====
-- core/types.c, sampling parameters. A `float` is kept abstract, with the comparisons that are made.
use mlxd.Base.{Bool, ◌||◌, Option, none, some, Bytes, codes, if◌then◌else◌, ℤ, negsuc, ltb_ℤ}

-- `float` as the code uses it.
pub record FloatOps (F : Type 0) : Type 0 where
  pub zero_f : F
  pub is_finite : F → Bool
  pub below_zero : F → Bool
  pub above_one : F → Bool

-- `sampling_params_t` and the mask of the fields that are set.
pub record Sampling (F : Type 0) : Type 0 where
  pub temperature : F
  pub top_p : F
  pub top_k : ℤ
  pub min_p : F
  pub seed : ℤ
  pub set_temperature : Bool
  pub set_top_p : Bool
  pub set_top_k : Bool
  pub set_min_p : Bool
  pub set_seed : Bool

-- `sampling_params_validate`: the message of an error, or none.
unfoldable pub sampling_params_validate : {F : Type 0} → FloatOps F → Sampling F → Option Bytes
sampling_params_validate ops p =
    if ops.below_zero p.temperature
    then some (codes "temperature must be >= 0")
    else if ops.below_zero p.top_p || ops.above_one p.top_p
    then some (codes "top_p must be in [0, 1]")
    else if ops.below_zero p.min_p || ops.above_one p.min_p
    then some (codes "min_p must be in [0, 1]")
    else if ltb_ℤ p.top_k (negsuc 0)
    then some (codes "top_k must be >= -1")
    else none
