-- ===== src/Cli/Args/Run/Validate.antt =====
-- What the options of `run` give the sampler is valid.
use mlxd.Base.{◌≡◌, refl, Bool, false, Option, none, some, List, Bytes, arith, ℤ, negsuc, ltb_ℤ}
use mathlib.Core.Path.{subst}
use mlxd.Core.Sampling.{FloatOps, Sampling, sampling_params_validate}
use mlxd.Cli.Args.{parsed}
use mlxd.Cli.Args.Run.{
  Strtol, RunOpts, cli_parse_run, apply_temperature, apply_top_p, apply_top_k, apply_min_p,
  apply_seed, run_opts_apply_sampling,
}
use mlxd.Cli.Args.Run.Sound.{Holds, IsUnit, IsSound, Gives, parse-Gives}

module _ {F : Type 0} (ops : FloatOps F) where
  -- Valid parameters, one field at a time.
  record IsValid (p : Sampling F) : Type 0 where
    pub temperatures : ops.below_zero p.temperature ≡ false
    pub top_ps : IsUnit ops p.top_p
    pub top_ks : ltb_ℤ p.top_k (negsuc 0) ≡ false
    pub min_ps : IsUnit ops p.min_p

  IsValid-validates : (p : Sampling F) → IsValid p → sampling_params_validate ops p ≡ none
  unfolding sampling_params_validate IsUnit
  IsValid-validates p v =
      let a = v.temperatures in
      let b = v.top_ps in let c = v.top_ks in let d = v.min_ps in rw (a, b.0, b.1, d.0, d.1, c) refl

  validates-IsValid : (p : Sampling F) → sampling_params_validate ops p ≡ none → IsValid p
  unfolding sampling_params_validate IsUnit
  validates-IsValid p h = record {
    temperatures = ground arith;
    top_ps = (ground arith, ground arith);
    top_ks = ground arith;
    min_ps = (ground arith, ground arith);
  }

  temperature-IsValid :
      (x : Option F) (p : Sampling F)
      → ops.below_zero ops.zero_f ≡ false
      → Holds (λ x. ops.below_zero x ≡ false) x
      → IsValid p
      → IsValid (apply_temperature ops x p)
  unfolding apply_temperature Holds
  temperature-IsValid none p z h v = record {
    temperatures = z;
    top_ps = v.top_ps;
    top_ks = v.top_ks;
    min_ps = v.min_ps;
  }
  temperature-IsValid (some x) p z h v = record {
    temperatures = h;
    top_ps = v.top_ps;
    top_ks = v.top_ks;
    min_ps = v.min_ps;
  }

  top_p-IsValid :
      (x : Option F) (p : Sampling F)
      → Holds (IsUnit ops) x
      → IsValid p
      → IsValid (apply_top_p ops x p)
  unfolding apply_top_p Holds
  top_p-IsValid none p h v = v
  top_p-IsValid (some x) p h v = record {
    temperatures = v.temperatures;
    top_ps = h;
    top_ks = v.top_ks;
    min_ps = v.min_ps;
  }

  top_k-IsValid :
      (k : Option ℤ) (p : Sampling F)
      → Holds (λ k. ltb_ℤ k (negsuc 0) ≡ false) k
      → IsValid p
      → IsValid (apply_top_k ops k p)
  unfolding apply_top_k Holds
  top_k-IsValid none p h v = v
  top_k-IsValid (some k) p h v = record {
    temperatures = v.temperatures;
    top_ps = v.top_ps;
    top_ks = h;
    min_ps = v.min_ps;
  }

  min_p-IsValid :
      (x : Option F) (p : Sampling F)
      → Holds (IsUnit ops) x
      → IsValid p
      → IsValid (apply_min_p ops x p)
  unfolding apply_min_p Holds
  min_p-IsValid none p h v = v
  min_p-IsValid (some x) p h v = record {
    temperatures = v.temperatures;
    top_ps = v.top_ps;
    top_ks = v.top_ks;
    min_ps = h;
  }

  seed-IsValid : (k : Option ℤ) (p : Sampling F) → IsValid p → IsValid (apply_seed ops k p)
  unfolding apply_seed
  seed-IsValid none p v = v
  seed-IsValid (some k) p v = record {
    temperatures = v.temperatures;
    top_ps = v.top_ps;
    top_ks = v.top_ks;
    min_ps = v.min_ps;
  }

  apply-IsValid :
      (o : RunOpts F) (p : Sampling F)
      → ops.below_zero ops.zero_f ≡ false
      → IsSound ops o
      → IsValid p
      → IsValid (run_opts_apply_sampling ops o p)
  unfolding run_opts_apply_sampling
  apply-IsValid o p z s v = seed-IsValid o.seed _ (
      min_p-IsValid o.min_p _ s.min_ps (
        top_k-IsValid o.top_k _ s.top_ks (
          top_p-IsValid o.top_p _ s.top_ps
            (temperature-IsValid o.temperature p z s.temperatures v))))

-- If 0 is not below 0 as a float, then the options that `run` accepts, whatever the number parsers make
-- of a text, turn sampling parameters that validate into sampling parameters that validate.
pub run_options_validate :
    {F : Type 0} (ops : FloatOps F) (strtol : Bytes → Strtol) (strtof : Bytes → F × Bool)
    (args : List Bytes) (o : RunOpts F) (p : Sampling F)
    → ops.below_zero ops.zero_f ≡ false
    → cli_parse_run ops strtol strtof args ≡ parsed o
    → sampling_params_validate ops p ≡ none
    → sampling_params_validate ops (run_opts_apply_sampling ops o p) ≡ none
unfolding Gives
run_options_validate ops strtol strtof args o p z h v =
    IsValid-validates ops (run_opts_apply_sampling ops o p) (
      apply-IsValid ops o p z (subst (Gives ops) h (parse-Gives ops strtol strtof args))
        (validates-IsValid ops p v))
