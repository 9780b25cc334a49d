-- ===== src/Cli/Args/Run/Sound.antt =====
-- The options of `run` that are accepted keep the ranges that the code checks.
use mlxd.Base.{
  ℕ, zero, suc, ◌≡◌, refl, sym, Bool, true, false, not, ◌||◌, Option, none, some, List, [], ◌∷◌,
  Bytes, codes, bytes_eq, if_elim, arith, pos, negsuc, ltb_ℤ,
}
use mathlib.Core.Path.{subst}
use mlxd.Core.Sampling.{FloatOps}
use mlxd.Cli.Args.{Parsed, refused, parsed, is_dashed}
use mlxd.Cli.Args.Run.{
  Strtol, RunOpts, int_max, Valued, max_tokens, temperature, top_p, top_k, min_p, seed, no_opts,
  unit_interval, set_value, set_flag, set_positional, run_done, then_parse, Kind, ends_options,
  takes_value, is_flag, unknown_option, positional, plain_kind, valued_kind, valued_of, kind_of,
  last_kind, next_kind, run_args, cli_parse_run,
}

unfoldable pub Holds : {A : Type 0} → (A → Type 0) → Option A → Type 0
Holds P none = Unit {0}
Holds P (some x) = P x

module _ {F : Type 0} (ops : FloatOps F) where
  unfoldable pub IsUnit : F → Type 0
  IsUnit x = (ops.below_zero x ≡ false) × (ops.above_one x ≡ false)

  -- The four options that are validated.
  pub record IsSound (o : RunOpts F) : Type 0 where
    pub temperatures : Holds (λ x. ops.below_zero x ≡ false) o.temperature
    pub top_ps : Holds IsUnit o.top_p
    pub top_ks : Holds (λ k. ltb_ℤ k (negsuc 0) ≡ false) o.top_k
    pub min_ps : Holds IsUnit o.min_p

  unfoldable pub Gives : Parsed (RunOpts F) → Type 0
  Gives (refused msg) = Unit {0}
  Gives (parsed o) = IsSound o

  -- Options that agree with `o` on the four.
  Same : RunOpts F → RunOpts F → Type 0
  Same o o' =
      (o'.temperature ≡ o.temperature)
      × (o'.top_p ≡ o.top_p)
      × (o'.top_k ≡ o.top_k)
      × (o'.min_p ≡ o.min_p)

  Same-IsSound : (o o' : RunOpts F) → Same o o' → IsSound o → IsSound o'
  unfolding Same
  Same-IsSound o o' (a, b, c, d) s = record {
    temperatures = subst (Holds (λ x. ops.below_zero x ≡ false)) (sym a) s.temperatures;
    top_ps = subst (Holds IsUnit) (sym b) s.top_ps;
    top_ks = subst (Holds (λ k. ltb_ℤ k (negsuc 0) ≡ false)) (sym c) s.top_ks;
    min_ps = subst (Holds IsUnit) (sym d) s.min_ps;
  }

  module _ (strtol : Bytes → Strtol) (strtof : Bytes → F × Bool) where
    unit-Gives :
        (v : Valued) (with : F → RunOpts F) (msg arg : Bytes)
        → ((x : F) → IsUnit x → IsSound (with x))
        → Gives (unit_interval ops strtol strtof v with msg arg)
    unfolding unit_interval Gives IsUnit
    unit-Gives v with msg arg h =
        let (x, whole) = strtof arg in
        if_elim Gives (not whole || not (ops.is_finite x)) (λ _. tt)
          (λ _.
            if_elim Gives (ops.below_zero x || ops.above_one x) (λ _. tt)
              (λ k. h x (ground arith, ground arith)))

    value-Gives :
        (v : Valued) (arg : Bytes) (o : RunOpts F)
        → IsSound o
        → Gives (set_value ops strtol strtof v arg o)
    unfolding set_value Gives Holds Same
    value-Gives max_tokens arg o s =
        let r = strtol arg in
        if_elim Gives (not r.whole || ltb_ℤ r.value (pos 0) || ltb_ℤ int_max r.value || r.erange)
          (λ _. tt) (λ _. Same-IsSound o _ (refl, refl, refl, refl) s)
    value-Gives temperature arg o s =
        let (x, whole) = strtof arg in
        if_elim Gives (not whole || not (ops.is_finite x)) (λ _. tt)
          (λ _.
            if_elim Gives (ops.below_zero x) (λ _. tt)
              (λ h. record {
                temperatures = h;
                top_ps = s.top_ps;
                top_ks = s.top_ks;
                min_ps = s.min_ps;
              }))
    value-Gives top_p arg o s =
        unit-Gives top_p (λ x. record o { top_p = some x }) _ arg
          (λ x h. record {
            temperatures = s.temperatures;
            top_ps = h;
            top_ks = s.top_ks;
            min_ps = s.min_ps;
          })
    value-Gives top_k arg o s =
        let r = strtol arg in
        if_elim Gives (not r.whole || r.erange) (λ _. tt)
          (λ _.
            if_elim Gives (ltb_ℤ r.value (negsuc 0) || ltb_ℤ int_max r.value) (λ _. tt)
              (λ h. record {
                temperatures = s.temperatures;
                top_ps = s.top_ps;
                top_ks = ground arith;
                min_ps = s.min_ps;
              }))
    value-Gives min_p arg o s =
        unit-Gives min_p (λ x. record o { min_p = some x }) _ arg
          (λ x h. record {
            temperatures = s.temperatures;
            top_ps = s.top_ps;
            top_ks = s.top_ks;
            min_ps = h;
          })
    value-Gives seed arg o s =
        let r = strtol arg in
        if_elim Gives (not r.whole || r.erange) (λ _. tt)
          (λ _.
            if_elim Gives (ltb_ℤ r.value (pos 0) || ltb_ℤ int_max r.value) (λ _. tt)
              (λ _. record {
                temperatures = s.temperatures;
                top_ps = s.top_ps;
                top_ks = s.top_ks;
                min_ps = s.min_ps;
              }))

    KindGood : Kind ops strtol strtof → Type 0
    KindGood ends_options = Unit {0}
    KindGood (takes_value v) = Unit {0}
    KindGood (is_flag o) = IsSound o
    KindGood unknown_option = Unit {0}
    KindGood positional = Unit {0}

    FlagGood : Option (RunOpts F) → Type 0
    FlagGood none = Unit {0}
    FlagGood (some o) = IsSound o

    flag-Good :
        (arg : Bytes) (o : RunOpts F) → IsSound o → FlagGood (set_flag ops strtol strtof arg o)
    unfolding set_flag FlagGood Same
    flag-Good arg o s =
        if_elim FlagGood (bytes_eq arg (codes "--stream"))
          (λ _. Same-IsSound o _ (refl, refl, refl, refl) s)
          (λ _.
            if_elim FlagGood (bytes_eq arg (codes "--raw"))
              (λ _. Same-IsSound o _ (refl, refl, refl, refl) s)
              (λ _.
                if_elim FlagGood (bytes_eq arg (codes "--token-ids"))
                  (λ _. Same-IsSound o _ (refl, refl, refl, refl) s)
                  (λ _.
                    if_elim FlagGood (bytes_eq arg (codes "--no-think"))
                      (λ _. Same-IsSound o _ (refl, refl, refl, refl) s) (λ _. tt))))

    plain-Good :
        (arg : Bytes) (f : Option (RunOpts F))
        → FlagGood f
        → KindGood (plain_kind ops strtol strtof arg f)
    unfolding plain_kind KindGood FlagGood
    plain-Good arg (some o) h = h
    plain-Good arg none h = if_elim KindGood (is_dashed arg) (λ _. tt) (λ _. tt)

    valued-Good :
        (arg : Bytes) (o : RunOpts F) (v : Option Valued)
        → IsSound o
        → KindGood (valued_kind ops strtol strtof arg o v)
    unfolding valued_kind KindGood
    valued-Good arg o (some v) s = tt
    valued-Good arg o none s = plain-Good arg (set_flag ops strtol strtof arg o) (flag-Good arg o s)

    kind-Good :
        (opts_done : Bool) (arg : Bytes) (o : RunOpts F)
        → IsSound o
        → KindGood (kind_of ops strtol strtof opts_done arg o)
    unfolding kind_of KindGood
    kind-Good true arg o s = tt
    kind-Good false arg o s =
        if_elim KindGood (bytes_eq arg (codes "--")) (λ _. tt)
          (λ _. valued-Good arg o (valued_of arg) s)

    done-Gives :
        (o : RunOpts F) (m : Option Bytes) → IsSound o → Gives (run_done ops strtol strtof o m)
    unfolding run_done Gives
    done-Gives o none s = tt
    done-Gives o (some m) s = s

    positional-Gives :
        (n : ℕ) (arg : Bytes) (o : RunOpts F)
        → IsSound o
        → Gives (set_positional ops strtol strtof n arg o)
    unfolding set_positional Gives Same
    positional-Gives zero arg o s = Same-IsSound o _ (refl, refl, refl, refl) s
    positional-Gives (suc zero) arg o s = Same-IsSound o _ (refl, refl, refl, refl) s
    positional-Gives (suc (suc n)) arg o s = tt

    then-Gives :
        (r : Parsed (RunOpts F)) (k : RunOpts F → Parsed (RunOpts F))
        → Gives r
        → ((o : RunOpts F) → IsSound o → Gives (k o))
        → Gives (then_parse ops strtol strtof r k)
    unfolding then_parse Gives
    then-Gives (refused msg) k h g = tt
    then-Gives (parsed o) k h g = g o h

    -- A way to go on that keeps options sound.
    Goes : (Bool → ℕ → RunOpts F → Parsed (RunOpts F)) → Type 0
    Goes k = (b : Bool) (n : ℕ) (o : RunOpts F) → IsSound o → Gives (k b n o)

    last-Gives :
        (arg : Bytes) (n : ℕ) (o : RunOpts F) (k : Kind ops strtol strtof)
        → IsSound o
        → KindGood k
        → Gives (last_kind ops strtol strtof arg n o k)
    unfolding last_kind KindGood Gives
    last-Gives arg n o ends_options s h = done-Gives o o.model s
    last-Gives arg n o (takes_value v) s h = tt
    last-Gives arg n o (is_flag o') s h = done-Gives o' o'.model h
    last-Gives arg n o unknown_option s h = tt
    last-Gives arg n o positional s h =
        then-Gives (set_positional ops strtol strtof n arg o) _ (positional-Gives n arg o s)
          (λ o' s'. done-Gives o' o'.model s')

    next-Gives :
        (arg value : Bytes) (opts_done : Bool) (n : ℕ) (o : RunOpts F)
        (rest after : Bool → ℕ → RunOpts F → Parsed (RunOpts F)) (k : Kind ops strtol strtof)
        → IsSound o
        → Goes rest
        → Goes after
        → KindGood k
        → Gives (next_kind ops strtol strtof arg value opts_done n o rest after k)
    unfolding next_kind KindGood Gives Goes
    next-Gives arg value b n o rest after ends_options s g h x = g true n o s
    next-Gives arg value b n o rest after (takes_value v) s g h x =
        then-Gives (set_value ops strtol strtof v value o) _ (value-Gives v value o s) (h b n)
    next-Gives arg value b n o rest after (is_flag o') s g h x = g b n o' x
    next-Gives arg value b n o rest after unknown_option s g h x = tt
    next-Gives arg value b n o rest after positional s g h x =
        then-Gives (set_positional ops strtol strtof n arg o) _ (positional-Gives n arg o s)
          (g b (suc n))

    args-Gives : (args : List Bytes) → Goes (run_args ops strtol strtof args)
    unfolding run_args Goes
    args-Gives [] b n o s = done-Gives o o.model s
    args-Gives (arg ∷ []) b n o s = last-Gives arg n o _ s (kind-Good b arg o s)
    args-Gives (arg ∷ value ∷ args) b n o s =
        next-Gives arg value b n o _ _ _ s (args-Gives (value ∷ args)) (args-Gives args)
          (kind-Good b arg o s)

    pub parse-Gives : (args : List Bytes) → Gives (cli_parse_run ops strtol strtof args)
    unfolding cli_parse_run no_opts Goes Holds
    parse-Gives args =
        args-Gives args false 0 (no_opts ops strtol strtof)
          (record { temperatures = tt; top_ps = tt; top_ks = tt; min_ps = tt })
