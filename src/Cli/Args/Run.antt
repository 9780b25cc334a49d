-- ===== src/Cli/Args/Run.antt =====
-- cli/args.c, the options of `run`: `cli_parse_run` and what it means for sampling. A `float` is kept
-- abstract, with the comparisons that the code makes.
pub mod Sound
pub mod Validate
use mlxd.Base.{
  ℕ, zero, suc, ◌+◌, Bool, true, false, not, ◌&&◌, ◌||◌, Option, none, some, List, [], ◌∷◌, ◌++◌,
  Bytes, codes, bytes_eq, if◌then◌else◌, ℤ, pos, negsuc, ltb_ℤ,
}
use mlxd.Core.Sampling.{FloatOps, Sampling}
use mlxd.Cli.Args.{Parsed, refused, parsed, quoted, is_dashed}

-- The number that `strtol` gives, and whether it read the whole text and was in range.
pub record Strtol : Type 0 where
  pub value : ℤ
  pub whole : Bool
  pub erange : Bool

-- `cli_run_opts_t`. A pair of a value and its `_set` flag is an option; `max_tokens` has no flag.
pub record RunOpts (F : Type 0) : Type 0 where
  pub model : Option Bytes
  pub prompt : Option Bytes
  pub max_tokens : ℤ
  pub temperature : Option F
  pub top_p : Option F
  pub top_k : Option ℤ
  pub min_p : Option F
  pub seed : Option ℤ
  pub stream : Bool
  pub raw : Bool
  pub token_ids : Bool
  pub no_think : Bool

abbrev pub int_max : ℤ
int_max = pos 2147483647

-- The options that take a value.
pub data Valued : Type 0 where
  max_tokens temperature top_p top_k min_p seed : Valued

unfoldable pub name_of : Valued → Bytes
name_of max_tokens = codes "max-tokens"
name_of temperature = codes "temperature"
name_of top_p = codes "top-p"
name_of top_k = codes "top-k"
name_of min_p = codes "min-p"
name_of seed = codes "seed"

unfoldable pub dashes : Bytes → Bytes
dashes name = codes "--" ++ name

-- The tests on an argument, in the code's order.
unfoldable pub valued_of : Bytes → Option Valued
unfolding name_of dashes
valued_of arg =
    let is : Valued → Bool = λ v. bytes_eq arg (dashes (name_of v)) in
    if is max_tokens
    then some max_tokens
    else if is temperature
    then some temperature
    else if is top_p
    then some top_p
    else if is top_k
    then some top_k
    else if is min_p
    then some min_p
    else if is seed
    then some seed
    else none

module _ {F : Type 0} (ops : FloatOps F) (strtol : Bytes → Strtol) (strtof : Bytes → F × Bool) where
  -- The options at the start of `cli_parse_run`.
  unfoldable pub no_opts : RunOpts F
  no_opts = record {
    model = none;
    prompt = none;
    max_tokens = pos 0;
    temperature = none;
    top_p = none;
    top_k = none;
    min_p = none;
    seed = none;
    stream = false;
    raw = false;
    token_ids = false;
    no_think = false;
  }

  unfoldable pub invalid : Valued → Bytes → Bytes
  unfolding quoted name_of
  invalid v arg = quoted (codes "invalid " ++ name_of v) arg

  -- A `float` option in [0, 1], and what is set with it.
  unfoldable pub unit_interval : Valued → (F → RunOpts F) → Bytes → Bytes → Parsed (RunOpts F)
  unfolding invalid
  unit_interval v with msg arg =
      let (x, whole) = strtof arg in
      if not whole || not (ops.is_finite x)
      then refused (invalid v arg)
      else if ops.below_zero x || ops.above_one x
      then refused msg
      else parsed (with x)

  -- The value of an option: the checks, and the field.
  unfoldable pub set_value : Valued → Bytes → RunOpts F → Parsed (RunOpts F)
  unfolding invalid unit_interval
  set_value max_tokens arg o =
      let r = strtol arg in
      if not r.whole || ltb_ℤ r.value (pos 0) || ltb_ℤ int_max r.value || r.erange
      then refused (invalid max_tokens arg)
      else parsed (record o { max_tokens = r.value })
  set_value temperature arg o =
      let (x, whole) = strtof arg in
      if not whole || not (ops.is_finite x)
      then refused (invalid temperature arg)
      else if ops.below_zero x
      then refused (codes "temperature must be >= 0")
      else parsed (record o { temperature = some x })
  set_value top_p arg o =
      unit_interval top_p (λ x. record o { top_p = some x }) (codes "top-p must be in [0, 1]") arg
  set_value top_k arg o =
      let r = strtol arg in
      if not r.whole || r.erange
      then refused (invalid top_k arg)
      else if ltb_ℤ r.value (negsuc 0) || ltb_ℤ int_max r.value
      then refused (codes "top-k must be >= -1")
      else parsed (record o { top_k = some r.value })
  set_value min_p arg o =
      unit_interval min_p (λ x. record o { min_p = some x }) (codes "min-p must be in [0, 1]") arg
  set_value seed arg o =
      let r = strtol arg in
      if not r.whole || r.erange
      then refused (invalid seed arg)
      else if ltb_ℤ r.value (pos 0) || ltb_ℤ int_max r.value
      then refused (codes "seed must be >= 0")
      else parsed (record o { seed = some r.value })

  -- The options without a value; none for another argument.
  unfoldable pub set_flag : Bytes → RunOpts F → Option (RunOpts F)
  set_flag arg o =
      if bytes_eq arg (codes "--stream")
      then some (record o { stream = true })
      else if bytes_eq arg (codes "--raw")
      then some (record o { raw = true })
      else if bytes_eq arg (codes "--token-ids")
      then some (record o { token_ids = true })
      else if bytes_eq arg (codes "--no-think")
      then some (record o { no_think = true })
      else none

  -- A positional argument, the first, the second, or one too many.
  unfoldable pub set_positional : ℕ → Bytes → RunOpts F → Parsed (RunOpts F)
  unfolding quoted
  set_positional zero arg o = parsed (record o { model = some arg })
  set_positional (suc zero) arg o = parsed (record o { prompt = some arg })
  set_positional (suc (suc n)) arg o = refused (quoted (codes "unexpected argument") arg)

  -- The last check.
  unfoldable pub run_done : RunOpts F → Option Bytes → Parsed (RunOpts F)
  run_done o none = refused (codes "MODEL is required")
  run_done o (some m) = parsed o

  unfoldable pub then_parse :
      Parsed (RunOpts F) → (RunOpts F → Parsed (RunOpts F)) → Parsed (RunOpts F)
  then_parse (refused msg) k = refused msg
  then_parse (parsed o) k = k o

  -- What an argument is while options are read.
  pub data Kind : Type 0 where
    ends_options : Kind
    takes_value : Valued → Kind
    is_flag : RunOpts F → Kind
    unknown_option positional : Kind

  unfoldable pub plain_kind : Bytes → Option (RunOpts F) → Kind
  unfolding is_dashed
  plain_kind arg (some o) = is_flag o
  plain_kind arg none = if is_dashed arg then unknown_option else positional

  unfoldable pub valued_kind : Bytes → RunOpts F → Option Valued → Kind
  unfolding plain_kind set_flag
  valued_kind arg o (some v) = takes_value v
  valued_kind arg o none = plain_kind arg (set_flag arg o)

  unfoldable pub kind_of : Bool → Bytes → RunOpts F → Kind
  unfolding valued_kind valued_of
  kind_of true arg o = positional
  kind_of false arg o =
      if bytes_eq arg (codes "--") then ends_options else valued_kind arg o (valued_of arg)

  -- The last argument.
  unfoldable pub last_kind : Bytes → ℕ → RunOpts F → Kind → Parsed (RunOpts F)
  unfolding run_done set_positional then_parse quoted name_of dashes
  last_kind arg n o ends_options = run_done o o.model
  last_kind arg n o (takes_value v) = refused (dashes (name_of v) ++ codes " requires a value")
  last_kind arg n o (is_flag o') = run_done o' o'.model
  last_kind arg n o unknown_option = refused (quoted (codes "unknown option") arg)
  last_kind arg n o positional = then_parse (set_positional n arg o) (λ o'. run_done o' o'.model)

  -- An argument with another behind it, where `rest` goes on with that one and `after` behind it.
  unfoldable pub next_kind :
      Bytes
      → Bytes
      → Bool
      → ℕ
      → RunOpts F
      → (Bool → ℕ → RunOpts F → Parsed (RunOpts F))
      → (Bool → ℕ → RunOpts F → Parsed (RunOpts F))
      → Kind
      → Parsed (RunOpts F)
  unfolding set_value set_positional then_parse quoted
  next_kind arg value opts_done n o rest after ends_options = rest true n o
  next_kind arg value opts_done n o rest after (takes_value v) =
      then_parse (set_value v value o) (after opts_done n)
  next_kind arg value opts_done n o rest after (is_flag o') = rest opts_done n o'
  next_kind arg value opts_done n o rest after unknown_option =
      refused (quoted (codes "unknown option") arg)
  next_kind arg value opts_done n o rest after positional =
      then_parse (set_positional n arg o) (rest opts_done (suc n))

  -- The loop of `cli_parse_run`, with the positional arguments counted. Under `opts_done` all are
  -- positional.
  unfoldable pub run_args : List Bytes → Bool → ℕ → RunOpts F → Parsed (RunOpts F)
  unfolding run_done kind_of last_kind next_kind
  run_args [] opts_done n o = run_done o o.model
  run_args (arg ∷ []) opts_done n o = last_kind arg n o (kind_of opts_done arg o)
  run_args (arg ∷ value ∷ args) opts_done n o =
      next_kind arg value opts_done n o (run_args (value ∷ args)) (run_args args)
        (kind_of opts_done arg o)

  unfoldable pub cli_parse_run : List Bytes → Parsed (RunOpts F)
  unfolding run_args no_opts
  cli_parse_run args = run_args args false 0 no_opts

-- `run_opts_apply_sampling`: the temperature is always set, 0 where the option is missing.
module _ {F : Type 0} (ops : FloatOps F) where
  apply_temperature : Option F → Sampling F → Sampling F
  apply_temperature (some x) s = record s { temperature = x; set_temperature = true }
  apply_temperature none s = record s { temperature = ops.zero_f; set_temperature = true }

  apply_top_p : Option F → Sampling F → Sampling F
  apply_top_p (some x) s = record s { top_p = x; set_top_p = true }
  apply_top_p none s = s

  apply_top_k : Option ℤ → Sampling F → Sampling F
  apply_top_k (some k) s = record s { top_k = k; set_top_k = true }
  apply_top_k none s = s

  apply_min_p : Option F → Sampling F → Sampling F
  apply_min_p (some x) s = record s { min_p = x; set_min_p = true }
  apply_min_p none s = s

  apply_seed : Option ℤ → Sampling F → Sampling F
  apply_seed (some k) s = record s { seed = k; set_seed = true }
  apply_seed none s = s

  pub run_opts_apply_sampling : RunOpts F → Sampling F → Sampling F
  unfolding apply_temperature apply_top_p apply_top_k apply_min_p apply_seed
  run_opts_apply_sampling o s = apply_seed o.seed (
      apply_min_p o.min_p
        (apply_top_k o.top_k (apply_top_p o.top_p (apply_temperature o.temperature s))))

-- `cli_run_extra_json`
pub cli_run_extra_json : {F : Type 0} → RunOpts F → Option Bytes
cli_run_extra_json o = if o.no_think then some (codes "{\"enable_thinking\":false}") else none
