-- ===== src/Cli/Tests.antt =====
-- The theorem on the options of `serve` at a command line.
use mlxd.Base.{
  ◌≡◌, refl, true, Bool, some, List, [], ◌∷◌, Bytes, codes, ℤ, pos, negsuc, ltb_ℤ, none, false,
  bytes_eq, ◌≤ℤ◌,
}
use mlxd.Cli.Args.{ServeOpts, parsed, cli_parse_serve}
use mlxd.Core.Sampling.{FloatOps, Sampling, sampling_params_validate}
use mlxd.Cli.Args.Run.{Strtol, RunOpts, cli_parse_run, run_opts_apply_sampling}
use mlxd.Cli.Args.Run.Validate.{run_options_validate}
use mlxd.Cli.Args.Bounds.{serve_accepted}

-- A `strtol` that reads every text as 9090.
abbrev reads_9090 : Bytes → ℤ × Bool
reads_9090 arg = (pos 9090, true)

abbrev line : List Bytes
line = codes "--model" ∷ codes "m" ∷ codes "--port" ∷ codes "9090" ∷ []

abbrev opts : ServeOpts
opts = record { model = some (codes "m"); host = codes "127.0.0.1"; port = pos 9090 }

line_parses : cli_parse_serve reads_9090 line ≡ parsed opts
unfolding cli_parse_serve
line_parses = refl

serve_accepted_example :
    ((m : Bytes) × (opts.model ≡ some m)) × (pos 1 ≤ℤ opts.port) × (opts.port ≤ℤ pos 65535)
serve_accepted_example = serve_accepted reads_9090 line opts line_parses

-- Floats as hundredths.
abbrev hundredths : FloatOps ℤ
hundredths = record {
  zero_f = pos 0;
  is_finite = λ x. true;
  below_zero = λ x. ltb_ℤ x (pos 0);
  above_one = λ x. ltb_ℤ (pos 100) x;
}

abbrev reads_40 : Bytes → Strtol
reads_40 arg = record { value = pos 40; whole = true; erange = false }

abbrev reads_half : Bytes → ℤ × Bool
reads_half arg = (pos 50, true)

abbrev run_line : List Bytes
run_line = codes "m" ∷ codes "--top-k" ∷ codes "40" ∷ codes "--top-p" ∷ codes "0.5" ∷ []

abbrev run_opts : RunOpts ℤ
run_opts = record {
  model = some (codes "m");
  prompt = none;
  max_tokens = pos 0;
  temperature = none;
  top_p = some (pos 50);
  top_k = some (pos 40);
  min_p = none;
  seed = none;
  stream = false;
  raw = false;
  token_ids = false;
  no_think = false;
}

run_line_parses : cli_parse_run hundredths reads_40 reads_half run_line ≡ parsed run_opts
unfolding cli_parse_run bytes_eq
run_line_parses = refl

-- `SAMPLING_PARAMS_DEFAULT`
abbrev default_sampling : Sampling ℤ
default_sampling = record {
  temperature = pos 100;
  top_p = pos 100;
  top_k = negsuc 0;
  min_p = pos 0;
  seed = negsuc 0;
  set_temperature = false;
  set_top_p = false;
  set_top_k = false;
  set_min_p = false;
  set_seed = false;
}

default_validates : sampling_params_validate hundredths default_sampling ≡ none
unfolding sampling_params_validate
default_validates = refl

run_options_validate_example :
    sampling_params_validate hundredths
      (run_opts_apply_sampling hundredths run_opts default_sampling)
    ≡ none
run_options_validate_example =
    run_options_validate hundredths reads_40 reads_half run_line run_opts default_sampling refl
      run_line_parses default_validates
