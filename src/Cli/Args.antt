-- ===== src/Cli/Args.antt =====
-- cli/args.c: the commands and their options. An argument list is what follows the program's and the
-- command's name. The C library's `strtol` and `strtof` are parameters.
pub mod Bounds
pub mod Run
use mlxd.Base.{
  ℕ, zero, suc, ◌+◌, Bool, true, false, not, ◌&&◌, ◌||◌, Option, none, some, List, [], ◌∷◌, ◌++◌,
  Bytes, codes, bytes_eq, if◌then◌else◌, ℤ, pos, negsuc, ltb_ℤ, ◌==◌,
}

-- `cli_cmd_t`
pub data CliCmd : Type 0 where
  serve run pull list help version unknown no_command : CliCmd

-- `cli_command`, on what follows the program's name
pub cli_command : List Bytes → CliCmd
unfolding bytes_eq
cli_command [] = no_command
cli_command (cmd ∷ rest) =
    if bytes_eq cmd (codes "serve")
    then serve
    else if bytes_eq cmd (codes "run")
    then run
    else if bytes_eq cmd (codes "pull")
    then pull
    else if bytes_eq cmd (codes "list")
    then list
    else if bytes_eq cmd (codes "--help") || bytes_eq cmd (codes "-h")
    then help
    else if bytes_eq cmd (codes "--version")
    then version
    else unknown

-- The options, or the message of an error.
pub data Parsed {ℓ} (A : Type ℓ) : Type ℓ where
  refused : Bytes → Parsed A
  parsed : A → Parsed A

-- `cli_pull_opts_t`, `cli_list_opts_t`, `cli_serve_opts_t`
pub record PullOpts : Type 0 where
  pub spec : Option Bytes

pub record ListOpts : Type 0 where
  pub json : Bool

pub record ServeOpts : Type 0 where
  pub model : Option Bytes
  pub host : Bytes
  pub port : ℤ

-- A message that quotes an argument.
unfoldable pub quoted : Bytes → Bytes → Bytes
quoted text arg = text ++ codes " '" ++ arg ++ codes "'"

unfoldable pub is_dashed : Bytes → Bool
is_dashed [] = false
is_dashed (c ∷ cs) = c == 45

-- A positional argument, where `rest` is what it gives as the first.
pull_spec : Option Bytes → Bytes → Parsed PullOpts → Parsed PullOpts
unfolding quoted
pull_spec none arg rest = rest
pull_spec (some s) arg rest = refused (quoted (codes "unexpected argument") arg)

-- The loop of `cli_parse_pull`, with what it has read.
pull_args : List Bytes → Bool → Option Bytes → Parsed PullOpts
unfolding quoted is_dashed bytes_eq pull_spec
pull_args [] opts_done spec = parsed (record { spec = spec })
pull_args (arg ∷ args) opts_done spec =
    let after_dashes : Parsed PullOpts = pull_args args true spec in
    let rest : Parsed PullOpts = pull_args args opts_done (some arg) in
    if not opts_done && bytes_eq arg (codes "--")
    then after_dashes
    else if not opts_done && is_dashed arg
    then refused (quoted (codes "unknown option") arg)
    else pull_spec spec arg rest

-- `cli_parse_pull`
pub cli_parse_pull : List Bytes → Parsed PullOpts
unfolding pull_args
cli_parse_pull [] = refused (codes "model spec is required")
cli_parse_pull (arg ∷ args) = pull_args (arg ∷ args) false none

-- `cli_parse_list`
list_args : List Bytes → Bool → Parsed ListOpts
unfolding quoted bytes_eq
list_args [] json = parsed (record { json = json })
list_args (arg ∷ args) json =
    let rest : Parsed ListOpts = list_args args true in
    if bytes_eq arg (codes "--json") then rest else refused (quoted (codes "unknown option") arg)

pub cli_parse_list : List Bytes → Parsed ListOpts
unfolding list_args
cli_parse_list args = list_args args false

unfoldable pub serve_done : ServeOpts → Option Bytes → Parsed ServeOpts
serve_done o none = refused (codes "--model is required")
serve_done o (some m) = parsed o

-- `cli_parse_serve`, where `strtol` gives the number and whether the whole text was read.
module _ (strtol : Bytes → ℤ × Bool) where
  unfoldable pub port_of : Bytes → Option ℤ
  port_of arg =
      let (v, whole) = strtol arg in
      if not whole || ltb_ℤ v (pos 1) || ltb_ℤ (pos 65535) v then none else some v

  -- The loop, with the options read so far.
  unfoldable pub serve_args : List Bytes → ServeOpts → Parsed ServeOpts
  unfolding serve_done port_of quoted bytes_eq
  serve_args [] o = serve_done o o.model
  serve_args (arg ∷ []) o =
      if bytes_eq arg (codes "--model")
      then refused (codes "--model requires a value")
      else if bytes_eq arg (codes "--port")
      then refused (codes "--port requires a value")
      else if bytes_eq arg (codes "--host")
      then refused (codes "--host requires a value")
      else refused (quoted (codes "unknown option") arg)
  serve_args (arg ∷ value ∷ args) o =
      let after_model : Parsed ServeOpts = serve_args args (record o { model = some value }) in
      let after_host : Parsed ServeOpts = serve_args args (record o { host = value }) in
      let after_port : ℤ → Parsed ServeOpts = λ v. serve_args args (record o { port = v }) in
      if bytes_eq arg (codes "--model")
      then after_model
      else if bytes_eq arg (codes "--port")
      then elim (port_of value) [
        | none ↦ refused (quoted (codes "invalid port") value)
        | some v ↦ after_port v
      ]
      else if bytes_eq arg (codes "--host")
      then after_host
      else refused (quoted (codes "unknown option") arg)

  unfoldable pub cli_parse_serve : List Bytes → Parsed ServeOpts
  unfolding serve_args
  cli_parse_serve args =
      serve_args args (record { model = none; host = codes "127.0.0.1"; port = pos 8080 })
