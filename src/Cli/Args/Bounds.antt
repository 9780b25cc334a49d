-- ===== src/Cli/Args/Bounds.antt =====
-- What holds of options that are accepted.
use mlxd.Base.{
  ◌≡◌, refl, Bool, not, ◌||◌, Option, none, some, List, [], ◌∷◌, Bytes, codes, if_elim, arith, ℤ,
  pos, ltb_ℤ, ◌≤ℤ◌, bytes_eq,
}
use mathlib.Core.Path.{subst}
use mlxd.Cli.Args.{
  Parsed, refused, parsed, ServeOpts, port_of, serve_done, serve_args, cli_parse_serve,
}

-- A port of TCP.
pub IsPort : ℤ → Type 0
IsPort v = (pos 1 ≤ℤ v) × (v ≤ℤ pos 65535)

-- An accepted set of options names a model, and its port is one of TCP.
Accepted : Parsed ServeOpts → Type 0
Accepted (refused msg) = Unit {0}
Accepted (parsed o) = ((m : Bytes) × (o.model ≡ some m)) × (pos 1 ≤ℤ o.port) × (o.port ≤ℤ pos 65535)

module _ (strtol : Bytes → ℤ × Bool) where
  Bounded : Option ℤ → Type 0
  Bounded none = Unit {0}
  Bounded (some v) = IsPort v

  port_of-Bounded : (arg : Bytes) → Bounded (port_of strtol arg)
  unfolding port_of Bounded IsPort
  port_of-Bounded arg =
      let (v, whole) = strtol arg in
      if_elim Bounded (not whole || ltb_ℤ v (pos 1) || ltb_ℤ (pos 65535) v) (λ _. tt)
        (λ h. (ground arith, ground arith))

  done-Accepted :
      (o : ServeOpts) (m : Option Bytes) → o.model ≡ m → IsPort o.port → Accepted (serve_done o m)
  unfolding serve_done Accepted IsPort
  done-Accepted o none h k = tt
  done-Accepted o (some m) h k = ((m, h), k.0, k.1)

  port-Accepted :
      (v : Option ℤ) (msg : Bytes) (again : ℤ → Parsed ServeOpts)
      → Bounded v
      → ((n : ℤ) → IsPort n → Accepted (again n))
      → Accepted (elim v [ none ↦ refused msg | some n ↦ again n ])
  unfolding Bounded Accepted
  port-Accepted none msg again h k = tt
  port-Accepted (some n) msg again h k = k n h

  args-Accepted :
      (args : List Bytes) (o : ServeOpts) → IsPort o.port → Accepted (serve_args strtol args o)
  unfolding serve_args
  args-Accepted [] o k = done-Accepted o o.model refl k
  args-Accepted (arg ∷ []) o k =
      let no : (msg : Bytes) → Accepted (refused msg) = λ msg. unfold Accepted in tt in
      if_elim Accepted (bytes_eq arg (codes "--model")) (λ _. no _)
        (λ _.
          if_elim Accepted (bytes_eq arg (codes "--port")) (λ _. no _)
            (λ _. if_elim Accepted (bytes_eq arg (codes "--host")) (λ _. no _) (λ _. no _)))
  args-Accepted (arg ∷ value ∷ args) o k =
      if_elim Accepted (bytes_eq arg (codes "--model"))
        (λ _. args-Accepted args (record o { model = some value }) k)
        (λ _.
          if_elim Accepted (bytes_eq arg (codes "--port"))
            (λ _.
              port-Accepted (port_of strtol value) _
                (λ v. serve_args strtol args (record o { port = v })) (port_of-Bounded value)
                (λ n h. args-Accepted args (record o { port = n }) h))
            (λ _.
              if_elim Accepted (bytes_eq arg (codes "--host"))
                (λ _. args-Accepted args (record o { host = value }) k)
                (λ _. unfold Accepted in tt)))

-- Options of `serve` that are accepted name a model and have a port from 1 to 65535, whatever `strtol`
-- makes of a text.
pub serve_accepted :
    (strtol : Bytes → ℤ × Bool) (args : List Bytes) (o : ServeOpts)
    → cli_parse_serve strtol args ≡ parsed o
    → ((m : Bytes) × (o.model ≡ some m)) × (pos 1 ≤ℤ o.port) × (o.port ≤ℤ pos 65535)
unfolding cli_parse_serve Accepted IsPort
serve_accepted strtol args o h = subst Accepted h (
    args-Accepted strtol args (record { model = none; host = codes "127.0.0.1"; port = pos 8080 })
      (omega arith, omega arith))
