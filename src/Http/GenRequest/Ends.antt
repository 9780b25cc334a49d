-- ===== src/Http/GenRequest/Ends.antt =====
-- The ends of responses among the things that a request does.
use mlxd.Base.{ℕ, ◌+◌, ◌≡◌, Bool, true, false, List, [], ◌∷◌, ◌++◌, arith}
use mlxd.Http.GenRequest.{
  Request, Out, writes, closes, unobserves, starts_timer, stops_timer, closes_timer, closes_async,
  releases,
}

abbrev pub count : Bool → ℕ
count true = 1
count false = 0

-- A write that closes the connection after it, or a closing without a write.
abbrev pub end_of : Out → ℕ
end_of (writes p close_after) = count close_after
end_of closes = 1
end_of unobserves = 0
end_of starts_timer = 0
end_of stops_timer = 0
end_of closes_timer = 0
end_of closes_async = 0
end_of (releases r) = 0

abbrev pub ends : List Out → ℕ
ends [] = 0
ends (x ∷ o) = end_of x + ends o

pub ends-append : (o o' : List Out) → ends (o ++ o') ≡ ends o + ends o'
ends-append [] o' = omega arith
ends-append (x ∷ o) o' = omega (arith, ends-append o o')

-- One for the connection while it is attached, and one once its peer is gone.
abbrev pub owed : Request → ℕ
owed gr = count gr.conn + count gr.conn_gone
