-- ===== src/Http/Server/Read.antt =====
-- http/server.c, what is read on a connection: `on_read` with its loop over the requests in a buffer,
-- and `dispatch`. A handler and llhttp are parameters.
pub mod Sticky
pub mod Sound
use mlxd.Base.{
  ℕ, zero, suc, ◌+◌, Bool, true, false, not, ◌&&◌, ◌||◌, Option, none, some, List, [], ◌∷◌, ◌++◌,
  length, get_elem?, set, drop, ◌==◌, if◌then◌else◌, Bytes, codes, bytes_eq,
}
use mlxd.Http.Parser.{
  Llhttp, Ctx, Status, incomplete, complete, failed, too_large, Parsed, http_parser_feed,
  http_parser_reset,
}
use mlxd.Http.Router.{Router, http_router_match, http_router_path_exists}
use mlxd.Http.Server.{
  Conn, Server, Out, Wire, response, preflight, sse_head, close_conn, queue_write,
  http_conn_set_observer, put,
}

-- What a handler comes to: a response with its status, or a request that goes on by itself, as the
-- context of an observer, with whether the head of an event stream was written.
pub data Answer : Type 0 where
  responds : ℕ → Answer
  defers : ℕ → Bool → Answer

-- What surrounds a read: llhttp and its allocations, the routes, the handlers, whether a message can be
-- built, and whether a write is queued.
pub record Env (P H : Type 0) : Type 0 where
  pub lib : Llhttp P
  pub grows : ℕ → Bool
  pub router : Router H
  pub handle : H → Parsed → Answer
  pub built : Wire → Bool
  pub sent : Wire → Bool

module _ {P H : Type 0} (env : Env P H) where
  -- A message that is written if it can be built.
  pub send_or_close : Server P → ℕ → Wire → Bool → Server P × List Out
  send_or_close s i wire close_after =
      if env.built wire then queue_write (env.sent wire) s i wire close_after else close_conn s i

  -- `write_error`
  pub write_error : Server P → ℕ → ℕ → Bool → Server P × List Out
  unfolding send_or_close
  write_error s i status keep_alive = send_or_close s i (response status) (not keep_alive)

  own_at : Server P → ℕ → Option (Conn P) → Server P
  own_at s i none = s
  own_at s i (some c) = put s i (record c { gen_owned = true })

  -- The context observes the connection, and a stream has its head written, before it is marked.
  deferred : Server P → ℕ → ℕ → Bool → Server P × List Out
  unfolding own_at
  deferred s i ctx head =
      let s₁ = http_conn_set_observer s i (some ctx) in
      let (s₂, o) =
        if head then queue_write (env.sent sse_head) s₁ i sse_head false else (s₁, []) in
      (own_at s₂ i (get_elem? s₂.conns i), o)

  answered : Server P → ℕ → Bool → Answer → Server P × List Out
  unfolding send_or_close deferred
  answered s i keep (responds status) = send_or_close s i (response status) (not keep)
  answered s i keep (defers ctx head) = deferred s i ctx head

  routed : Server P → ℕ → Parsed → Option H → Server P × List Out
  unfolding answered write_error
  routed s i pr (some h) = answered s i pr.keep_alive (env.handle h pr)
  routed s i pr none =
      if http_router_path_exists env.router pr.path
      then write_error s i 405 pr.keep_alive
      else write_error s i 404 pr.keep_alive

  -- `dispatch`; none where the request was not written, so that its method is NULL in `strcmp`.
  pub dispatch : Server P → ℕ → Option Parsed → Option (Server P × List Out)
  unfolding routed send_or_close bytes_eq
  dispatch s i none = none
  dispatch s i (some pr) =
      if bytes_eq pr.method (codes "OPTIONS")
      then some (send_or_close s i preflight (not pr.keep_alive))
      else some (routed s i pr (http_router_match env.router pr.method pr.path))

  -- The end of a read: a NULL method, too little fuel, or the server after it.
  pub data Read : Type 0 where
    null_method out_of_fuel : Read
    finished : Server P → List Out → Read

  ahead : List Out → Read → Read
  ahead o null_method = null_method
  ahead o out_of_fuel = out_of_fuel
  ahead o (finished s o') = finished s (o ++ o')

  finish : Server P × List Out → Read
  finish (s, o) = finished s o

  -- Whether the loop goes on with the connection.
  reads_on : Option Parsed → Option (Conn P) → Bool
  reads_on none c = false
  reads_on (some pr) none = false
  reads_on (some pr) (some c) = pr.keep_alive && not c.closing && not c.gen_owned

  reset_at : Server P → ℕ → Option (Conn P) → Server P
  reset_at s i none = s
  reset_at s i (some c) = put s i (record c { parser = http_parser_reset env.lib c.parser })

  -- The rest of a round, where `again` goes on from a server.
  after_dispatch : (Server P → Read) → ℕ → Option Parsed → Option (Server P × List Out) → Read
  unfolding ahead reads_on reset_at
  after_dispatch again i pr none = null_method
  after_dispatch again i pr (some (s, o)) =
      let c = get_elem? s.conns i in
      let rest : Read = ahead o (again (reset_at s i c)) in
      if reads_on pr c then rest else finished s o

  by_status : (Server P → Read) → Server P → ℕ → Status → Option Parsed → Read
  unfolding after_dispatch dispatch write_error finish
  by_status again s i incomplete pr = finished s []
  by_status again s i failed pr = finish (write_error s i 400 false)
  by_status again s i too_large pr = finish (write_error s i 413 false)
  by_status again s i complete pr = after_dispatch again i pr (dispatch s i pr)

  -- One round on an open connection `c`, where `again` goes on with the bytes that are left.
  round : (Bytes → Server P → Read) → Server P → ℕ → Conn P → Bytes → Read
  unfolding by_status
  round again s i c bytes =
      let (st, ctx, pr) = http_parser_feed env.lib env.grows c.parser bytes in
      by_status (again (drop ctx.consumed bytes)) (put s i (record c { parser = ctx })) i st pr

  round_at : (Bytes → Server P → Read) → Server P → ℕ → Option (Conn P) → Bytes → Read
  unfolding round
  round_at again s i none bytes = finished s []
  round_at again s i (some c) [] = finished s []
  round_at again s i (some c) (b ∷ bytes) =
      if c.closing then finished s [] else round again s i c (b ∷ bytes)

  -- The loop, on what is left of the buffer.
  pub read_loop : ℕ → ℕ → Bytes → Server P → Read
  unfolding round_at
  read_loop zero i bytes s = out_of_fuel
  read_loop (suc fuel) i bytes s = round_at (read_loop fuel i) s i (get_elem? s.conns i) bytes

  is_owned : Option (Conn P) → Bool
  is_owned none = true
  is_owned (some c) = c.gen_owned

  -- `on_read`, for an error or for bytes; no bytes are `nread == 0`.
  pub on_read : Server P → ℕ → Option Bytes → Read
  unfolding read_loop is_owned finish
  on_read s i none = finish (close_conn s i)
  on_read s i (some bytes) =
      if length bytes == 0
      then finished s []
      else if is_owned (get_elem? s.conns i)
      then finished s []
      else read_loop (suc (length bytes)) i bytes s
