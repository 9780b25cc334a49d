-- ===== src/Http/Server.antt =====
-- http/server.c: connections, dispatch, and the graceful stop. A connection is named by its place in
-- the list of those that were accepted; what libuv is asked to do is reported.
pub mod Draining
pub mod Read
use mlxd.Base.{
  ℕ, zero, suc, ◌+◌, ◌-◌, Bool, true, false, not, ◌&&◌, ◌||◌, Option, none, some, List, [], ◌∷◌,
  ◌++◌, length, get_elem?, set, drop, ltb, ◌==◌, if◌then◌else◌, Bytes, codes, bytes_eq,
}
use mlxd.Http.Parser.{
  Llhttp, Ctx, Status, incomplete, complete, failed, too_large, Parsed, http_parser_create,
  http_parser_feed, http_parser_reset,
}

-- `struct conn`. `on_gone` is the context of the observer, none where it is NULL.
pub record Conn (P : Type 0) : Type 0 where
  pub parser : Ctx P
  pub closing : Bool
  pub gen_owned : Bool
  pub on_gone : Option ℕ

-- `struct http_server`, as far as it changes while the loop runs.
pub record Server (P : Type 0) : Type 0 where
  pub conns : List (Conn P)
  pub draining : Bool
  pub drain_timer_active : Bool
  pub drain_open_conns : ℕ

-- What is written for a response: its status, or the answer to OPTIONS.
pub data Wire : Type 0 where
  response : ℕ → Wire
  preflight : Wire
  sse_head : Wire

pub data Out : Type 0 where
  -- `uv_write` on a connection, with `close_after`; `uv_close` on it
  writes : ℕ → Wire → Bool → Out
  closes_conn : ℕ → Out
  -- `on_conn_gone` and `gen_request_drain` with a context
  gone drains : ℕ → Out
  -- the drain timer, the listener with the stop handle, and `engine_signal_shutdown`
  starts_timer stops_timer closes_listener signals_shutdown : Out

gone_event : Option ℕ → List Out
gone_event none = []
gone_event (some ctx) = gone ctx ∷ []

module _ {P : Type 0} where
  -- `drain_check`, where the counter is above 0 as long as the timer is active
  pub drain_check : Server P → Server P × List Out
  drain_check s =
      if not s.draining || not s.drain_timer_active
      then (s, [])
      else if s.drain_open_conns == 1
      then (record s { drain_open_conns = 0; drain_timer_active = false }, stops_timer ∷ [])
      else (record s { drain_open_conns = s.drain_open_conns - 1 }, [])

  pub put : Server P → ℕ → Conn P → Server P
  put s i c = record s { conns = set s.conns i c }

  close_open : Server P → ℕ → Conn P → Server P × List Out
  unfolding drain_check gone_event put
  close_open s i c =
      if c.closing
      then (s, [])
      else (let (s', o) = drain_check (put s i (record c { closing = true; on_gone = none })) in
          (s', gone_event c.on_gone ++ (closes_conn i ∷ o)))

  close_at : Server P → ℕ → Option (Conn P) → Server P × List Out
  unfolding close_open
  close_at s i none = (s, [])
  close_at s i (some c) = close_open s i c

  -- `close_conn`
  pub close_conn : Server P → ℕ → Server P × List Out
  unfolding close_at
  close_conn s i = close_at s i (get_elem? s.conns i)

  is_closing : Option (Conn P) → Bool
  is_closing none = true
  is_closing (some c) = c.closing

  -- `queue_write`, with whether it finds memory and `uv_write` takes the bytes
  pub queue_write : Bool → Server P → ℕ → Wire → Bool → Server P × List Out
  unfolding close_conn is_closing
  queue_write sent s i wire close_after =
      if is_closing (get_elem? s.conns i)
      then (s, [])
      else if sent
      then (s, writes i wire close_after ∷ [])
      else close_conn s i

  -- `on_write`, with the status of the write
  pub on_write : Server P → ℕ → Bool → Bool → Server P × List Out
  unfolding close_conn
  on_write s i close_after ok = if close_after || not ok then close_conn s i else (s, [])

  -- `http_conn_set_observer`
  observe_at : Server P → ℕ → Option ℕ → Option (Conn P) → Server P
  unfolding put
  observe_at s i ctx none = s
  observe_at s i ctx (some c) = put s i (record c { on_gone = ctx })

  pub http_conn_set_observer : Server P → ℕ → Option ℕ → Server P
  unfolding observe_at
  http_conn_set_observer s i ctx = observe_at s i ctx (get_elem? s.conns i)

  -- `on_new_connection`: the outcomes of `calloc`, `uv_accept` and `http_parser_create`
  pub on_new_connection : Llhttp P → ℕ → Bool → Bool → Bool → Server P → Server P
  on_new_connection lib max_body memory accepted parser s =
      if memory && accepted && parser
      then record s {
        conns =
            s.conns
            ++ record {
              parser = http_parser_create lib max_body;
              closing = false;
              gen_owned = false;
              on_gone = none;
            }
              ∷ [];
      }
      else s

  -- The walk of `on_stop_async` over a connection: whether it counts, and what is left of it.
  drained_conn : ℕ → Conn P → ℕ × Conn P × List Out
  unfolding gone_event
  drained_conn i c =
      if c.closing
      then (0, c, [])
      else if c.gen_owned
      then (1, c, elim c.on_gone [ none ↦ [] | some ctx ↦ drains ctx ∷ [] ])
      else (
        0,
        record c { closing = true; on_gone = none },
        gone_event c.on_gone ++ closes_conn i ∷ [],
      )

  walk_drain : ℕ → List (Conn P) → ℕ × List (Conn P) × List Out
  unfolding drained_conn
  walk_drain i [] = (0, [], [])
  walk_drain i (c ∷ cs) =
      let (k, c', o) = drained_conn i c in
      let (n, cs', o') = walk_drain (suc i) cs in (k + n, c' ∷ cs', o ++ o')

  -- `on_stop_async`, for an engine that is there, where `uv_timer_init` returns 0 as it always does. While the walk closes connections the timer is not
  -- yet active, so that `drain_check` does nothing.
  pub on_stop_async : Server P → Server P × List Out
  unfolding walk_drain
  on_stop_async s =
      let (n, cs, o) = walk_drain 0 s.conns in
      if s.draining then (s, []) else (
        record s {
          draining = true;
          conns = cs;
          drain_open_conns = if ltb 0 n then n else s.drain_open_conns;
          drain_timer_active = if ltb 0 n then true else s.drain_timer_active;
        },
        closes_listener ∷ o ++ (signals_shutdown ∷ (if ltb 0 n then starts_timer ∷ [] else [])),
      )

  -- `on_drain_timeout`: the connections that are open are closed, in turn.
  force_close : ℕ → ℕ → Server P → Server P × List Out
  unfolding close_conn
  force_close zero i s = (s, [])
  force_close (suc n) i s =
      let (s', o) = close_conn s i in let (s'', o') = force_close n (suc i) s' in (s'', o ++ o')

  pub on_drain_timeout : Server P → Server P × List Out
  unfolding force_close
  on_drain_timeout s =
      let (s', o) = force_close (length s.conns) 0 (record s { drain_timer_active = false }) in
      (s', o ++ (stops_timer ∷ signals_shutdown ∷ []))
