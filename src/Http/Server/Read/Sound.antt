-- ===== src/Http/Server/Read/Sound.antt =====
-- Every history of a server keeps the drain counter right.
use mlxd.Base.{
  ℕ, zero, suc, ◌≡◌, refl, Bool, true, false, not, ◌&&◌, Option, none, some, List, [], ◌∷◌, length,
  get_elem?, ◌==◌, if_elim, if◌then◌else◌, Bytes, bytes_eq, codes, drop,
}
use mlxd.Http.Parser.{Status, incomplete, complete, failed, too_large, Parsed, http_parser_feed}
use mlxd.Http.Router.{http_router_match, http_router_path_exists}
use mlxd.Http.Server.{
  Conn, Server, Out, Wire, response, preflight, sse_head, close_conn, queue_write, on_write, put,
  http_conn_set_observer, on_new_connection, on_stop_async, on_drain_timeout,
}
use mlxd.Http.Server.Draining.{
  IsSound, Counts, before_stop, close_conn-IsSound, queue_write-IsSound, on_write-IsSound,
  observe-IsSound, put-IsSound,
}
use mlxd.Http.Server.Draining.Stopping.{on_stop-IsSound, on_timeout-IsSound}
use mlxd.Http.Server.Read.{
  Env, Answer, responds, defers, Read, null_method, out_of_fuel, finished, send_or_close,
  write_error, own_at, deferred, answered, routed, dispatch, ahead, finish, reads_on, reset_at,
  after_dispatch, by_status, round, round_at, read_loop, is_owned, on_read,
}

module _ {P H : Type 0} (env : Env P H) where
  -- What comes of a call is sound.
  Keeps : Server P × List Out → Type 0
  Keeps (s, o) = IsSound s

  send-Keeps :
      (s : Server P) (i : ℕ) (w : Wire) (close_after : Bool)
      → IsSound s
      → Keeps (send_or_close env s i w close_after)
  unfolding send_or_close Keeps
  send-Keeps s i w close_after v =
      if_elim Keeps (env.built w) (λ _. queue_write-IsSound (env.sent w) s i w close_after v)
        (λ _. close_conn-IsSound s i v)

  error-Keeps :
      (s : Server P) (i status : ℕ) (keep : Bool)
      → IsSound s
      → Keeps (write_error env s i status keep)
  unfolding write_error
  error-Keeps s i status keep v = send-Keeps s i (response status) (not keep) v

  own-IsSound :
      (s : Server P) (i : ℕ) (o : Option (Conn P))
      → get_elem? s.conns i ≡ o
      → IsSound s
      → IsSound (own_at env s i o)
  unfolding own_at
  own-IsSound s i none e v = v
  own-IsSound s i (some c) e v = put-IsSound s i c (record c { gen_owned = true }) e refl v

  deferred-Keeps :
      (s : Server P) (i ctx : ℕ) (head : Bool) → IsSound s → Keeps (deferred env s i ctx head)
  unfolding deferred Keeps
  deferred-Keeps s i ctx head v =
      let s₁ = http_conn_set_observer s i (some ctx) in
      let w = observe-IsSound s i (some ctx) v in
      let r : Server P × List Out =
        if head then queue_write (env.sent sse_head) s₁ i sse_head false else (s₁, []) in
      let u : IsSound r.0 =
        if_elim Keeps head (λ _. queue_write-IsSound (env.sent sse_head) s₁ i sse_head false w)
          (λ _. w) in
      own-IsSound r.0 i (get_elem? r.0.conns i) refl u

  answered-Keeps :
      (s : Server P) (i : ℕ) (keep : Bool) (a : Answer)
      → IsSound s
      → Keeps (answered env s i keep a)
  unfolding answered
  answered-Keeps s i keep (responds status) v = send-Keeps s i (response status) (not keep) v
  answered-Keeps s i keep (defers ctx head) v = deferred-Keeps s i ctx head v

  routed-Keeps :
      (s : Server P) (i : ℕ) (pr : Parsed) (h : Option H) → IsSound s → Keeps (routed env s i pr h)
  unfolding routed
  routed-Keeps s i pr (some h) v = answered-Keeps s i pr.keep_alive (env.handle h pr) v
  routed-Keeps s i pr none v =
      if_elim Keeps (http_router_path_exists env.router pr.path)
        (λ _. error-Keeps s i 405 pr.keep_alive v) (λ _. error-Keeps s i 404 pr.keep_alive v)

  Dispatched : Option (Server P × List Out) → Type 0
  Dispatched none = Unit {0}
  Dispatched (some r) = Keeps r

  dispatch-Dispatched :
      (s : Server P) (i : ℕ) (pr : Option Parsed) → IsSound s → Dispatched (dispatch env s i pr)
  unfolding dispatch Dispatched
  dispatch-Dispatched s i none v = tt
  dispatch-Dispatched s i (some pr) v =
      if_elim Dispatched (bytes_eq pr.method (codes "OPTIONS"))
        (λ _. send-Keeps s i preflight (not pr.keep_alive) v)
        (λ _. routed-Keeps s i pr (http_router_match env.router pr.method pr.path) v)

  -- A read that comes to an end leaves a sound server.
  pub Reads : Read env → Type 0
  Reads null_method = Unit {0}
  Reads out_of_fuel = Unit {0}
  Reads (finished s o) = IsSound s

  ahead-Reads : (o : List Out) (r : Read env) → Reads r → Reads (ahead env o r)
  unfolding ahead Reads
  ahead-Reads o null_method h = tt
  ahead-Reads o out_of_fuel h = tt
  ahead-Reads o (finished s o') h = h

  finish-Reads : (r : Server P × List Out) → Keeps r → Reads (finish env r)
  unfolding finish Reads Keeps
  finish-Reads (s, o) h = h

  reset-IsSound :
      (s : Server P) (i : ℕ) (o : Option (Conn P))
      → get_elem? s.conns i ≡ o
      → IsSound s
      → IsSound (reset_at env s i o)
  unfolding reset_at
  reset-IsSound s i none e v = v
  reset-IsSound s i (some c) e v = put-IsSound s i c _ e refl v

  after-Reads :
      (again : Server P → Read env) (i : ℕ) (pr : Option Parsed) (o : Option (Server P × List Out))
      → ((s : Server P) → IsSound s → Reads (again s))
      → Dispatched o
      → Reads (after_dispatch env again i pr o)
  unfolding after_dispatch Reads Dispatched Keeps
  after-Reads again i pr none k h = tt
  after-Reads again i pr (some (s, o)) k h =
      let c = get_elem? s.conns i in
      if_elim Reads (reads_on env pr c)
        (λ _. ahead-Reads o _ (k (reset_at env s i c) (reset-IsSound s i c refl h))) (λ _. h)

  status-Reads :
      (again : Server P → Read env) (s : Server P) (i : ℕ) (st : Status) (pr : Option Parsed)
      → ((s' : Server P) → IsSound s' → Reads (again s'))
      → IsSound s
      → Reads (by_status env again s i st pr)
  unfolding by_status Reads
  status-Reads again s i incomplete pr k v = v
  status-Reads again s i failed pr k v = finish-Reads _ (error-Keeps s i 400 false v)
  status-Reads again s i too_large pr k v = finish-Reads _ (error-Keeps s i 413 false v)
  status-Reads again s i complete pr k v = after-Reads again i pr _ k (dispatch-Dispatched s i pr v)

  at-Reads :
      (again : Bytes → Server P → Read env) (s : Server P) (i : ℕ) (o : Option (Conn P))
      (bytes : Bytes)
      → get_elem? s.conns i ≡ o
      → ((rest : Bytes) (s' : Server P) → IsSound s' → Reads (again rest s'))
      → IsSound s
      → Reads (round_at env again s i o bytes)
  unfolding round_at round Reads
  at-Reads again s i none bytes e k v = v
  at-Reads again s i (some c) [] e k v = v
  at-Reads again s i (some c) (b ∷ bytes) e k v =
      let r = http_parser_feed env.lib env.grows c.parser (b ∷ bytes) in
      if_elim Reads c.closing (λ _. v)
        (λ _.
          status-Reads (again (drop r.1.consumed (b ∷ bytes))) (put s i (record c { parser = r.1 }))
            i r.0 r.2 (k (drop r.1.consumed (b ∷ bytes)))
            (put-IsSound s i c (record c { parser = r.1 }) e refl v))

  loop-Reads :
      (fuel i : ℕ) (bytes : Bytes) (s : Server P) → IsSound s → Reads (read_loop env fuel i bytes s)
  unfolding read_loop Reads
  loop-Reads zero i bytes s v = tt
  loop-Reads (suc fuel) i bytes s v =
      at-Reads (read_loop env fuel i) s i (get_elem? s.conns i) bytes refl (loop-Reads fuel i) v

  read-Reads : (s : Server P) (i : ℕ) (o : Option Bytes) → IsSound s → Reads (on_read env s i o)
  unfolding on_read
  read-Reads s i none v = finish-Reads _ (unfold Keeps in close_conn-IsSound s i v)
  read-Reads s i (some bytes) v =
      if_elim Reads (length bytes == 0) (λ _. unfold Reads in v)
        (λ _.
          if_elim Reads (is_owned env (get_elem? s.conns i)) (λ _. unfold Reads in v)
            (λ _. loop-Reads (suc (length bytes)) i bytes s v))

  -- What the loop calls: an accepted connection (with its allocations), a read, the end of a write, a
  -- request that lets its connection go or closes it, the stop, and the deadline.
  pub data Event : Type 0 where
    accepts : ℕ → Bool → Bool → Bool → Event
    reads : ℕ → Option Bytes → Event
    written : ℕ → Bool → Bool → Event
    observes : ℕ → Option ℕ → Event
    writes_later : ℕ → Wire → Bool → Event
    closes : ℕ → Event
    stops : Event
    times_out : Event

  after_read : Server P → Read env → Server P
  after_read s null_method = s
  after_read s out_of_fuel = s
  after_read s (finished s' o) = s'

  -- The listener is closed by the stop, and the deadline comes only while the timer runs.
  pub handle : Server P → Event → Server P
  unfolding after_read
  handle s (accepts limit memory accepted parser) =
      if s.draining then s else on_new_connection env.lib limit memory accepted parser s
  handle s (reads i bytes) = after_read s (on_read env s i bytes)
  handle s (written i close_after ok) = (on_write s i close_after ok).0
  handle s (observes i ctx) = http_conn_set_observer s i ctx
  handle s (writes_later i w close_after) = (queue_write (env.sent w) s i w close_after).0
  handle s (closes i) = (close_conn s i).0
  handle s stops = (on_stop_async s).0
  handle s times_out = if s.drain_timer_active then (on_drain_timeout s).0 else s

  pub history : Server P → List Event → Server P
  unfolding handle
  history s [] = s
  history s (e ∷ es) = history (handle s e) es

  pub start : Server P
  start = record { conns = []; draining = false; drain_timer_active = false; drain_open_conns = 0 }

  after-IsSound : (s : Server P) (r : Read env) → IsSound s → Reads r → IsSound (after_read s r)
  unfolding after_read Reads
  after-IsSound s null_method v h = v
  after-IsSound s out_of_fuel v h = v
  after-IsSound s (finished s' o) v h = h

  accept-IsSound :
      (s : Server P) (limit : ℕ) (memory accepted parser : Bool)
      → s.draining ≡ false
      → IsSound s
      → IsSound (on_new_connection env.lib limit memory accepted parser s)
  unfolding on_new_connection
  accept-IsSound s limit memory accepted parser d v =
      if_elim IsSound (memory && accepted && parser) (λ _. before_stop _ _ _ _ _ d v) (λ _. v)

  handle-IsSound : (s : Server P) (e : Event) → IsSound s → IsSound (handle s e)
  unfolding handle
  handle-IsSound s (accepts limit memory accepted parser) v =
      if_elim IsSound s.draining (λ _. v) (λ d. accept-IsSound s limit memory accepted parser d v)
  handle-IsSound s (reads i bytes) v =
      after-IsSound s (on_read env s i bytes) v (read-Reads s i bytes v)
  handle-IsSound s (written i close_after ok) v = on_write-IsSound s i close_after ok v
  handle-IsSound s (observes i ctx) v = observe-IsSound s i ctx v
  handle-IsSound s (writes_later i w close_after) v =
      queue_write-IsSound (env.sent w) s i w close_after v
  handle-IsSound s (closes i) v = close_conn-IsSound s i v
  handle-IsSound s stops v = on_stop-IsSound s v
  handle-IsSound s times_out v =
      if_elim IsSound s.drain_timer_active (λ h. (on_timeout-IsSound s h v).0) (λ _. v)

  run-IsSound : (s : Server P) (es : List Event) → IsSound s → IsSound (history s es)
  unfolding history
  run-IsSound s [] v = v
  run-IsSound s (e ∷ es) v = run-IsSound (handle s e) es (handle-IsSound s e v)

  -- After any events on a server that starts with no connections: before the stop the drain timer is
  -- off, and after it the timer either runs with a counter that is the number of open connections,
  -- which is above 0, or is off with no connection open.
  pub history-IsSound : (es : List Event) → IsSound (history start es)
  unfolding start
  history-IsSound es = run-IsSound start es (unfold Counts in tt)
