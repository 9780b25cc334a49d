-- ===== src/Http/GenRequest/Drain/Closing.antt =====
-- A drain ends the response at most once, and only by detaching the connection.
use mlxd.Base.{
  ℕ, zero, suc, ◌+◌, ◌≡◌, refl, Bool, true, false, not, ◌&&◌, Option, none, some, List, length, ltb,
  leb, ◌==◌, if_elim, arith, Bytes, codes,
}
use mathlib.Core.Path.{subst}
use mlxd.Engine.Stream.{Chunk, token, error, done, Next, internal}
use mlxd.Model.Detok.{detok_feed}
use mlxd.Http.GenRequest.{Request, Out, accum_append, cancel_stream}
use mlxd.Http.GenRequest.Ends.{count, ends, ends-append, owed}
use mlxd.Http.GenRequest.Respond.{Env, dup}
use mlxd.Http.GenRequest.Respond.Closing.{
  Balanced, emit-Balanced, finish_error-Balanced, finish_response-Balanced,
}
use mlxd.Http.GenRequest.Drain.{
  Drained, drained, null_stream, out_of_fuel, before, stops_with, fail, streamed, throttled,
  with_logprob, or_fail, then_logprob, on_piece, on_token, on_chunk, next_of, go_on, turn, drain,
  fuel_for, gen_on_async, EngineAct, engine_acts, Turn, ran, this_turn, later, backpressure_hwm,
}

-- `Balanced` for a turn of the loop, and for the loop.
Kept : ℕ → Bool × Request × List Out → Type 0
Kept n (b, gr, o) = ends o + owed gr ≡ n

Settled : ℕ → Drained → Type 0
Settled n null_stream = Unit {0}
Settled n out_of_fuel = Unit {0}
Settled n (drained gr o) = ends o + owed gr ≡ n

stops-Kept : (n : ℕ) (r : Request × List Out) → Balanced n r → Kept n (stops_with r)
unfolding Kept stops_with Balanced
stops-Kept n (gr, o) h = h

module _ (env : Env) where
  fail-Kept : (gr : Request) (msg : Bytes) → Kept (owed gr) (fail env gr msg)
  unfolding fail cancel_stream
  fail-Kept gr msg =
      stops-Kept (owed gr) _ (finish_error-Balanced env (cancel_stream gr) (dup env msg) internal)

  Attached : Request → Option Request → Type 0
  Attached gr none = Unit {0}
  Attached gr (some gr') = owed gr' ≡ owed gr

  append-Attached : (grow : Bool) (gr : Request) (s : Bytes) → Attached gr (accum_append grow gr s)
  unfolding accum_append Attached
  append-Attached grow gr s =
      if_elim (Attached gr) (length s == 0) (λ _. refl)
        (λ _.
          if_elim (Attached gr) (ltb gr.accum_cap (length gr.accum + length s))
            (λ _. if_elim (Attached gr) grow (λ _. refl) (λ _. tt)) (λ _. refl))

  logprob-Attached :
      (k : ℕ) (gr : Request) (p : Bytes) (lp : ℕ) → Attached gr (with_logprob env k gr p lp)
  unfolding with_logprob Attached
  logprob-Attached k gr p lp =
      if_elim (Attached gr) gr.logprobs
        (λ _.
          if_elim (Attached gr) (leb gr.lp_cap (length gr.lp_entries))
            (λ _. if_elim (Attached gr) (env.lp_grow k) (λ _. refl) (λ _. tt)) (λ _. refl))
        (λ _. refl)

  or_fail-Kept :
      (gr : Request) (o : Option Request) → Attached gr o → Kept (owed gr) (or_fail env gr o)
  unfolding or_fail Attached Kept
  or_fail-Kept gr none h = fail-Kept gr (codes "out of memory")
  or_fail-Kept gr (some x) h = omega (arith, h)

  then_logprob-Kept :
      (k : ℕ) (gr : Request) (p : Bytes) (lp : ℕ) (o : Option Request)
      → Attached gr o
      → Kept (owed gr) (then_logprob env k gr p lp o)
  unfolding then_logprob Attached
  then_logprob-Kept k gr p lp none h = fail-Kept gr (codes "out of memory")
  then_logprob-Kept k gr p lp (some gr') h =
      subst (λ n. Kept n (then_logprob env k gr p lp (some gr'))) h
        (or_fail-Kept gr' (with_logprob env k gr' p lp) (logprob-Attached k gr' p lp))

  streamed-Balanced :
      (k : ℕ) (gr : Request) (piece : Bytes) (lp : ℕ)
      → Balanced (owed gr) (streamed env k gr piece lp)
  unfolding streamed Balanced
  streamed-Balanced k gr piece lp =
      if_elim (Balanced (owed gr)) (ltb 0 (length piece)) (λ _. emit-Balanced env gr piece lp)
        (λ _. omega arith)

  throttled-owed : (k : ℕ) (gr : Request) → owed (throttled env k gr) ≡ owed gr
  unfolding throttled cancel_stream
  throttled-owed k gr =
      if_elim (λ (r : Request). owed r ≡ owed gr)
        (not gr.conn_gone
          && not gr.suppress_writes
          && gr.conn
          && ltb backpressure_hwm (env.queued k))
        (λ _. refl) (λ _. refl)

  piece-Kept :
      (k lp : ℕ) (piece : Option Bytes) (gr : Request) → Kept (owed gr) (on_piece env k lp piece gr)
  unfolding on_piece Kept Balanced
  piece-Kept k lp none gr = fail-Kept gr (codes "detokenizer error")
  piece-Kept k lp (some p) gr =
      if_elim (Kept (owed gr)) gr.sse
        (λ _.
          let b = streamed-Balanced k gr p lp in
          omega (arith, b, throttled-owed k (streamed env k gr p lp).0))
        (λ _.
          if_elim (Kept (owed gr)) (ltb 0 (length p))
            (λ _.
              then_logprob-Kept k gr p lp (accum_append (env.accum_grow k) gr p)
                (append-Attached (env.accum_grow k) gr p))
            (λ _. omega arith))

  chunk-Kept : (gr : Request) (c : Chunk) → Kept (owed gr) (on_chunk env gr c)
  unfolding on_chunk on_token
  chunk-Kept gr (token id lp) =
      let k = gr.completion_tokens in
      let r = detok_feed (env.decode id) (env.feed_grow k) (env.feed_alloc k) gr.detok in
      piece-Kept k lp r.0 (record gr { completion_tokens = k + 1; detok = r.1 })
  chunk-Kept gr (error msg kind) =
      stops-Kept (owed gr) _ (finish_error-Balanced env gr (some msg) kind)
  chunk-Kept gr (done reason) = stops-Kept (owed gr) _ (finish_response-Balanced env gr reason)

  before-Settled :
      (n m : ℕ) (o : List Out) (d : Drained) → ends o + n ≡ m → Settled n d → Settled m (before o d)
  unfolding Settled before
  before-Settled n m o null_stream h k = tt
  before-Settled n m o out_of_fuel h k = tt
  before-Settled n m o (drained gr o') h k = omega (arith, ends-append o o', h, k)

  go_on-Settled :
      (again : Request → Drained) (n : ℕ) (r : Bool × Request × List Out)
      → Kept n r
      → ((gr : Request) → Settled (owed gr) (again gr))
      → Settled n (go_on again r)
  unfolding go_on Kept Settled
  go_on-Settled again n (true, gr, o) h k = before-Settled (owed gr) n o (again gr) h (k gr)
  go_on-Settled again n (false, gr, o) h k = h

  turn-Settled :
      (as' : List EngineAct) (again : Request → Drained) (gr : Request) (x : Option Next)
      → ((gr' : Request) → Settled (owed gr') (again gr'))
      → Settled (owed gr) (turn env as' again gr x)
  unfolding turn Settled
  turn-Settled as' again gr none k = tt
  turn-Settled as' again gr (some Next.waits) k = omega arith
  turn-Settled as' again gr (some Next.nothing) k = omega arith
  turn-Settled as' again gr (some (Next.got c s)) k =
      let gr' : Request = record gr { stream = some (engine_acts s as') } in
      go_on-Settled again (owed gr) (on_chunk env gr' c) (chunk-Kept gr' c) k

  drain-Settled :
      (fuel : ℕ) (ts : List Turn) (gr : Request) → Settled (owed gr) (drain env fuel ts gr)
  unfolding drain Settled ran
  drain-Settled zero ts gr = tt
  drain-Settled (suc fuel) ts gr =
      let gr' : Request = ran (this_turn ts).ahead gr in
      turn-Settled (this_turn ts).between (drain env fuel (later ts)) gr' (next_of gr'.stream)
        (drain-Settled fuel (later ts))

  async-Settled : (ts : List Turn) (gr : Request) → Settled (owed gr) (gen_on_async env ts gr)
  unfolding gen_on_async Settled
  async-Settled ts gr =
      if_elim (Settled (owed gr)) gr.closing (λ _. omega arith)
        (λ _. drain-Settled (fuel_for ts gr.stream) ts gr)

-- Whatever the allocations, the writes and the chunks come to, and whatever the engine thread does to the
-- stream meanwhile, if a drain ends then the ends of the
-- response that it has made (a write that closes the connection after it, or a closing), with one for
-- a connection still attached and one for a peer that is gone, are as many as those two were before.
pub single_ending :
    (env : Env) (ts : List Turn) (gr gr' : Request) (o : List Out)
    → gen_on_async env ts gr ≡ drained gr' o
    → ends o + (count gr'.conn + count gr'.conn_gone) ≡ count gr.conn + count gr.conn_gone
unfolding Settled
single_ending env ts gr gr' o h = subst (Settled (owed gr)) h (async-Settled env ts gr)
