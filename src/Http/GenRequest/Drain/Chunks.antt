-- ===== src/Http/GenRequest/Drain/Chunks.antt =====
-- A chunk that is handled leaves the stream as full as it is, unless the loop returns.
use mlxd.Base.{
  ℕ, ◌+◌, ◌≡◌, refl, ◌∙◌, ap, Bool, true, false, not, ◌&&◌, Option, none, some, List, length, ltb,
  leb, ◌==◌, if_elim, Bytes, codes,
}
use mathlib.Core.Path.{subst}
use mlxd.Engine.Stream.{Stream, Chunk, internal, token, error, done, cancel}
use mlxd.Model.Detok.{detok_feed}
use mlxd.Http.GenRequest.{Request, Out, accum_append, cancelled, cancel_stream}
use mlxd.Http.GenRequest.Respond.{Env}
use mlxd.Http.GenRequest.Respond.Laws.{emit-stream, finish_error-conn, finish_response-conn}
use mlxd.Http.GenRequest.Drain.{
  stops_with, fail, streamed, throttled, with_logprob, or_fail, then_logprob, on_piece, on_token,
  on_chunk, backpressure_hwm,
}

-- The number of chunks in the stream, if there is one.
unfoldable pub left : Option Stream → Option ℕ
left none = none
left (some s) = some s.len

left-cancelled : (o : Option Stream) → left (cancelled o) ≡ left o
unfolding left cancelled cancel
left-cancelled none = refl
left-cancelled (some s) = refl

-- If the loop goes on, then with `n` chunks; if not, then without a connection.
unfoldable pub Keeps : Option ℕ → Bool × Request × List Out → Type 0
Keeps n (true, gr, o) = left gr.stream ≡ n
Keeps n (false, gr, o) = gr.conn ≡ false

stops-Keeps : (n : Option ℕ) (r : Request × List Out) → r.0.conn ≡ false → Keeps n (stops_with r)
unfolding Keeps stops_with
stops-Keeps n (gr, o) h = h

module _ (env : Env) where
  throttled-left : (k : ℕ) (gr : Request) → left (throttled env k gr).stream ≡ left gr.stream
  unfolding throttled cancel_stream
  throttled-left k gr =
      if_elim (λ (r : Request). left r.stream ≡ left gr.stream)
        (not gr.conn_gone
          && not gr.suppress_writes
          && gr.conn
          && ltb backpressure_hwm (env.queued k))
        (λ _. left-cancelled gr.stream) (λ _. refl)

  streamed-left :
      (k : ℕ) (gr : Request) (piece : Bytes) (lp : ℕ)
      → env.sent gr.completion_tokens ≡ true
      → left (streamed env k gr piece lp).0.stream ≡ left gr.stream
  unfolding streamed
  streamed-left k gr piece lp h =
      if_elim (λ (r : Request × List Out). left r.0.stream ≡ left gr.stream) (ltb 0 (length piece))
        (λ _. ap left (emit-stream env gr piece lp h)) (λ _. refl)

  fail-Keeps : (n : Option ℕ) (gr : Request) (msg : Bytes) → Keeps n (fail env gr msg)
  unfolding fail
  fail-Keeps n gr msg = stops-Keeps n _ (finish_error-conn env (cancel_stream gr) _ internal)

  Same : Request → Option Request → Type 0
  Same gr none = Unit {0}
  Same gr (some gr') = gr'.stream ≡ gr.stream

  or_fail-Keeps :
      (gr gr' : Request) (o : Option Request)
      → Same gr o
      → Keeps (left gr.stream) (or_fail env gr' o)
  unfolding or_fail Same Keeps
  or_fail-Keeps gr gr' none h = fail-Keeps (left gr.stream) gr' (codes "out of memory")
  or_fail-Keeps gr gr' (some x) h = ap left h

  logprob-Same : (k : ℕ) (gr : Request) (p : Bytes) (lp : ℕ) → Same gr (with_logprob env k gr p lp)
  unfolding with_logprob Same
  logprob-Same k gr p lp =
      if_elim (Same gr) gr.logprobs
        (λ _.
          if_elim (Same gr) (leb gr.lp_cap (length gr.lp_entries))
            (λ _. if_elim (Same gr) (env.lp_grow k) (λ _. refl) (λ _. tt)) (λ _. refl))
        (λ _. refl)

  append-Same : (grow : Bool) (gr : Request) (s : Bytes) → Same gr (accum_append grow gr s)
  unfolding accum_append Same
  append-Same grow gr s =
      if_elim (Same gr) (length s == 0) (λ _. refl)
        (λ _.
          if_elim (Same gr) (ltb gr.accum_cap (length gr.accum + length s))
            (λ _. if_elim (Same gr) grow (λ _. refl) (λ _. tt)) (λ _. refl))

  then_logprob-Keeps :
      (k : ℕ) (gr : Request) (p : Bytes) (lp : ℕ) (o : Option Request)
      → Same gr o
      → Keeps (left gr.stream) (then_logprob env k gr p lp o)
  unfolding then_logprob Same
  then_logprob-Keeps k gr p lp none h = fail-Keeps (left gr.stream) gr (codes "out of memory")
  then_logprob-Keeps k gr p lp (some gr') h =
      subst (λ n. Keeps n (then_logprob env k gr p lp (some gr'))) (ap left h)
        (or_fail-Keeps gr' gr' (with_logprob env k gr' p lp) (logprob-Same k gr' p lp))

  module _ (all_sent : (k : ℕ) → env.sent k ≡ true) where
    piece-Keeps :
        (k lp : ℕ) (piece : Option Bytes) (gr : Request)
        → Keeps (left gr.stream) (on_piece env k lp piece gr)
    unfolding on_piece Keeps
    piece-Keeps k lp none gr = fail-Keeps (left gr.stream) gr (codes "detokenizer error")
    piece-Keeps k lp (some p) gr =
        if_elim (Keeps (left gr.stream)) gr.sse
          (λ _.
            throttled-left k (streamed env k gr p lp).0
            ∙ streamed-left k gr p lp (all_sent gr.completion_tokens))
          (λ _.
            if_elim (Keeps (left gr.stream)) (ltb 0 (length p))
              (λ _.
                then_logprob-Keeps k gr p lp (accum_append (env.accum_grow k) gr p)
                  (append-Same (env.accum_grow k) gr p))
              (λ _. refl))

    pub chunk-Keeps : (gr : Request) (c : Chunk) → Keeps (left gr.stream) (on_chunk env gr c)
    unfolding on_chunk on_token
    chunk-Keeps gr (token id lp) =
        let k = gr.completion_tokens in
        let r = detok_feed (env.decode id) (env.feed_grow k) (env.feed_alloc k) gr.detok in
        piece-Keeps k lp r.0 (record gr { completion_tokens = k + 1; detok = r.1 })
    chunk-Keeps gr (error msg kind) =
        stops-Keeps (left gr.stream) _ (finish_error-conn env gr (some msg) kind)
    chunk-Keeps gr (done reason) =
        stops-Keeps (left gr.stream) _ (finish_response-conn env gr reason)
