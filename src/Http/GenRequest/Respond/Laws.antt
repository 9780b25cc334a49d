-- ===== src/Http/GenRequest/Respond/Laws.antt =====
-- What the functions that write leave of the request.
use mlxd.Base.{
  ℕ, ◌≡◌, refl, Bool, true, false, not, ◌&&◌, ◌||◌, Option, none, some, List, ◌∙◌, length, ltb,
  if_elim, arith, Bytes,
}
use mlxd.Core.Types.{FinishReason}
use mlxd.Engine.Stream.{Stream, ErrKind, internal, sole_owner}
use mlxd.Model.Detok.{detok_flush}
use mlxd.Http.GenRequest.{
  Request, Out, Payload, teardown_on, try_teardown, begin_close, accum_append,
}
use mlxd.Http.GenRequest.Respond.{
  Env, emit_sse_chunk, write_observed, torn_down, finish_error, finish_with, accumulated, flushed,
  finish_response,
}

write-stream :
    (ok : Bool) (gr : Request) (p : Payload)
    → ok ≡ true
    → (write_observed ok gr p).0.stream ≡ gr.stream
unfolding write_observed
write-stream true gr p h = refl
write-stream false gr p h = absurd (ground arith)

-- A write that is queued leaves the stream alone.
pub emit-stream :
    (env : Env) (gr : Request) (text : Bytes) (lp : ℕ)
    → env.sent gr.completion_tokens ≡ true
    → (emit_sse_chunk env gr text lp).0.stream ≡ gr.stream
unfolding emit_sse_chunk
emit-stream env gr text lp h =
    let P : Request × List Out → Type 0 = λ r. r.0.stream ≡ gr.stream in
    let ok : Bool = env.sent gr.completion_tokens in
    if_elim P (gr.conn_gone || not gr.conn || gr.suppress_writes) (λ _. refl)
      (λ _.
        if_elim P gr.chat
          (λ _.
            if_elim P (not gr.role_sent)
              (λ _.
                if_elim P (env.built gr.completion_tokens _) (λ _. write-stream ok gr _ h)
                  (λ _. refl))
              (λ _.
                if_elim P (ltb 0 (length text) && env.built gr.completion_tokens _)
                  (λ _. write-stream ok gr _ h) (λ _. refl)))
          (λ _.
            if_elim P (ltb 0 (length text) && env.built gr.completion_tokens _)
              (λ _. write-stream ok gr _ h) (λ _. refl)))

teardown_on-conn : (gr : Request) (o : Option Stream) → (teardown_on gr o).0.conn ≡ gr.conn
unfolding teardown_on begin_close
teardown_on-conn gr none = refl
teardown_on-conn gr (some s) =
    if_elim (λ (r : Request × List Out). r.0.conn ≡ gr.conn) (sole_owner s) (λ _. refl)
      (λ _.
        if_elim (λ (r : Request × List Out). r.0.conn ≡ gr.conn) gr.timer_inited (λ _. refl)
          (λ _. refl))

teardown-conn : (gr : Request) → (try_teardown gr).0.conn ≡ gr.conn
unfolding try_teardown
teardown-conn gr =
    if_elim (λ (r : Request × List Out). r.0.conn ≡ gr.conn) gr.closing (λ _. refl)
      (λ _. teardown_on-conn gr gr.stream)

module _ (env : Env) where
  -- Each way to end a response gives the connection up.
  pub finish_error-conn :
      (gr : Request) (msg : Option Bytes) (kind : ErrKind)
      → (finish_error env gr msg kind).0.conn ≡ false
  unfolding finish_error torn_down
  finish_error-conn gr msg kind =
      if_elim (λ (r : Request × List Out). r.0.conn ≡ false) gr.conn
        (λ _. teardown-conn (record gr { conn = false })) (λ e. teardown-conn gr ∙ e)

  finish_with-conn :
      (gr : Request) (reason : FinishReason) (out : Bytes)
      → (finish_with env gr reason out).0.conn ≡ false
  unfolding finish_with torn_down
  finish_with-conn gr reason out =
      if_elim (λ (r : Request × List Out). r.0.conn ≡ false) gr.conn
        (λ _. teardown-conn (record gr { conn = false; role_sent = _ })) (λ e. teardown-conn gr ∙ e)

  accumulated-conn :
      (reason : FinishReason) (out : Bytes) (o : Option Request) (gr : Request)
      → (accumulated env reason out o gr).0.conn ≡ false
  unfolding accumulated
  accumulated-conn reason out none gr = finish_error-conn gr _ internal
  accumulated-conn reason out (some gr') gr = finish_with-conn gr' reason out

  flushed-conn :
      (reason : FinishReason) (o : Option Bytes) (gr : Request)
      → (flushed env reason o gr).0.conn ≡ false
  unfolding flushed
  flushed-conn reason none gr = finish_error-conn gr _ internal
  flushed-conn reason (some out) gr =
      if_elim (λ (r : Request × List Out). r.0.conn ≡ false) (not gr.sse && ltb 0 (length out))
        (λ _. accumulated-conn reason out (accum_append env.flush_grow gr out) gr)
        (λ _. finish_with-conn gr reason out)

  pub finish_response-conn :
      (gr : Request) (reason : FinishReason) → (finish_response env gr reason).0.conn ≡ false
  unfolding finish_response
  finish_response-conn gr reason =
      let r = detok_flush env.flush_alloc gr.detok in
      flushed-conn reason r.0 (record gr { detok = r.1 })
