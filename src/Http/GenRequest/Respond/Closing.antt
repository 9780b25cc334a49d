-- ===== src/Http/GenRequest/Respond/Closing.antt =====
-- What writes leaves a connection that is owed an end, and what finishes gives it one.
use mlxd.Base.{
  ℕ, ◌+◌, ◌≡◌, refl, ap, Bool, true, false, not, ◌&&◌, ◌||◌, Option, none, some, List, [], ◌++◌,
  length, ltb, ◌==◌, if_elim, arith, Bytes, if◌then◌else◌,
}
use mathlib.Core.Path.{subst}
use mlxd.Core.Types.{FinishReason}
use mlxd.Engine.Stream.{Stream, ErrKind, internal, sole_owner}
use mlxd.Model.Detok.{detok_flush}
use mlxd.Http.GenRequest.{
  Request, Out, Payload, sse_done, chat_chunk, chat_final, chat_usage, text_final, begin_close,
  teardown_on, try_teardown, on_conn_gone, cancel_stream, detach_conn, accum_append,
}
use mlxd.Http.GenRequest.Ends.{count, ends, ends-append, owed}
use mlxd.Http.GenRequest.Respond.{
  Env, emit_sse_chunk, write_observed, put, put_last, flush_chunk, sse_end, respond, torn_down,
  finish_with, respond_error, finish_error, accumulated, flushed, finish_response,
}

-- With the ends among what was done, `n` are owed.
unfoldable pub Balanced : ℕ → Request × List Out → Type 0
Balanced n (gr, o) = ends o + owed gr ≡ n

begin_close-Balanced : (gr : Request) (s : Stream) → Balanced (owed gr) (begin_close gr s)
unfolding begin_close Balanced
begin_close-Balanced gr s = ground arith

teardown_on-Balanced : (gr : Request) (o : Option Stream) → Balanced (owed gr) (teardown_on gr o)
unfolding teardown_on Balanced
teardown_on-Balanced gr none = omega arith
teardown_on-Balanced gr (some s) =
    if_elim (Balanced (owed gr)) (sole_owner s) (λ _. begin_close-Balanced gr s)
      (λ _. if_elim (Balanced (owed gr)) gr.timer_inited (λ _. omega arith) (λ _. omega arith))

teardown-Balanced : (gr : Request) → Balanced (owed gr) (try_teardown gr)
unfolding try_teardown Balanced
teardown-Balanced gr =
    if_elim (Balanced (owed gr)) gr.closing (λ _. omega arith)
      (λ _. teardown_on-Balanced gr gr.stream)

gone-Balanced : (gr : Request) → Balanced 1 (on_conn_gone gr)
unfolding on_conn_gone cancel_stream
gone-Balanced gr = teardown-Balanced (cancel_stream (record gr { conn_gone = true; conn = false }))

-- A connection that is attached, and no more.
write-Balanced :
    (ok : Bool) (gr : Request) (p : Payload)
    → gr.conn ≡ true
    → gr.conn_gone ≡ false
    → Balanced (owed gr) (write_observed ok gr p)
unfolding write_observed Balanced
write-Balanced true gr p h k = omega arith
write-Balanced false gr p h k = let b = gone-Balanced gr in ground (arith, b)

with_role : Request × List Out → Request × List Out
with_role (gr, o) = (record gr { role_sent = true }, o)

role-Balanced : (n : ℕ) (r : Request × List Out) → Balanced n r → Balanced n (with_role r)
unfolding Balanced with_role
role-Balanced n (gr, o) h = h

pub emit-Balanced :
    (env : Env) (gr : Request) (text : Bytes) (lp : ℕ)
    → Balanced (owed gr) (emit_sse_chunk env gr text lp)
unfolding emit_sse_chunk with_role
emit-Balanced env gr text lp =
    let P : Request × List Out → Type 0 = Balanced (owed gr) in
    let ok : Bool = env.sent gr.completion_tokens in
    let same : P (gr, []) = unfold Balanced in omega arith in
    if_elim P (gr.conn_gone || not gr.conn || gr.suppress_writes) (λ _. same)
      (λ attached.
        let send : (p : Payload) → P (write_observed ok gr p) =
          λ p. write-Balanced ok gr p (ground arith) (ground arith) in
        if_elim P gr.chat
          (λ _.
            if_elim P (not gr.role_sent)
              (λ _.
                if_elim P (env.built gr.completion_tokens _)
                  (λ _. role-Balanced (owed gr) (write_observed ok gr _) (send _)) (λ _. same))
              (λ _.
                if_elim P (ltb 0 (length text) && env.built gr.completion_tokens _) (λ _. send _)
                  (λ _. same)))
          (λ _.
            if_elim P (ltb 0 (length text) && env.built gr.completion_tokens _) (λ _. send _)
              (λ _. same)))

module _ (env : Env) where
  ends-put : (p : Payload) → ends (put env p) ≡ 0
  unfolding put
  ends-put p = if_elim (λ (o : List Out). ends o ≡ 0) (env.built_last p) (λ _. refl) (λ _. refl)

  ends-put_last : (p : Payload) → ends (put_last env p) ≡ 1
  unfolding put_last
  ends-put_last p =
      if_elim (λ (o : List Out). ends o ≡ 1) (env.built_last p) (λ _. refl) (λ _. refl)

  ends-flush_chunk : (gr : Request) (out : Bytes) → ends (flush_chunk env gr out).1 ≡ 0
  unfolding flush_chunk
  ends-flush_chunk gr out =
      if_elim (λ (r : Bool × List Out). ends r.1 ≡ 0) (ltb 0 (length out))
        (λ _.
          if_elim (λ (r : Bool × List Out). ends r.1 ≡ 0) gr.chat (λ _. ends-put _)
            (λ _. ends-put _))
        (λ _. refl)

  ends-sse_end :
      (gr : Request) (reason : FinishReason) (role : Bool) → ends (sse_end env gr reason role) ≡ 1
  unfolding sse_end
  ends-sse_end gr reason role =
      let P : List Out → Type 0 = λ o. ends (o ++ put_last env sse_done) ≡ 1 in
      if_elim P gr.chat
        (λ _.
          if_elim (λ (o : List Out). P ((o ++ put env (chat_final reason)) ++ usage gr)) role
            (λ _. silent-last _ (ends-chat gr reason [] refl))
            (λ _. silent-last _ (ends-chat gr reason _ (ends-put (chat_chunk true none none)))))
        (λ _. silent-last _ (ends-put (text_final reason)))
    where
      silent-last : (o : List Out) → ends o ≡ 0 → ends (o ++ put_last env sse_done) ≡ 1
      silent-last o h = omega (arith, ends-append o (put_last env sse_done), ends-put_last sse_done)

      usage : Request → List Out
      usage gr =
          if gr.include_usage
          then put env (chat_usage gr.prompt_tokens gr.completion_tokens)
          else []

      ends-usage : (gr : Request) → ends (usage gr) ≡ 0
      ends-usage gr =
          if_elim (λ (o : List Out). ends o ≡ 0) gr.include_usage (λ _. ends-put _) (λ _. refl)

      ends-chat :
          (gr : Request) (reason : FinishReason) (o : List Out)
          → ends o ≡ 0
          → ends ((o ++ put env (chat_final reason)) ++ usage gr) ≡ 0
      ends-chat gr reason o h = omega (
        arith,
        ends-append (o ++ put env (chat_final reason)) (usage gr),
        ends-append o (put env (chat_final reason)),
        ends-put (chat_final reason),
        ends-usage gr,
      )

  ends-respond :
      (gr : Request) (reason : FinishReason) (out : Bytes) → ends (respond env gr reason out).1 ≡ 1
  unfolding respond
  ends-respond gr reason out =
      let P : Bool × List Out → Type 0 = λ r. ends r.1 ≡ 1 in
      let (role, o) = flush_chunk env gr out in
      if_elim P gr.suppress_writes (λ _. refl)
        (λ _.
          if_elim P gr.sse
            (λ _. omega (
              arith,
              ends-append o (sse_end env gr reason role),
              ends-flush_chunk gr out,
              ends-sse_end gr reason role,
            ))
            (λ _. ends-put_last _))

  ends-respond_error :
      (gr : Request) (msg : Option Bytes) (kind : ErrKind)
      → ends (respond_error env gr msg kind) ≡ 1
  unfolding respond_error
  ends-respond_error gr msg kind =
      let P : List Out → Type 0 = λ o. ends o ≡ 1 in
      if_elim P gr.suppress_writes (λ _. refl)
        (λ _.
          if_elim P gr.sse
            (λ _. omega (
              arith,
              ends-append (put env _) (put_last env sse_done),
              ends-put _,
              ends-put_last sse_done,
            ))
            (λ _. ends-put_last _))

  torn-Balanced : (gr : Request) (o : List Out) → Balanced (ends o + owed gr) (torn_down env gr o)
  unfolding torn_down Balanced
  torn-Balanced gr o =
      let b = teardown-Balanced gr in omega (arith, ends-append o (try_teardown gr).1, b)

  ends-detach : (gr : Request) → ends (detach_conn gr).2 ≡ 0
  unfolding detach_conn
  ends-detach gr =
      if_elim (λ (r : Bool × Request × List Out). ends r.2 ≡ 0) gr.conn (λ _. refl) (λ _. refl)

  finish_with-Balanced :
      (gr : Request) (reason : FinishReason) (out : Bytes)
      → Balanced (owed gr) (finish_with env gr reason out)
  unfolding finish_with Balanced
  finish_with-Balanced gr reason out =
      if_elim (Balanced (owed gr)) gr.conn
        (λ h.
          let (role, o) = respond env (record gr { conn = false }) reason out in
          let fst = (detach_conn gr).2 in
          let b = torn-Balanced (record gr { conn = false; role_sent = role }) (fst ++ o) in
          let c = ends-append fst o in
          let d = ends-detach gr in
          let e = ends-respond (record gr { conn = false }) reason out in
          let f = ap count h in omega (arith, b, c, d, e, f))
        (λ _. let b = torn-Balanced gr [] in omega (arith, b))

  pub finish_error-Balanced :
      (gr : Request) (msg : Option Bytes) (kind : ErrKind)
      → Balanced (owed gr) (finish_error env gr msg kind)
  unfolding finish_error Balanced
  finish_error-Balanced gr msg kind =
      if_elim (Balanced (owed gr)) gr.conn
        (λ h.
          let fst = (detach_conn gr).2 in
          let o = respond_error env gr msg kind in
          let b = torn-Balanced (record gr { conn = false }) (fst ++ o) in
          let c = ends-append fst o in
          let d = ends-detach gr in
          let e = ends-respond_error gr msg kind in
          let f = ap count h in omega (arith, b, c, d, e, f))
        (λ _. let b = torn-Balanced gr [] in omega (arith, b))

  -- Appending to the text leaves the connection as it is.
  Attached : Request → Option Request → Type 0
  Attached gr none = Unit {0}
  Attached gr (some gr') = owed gr' ≡ owed gr

  append-Attached : (grow : Bool) (gr : Request) (s : Bytes) → Attached gr (accum_append grow gr s)
  unfolding accum_append Attached
  append-Attached grow gr s =
      if_elim (Attached gr) (length s == 0) (λ _. refl)
        (λ _.
          if_elim (Attached gr) (ltb gr.accum_cap (length gr.accum + length s))
            (λ _. if_elim (Attached gr) grow (λ _. refl) (λ _. tt)) (λ _. refl))

  accumulated-Balanced :
      (reason : FinishReason) (out : Bytes) (o : Option Request) (gr : Request)
      → Attached gr o
      → Balanced (owed gr) (accumulated env reason out o gr)
  unfolding accumulated Attached
  accumulated-Balanced reason out none gr h = finish_error-Balanced gr _ internal
  accumulated-Balanced reason out (some gr') gr h =
      subst (λ n. Balanced n (finish_with env gr' reason out)) h
        (finish_with-Balanced gr' reason out)

  flushed-Balanced :
      (reason : FinishReason) (o : Option Bytes) (gr : Request)
      → Balanced (owed gr) (flushed env reason o gr)
  unfolding flushed
  flushed-Balanced reason none gr = finish_error-Balanced gr _ internal
  flushed-Balanced reason (some out) gr =
      if_elim (Balanced (owed gr)) (not gr.sse && ltb 0 (length out))
        (λ _.
          accumulated-Balanced reason out (accum_append env.flush_grow gr out) gr
            (append-Attached env.flush_grow gr out))
        (λ _. finish_with-Balanced gr reason out)

  pub finish_response-Balanced :
      (gr : Request) (reason : FinishReason) → Balanced (owed gr) (finish_response env gr reason)
  unfolding finish_response
  finish_response-Balanced gr reason =
      let r = detok_flush env.flush_alloc gr.detok in
      flushed-Balanced reason r.0 (record gr { detok = r.1 })
