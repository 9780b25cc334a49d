-- ===== src/Http/GenRequest/Start/Refs.antt =====
-- The references that `gen_request_start` leaves behind.
use mlxd.Base.{
  ℕ, ◌≡◌, ◌⊎◌, inl, inr, refl, Bool, true, false, not, ◌&&◌, Option, none, some, List, [], ◌∷◌,
  if_elim, Bytes, ℤ, pos, negsuc, ◌==◌, arith,
}
use mlxd.Core.Types.{FinishReason}
use mlxd.Engine.Stream.{
  Stream, Release, create, retain, release, set_notify, finish_cancelled, cancel, fresh, freed,
  contents, slice, sole_owner, done,
}
use mlxd.Http.GenRequest.{
  Request, Out, on_conn_gone, cancel_stream, cancelled, try_teardown, teardown_on, begin_close,
  writes, releases, closes_async, starts_timer, sse_head,
}
use mlxd.Http.GenRequest.Start.{
  Params, Allocs, Posted, Started, refused, started, with_stream, from_stream, from_prompt,
  gen_request_start, released_twice, initial, after_post, left_by, with_head,
}

abbrev has_ids : ℤ → Bool
has_ids (pos n) = true
has_ids (negsuc k) = false

-- Whether the start gets as far as a stream, and whether nothing fails after that.
abbrev pub made : Params → Allocs → Bool
made p a =
    p.tokenizer
    && not (p.chat && not p.chat_template)
    && has_ids p.n_ids
    && (a.stream_ok && a.buf_ok)

abbrev pub ready : Params → Allocs → Bool
ready p a =
    a.detok_ok
    && (a.request_ok && a.id_ok && a.model_ok && a.cmd_ok)
    && not (p.stream && not a.head_ok)
    && a.async_ok

-- The first release leaves the stream, and the second one frees it.
pub Freed : List Release → Type 0
Freed rs = (s : Stream) × (rs ≡ Release.alive s ∷ Release.gone [] ∷ [])

-- What a started request holds, by whether the command was posted and whether the head of the response
-- was lost.
pub Held : ℕ → Bool → Bool → Request → List Out → Type 0
Held me true false gr o =
    (s : Stream) × (gr.stream ≡ some s)
    × (s.refcount ≡ 2)
    × (s.cap ≡ 64)
    × (contents s ≡ [])
    × (s.cancelled ≡ false)
    × (s.on_push ≡ some me)
    × (gr.conn ≡ true)
    × (gr.closing ≡ false)
Held me false false gr o =
    (s : Stream) × (gr.stream ≡ some s)
    × (s.refcount ≡ 1)
    × (contents s ≡ done FinishReason.cancelled ∷ [])
    × (s.cancelled ≡ true)
    × (s.on_push ≡ some me)
    × (gr.conn ≡ true)
    × (gr.closing ≡ false)
Held me true true gr o =
    (s : Stream) × (gr.stream ≡ some s)
    × (s.refcount ≡ 2)
    × (s.cancelled ≡ true)
    × (gr.conn ≡ false)
    × (gr.conn_gone ≡ true)
    × (gr.timer_inited ≡ true)
    × (gr.closing ≡ false)
    × (o ≡ writes sse_head false ∷ starts_timer ∷ [])
Held me false true gr o =
    (gr.stream ≡ none)
    × (gr.conn ≡ false)
    × (gr.conn_gone ≡ true)
    × (gr.closing ≡ true)
    × (gr.pending_closes ≡ 1)
    × (o ≡ writes sse_head false ∷ releases (Release.gone []) ∷ closes_async ∷ [])

-- A refused start has made no stream or has freed it; a started one has failed nowhere.
pub Owned : ℕ → Params → Allocs → Started → Type 0
Owned me p a (refused status msg rs) =
    ((made p a ≡ false) × (rs ≡ [])) ⊎ ((made p a ≡ true) × (ready p a ≡ false) × Freed rs)
Owned me p a (started gr cmd o) =
    (made p a ≡ true) × (ready p a ≡ true) × Held me a.posted (p.stream && not a.head_sent) gr o

module _ (me : ℕ) (p : Params) (a : Allocs) where
  failed-Owned :
      (msg : Bytes)
      → made p a ≡ true
      → ready p a ≡ false
      → Owned me p a (refused 500 msg (released_twice (release (retain (fresh 64)))))
  unfolding Owned Freed released_twice release retain fresh contents slice freed
  failed-Owned msg m r = inr (m, r, (_, refl))

  HeldBy : Bool → Bool → Started → Type 0
  HeldBy posted lost (refused status msg rs) = Unit {0}
  HeldBy posted lost (started gr cmd o) = Held me posted lost gr o

  head-Held :
      (stream sent posted : Bool) (n : ℕ) (cmd : Posted)
      → HeldBy posted (stream && not sent) (
          with_head stream sent
            (initial p (after_post posted (set_notify (some me) (retain (fresh 64)))) n)
            cmd)
  unfolding HeldBy Held with_head initial after_post left_by set_notify retain fresh release
      finish_cancelled on_conn_gone cancel_stream cancelled cancel try_teardown teardown_on
      begin_close sole_owner contents slice freed
  head-Held false sent true n cmd = (_, refl, refl, refl, refl, refl, refl, refl, refl)
  head-Held false sent false n cmd = (_, refl, refl, refl, refl, refl, refl, refl)
  head-Held true true true n cmd = (_, refl, refl, refl, refl, refl, refl, refl, refl)
  head-Held true true false n cmd = (_, refl, refl, refl, refl, refl, refl, refl)
  head-Held true false true n cmd = (_, refl, refl, refl, refl, refl, refl, refl, refl)
  head-Held true false false n cmd = (refl, refl, refl, refl, refl, refl)

  IsStarted : Started → Type 0
  IsStarted (refused status msg rs) = ⊥
  IsStarted (started gr cmd o) = Unit {0}

  started-Owned :
      (st : Started)
      → IsStarted st
      → made p a ≡ true
      → ready p a ≡ true
      → HeldBy a.posted (p.stream && not a.head_sent) st
      → Owned me p a st
  unfolding IsStarted HeldBy Owned
  started-Owned (refused status msg rs) i m r h = absurd i
  started-Owned (started gr cmd o) i m r h = (m, r, h)

  head-IsStarted :
      (stream sent : Bool) (gr : Request) (cmd : Posted) → IsStarted (with_head stream sent gr cmd)
  unfolding IsStarted with_head
  head-IsStarted false sent gr cmd = tt
  head-IsStarted true true gr cmd = tt
  head-IsStarted true false gr cmd = tt

  hand-Owned :
      (n : ℕ) (cmd : Posted)
      → made p a ≡ true
      → ready p a ≡ true
      → Owned me p a (
          with_head p.stream a.head_sent
            (initial p (after_post a.posted (set_notify (some me) (retain (fresh 64)))) n)
            cmd)
  hand-Owned n cmd m r =
      started-Owned _ (head-IsStarted p.stream a.head_sent _ cmd) m r
        (head-Held p.stream a.head_sent a.posted n cmd)

  made-Owned : (n : ℕ) → made p a ≡ true → Owned me p a (with_stream me p a n (retain (fresh 64)))
  unfolding with_stream
  made-Owned n m =
      if_elim (Owned me p a) (not a.detok_ok) (λ x. failed-Owned _ m (ground arith))
        (λ d.
          if_elim (Owned me p a) (not (a.request_ok && a.id_ok && a.model_ok && a.cmd_ok))
            (λ x. failed-Owned _ m (ground arith))
            (λ g.
              if_elim (Owned me p a) (p.stream && not a.head_ok)
                (λ x. failed-Owned _ m (ground arith))
                (λ h.
                  if_elim (Owned me p a) (not a.async_ok) (λ x. failed-Owned _ m (ground arith))
                    (λ y. hand-Owned n _ m (ground arith)))))

  bare-Owned : (status : ℕ) (msg : Bytes) → made p a ≡ false → Owned me p a (refused status msg [])
  unfolding Owned
  bare-Owned status msg m = inl (m, refl)

  stream-Owned :
      (n : ℕ)
      → (a.stream_ok && a.buf_ok ≡ true → made p a ≡ true)
      → (a.stream_ok && a.buf_ok ≡ false → made p a ≡ false)
      → Owned me p a (from_stream me p a n (create (pos 64) a.stream_ok a.buf_ok))
  unfolding create
  stream-Owned n h k =
      if_elim (λ (s : Option Stream). Owned me p a (from_stream me p a n s))
        (a.stream_ok && a.buf_ok) (λ x. unfold from_stream in made-Owned n (h x))
        (λ x. unfold from_stream in bare-Owned 500 _ (k x))

  prompt-Owned :
      (z : ℤ)
      → p.n_ids ≡ z
      → p.tokenizer ≡ true
      → p.chat && not p.chat_template ≡ false
      → Owned me p a (from_prompt me p a z)
  unfolding from_prompt
  prompt-Owned (negsuc k) e t c =
      let m : made p a ≡ false = rw (e, t, c) refl in
      if_elim (Owned me p a) (k == 0 && p.chat) (λ _. bare-Owned 400 _ m) (λ _. bare-Owned 500 _ m)
  prompt-Owned (pos n) e t c =
      stream-Owned n (λ x. rw (e, t, c, x) refl) (λ x. rw (e, t, c, x) refl)

-- A start that is refused has made no stream, or has released the stream that it made twice, the second
-- time to free it, and the latter exactly when one of the steps after the creation fails. A start that
-- goes through leaves a request whose stream calls it back and has two references, one for the request
-- and one for the engine; the request's alone, and the DONE of a cancelled request on it, if the
-- engine is shutting down. If the head of the response is not queued, the request has no connection and
-- a cancelled stream, and its timer runs until the engine lets go, or it is closing with the stream
-- freed if the engine already has.
pub start-Owned : (me : ℕ) (p : Params) (a : Allocs) → Owned me p a (gen_request_start me p a)
unfolding gen_request_start
start-Owned me p a =
    if_elim (Owned me p a) (not p.tokenizer) (λ x. bare-Owned me p a 503 _ (ground arith))
      (λ t.
        if_elim (Owned me p a) (p.chat && not p.chat_template)
          (λ x. bare-Owned me p a 400 _ (ground arith))
          (λ c. prompt-Owned me p a p.n_ids refl (ground arith) c))
