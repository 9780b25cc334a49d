-- ===== src/Engine/Generate/RealLaws.antt =====
-- What a generate command on a real model leaves on its stream.
use mlxd.Base.{
  ◌*◌, ◌∙◌, sym, ap, if_elim, ℕ, zero, suc, ◌+◌, ◌-◌, ◌≤◌, ◌<◌, ◌≡◌, ◌≢◌, dec_lt, refl, Bool, true,
  false, not, List, [], ◌⊎◌, inl, inr, ℤ, pos, negsuc, pos_part, ltb_ℤ, length, if◌then◌else◌, ltb,
  ◌==◌, ◌||◌, Bytes, arith, none, Bool-cases, Option-cases, lt→ltb, codes,
}
use mathlib.Core.Path.{subst}
use native.Mathlib.Numerals.{add-one}
use mlxd.Core.Types.{FinishReason}
use mlxd.Engine.Stream.{Chunk, error, ErrKind, internal, context_length}
use mlxd.Engine.World.{M, ◌>>=◌, send, finish, load_stop}
use mlxd.Engine.World.Triple.{
  Flags, Assertion, Post, Post-bind, Post-weaken, Post-if, Post-send, Post-finish, Post-load_stop,
  AfterSend, AfterFinish, AfterPoll,
}
use mlxd.Engine.Generate.{Command, push_done, generate_fail}
use mlxd.Engine.Generate.StubLaws.{Ends, Post-push_done}
use mlxd.Engine.Generate.FailLaws.{FailEnds, generate_fail-FailEnds}
use mlxd.Engine.Generate.Real.{
  Model, step_error, poll_twice, fail, max_new, decoded, deliver, decode, seed, prefill,
  handle_generate_real, prefill_chunk,
}
use mlxd.Engine.Generate.Outcome.{
  tokens, ends_at, step_failure, chunk_end_of, chunk_size, Prefilled, Progress, Fault, Outcome,
  is_long, prefix_len, Opened, IsIdle, stops, fills, stopped, fails, no_key, too_long, no_cache,
  no_prefill, no_seed, no_step,
}

idle_test : (n : ℕ) (z : ℤ) → n == 0 || not (ltb_ℤ (pos 0) z) ≡ true → (n ≡ 0) ⊎ (pos_part z ≡ 0)
idle_test n (pos k) h = ground arith
idle_test n (negsuc k) h = inr refl

busy_test : (n : ℕ) (z : ℤ) → n == 0 || not (ltb_ℤ (pos 0) z) ≡ false → 0 < pos_part z
busy_test n (pos k) h = ground arith
busy_test n (negsuc k) h = ground arith

module _ (m : Model) (cmd : Command) (late : Bool) where
  abbrev Ok : Assertion (Unit {0})
  Ok a b l = Outcome m cmd late b l

  module _ (n : ℕ) (p : Progress m cmd late n) where
    failed :
        (msg : Bytes) (kind : ErrKind)
        → Fault m cmd late n msg kind
        → (b : Flags) → Post b (tokens m cmd late n) (generate_fail cmd.dup_ok msg kind) Ok
    failed msg kind why b =
        Post-weaken b (tokens m cmd late n) (generate_fail cmd.dup_ok msg kind)
          (FailEnds cmd.dup_ok (error msg kind) (tokens m cmd late n)) Ok
          (generate_fail-FailEnds cmd.dup_ok msg kind b (tokens m cmd late n))
          (λ _ c l f. fails n msg kind p why f)

    finished : (b : Flags) → b.asked ≡ true → Post b (tokens m cmd late n) finish Ok
    finished b stop =
        Post-weaken b (tokens m cmd late n) finish (AfterFinish (tokens m cmd late n)) Ok
          (Post-finish b (tokens m cmd late n) stop) (λ _ c l f. stopped n p f.0 f.1)

    -- What the code after two polls does, where neither sees a stop.
    module _ (next : M (Unit {0})) (c : Flags)
        (h : (b : Flags)
          → b.late ≡ c.late
          → c.late ≡ false
          → Post b (tokens m cmd late n) next Ok) where
      polled_again :
          (d : Flags)
          → d.late ≡ c.late
          → c.late ≡ false
          → (a : Bool) (b : Flags) (l : List Chunk) → AfterPoll d (tokens m cmd late n) a b l
          → Post b l (if a then finish else next) Ok
      polled_again d e f true b l (same, _, y, _, _) = rw same (finished b (y refl))
      polled_again d e f false b l (same, _, _, _, k) = rw same (h b (k ∙ e) f)

      polled_once :
          (a : Bool) (b : Flags) (l : List Chunk)
          → AfterPoll c (tokens m cmd late n) a b l
          → Post b l
              (if a then finish else (do after ← load_stop; if after then finish else next))
              Ok
      polled_once true b l (same, _, y, _, _) = rw same (finished b (y refl))
      polled_once false b l (same, _, _, z, k) = rw same (
          Post-bind b (tokens m cmd late n) load_stop (λ after. if after then finish else next)
            (AfterPoll b (tokens m cmd late n)) Ok (Post-load_stop b (tokens m cmd late n))
            (polled_again b k (z refl)))

      polled_twice : Post c (tokens m cmd late n) (poll_twice next) Ok
      unfolding poll_twice
      polled_twice =
          Post-bind c (tokens m cmd late n) load_stop _ (AfterPoll c (tokens m cmd late n)) Ok
            (Post-load_stop c (tokens m cmd late n)) polled_once

  -- One more token is out.
  advance :
      (k : ℕ)
      → Progress m cmd late k
      → k < max_new m cmd
      → (Opened m cmd late)
      → step_failure m cmd late k ≡ none
      → ends_at m cmd late k ≡ false
      → Progress m cmd late (suc k)
  advance k p h o ok e = record {
    allowed = h;
    running = λ i lt. elim (dec_lt i k) [
      | yes x ↦ p.running i x
      | no x ↦ let same : i ≡ k = omega arith in rw same e
    ];
    fine = λ i lt. elim (dec_lt i k) [
      | yes x ↦ p.fine i x
      | no x ↦ let same : i ≡ k = omega arith in rw same ok
    ];
    opened = λ _. o;
  }

  module _ (k : ℕ) (p : Progress m cmd late k) (h : k < max_new m cmd) (o : (Opened m cmd late))
      (ok : step_failure m cmd late k ≡ none) (next : M (Unit {0}))
      (ih : suc k ≢ max_new m cmd
        → Progress m cmd late (suc k)
        → (b : Flags) → Post b (tokens m cmd late (suc k)) next Ok) where
    last_or_next :
        (b : Flags)
        → Progress m cmd late (suc k)
        → Post b
            (tokens m cmd late (suc k))
            (if k + 1 == max_new m cmd then push_done FinishReason.length else next)
            Ok
    last_or_next b q = elim (Bool-cases (k + 1 == max_new m cmd)) [
      | inl full ↦
          let e : suc k ≡ max_new m cmd = ground arith in
          rw full (
            Post-weaken b (tokens m cmd late (suc k)) (push_done FinishReason.length)
              (Ends (tokens m cmd late (suc k)) FinishReason.length) Ok
              (Post-push_done b (tokens m cmd late (suc k)) FinishReason.length)
              (λ _ c l f.
                fills (subst (Progress m cmd late) e q)
                  (subst (λ t. Ends (tokens m cmd late t) FinishReason.length tt c l) e f)))
      | inr more ↦ rw more (ih (ground arith) q b)
    ]

    after_token :
        ends_at m cmd late k ≡ false
        → (a : Bool) (b : Flags) (l : List Chunk)
        → AfterSend (tokens m cmd late k) (decoded m cmd k) a b l
        → Post b l
            (if a
              then (if k + 1 == max_new m cmd then push_done FinishReason.length else next)
              else finish)
            Ok
    after_token live true b l e = rw e (last_or_next b (advance k p h o ok live))
    after_token live false b l e = rw e.0 (finished k p b e.1.0)

    delivered : (b : Flags) → Post b (tokens m cmd late k) (deliver m cmd k next) Ok
    unfolding deliver
    delivered b = elim (Bool-cases (ends_at m cmd late k)) [
      | inl eos ↦ rw eos (
          Post-weaken b (tokens m cmd late k) (push_done FinishReason.stop)
            (Ends (tokens m cmd late k) FinishReason.stop) Ok
            (Post-push_done b (tokens m cmd late k) FinishReason.stop)
            (λ _ c l f. stops k p (inl (o, ok, eos)) f))
      | inr live ↦ rw live (
          Post-bind b (tokens m cmd late k) (send (decoded m cmd k)) _
            (AfterSend (tokens m cmd late k) (decoded m cmd k)) Ok
            (Post-send b (tokens m cmd late k) (decoded m cmd k)) (after_token live))
    ]

  -- Each round of the decode loop, with `k` tokens m cmd late out.
  decode-Outcome :
      (left k : ℕ)
      → k + left ≡ max_new m cmd
      → k < max_new m cmd
      → (Opened m cmd late)
      → Progress m cmd late k
      → (b : Flags) → Post b (tokens m cmd late k) (decode m cmd left k) Ok
  unfolding decode fail
  decode-Outcome zero k e h o p b = absurd (omega arith)
  decode-Outcome (suc left) k e h o p b = rw (lt→ltb k (max_new m cmd) h) (
      polled_twice k p _ b (λ c _ _.
        elim (Option-cases (step_error cmd.logprobs (ltb (k + 1) (max_new m cmd)) (m.step k))) [
          | inl fine ↦ rw fine (
              delivered k p h o fine (decode m cmd left (k + 1))
                (λ more q.
                  rw (add-one k) (decode-Outcome left (suc k) (omega arith) (omega arith) o q))
                c)
          | inr (msg, bad) ↦ rw bad (failed k p msg internal (no_step o bad) c)
        ]))

  start : Progress m cmd late 0
  start = record {
    allowed = omega arith;
    running = λ i h. absurd (omega arith);
    fine = λ i h. absurd (omega arith);
    opened = λ h. absurd (omega arith);
  }

  module _ (some_tokens : 0 < max_new m cmd) (keyed : m.key_ok ≡ true)
      (short : (is_long m cmd late) ≡ false) (cached : m.kv_ok ≡ true) where
    seed-Outcome :
        Prefilled m cmd late (prefix_len m cmd late)
        → (b : Flags) → b.late ≡ late
        → Post b [] (seed m cmd) Ok
    unfolding seed fail
    seed-Outcome filled c e =
        polled_twice 0 start
          (if m.seed_ok
            then decode m cmd (max_new m cmd) 0
            else fail m cmd (codes "seed forward failed"))
          c
          (λ b _ f.
            Post-if b [] Ok m.seed_ok (decode m cmd (max_new m cmd) 0)
              (fail m cmd (codes "seed forward failed"))
              (λ seeded.
                decode-Outcome (max_new m cmd) 0 (omega arith) some_tokens
                  (record {
                    keyed = keyed;
                    short = short;
                    cached = cached;
                    prefilled = filled;
                    seeded = seeded;
                    live = sym e ∙ f;
                  })
                  start b)
              (λ x. failed 0 start (codes "seed forward failed") internal (no_seed refl x refl) b))

    -- At the start of a chunk, or behind the prefix.
    abbrev IsStart : ℕ → Type 0
    IsStart at = ((j : ℕ) × (at ≡ prefill_chunk * j)) ⊎ ((prefix_len m cmd late) ≤ at)

    next_chunk :
        (at : ℕ)
        → IsStart at
        → at < (prefix_len m cmd late)
        → Prefilled m cmd late at
        → m.prefill_ok at (chunk_size m cmd late at) ≡ true
        → IsStart (chunk_end_of m cmd late at) × Prefilled m cmd late (chunk_end_of m cmd late at)
    next_chunk at (inr over) lt filled ok = absurd (omega arith)
    next_chunk at (inl (j, e)) lt filled ok = (
      if_elim (λ c. IsStart c) (ltb (prefix_len m cmd late) (at + prefill_chunk))
          (λ _. inr (omega arith)) (λ _. inl (suc j, omega arith)),
      λ i x y. elim (dec_lt i j) [
        | yes z ↦ filled i (omega arith) y
        | no z ↦
            let same : i ≡ j = ground (arith, x) in
            subst (λ k. m.prefill_ok k (chunk_size m cmd late k) ≡ true)
              (e ∙ ap (λ k. prefill_chunk * k) (sym same)) ok
      ],
    )

    prefill-Outcome :
        (fuel at : ℕ)
        → IsStart at
        → Prefilled m cmd late at
        → (b : Flags) → b.late ≡ late
        → Post b [] (prefill m cmd fuel (prefix_len m cmd late) at) Ok
    unfolding prefill fail
    prefill-Outcome zero at h filled b same = λ w ok r e x. tt
    prefill-Outcome (suc fuel) at h filled b same =
        elim (Bool-cases (ltb at (prefix_len m cmd late))) [
          | inr over ↦ rw over (seed-Outcome (λ i x y. filled i (ground arith) y) b same)
          | inl more ↦
              let chunk_end : ℕ =
                if ltb (prefix_len m cmd late) (at + prefill_chunk)
                then (prefix_len m cmd late)
                else at + prefill_chunk in
              rw more (
                polled_twice 0 start _ b (λ c e' _.
                  Post-if c [] Ok (m.prefill_ok at (chunk_end - at))
                    (prefill m cmd fuel (prefix_len m cmd late) chunk_end)
                    (fail m cmd (codes "prefill forward failed"))
                    (λ ok.
                      let (h', filled') = next_chunk at h (ground arith) filled ok in
                      prefill-Outcome fuel chunk_end h' filled' c (e' ∙ same))
                    (λ e.
                      failed 0 start (codes "prefill forward failed") internal
                        (no_prefill at (chunk_end - at) refl e refl) c)))
        ]

  nothing_to_do :
      (IsIdle m cmd late)
      → m.key_ok ≡ true
      → (is_long m cmd late) ≡ false
      → (b : Flags) → Post b [] (push_done FinishReason.stop) Ok
  nothing_to_do h keyed short b =
      Post-weaken b [] (push_done FinishReason.stop) (Ends [] FinishReason.stop) Ok
        (Post-push_done b [] FinishReason.stop)
        (λ _ c l f. stops 0 start (inr (h, keyed, short, refl)) f)

  pub real-Outcome : (b : Flags) → b.late ≡ late → Post b [] (handle_generate_real m cmd) Ok
  unfolding handle_generate_real fail
  real-Outcome b same =
      let n : ℕ = length cmd.token_ids in
      Post-if b [] Ok (not m.key_ok) _ _
        (λ e. failed 0 start _ internal (no_key refl (ground arith) refl) b)
        (λ k.
          let keyed : m.key_ok ≡ true = ground arith in
          Post-if b [] Ok (is_long m cmd late) _ _
            (λ e. failed 0 start m.context_msg context_length (too_long refl e refl) b)
            (λ short.
              Post-if b [] Ok (n == 0 || not (ltb_ℤ (pos 0) cmd.max_tokens)) _ _
                (λ none_left. nothing_to_do (idle_test n cmd.max_tokens none_left) keyed short b)
                (λ some_left.
                  Post-if b [] Ok (not m.kv_ok) _ _
                    (λ e. failed 0 start _ internal (no_cache refl (ground arith) refl) b)
                    (λ c.
                      let cached : m.kv_ok ≡ true = ground arith in
                      prefill-Outcome (busy_test n cmd.max_tokens some_left) keyed short cached
                        (suc n) 0 (inl (0, refl)) (λ i x y. absurd (omega arith)) b same))))
