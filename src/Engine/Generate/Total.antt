-- ===== src/Engine/Generate/Total.antt =====
-- Both handlers return when the consumer keeps reading: bounds on the turns that they take.
use mlxd.Base.{
  ℕ, zero, suc, ◌+◌, ◌-◌, ◌*◌, ◌≤◌, ◌<◌, Bool, true, false, not, List, [], ◌∷◌, length, take, pos,
  ltb_ℤ, pos_part, arith, if◌then◌else◌, Option-cases, ltb, ◌==◌, ◌||◌, inl, inr, Bytes,
  length-take,
}
use mlxd.Core.Types.{FinishReason}
use mlxd.Engine.Stream.{error, done, ErrKind, internal, context_length}
use mlxd.Engine.World.{M, ◌>>=◌, ◌>>◌, ret, send, finish, load_shutdown, load_stop}
use mlxd.Engine.World.Total.{
  Runs, Runs-bind, Runs-ret, Runs-le, Runs-if, Runs-send, Runs-finish, Runs-load_shutdown,
  Runs-load_stop,
}
use mlxd.Engine.Generate.{
  Command, push_done, push_error_kind, close_failed, generate_fail, stub_loop, stub_limit,
  stub_reason, handle_generate_stub,
}
use mlxd.Engine.Generate.Real.{
  Model, token_is_eos, step_error, poll_twice, fail, max_new, deliver, decode, seed, prefill,
  prefill_chunk, handle_generate_real,
}

drop_turns : {A : Type 0} (k : ℕ) (m : M A) → Runs k 0 m → (k' : ℕ) → k ≤ k' → Runs k' 0 m
drop_turns k m h k' le = Runs-le k k' 0 0 m le (omega arith) h

done_now : (k : ℕ) → Runs k 0 (ret tt)
done_now k = Runs-le k k k 0 (ret tt) (omega arith) (omega arith) (Runs-ret k tt)

push_done-Runs : (reason : FinishReason) → Runs 2 0 (push_done reason)
unfolding push_done
push_done-Runs reason =
    Runs-bind 2 1 0 (send (done reason)) _ (Runs-send 1 (done reason))
      (λ ok. Runs-if 1 0 ok (ret tt) finish (λ _. done_now 1) (λ _. Runs-finish 0))

stub_loop-Runs :
    (cmd : Command) (i : ℕ) (ids : List ℕ) (k : ℕ)
    → Runs (2 * length ids + suc k) k (stub_loop cmd i ids)
unfolding stub_loop
stub_loop-Runs cmd i [] k =
    Runs-le k _ k k (ret false) (omega arith) (omega arith) (Runs-ret k false)
stub_loop-Runs cmd i (id ∷ ids) k =
    let n : ℕ = 2 * length ids + suc k in
    let stop : Runs (suc k) k (do finish; ret true) =
      Runs-bind (suc k) k k finish (λ _. ret true) (Runs-finish k) (λ _. Runs-ret k true) in
    let round : Runs (suc (suc n)) k (stub_loop cmd i (id ∷ ids)) =
      Runs-bind (suc (suc n)) (suc n) k load_shutdown _ (Runs-load_shutdown (suc n)) (λ down.
        Runs-if (suc n) k down _ _
          (λ _. Runs-le (suc k) (suc n) k k _ (omega arith) (omega arith) stop)
          (λ _. Runs-bind (suc n) n k (send _) _ (Runs-send n _) (λ ok.
            Runs-if n k ok _ _ (λ _. stub_loop-Runs cmd (i + 1) ids k)
              (λ _. Runs-le (suc k) n k k _ (omega arith) (omega arith) stop)))) in
    Runs-le (suc (suc n)) _ k k _ (omega arith) (omega arith) round

pub stub-Runs : (cmd : Command) → Runs (2 * length cmd.token_ids + 3) 0 (handle_generate_stub cmd)
unfolding handle_generate_stub
stub-Runs cmd =
    let ids = take (pos_part (stub_limit cmd)) cmd.token_ids in
    Runs-bind _ 2 0 (stub_loop cmd 0 ids) _
      (Runs-le (2 * length ids + 3) _ 2 2 _
        (omega (arith, length-take (pos_part (stub_limit cmd)) cmd.token_ids)) (omega arith)
        (stub_loop-Runs cmd 0 ids 2))
      (λ aborted. Runs-if 2 0 aborted _ _ (λ _. done_now 2) (λ _. push_done-Runs (stub_reason cmd)))

close_failed-Runs : (ok : Bool) → Runs 3 0 (close_failed ok)
unfolding close_failed
close_failed-Runs ok =
    Runs-bind 3 2 0 _ _
      (Runs-if 3 2 ok (send (done FinishReason.stop)) (ret false) (λ _. Runs-send 2 _)
        (λ _. Runs-le 2 3 2 2 (ret false) (omega arith) (omega arith) (Runs-ret 2 false)))
      (λ ended.
        Runs-if 2 0 ended _ _ (λ _. done_now 2)
          (λ _.
            Runs-bind 2 1 0 load_shutdown _ (Runs-load_shutdown 1)
              (λ down. Runs-if 1 0 down _ _ (λ _. Runs-finish 0) (λ _. done_now 1))))

pub generate_fail-Runs :
    (dup_ok : Bool) (msg : Bytes) (kind : ErrKind) → Runs 4 0 (generate_fail dup_ok msg kind)
unfolding generate_fail push_error_kind
generate_fail-Runs dup_ok msg kind =
    Runs-bind 4 3 0 _ close_failed
      (Runs-if 4 3 dup_ok (send (error msg kind)) (ret false) (λ _. Runs-send 3 _)
        (λ _. Runs-le 3 4 3 3 (ret false) (omega arith) (omega arith) (Runs-ret 3 false)))
      close_failed-Runs

poll_twice-Runs :
    (k : ℕ) (next : M (Unit {0})) → 1 ≤ k → Runs k 0 next → Runs (2 + k) 0 (poll_twice next)
unfolding poll_twice
poll_twice-Runs k next h run =
    let once : Runs (1 + k) 0 (do after ← load_stop; if after then finish else next) =
      Runs-le (suc k) (1 + k) 0 0 _ (omega arith) (omega arith) (
        Runs-bind (suc k) k 0 load_stop _ (Runs-load_stop k) (λ after.
          Runs-if k 0 after finish next (λ _. drop_turns 1 finish (Runs-finish 0) k h)
            (λ _. run))) in
    Runs-le (suc (1 + k)) (2 + k) 0 0 _ (omega arith) (omega arith) (
      Runs-bind (suc (1 + k)) (1 + k) 0 load_stop _ (Runs-load_stop (1 + k)) (λ before.
        Runs-if (1 + k) 0 before finish _
          (λ _. drop_turns 1 finish (Runs-finish 0) (1 + k) (omega arith)) (λ _. once)))

module _ (m : Model) (cmd : Command) where
  fail-Runs : (msg : Bytes) (k : ℕ) → 4 ≤ k → Runs k 0 (fail m cmd msg)
  unfolding fail
  fail-Runs msg k h = drop_turns 4 _ (generate_fail-Runs cmd.dup_ok msg internal) k h

  deliver-Runs :
      (k j : ℕ) (next : M (Unit {0}))
      → 2 ≤ j
      → Runs j 0 next
      → Runs (suc j) 0 (deliver m cmd k next)
  unfolding deliver
  deliver-Runs k j next h run =
      Runs-if (suc j) 0 (token_is_eos m.eos_token_ids (m.step k).id) _ _
        (λ _. drop_turns 2 _ (push_done-Runs FinishReason.stop) (suc j) (omega arith))
        (λ _. Runs-bind (suc j) j 0 (send _) _ (Runs-send j _) (λ ok.
          Runs-if j 0 ok _ _
            (λ _.
              Runs-if j 0 (k + 1 == max_new m cmd) _ _
                (λ _. drop_turns 2 _ (push_done-Runs FinishReason.length) j h) (λ _. run))
            (λ _. drop_turns 1 _ (Runs-finish 0) j (omega arith))))

  decode-Runs : (left k : ℕ) → Runs (3 * left + 4) 0 (decode m cmd left k)
  unfolding decode
  decode-Runs zero k = done_now _
  decode-Runs (suc left) k =
      let j : ℕ = 3 * left + 4 in
      Runs-if _ 0 (ltb k (max_new m cmd)) _ _
        (λ _. Runs-le (2 + suc j) _ 0 0 _ (omega arith) (omega arith) (
          poll_twice-Runs (suc j) _ (omega arith)
            (elim (Option-cases
              (step_error cmd.logprobs (ltb (k + 1) (max_new m cmd)) (m.step k))) [
                | inl fine ↦ rw fine (deliver-Runs k j _ (omega arith) (decode-Runs left (k + 1)))
                | inr (msg, bad) ↦ rw bad (fail-Runs msg (suc j) (omega arith))
              ])))
        (λ _. done_now _)

  seed-Runs : Runs (3 * max_new m cmd + 6) 0 (seed m cmd)
  unfolding seed
  seed-Runs =
      let j : ℕ = 3 * max_new m cmd + 4 in
      Runs-le (2 + j) _ 0 0 _ (omega arith) (omega arith) (
        poll_twice-Runs j _ (omega arith) (
          Runs-if j 0 m.seed_ok _ _ (λ _. decode-Runs (max_new m cmd) 0)
            (λ _. fail-Runs _ j (omega arith))))

  -- The fuel covers the tokens that are left, since each round takes at least one.
  prefill-Runs :
      (fuel prefix_end at : ℕ)
      → prefix_end - at < fuel
      → Runs (2 * (prefix_end - at) + (3 * max_new m cmd + 6)) 0 (prefill m cmd fuel prefix_end at)
  unfolding prefill
  prefill-Runs zero prefix_end at h = absurd (omega arith)
  prefill-Runs (suc fuel) prefix_end at h =
      let chunk_end : ℕ =
        if ltb prefix_end (at + prefill_chunk) then prefix_end else at + prefill_chunk in
      let j : ℕ = 2 * (prefix_end - chunk_end) + (3 * max_new m cmd + 6) in
      Runs-if _ 0 (ltb at prefix_end) _ _
        (λ more. Runs-le (2 + j) _ 0 0 _ (ground arith) (omega arith) (
          poll_twice-Runs j _ (omega arith) (
            Runs-if j 0 (m.prefill_ok at (chunk_end - at)) _ _
              (λ _. prefill-Runs fuel prefix_end chunk_end (ground arith))
              (λ _. fail-Runs _ j (omega arith)))))
        (λ _. drop_turns (3 * max_new m cmd + 6) _ seed-Runs _ (omega arith))

  pub real-Runs :
      Runs (2 * length cmd.token_ids + (3 * max_new m cmd + 6)) 0 (handle_generate_real m cmd)
  unfolding handle_generate_real
  real-Runs =
      let n : ℕ = length cmd.token_ids in
      let k : ℕ = 2 * n + (3 * max_new m cmd + 6) in
      Runs-if k 0 (not m.key_ok) _ _ (λ _. fail-Runs _ k (omega arith))
        (λ _.
          Runs-if k 0 (ltb_ℤ m.max_position_embeddings (pos n)) _ _
            (λ _.
              drop_turns 4 _ (generate_fail-Runs cmd.dup_ok m.context_msg context_length) k
                (omega arith))
            (λ _.
              Runs-if k 0 (n == 0 || not (ltb_ℤ (pos 0) cmd.max_tokens)) _ _
                (λ _. drop_turns 2 _ (push_done-Runs FinishReason.stop) k (omega arith))
                (λ _.
                  Runs-if k 0 (not m.kv_ok) _ _ (λ _. fail-Runs _ k (omega arith))
                    (λ _.
                      drop_turns _ _ (prefill-Runs (suc n) (n - 1) 0 (omega arith)) k
                        (omega arith)))))
