-- ===== src/Engine/Generate.antt =====
-- engine/engine.c: handle_generate and what it calls. Each call that takes the stream's mutex or
-- reads a flag is a step of `World.M`, so the other threads act between any two of them.
pub mod Real
pub mod StubLaws
pub mod FailLaws
pub mod Outcome
pub mod RealLaws
pub mod Total
pub mod Deliver
use mlxd.Base.{
  ℕ, zero, suc, ◌+◌, ◌-◌, Bool, true, false, Option, none, some, List, [], ◌∷◌, ◌⊎◌, ℤ, pos, negsuc,
  pos_part, neg_part, ltb_ℤ, length, take, Bytes, codes, if◌then◌else◌, ltb,
}
use mlxd.Core.Types.{FinishReason}
use mlxd.Engine.Stream.{Chunk, token, error, done, ErrKind, internal}
use mlxd.Engine.World.{World, M, ◌>>=◌, ◌>>◌, ret, load_shutdown, send, finish}

-- `generate` of `engine_cmd_t`, as far as the handlers read it. `stub_logprob i` is the float
-- `-0.25f * (float)(i + 1)` as a bit pattern.
pub record Command : Type 0 where
  pub token_ids : List ℕ
  pub max_tokens : ℤ
  pub logprobs : Bool
  pub stub_logprob : ℕ → ℕ
  -- whether `strdup` of an error message succeeds
  pub dup_ok : Bool

-- `stream_push_error_kind`
unfoldable pub push_error_kind : Bool → Bytes → ErrKind → M Bool
push_error_kind dup_ok msg kind = if dup_ok then send (error msg kind) else ret false

-- `stream_push_error`
unfoldable pub push_error : Bool → Bytes → M Bool
unfolding push_error_kind
push_error dup_ok msg = push_error_kind dup_ok msg internal

-- The end of `generate_fail` and of the branch for a model that is not loaded.
unfoldable pub close_failed : Bool → M (Unit {0})
close_failed ok = do
  ended ← if ok then send (done FinishReason.stop) else ret false
  if ended then ret tt else (do down ← load_shutdown; if down then finish else ret tt)

-- `generate_fail`
unfoldable pub generate_fail : Bool → Bytes → ErrKind → M (Unit {0})
unfolding push_error_kind close_failed
generate_fail dup_ok msg kind = do ok ← push_error_kind dup_ok msg kind; close_failed ok

-- `if (!stream_push(s, DONE)) stream_finish_cancelled(s)`
unfoldable pub push_done : FinishReason → M (Unit {0})
push_done reason = do ok ← send (done reason); if ok then ret tt else finish

-- The loop of `handle_generate_stub` from index `i` on; it returns `aborted`.
unfoldable pub stub_loop : Command → ℕ → List ℕ → M Bool
stub_loop cmd i [] = ret false
stub_loop cmd i (id ∷ ids) =
    let rest : M Bool = stub_loop cmd (i + 1) ids in
    do
      down ← load_shutdown
      if down then (do finish; ret true) else (do
        ok ← send (token id (if cmd.logprobs then cmd.stub_logprob i else 0))
        if ok then rest else (do finish; ret true))

-- `count < max ? count : max`, where a negative `max` runs no round.
abbrev pub stub_limit : Command → ℤ
stub_limit cmd =
    let count = pos (length cmd.token_ids) in
    if ltb_ℤ count cmd.max_tokens then count else cmd.max_tokens

abbrev pub stub_reason : Command → FinishReason
stub_reason cmd =
    if ltb_ℤ (stub_limit cmd) (pos (length cmd.token_ids))
    then FinishReason.length
    else FinishReason.stop

-- `handle_generate_stub`
unfoldable pub handle_generate_stub : Command → M (Unit {0})
unfolding stub_loop push_done
handle_generate_stub cmd = do
  aborted ← stub_loop cmd 0 (take (pos_part (stub_limit cmd)) cmd.token_ids)
  if aborted then ret tt else push_done (stub_reason cmd)
