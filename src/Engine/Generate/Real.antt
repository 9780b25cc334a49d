-- ===== src/Engine/Generate/Real.antt =====
-- engine/engine.c: handle_generate_real and handle_generate.
-- What the model and the sampler answer is a parameter: for each call, whether it succeeds and, for
-- a decode step, the token. The hooks only give the other threads time, which the schedule does.
use mlxd.Base.{
  ℕ, zero, suc, ◌+◌, ◌-◌, Bool, true, false, not, Option, none, some, List, [], ◌∷◌, ℤ, pos, ltb_ℤ,
  pos_part, length, Bytes, codes, if◌then◌else◌, ltb, ◌==◌, ◌||◌, ◌&&◌,
}
use mlxd.Core.Types.{FinishReason}
use mlxd.Engine.Stream.{Chunk, token, internal, context_length}
use mlxd.Engine.World.{M, ◌>>=◌, ret, load_stop, send, finish}
use mlxd.Engine.Generate.{
  Command, generate_fail, push_done, push_error, close_failed, handle_generate_stub,
}

-- One decode step: which of its calls succeed, the token that it yields and its log-probability.
pub record Step : Type 0 where
  pub key_ok : Bool
  pub sample_ok : Bool
  pub reshape_ok : Bool
  pub forward_ok : Bool
  pub eval_ok : Bool
  pub item_ok : Bool
  pub logprob_ok : Bool
  pub id : ℕ
  pub logprob : ℕ

-- What one request meets. `context_msg` is the text that `snprintf` makes for a long prompt.
pub record Model : Type 0 where
  pub key_ok : Bool
  pub kv_ok : Bool
  pub max_position_embeddings : ℤ
  pub context_msg : Bytes
  pub prefill_ok : ℕ → ℕ → Bool
  pub seed_ok : Bool
  pub step : ℕ → Step
  pub eos_token_ids : List ℕ

-- `token_is_eos`
unfoldable pub token_is_eos : List ℕ → ℕ → Bool
token_is_eos [] id = false
token_is_eos (e ∷ es) id = if e == id then true else token_is_eos es id

abbrev pub prefill_chunk : ℕ
prefill_chunk = 512

-- The calls of one decode step in their order: the message of the first that fails.
unfoldable pub step_error : Bool → Bool → Step → Option Bytes
step_error want_lp more s =
    if not s.key_ok
    then some (codes "sampler key_next failed")
    else if not s.sample_ok
    then some (codes "sampler sample failed")
    else if more && not s.reshape_ok
    then some (codes "token reshape failed")
    else if more && not s.forward_ok
    then some (codes "decode forward failed")
    else if not s.eval_ok
    then some (codes "async_eval failed")
    else if not s.item_ok
    then some (codes "token materialize failed")
    else if want_lp && not s.logprob_ok
    then some (codes "logprob materialize failed")
    else none

-- Two polls with the hook between them; the code goes on if neither sees a stop.
unfoldable pub poll_twice : M (Unit {0}) → M (Unit {0})
poll_twice next = do
  before ← load_stop
  if before then finish else (do after ← load_stop; if after then finish else next)

module _ (m : Model) (cmd : Command) where
  unfoldable pub fail : Bytes → M (Unit {0})
  fail msg = generate_fail cmd.dup_ok msg internal

  abbrev pub max_new : ℕ
  max_new = pos_part cmd.max_tokens

  -- The chunk of the `k`-th decoded token.
  unfoldable pub decoded : ℕ → Chunk
  decoded k = token (m.step k).id (if cmd.logprobs then (m.step k).logprob else 0)

  -- The end of a decode step, once the token is there.
  unfoldable pub deliver : ℕ → M (Unit {0}) → M (Unit {0})
  unfolding decoded
  deliver k next =
      if token_is_eos m.eos_token_ids (m.step k).id then push_done FinishReason.stop else (do
        ok ← send (decoded k)
        if ok then (if k + 1 == max_new then push_done FinishReason.length else next) else finish)

  -- The decode loop, with `k` tokens emitted and `left` more allowed.
  unfoldable pub decode : ℕ → ℕ → M (Unit {0})
  unfolding fail
  decode zero k = ret tt
  decode (suc left) k =
      let next : M (Unit {0}) = decode left (k + 1) in
      if ltb k max_new
      then poll_twice (elim (step_error cmd.logprobs (ltb (k + 1) max_new) (m.step k)) [
        | some msg ↦ fail msg
        | none ↦ deliver k next
      ])
      else ret tt

  -- The last prompt token's forward, and the decode loop.
  unfoldable pub seed : M (Unit {0})
  unfolding fail
  seed = poll_twice (if m.seed_ok then decode max_new 0 else fail (codes "seed forward failed"))

  -- The chunked prefill of all prompt tokens but the last, from `at` on; `none` if out of fuel.
  unfoldable pub prefill : ℕ → ℕ → ℕ → M (Unit {0})
  unfolding fail
  prefill zero prefix_end at = λ w. none
  prefill (suc fuel) prefix_end at =
      let chunk_end : ℕ =
        if ltb prefix_end (at + prefill_chunk) then prefix_end else at + prefill_chunk in
      let rest : M (Unit {0}) = prefill fuel prefix_end chunk_end in
      if ltb at prefix_end
      then poll_twice
          (if m.prefill_ok at (chunk_end - at) then rest else fail (codes "prefill forward failed"))
      else seed

  -- `handle_generate_real`
  unfoldable pub handle_generate_real : M (Unit {0})
  unfolding fail
  handle_generate_real =
      let n : ℕ = length cmd.token_ids in
      if not m.key_ok
      then fail (codes "sampler key init failed")
      else if ltb_ℤ m.max_position_embeddings (pos n)
      then generate_fail cmd.dup_ok m.context_msg context_length
      else if n == 0 || not (ltb_ℤ (pos 0) cmd.max_tokens)
      then push_done FinishReason.stop
      else if not m.kv_ok
      then fail (codes "kvcache init failed")
      else prefill (suc n) (n - 1) 0

-- What `handle_generate` finds resident.
pub data Resident : Type 0 where
  unloaded : Resident
  stub : Resident
  real : Model → Resident

-- `handle_generate` between the two settings of `inflight`.
unfoldable pub handle_generate : Resident → Command → M (Unit {0})
handle_generate unloaded cmd = do
  ok ← push_error cmd.dup_ok (codes "model not loaded")
  close_failed ok
handle_generate stub cmd = handle_generate_stub cmd
handle_generate (real m) cmd = handle_generate_real m cmd
