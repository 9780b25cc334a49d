-- ===== src/Engine/Generate/Outcome.antt =====
-- How a generate command on a real model can end, told apart by what the model and the sampler answer.
use mlxd.Base.{
  ◌*◌, ℕ, zero, suc, ◌+◌, ◌-◌, ◌≤◌, ◌<◌, ◌≡◌, Bool, true, false, List, [], ◌∷◌, ◌++◌, ◌⊎◌, pos,
  ltb_ℤ, length, if◌then◌else◌, ltb, Bytes, Option, none, some, codes,
}
use mlxd.Core.Types.{FinishReason}
use mlxd.Engine.Stream.{Chunk, error, ErrKind, internal, context_length}
use mlxd.Engine.World.Triple.{Flags, IsStopped, IsCut}
use mlxd.Engine.Generate.{Command}
use mlxd.Engine.Generate.StubLaws.{Ends}
use mlxd.Engine.Generate.FailLaws.{FailEnds}
use mlxd.Engine.Generate.Real.{Model, token_is_eos, step_error, max_new, decoded, prefill_chunk}

module _ (m : Model) (cmd : Command) (late : Bool) where
  -- The first `n` decoded tokens.
  abbrev pub tokens : ℕ → List Chunk
  tokens zero = []
  tokens (suc n) = tokens n ++ decoded m cmd n ∷ []

  abbrev pub ends_at : ℕ → Bool
  ends_at k = token_is_eos m.eos_token_ids (m.step k).id

  -- Nothing to generate: no prompt, or no token allowed.
  abbrev pub IsIdle : Type 0
  IsIdle = (length cmd.token_ids ≡ 0) ⊎ (max_new m cmd ≡ 0)

  -- The error of the decode step `k`, if it has one.
  abbrev pub step_failure : ℕ → Option Bytes
  step_failure k = step_error cmd.logprobs (ltb (k + 1) (max_new m cmd)) (m.step k)

  abbrev pub is_long : Bool
  is_long = ltb_ℤ m.max_position_embeddings (pos (length cmd.token_ids))

  -- The prompt without its last token, and the size of the chunk of it at a position.
  abbrev pub prefix_len : ℕ
  prefix_len = length cmd.token_ids - 1

  abbrev pub chunk_end_of : ℕ → ℕ
  chunk_end_of at = if ltb prefix_len (at + prefill_chunk) then prefix_len else at + prefill_chunk

  abbrev pub chunk_size : ℕ → ℕ
  chunk_size at = chunk_end_of at - at

  -- The chunks of the prefix that start before `at` are forwarded.
  abbrev pub Prefilled : ℕ → Type 0
  Prefilled at =
      (i : ℕ)
      → prefill_chunk * i < at
      → prefill_chunk * i < prefix_len
      → m.prefill_ok (prefill_chunk * i) (chunk_size (prefill_chunk * i)) ≡ true

  -- What the first token needs: a key, a prompt that fits, a cache, the forward of every chunk of the
  -- prefix and that of the last prompt token.
  pub record Opened : Type 0 where
    pub keyed : m.key_ok ≡ true
    pub short : is_long ≡ false
    pub cached : m.kv_ok ≡ true
    pub prefilled : Prefilled prefix_len
    pub seeded : m.seed_ok ≡ true
    -- the engine was not shutting down when the run started
    pub live : late ≡ false

  -- `n` tokens are allowed, the steps of the first `n` succeed, and none is an end-of-sequence token.
  pub record Progress (n : ℕ) : Type 0 where
    pub allowed : n ≤ max_new m cmd
    pub running : (i : ℕ) → i < n → ends_at i ≡ false
    pub fine : (i : ℕ) → i < n → step_failure i ≡ none
    pub opened : 0 < n → Opened

  -- The next token is there and ends the sequence.
  abbrev pub IsLast : ℕ → Type 0
  IsLast n = Opened × (step_failure n ≡ none) × (ends_at n ≡ true)

  -- The call of the model that fails with `n` tokens out, and what it is reported as.
  pub data Fault (n : ℕ) (msg : Bytes) : ErrKind → Type 0 where
    no_key : n ≡ 0 → m.key_ok ≡ false → msg ≡ codes "sampler key init failed" → Fault n msg internal
    too_long : n ≡ 0 → is_long ≡ true → msg ≡ m.context_msg → Fault n msg context_length
    no_cache : n ≡ 0 → m.kv_ok ≡ false → msg ≡ codes "kvcache init failed" → Fault n msg internal
    no_prefill :
        (at len : ℕ)
        → n ≡ 0
        → m.prefill_ok at len ≡ false
        → msg ≡ codes "prefill forward failed"
        → Fault n msg internal
    no_seed : n ≡ 0 → m.seed_ok ≡ false → msg ≡ codes "seed forward failed" → Fault n msg internal
    no_step : Opened → step_failure n ≡ some msg → Fault n msg internal

  -- How a run ends: with `n` tokens out, none of them an end-of-sequence token.
  pub data Outcome (b : Flags) (l : List Chunk) : Type 0 where
    -- the next token is one, or there is nothing to do and the prompt fits
    stops :
        (n : ℕ)
        → Progress n
        → IsLast n ⊎ (IsIdle × (m.key_ok ≡ true) × (is_long ≡ false) × (n ≡ 0))
        → Ends (tokens n) FinishReason.stop tt b l
        → Outcome b l
    -- all that are allowed are out
    fills :
        Progress (max_new m cmd)
        → Ends (tokens (max_new m cmd)) FinishReason.length tt b l
        → Outcome b l
    -- a cancel or a shutdown came
    stopped : (n : ℕ) → Progress n → IsCut (tokens n) l → IsStopped b → Outcome b l
    -- a call of the model fails
    fails :
        (n : ℕ) (msg : Bytes) (kind : ErrKind)
        → Progress n
        → Fault n msg kind
        → FailEnds cmd.dup_ok (error msg kind) (tokens n) tt b l
        → Outcome b l
