-- ===== src/Http/GenRequest/Respond.antt =====
-- http/gen_request.c, what is written to the connection: chunks, the end of a response, and errors.
pub mod Laws
pub mod Closing
use mlxd.Base.{
  ℕ, ◌+◌, Bool, true, false, not, ◌&&◌, ◌||◌, Option, none, some, List, [], ◌∷◌, ◌++◌, length, ltb,
  if◌then◌else◌, Bytes, codes,
}
use mlxd.Core.Types.{FinishReason}
use mlxd.Engine.Stream.{ErrKind, internal, context_length}
use mlxd.Model.Detok.{Detok, detok_flush}
use mlxd.Http.GenRequest.{
  Request, Payload, Out, chat_chunk, chat_final, chat_usage, text_chunk, text_final, sse_error,
  error_response, sse_done, chat_response, text_response, writes, closes, accum_append, detach_conn,
  try_teardown, on_conn_gone,
}

-- What happens around the request, by the number of tokens that were read before.
pub record Env : Type 0 where
  -- what `tokenizer_decode` gives for a token
  pub decode : ℕ → Option Bytes
  -- the allocations of `detok_feed`, of `accum_append` and of the log-probabilities
  pub feed_grow : ℕ → Bool
  pub feed_alloc : ℕ → Bool
  pub accum_grow : ℕ → Bool
  pub lp_grow : ℕ → Bool
  -- the allocations of `finish_response`, and of a copied message
  pub flush_alloc : Bool
  pub flush_grow : Bool
  pub dup_ok : Bool
  -- whether a streamed piece is built; whether its write is queued, without which the connection is
  -- closed there and then; and the bytes in the queue after it
  pub built : ℕ → Payload → Bool
  pub sent : ℕ → Bool
  pub queued : ℕ → ℕ
  -- whether a message of the end of the response is built
  pub built_last : Payload → Bool

-- `http_conn_write` while the connection is observed.
write_observed : Bool → Request → Payload → Request × List Out
unfolding on_conn_gone
write_observed true gr p = (gr, writes p false ∷ [])
write_observed false gr p = let (gr', o) = on_conn_gone gr in (gr', writes p false ∷ o)

text_opt : Bytes → Option Bytes
text_opt text = if ltb 0 (length text) then some text else none

-- `emit_sse_chunk`
pub emit_sse_chunk : Env → Request → Bytes → ℕ → Request × List Out
unfolding write_observed text_opt
emit_sse_chunk env gr text logprob =
    let ok : Bool = env.sent gr.completion_tokens in
    let lp : Option (Bytes × ℕ) = if gr.logprobs then some (text, logprob) else none in
    if gr.conn_gone || not gr.conn || gr.suppress_writes
    then (gr, [])
    else if gr.chat
    then if not gr.role_sent
      then if env.built gr.completion_tokens (chat_chunk true (text_opt text) lp)
        then (let (gr', o) = write_observed ok gr (chat_chunk true (text_opt text) lp) in
            (record gr' { role_sent = true }, o))
        else (gr, [])
      else if ltb 0 (length text)
          && env.built gr.completion_tokens (chat_chunk false (some text) lp)
      then write_observed ok gr (chat_chunk false (some text) lp)
      else (gr, [])
    else if ltb 0 (length text) && env.built gr.completion_tokens (text_chunk text)
    then write_observed ok gr (text_chunk text)
    else (gr, [])

-- `error_kind_map`: status, type and code
pub error_kind_map : ErrKind → ℕ × Bytes × Option Bytes
error_kind_map context_length =
    (400, codes "invalid_request_error", some (codes "context_length_exceeded"))
error_kind_map internal = (500, codes "server_error", none)

module _ (env : Env) where
  -- A message that is left out if it cannot be built.
  put : Payload → List Out
  put p = if env.built_last p then writes p false ∷ [] else []

  -- The last message: without it the connection is closed at once.
  put_last : Payload → List Out
  put_last p = if env.built_last p then writes p true ∷ [] else closes ∷ []

  -- The text that the detokenizer held back, and whether a role has been sent after it.
  flush_chunk : Request → Bytes → Bool × List Out
  unfolding put
  flush_chunk gr out =
      let p : Payload = chat_chunk (not gr.role_sent) (some out) none in
      if ltb 0 (length out)
      then if gr.chat
        then (gr.role_sent || env.built_last p, put p)
        else (gr.role_sent, put (text_chunk out))
      else (gr.role_sent, [])

  sse_end : Request → FinishReason → Bool → List Out
  unfolding put put_last
  sse_end gr reason role =
      (if gr.chat
        then (if role then [] else put (chat_chunk true none none))
          ++ put (chat_final reason)
          ++ (if gr.include_usage
              then put (chat_usage gr.prompt_tokens gr.completion_tokens)
              else [])
        else put (text_final reason))
      ++ put_last sse_done

  whole_response : Request → FinishReason → Payload
  whole_response gr reason =
      if gr.chat
      then chat_response gr.accum reason gr.prompt_tokens gr.completion_tokens gr.lp_entries
      else text_response gr.accum reason gr.prompt_tokens gr.completion_tokens

  -- The three ways to end a response on a connection that is there.
  respond : Request → FinishReason → Bytes → Bool × List Out
  unfolding flush_chunk sse_end whole_response put_last
  respond gr reason out =
      if gr.suppress_writes
      then (gr.role_sent, closes ∷ [])
      else if gr.sse
      then (let (role, o) = flush_chunk gr out in (role, o ++ sse_end gr reason role))
      else (gr.role_sent, put_last (whole_response gr reason))

  torn_down : Request → List Out → Request × List Out
  unfolding try_teardown
  torn_down gr o = let (gr', o') = try_teardown gr in (gr', o ++ o')

  -- `finish_response` from the detached connection on
  finish_with : Request → FinishReason → Bytes → Request × List Out
  unfolding detach_conn respond torn_down
  finish_with gr reason out =
      if gr.conn
      then (let (role, o) = respond (record gr { conn = false }) reason out in
          torn_down (record gr { conn = false; role_sent = role }) ((detach_conn gr).2 ++ o))
      else torn_down gr []

  respond_error : Request → Option Bytes → ErrKind → List Out
  unfolding put put_last error_kind_map
  respond_error gr msg kind =
      let (status, type, code) = error_kind_map kind in
      if gr.suppress_writes
      then closes ∷ []
      else if gr.sse
      then put (sse_error msg type code) ++ put_last sse_done
      else put_last (error_response status msg type code)

  -- `finish_error`
  pub finish_error : Request → Option Bytes → ErrKind → Request × List Out
  unfolding detach_conn respond_error torn_down
  finish_error gr msg kind =
      if gr.conn
      then torn_down (record gr { conn = false }) ((detach_conn gr).2 ++ respond_error gr msg kind)
      else torn_down gr []

  pub dup : Bytes → Option Bytes
  dup msg = if env.dup_ok then some msg else none

  -- `finish_response`, by what `detok_flush` and `accum_append` give
  accumulated : FinishReason → Bytes → Option Request → Request → Request × List Out
  unfolding finish_error finish_with dup
  accumulated reason out none gr = finish_error gr (dup (codes "out of memory")) internal
  accumulated reason out (some gr') gr = finish_with gr' reason out

  flushed : FinishReason → Option Bytes → Request → Request × List Out
  unfolding accumulated accum_append finish_error finish_with dup
  flushed reason none gr = finish_error gr (dup (codes "detokenizer flush error")) internal
  flushed reason (some out) gr =
      if not gr.sse && ltb 0 (length out)
      then accumulated reason out (accum_append env.flush_grow gr out) gr
      else finish_with gr reason out

  pub finish_response : Request → FinishReason → Request × List Out
  unfolding flushed
  finish_response gr reason =
      let (out, d) = detok_flush env.flush_alloc gr.detok in
      flushed reason out (record gr { detok = d })
