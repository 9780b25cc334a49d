-- ===== src/Http/GenRequest.antt =====
-- http/gen_request.c, the request: its state, what it does to the connection and to its libuv handles,
-- and the teardown that waits until the engine has let go of the stream.
pub mod Ends
pub mod Respond
pub mod Drain
pub mod Start
use mlxd.Base.{
  ℕ, zero, suc, ◌+◌, ◌-◌, Bool, true, false, Option, none, some, List, [], ◌∷◌, ◌++◌, length, ltb,
  ◌==◌, if◌then◌else◌, Bytes, new_cap,
}
use mlxd.Core.Types.{FinishReason}
use mlxd.Engine.Stream.{Stream, ErrKind, Release, cancel, release, set_notify, sole_owner}
use mlxd.Model.Detok.{Detok}

-- `gen_request_t`. `stream` is none once it is NULL; `closing` is the state GR_CLOSING. The id, the
-- model's name and the time are the same in every message and not kept.
pub record Request : Type 0 where
  pub stream : Option Stream
  pub detok : Detok
  pub closing : Bool
  pub timer_inited : Bool
  pub conn_gone : Bool
  pub suppress_writes : Bool
  pub conn : Bool
  pub chat : Bool
  pub sse : Bool
  pub include_usage : Bool
  pub logprobs : Bool
  pub role_sent : Bool
  pub prompt_tokens : ℕ
  pub completion_tokens : ℕ
  pub accum : Bytes
  pub accum_cap : ℕ
  pub lp_entries : List (Bytes × ℕ)
  pub lp_cap : ℕ
  pub pending_closes : ℕ

-- The messages that are built for the connection.
pub data Payload : Type 0 where
  -- `gen_sse_chunk`: with or without a role, with a text and a log-probability
  chat_chunk : Bool → Option Bytes → Option (Bytes × ℕ) → Payload
  chat_final : FinishReason → Payload
  chat_usage : ℕ → ℕ → Payload
  -- `gen_sse_completion_chunk`
  text_chunk : Bytes → Payload
  text_final : FinishReason → Payload
  -- `gen_sse_error_ex` and the error envelope: message, type, code, and the latter's status
  sse_error : Option Bytes → Bytes → Option Bytes → Payload
  error_response : ℕ → Option Bytes → Bytes → Option Bytes → Payload
  -- `sse_done`, `http_build_sse_head`
  sse_done : Payload
  sse_head : Payload
  -- `gen_build_chat_response`, `gen_build_completion_response`
  chat_response : Bytes → FinishReason → ℕ → ℕ → List (Bytes × ℕ) → Payload
  text_response : Bytes → FinishReason → ℕ → ℕ → Payload

-- What a request does outside itself.
pub data Out : Type 0 where
  -- `http_conn_write`, with `close_after`; `http_conn_close`; `http_conn_set_observer(…, NULL, NULL)`
  writes : Payload → Bool → Out
  closes : Out
  unobserves : Out
  -- its libuv handles, and the reference to the stream that it gives up
  starts_timer stops_timer closes_timer closes_async : Out
  releases : Release → Out

-- `accum_append`, with the outcome of `realloc`; none is -1.
pub accum_append : Bool → Request → Bytes → Option Request
accum_append grow gr s =
    let need : ℕ = length gr.accum + length s in
    if length s == 0
    then some gr
    else if ltb gr.accum_cap need
    then if grow
      then some (record gr { accum = gr.accum ++ s; accum_cap = new_cap gr.accum_cap need })
      else none
    else some (record gr { accum = gr.accum ++ s })

-- `detach_conn`: whether there was a connection.
pub detach_conn : Request → Bool × Request × List Out
detach_conn gr =
    if gr.conn then (true, record gr { conn = false }, unobserves ∷ []) else (false, gr, [])

-- `begin_close` on the stream `s`
pub begin_close : Request → Stream → Request × List Out
begin_close gr s = (
  record gr {
    closing = true;
    stream = none;
    detok = record { buf = []; cap = 0 };
    accum = [];
    lp_entries = [];
    pending_closes = if gr.timer_inited then 2 else 1;
  },
  releases (release (set_notify none s))
      ∷ closes_async
      ∷ (if gr.timer_inited then closes_timer ∷ [] else []),
)

teardown_on : Request → Option Stream → Request × List Out
unfolding begin_close
teardown_on gr none = (gr, [])
teardown_on gr (some s) =
    if sole_owner s
    then begin_close gr s
    else if gr.timer_inited
    then (gr, [])
    else (record gr { timer_inited = true }, starts_timer ∷ [])

-- `try_teardown`
pub try_teardown : Request → Request × List Out
unfolding teardown_on
try_teardown gr = if gr.closing then (gr, []) else teardown_on gr gr.stream

timer_on : Request → Option Stream → Request × List Out
unfolding begin_close
timer_on gr none = (gr, [])
timer_on gr (some s) =
    if sole_owner s then (let (gr', o) = begin_close gr s in (gr', stops_timer ∷ o)) else (gr, [])

-- `on_timer`
pub on_timer : Request → Request × List Out
unfolding timer_on
on_timer gr = if gr.closing then (gr, []) else timer_on gr gr.stream

-- `on_close_cb`: the request, or none once it is freed.
pub on_close_cb : Request → Option Request
on_close_cb gr =
    if gr.pending_closes == 1
    then none
    else some (record gr { pending_closes = gr.pending_closes - 1 })

-- `stream_cancel` on the stream of the request
cancelled : Option Stream → Option Stream
unfolding cancel
cancelled none = none
cancelled (some s) = some (cancel s)

pub cancel_stream : Request → Request
unfolding cancelled
cancel_stream gr = record gr { stream = cancelled gr.stream }

-- `gen_request_drain`
pub gen_request_drain : Request → Request
unfolding cancel_stream
gen_request_drain gr = if gr.closing then gr else cancel_stream gr

-- `on_conn_gone`
pub on_conn_gone : Request → Request × List Out
unfolding cancel_stream try_teardown
on_conn_gone gr = try_teardown (cancel_stream (record gr { conn_gone = true; conn = false }))
