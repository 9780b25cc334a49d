-- ===== src/Http/GenRequest/Start.antt =====
-- http/gen_request.c, `gen_request_start`: the checks, the allocations with their one way back, and
-- the hand-over to the engine.
pub mod Refs
use mlxd.Base.{
  ℕ, zero, suc, ◌+◌, ◌≡◌, refl, Bool, true, false, not, ◌&&◌, Option, none, some, List, [], ◌∷◌,
  length, if◌then◌else◌, if_elim, arith, Bytes, codes, ℤ, pos, negsuc, ltb_ℤ, ◌==◌,
}
use mlxd.Engine.Stream.{
  Stream, Release, create, retain, release, set_notify, finish_cancelled, contents,
}
use mlxd.Model.Detok.{Detok}
use mlxd.Http.GenRequest.{Request, Out, Payload, writes, sse_head, on_conn_gone}

-- `gen_request_start_params_t`, with what the two prompt builders give for it: the number of ids and
-- the message of a failure.
pub record Params : Type 0 where
  pub tokenizer : Bool
  pub chat_template : Bool
  pub chat : Bool
  pub stream : Bool
  pub include_usage : Bool
  pub logprobs : Bool
  pub max_tokens : ℤ
  pub token_ids : List ℕ
  pub n_ids : ℤ
  pub prompt_error : Bytes

-- The outcomes of its allocations and of `uv_async_init`; whether `engine_post` takes the command, which
-- it does not after a shutdown; and whether the write of the head is queued, without which the
-- connection is closed there and then. The engine thread works on the command from the return on.
pub record Allocs : Type 0 where
  pub stream_ok : Bool
  pub buf_ok : Bool
  pub detok_ok : Bool
  pub request_ok : Bool
  pub id_ok : Bool
  pub model_ok : Bool
  pub cmd_ok : Bool
  pub head_ok : Bool
  pub async_ok : Bool
  pub posted : Bool
  pub head_sent : Bool

-- The command that is posted: ids and token limit, on the request's stream.
pub record Posted : Type 0 where
  pub token_ids : List ℕ
  pub max_tokens : ℤ

-- A status with a message and what became of the stream, or the request, its command, and the writes.
pub data Started : Type 0 where
  refused : ℕ → Bytes → List Release → Started
  started : Request → Posted → List Out → Started

abbrev int_max : ℤ
int_max = pos 2147483647

-- The limit that the engine gets.
pub resolve_max_tokens : Bool → ℤ → ℤ
resolve_max_tokens chat n = if ltb_ℤ (pos 0) n then n else if chat then int_max else pos 16

-- `stream_release` twice, on a stream that was retained once.
released_twice : Release → List Release
released_twice (Release.gone msgs) = Release.gone msgs ∷ []
released_twice (Release.alive s) = Release.alive s ∷ release s ∷ []

out_of_memory : Bytes
out_of_memory = codes "out of memory"

initial : Params → Option Stream → ℕ → Request
initial p s n = record {
  stream = s;
  detok = record { buf = []; cap = 0 };
  closing = false;
  timer_inited = false;
  conn_gone = false;
  suppress_writes = false;
  conn = true;
  chat = p.chat;
  sse = p.stream;
  include_usage = p.include_usage;
  logprobs = p.logprobs && p.chat;
  role_sent = false;
  prompt_tokens = n;
  completion_tokens = 0;
  accum = [];
  accum_cap = 0;
  lp_entries = [];
  lp_cap = 0;
  pending_closes = 0;
}

-- What `engine_post` leaves of the stream: as it is, or finished and released by `cmd_cancel`.
left_by : Release → Option Stream
left_by (Release.alive s) = some s
left_by (Release.gone msgs) = none

after_post : Bool → Stream → Option Stream
unfolding left_by
after_post true s = some s
after_post false s = left_by (release (finish_cancelled s).0)

-- The write of the head, after which the observer has been called if it is not queued.
with_head : Bool → Bool → Request → Posted → Started
with_head false sent gr cmd = started gr cmd []
with_head true true gr cmd = started gr cmd (writes sse_head false ∷ [])
with_head true false gr cmd =
    let (gr', o) = on_conn_gone gr in started gr' cmd (writes sse_head false ∷ o)

-- From the retained stream on. `me` is the request as the context of the callback.
with_stream : ℕ → Params → Allocs → ℕ → Stream → Started
unfolding released_twice out_of_memory initial resolve_max_tokens after_post with_head
with_stream me p a n s =
    let failed : Bytes → Started = λ msg. refused 500 msg (released_twice (release s)) in
    if not a.detok_ok
    then failed (codes "detokenizer init failed")
    else if not (a.request_ok && a.id_ok && a.model_ok && a.cmd_ok)
    then failed out_of_memory
    else if p.stream && not a.head_ok
    then failed out_of_memory
    else if not a.async_ok
    then failed (codes "uv_async_init failed")
    else with_head p.stream a.head_sent (initial p (after_post a.posted (set_notify (some me) s)) n)
        (record { token_ids = p.token_ids; max_tokens = resolve_max_tokens p.chat p.max_tokens })

from_stream : ℕ → Params → Allocs → ℕ → Option Stream → Started
unfolding with_stream out_of_memory
from_stream me p a n none = refused 500 out_of_memory []
from_stream me p a n (some s) = with_stream me p a n (retain s)

from_prompt : ℕ → Params → Allocs → ℤ → Started
unfolding from_stream
from_prompt me p a (negsuc k) =
    if k == 0 && p.chat then refused 400 p.prompt_error [] else refused 500 p.prompt_error []
from_prompt me p a (pos n) = from_stream me p a n (create (pos 64) a.stream_ok a.buf_ok)

pub gen_request_start : ℕ → Params → Allocs → Started
unfolding from_prompt
gen_request_start me p a =
    if not p.tokenizer
    then refused 503 (codes "model not loaded") []
    else if p.chat && not p.chat_template
    then refused 400 (codes "chat template not configured") []
    else from_prompt me p a p.n_ids
