-- ===== src/Http/Tests.antt =====
-- The theorems on a request at a concrete one.
mod Serving
use mlxd.Base.{◌+◌, ◌≡◌, ◌⊎◌, refl, true, false, some, List, [], ◌∷◌, pos, codes}
use mlxd.Core.Types.{FinishReason}
use mlxd.Engine.Stream.{Stream, token, done, blank}
use mlxd.Http.GenRequest.{Request, Out}
use mlxd.Http.GenRequest.Ends.{count, ends}
use mlxd.Http.GenRequest.Respond.{Env}
use mlxd.Http.GenRequest.Drain.{drained, gen_on_async, Turn, pushes, lets_go}
use mlxd.Http.GenRequest.Drain.Returns.{gen_on_async_returns, Emptied, Returned}
use mlxd.Http.GenRequest.Drain.Closing.{single_ending}
use mlxd.Http.GenRequest.Start.{Params, Allocs, gen_request_start}
use mlxd.Http.GenRequest.Start.Refs.{Owned, start-Owned}

abbrev chunks : Stream
chunks = record {
  buf = token 1 0 ∷ token 2 0 ∷ done FinishReason.length ∷ blank ∷ [];
  cap = 4;
  len = 3;
  read_pos = 0;
  cancelled = false;
  refcount = 2;
  on_push = some 1;
}

abbrev request : Request
request = record {
  stream = some chunks;
  detok = record { buf = []; cap = 0 };
  closing = false;
  timer_inited = false;
  conn_gone = false;
  suppress_writes = false;
  conn = true;
  chat = true;
  sse = true;
  include_usage = true;
  logprobs = false;
  role_sent = false;
  prompt_tokens = 5;
  completion_tokens = 0;
  accum = [];
  accum_cap = 0;
  lp_entries = [];
  lp_cap = 0;
  pending_closes = 0;
}

abbrev quiet : Env
quiet = record {
  decode = λ id. some (codes "hi");
  feed_grow = λ k. true;
  feed_alloc = λ k. true;
  accum_grow = λ k. true;
  lp_grow = λ k. true;
  flush_alloc = true;
  flush_grow = true;
  dup_ok = true;
  built = λ k p. true;
  built_last = λ p. true;
  sent = λ k. true;
  queued = λ k. 0;
}

-- The engine thread pushes a token and lets go of the stream while the loop runs.
abbrev working : List Turn
working =
    record { ahead = pushes (token 3 0) ∷ []; between = [] }
    ∷ record { ahead = []; between = lets_go ∷ [] }
    ∷ []

gen_on_async_returns_example :
    (gr' : Request) × (o : List Out) × (gen_on_async quiet working request ≡ drained gr' o)
    × (Emptied quiet gr' ⊎ Returned quiet gr')
gen_on_async_returns_example =
    gen_on_async_returns quiet working request chunks (λ k. refl) refl refl

abbrev whole_drain :
    (gr' : Request) × (o : List Out) × (gen_on_async quiet working request ≡ drained gr' o)
    × (Emptied quiet gr' ⊎ Returned quiet gr')
whole_drain = gen_on_async_returns quiet working request chunks (λ k. refl) refl refl

abbrev whole_drain_ends : gen_on_async quiet working request ≡ drained whole_drain.0 whole_drain.1
whole_drain_ends = let (gr', o, e, h) = whole_drain in e

single_ending_example :
    ends whole_drain.1 + (count whole_drain.0.conn + count whole_drain.0.conn_gone) ≡ 1 + 0
single_ending_example =
    single_ending quiet working request whole_drain.0 whole_drain.1 whole_drain_ends

abbrev params : Params
params = record {
  tokenizer = true;
  chat_template = true;
  chat = true;
  stream = true;
  include_usage = true;
  logprobs = true;
  max_tokens = pos 0;
  token_ids = 1 ∷ 2 ∷ [];
  n_ids = pos 2;
  prompt_error = [];
}

abbrev allocs : Allocs
allocs = record {
  stream_ok = true;
  buf_ok = true;
  detok_ok = true;
  request_ok = true;
  id_ok = true;
  model_ok = true;
  cmd_ok = true;
  head_ok = true;
  async_ok = true;
  posted = true;
  head_sent = false;
}

start-Owned_example : Owned 7 params allocs (gen_request_start 7 params allocs)
start-Owned_example = start-Owned 7 params allocs
