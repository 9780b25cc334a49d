-- ===== src/Http/GenRequest/Drain.antt =====
-- http/gen_request.c, `gen_on_async`: the loop that empties the stream into the connection, while the
-- engine thread goes on with the stream. A schedule holds, for each round, what that thread does before
-- `stream_next` and what it does between it and the handling of the chunk.
pub mod Chunks
pub mod Returns
pub mod Closing
use mlxd.Base.{
  ℕ, zero, suc, ◌+◌, ◌*◌, Bool, true, false, not, ◌&&◌, Option, none, some, List, [], ◌∷◌, ◌++◌,
  length, ltb, leb, ◌==◌, if◌then◌else◌, Bytes, codes,
}
use mlxd.Core.Types.{FinishReason}
use mlxd.Engine.Stream.{
  Stream, Chunk, internal, token, error, done, next, poll, Next, Push, push, Release, release,
  finish_cancelled,
}
use mlxd.Model.Detok.{Detok, detok_feed}
use mlxd.Http.GenRequest.{Request, Out, accum_append, cancel_stream}
use mlxd.Http.GenRequest.Respond.{Env, emit_sse_chunk, finish_error, finish_response, dup}

-- `BACKPRESSURE_HWM`
abbrev pub backpressure_hwm : ℕ
backpressure_hwm = 1048576

-- The end of the loop, or why it has none: a NULL stream is read, or the fuel is used up.
pub data Drained : Type 0 where
  null_stream : Drained
  out_of_fuel : Drained
  drained : Request → List Out → Drained

pub before : List Out → Drained → Drained
before o null_stream = null_stream
before o out_of_fuel = out_of_fuel
before o (drained gr o') = drained gr (o ++ o')

-- What the engine thread does to the stream under its mutex: `stream_push`, which may still wait or be
-- refused, `stream_finish_cancelled`, and `stream_release` of its own reference.
pub data EngineAct : Type 0 where
  pushes : Chunk → EngineAct
  finishes : EngineAct
  lets_go : EngineAct

pushed_to : Stream → Push → Stream
pushed_to s Push.blocked = s
pushed_to s (Push.refused ms) = s
pushed_to s (Push.pushed t cb) = t

released : Stream → Release → Stream
released s (Release.alive t) = t
released s (Release.gone ms) = s

pub engine_act : Stream → EngineAct → Stream
unfolding pushed_to released
engine_act s (pushes c) = pushed_to s (push s c)
engine_act s finishes = (finish_cancelled s).0
engine_act s lets_go = released s (release s)

pub engine_acts : Stream → List EngineAct → Stream
unfolding engine_act
engine_acts s [] = s
engine_acts s (a ∷ as') = engine_acts (engine_act s a) as'

pub ran_on : List EngineAct → Option Stream → Option Stream
unfolding engine_acts
ran_on as' none = none
ran_on as' (some s) = some (engine_acts s as')

pub ran : List EngineAct → Request → Request
unfolding ran_on
ran as' gr = record gr { stream = ran_on as' gr.stream }

pub record Turn : Type 0 where
  pub ahead : List EngineAct
  pub between : List EngineAct

-- The acts of the next round, and the schedule after it; with no schedule left the thread does nothing.
pub this_turn : List Turn → Turn
this_turn [] = record { ahead = []; between = [] }
this_turn (t ∷ ts) = t

pub later : List Turn → List Turn
later [] = []
later (t ∷ ts) = ts

-- The most chunks that acts, and a schedule, put on the stream.
pub puts : List EngineAct → ℕ
puts [] = 0
puts (pushes c ∷ as') = 1 + puts as'
puts (finishes ∷ as') = 1 + puts as'
puts (lets_go ∷ as') = puts as'

pub puts_ever : List Turn → ℕ
unfolding puts
puts_ever [] = 0
puts_ever (t ∷ ts) = puts t.ahead + puts t.between + puts_ever ts

next_of : Option Stream → Option Next
next_of none = none
next_of (some s) = some (next poll s)

fuel_for : List Turn → Option Stream → ℕ
unfolding puts_ever
fuel_for ts none = 1
fuel_for ts (some s) = s.len + puts_ever ts + 1

-- A chunk, and what `again` makes of the request after it.
go_on : (Request → Drained) → Bool × Request × List Out → Drained
unfolding before
go_on again (true, gr, o) = before o (again gr)
go_on again (false, gr, o) = drained gr o

stops_with : Request × List Out → Bool × Request × List Out
stops_with (gr, o) = (false, gr, o)

module _ (env : Env) where
  pub fail : Request → Bytes → Bool × Request × List Out
  unfolding cancel_stream stops_with
  fail gr msg = stops_with (finish_error env (cancel_stream gr) (dup env msg) internal)

  -- The streamed piece of the token number `k`, and the limit on the write queue.
  pub streamed : ℕ → Request → Bytes → ℕ → Request × List Out
  streamed k gr piece lp = if ltb 0 (length piece) then emit_sse_chunk env gr piece lp else (gr, [])

  pub throttled : ℕ → Request → Request
  unfolding cancel_stream
  throttled k gr =
      if not gr.conn_gone
        && not gr.suppress_writes
        && gr.conn
        && ltb backpressure_hwm (env.queued k)
      then cancel_stream (record gr { suppress_writes = true })
      else gr

  -- The log-probability of a piece, whose copy by `strdup` succeeds.
  pub with_logprob : ℕ → Request → Bytes → ℕ → Option Request
  with_logprob k gr piece lp =
      if gr.logprobs
      then if leb gr.lp_cap (length gr.lp_entries)
        then if env.lp_grow k
          then some (record gr {
            lp_entries = gr.lp_entries ++ (piece, lp) ∷ [];
            lp_cap = if gr.lp_cap == 0 then 16 else gr.lp_cap * 2;
          })
          else none
        else some (record gr { lp_entries = gr.lp_entries ++ (piece, lp) ∷ [] })
      else some gr

  or_fail : Request → Option Request → Bool × Request × List Out
  unfolding fail
  or_fail gr none = fail gr (codes "out of memory")
  or_fail gr (some gr') = (true, gr', [])

  then_logprob : ℕ → Request → Bytes → ℕ → Option Request → Bool × Request × List Out
  unfolding fail or_fail with_logprob
  then_logprob k gr piece lp none = fail gr (codes "out of memory")
  then_logprob k gr piece lp (some gr') = or_fail gr' (with_logprob k gr' piece lp)

  -- The case of a piece of text from the detokenizer.
  pub on_piece : ℕ → ℕ → Option Bytes → Request → Bool × Request × List Out
  unfolding fail streamed throttled then_logprob accum_append
  on_piece k lp none gr = fail gr (codes "detokenizer error")
  on_piece k lp (some piece) gr =
      if gr.sse
      then (let (gr', o) = streamed k gr piece lp in (true, throttled k gr', o))
      else if ltb 0 (length piece)
      then then_logprob k gr piece lp (accum_append (env.accum_grow k) gr piece)
      else (true, gr, [])

  -- `CHUNK_TOKEN`
  pub on_token : Request → ℕ → ℕ → Bool × Request × List Out
  unfolding on_piece
  on_token gr id lp =
      let k : ℕ = gr.completion_tokens in
      let (piece, d) = detok_feed (env.decode id) (env.feed_grow k) (env.feed_alloc k) gr.detok in
      on_piece k lp piece (record gr { completion_tokens = k + 1; detok = d })

  -- One chunk.
  pub on_chunk : Request → Chunk → Bool × Request × List Out
  unfolding on_token stops_with
  on_chunk gr (token id lp) = on_token gr id lp
  on_chunk gr (error msg kind) = stops_with (finish_error env gr (some msg) kind)
  on_chunk gr (done reason) = stops_with (finish_response env gr reason)

  turn : List EngineAct → (Request → Drained) → Request → Option Next → Drained
  unfolding on_chunk go_on engine_acts
  turn between again gr none = null_stream
  turn between again gr (some Next.waits) = drained gr []
  turn between again gr (some Next.nothing) = drained gr []
  turn between again gr (some (Next.got c s)) =
      go_on again (on_chunk (record gr { stream = some (engine_acts s between) }) c)

  pub drain : ℕ → List Turn → Request → Drained
  unfolding turn next_of ran this_turn later
  drain zero ts gr = out_of_fuel
  drain (suc fuel) ts gr =
      let gr' : Request = ran (this_turn ts).ahead gr in
      turn (this_turn ts).between (drain fuel (later ts)) gr' (next_of gr'.stream)

  -- `gen_on_async`, with a round for every chunk that is there or is still to come.
  pub gen_on_async : List Turn → Request → Drained
  unfolding drain fuel_for
  gen_on_async ts gr = if gr.closing then drained gr [] else drain (fuel_for ts gr.stream) ts gr
