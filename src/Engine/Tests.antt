-- ===== src/Engine/Tests.antt =====
-- The theorems on the engine at concrete inputs.
use mlxd.Base.{
  ℕ, suc, ◌+◌, ◌≡◌, refl, true, false, Option, none, some, List, [], ◌∷◌, pos, Bytes, codes, arith,
  replicate,
}
use mlxd.Engine.Stream.{Stream, token, blank, poll}
use mlxd.Engine.Stream.Laws.{IsValid, run, run-serve_all, serve_all, view}
use mlxd.Engine.Stream.Queue.{Op}
use mlxd.Engine.World.{World, Act, consume}
use mlxd.Engine.Generate.{Command}
use mlxd.Engine.Generate.Real.{Model, Step}
use mlxd.Engine.Control.{Engine, Cmd, Shell, idle, engine_destroy}
use mlxd.Engine.Control.Ownership.{
  Call, posts, posts_load, round, shuts_down, calls, released, released_once, posted_all,
}
use mlxd.Engine.Control.Loading.{IsSound, calls-IsSound}

abbrev small : Stream
small = record {
  buf = blank ∷ blank ∷ [];
  cap = 2;
  len = 0;
  read_pos = 1;
  cancelled = false;
  refcount = 2;
  on_push = some 7;
}

small-IsValid : IsValid small
small-IsValid = record { size = refl; reads = omega arith; fits = omega arith }

abbrev ops : List Op
ops =
    Op.push (token 1 0)
    ∷ Op.push (token 2 0)
    ∷ Op.push (token 3 0)
    ∷ Op.next poll
    ∷ Op.finish_cancelled
    ∷ []

run-serve_all_example :
    ((run small ops).0 ≡ (serve_all (view small) ops).0)
    × (view (run small ops).1 ≡ (serve_all (view small) ops).1)
    × IsValid (run small ops).1
run-serve_all_example = run-serve_all small ops small-IsValid

abbrev reading : List (List Act)
reading = replicate 30 (consume ∷ [])

abbrev world : World
world = record { stream = small; shutdown = false; taken = []; schedule = reading }

abbrev step_of : ℕ → Step
step_of k = record {
  key_ok = true;
  sample_ok = true;
  reshape_ok = true;
  forward_ok = true;
  eval_ok = true;
  item_ok = true;
  logprob_ok = true;
  id = suc k;
  logprob = 0;
}

abbrev tiny : Model
tiny = record {
  key_ok = true;
  kv_ok = true;
  max_position_embeddings = pos 2048;
  context_msg = [];
  prefill_ok = λ p n. true;
  seed_ok = true;
  step = step_of;
  eos_token_ids = 3 ∷ [];
}

abbrev prompt : Command
prompt = record {
  token_ids = 5 ∷ 6 ∷ [];
  max_tokens = pos 4;
  logprobs = false;
  stub_logprob = λ i. i;
  dup_ok = true;
}

abbrev engine : Engine
engine = record {
  mailbox = [];
  shutdown = false;
  load_state = idle;
  load_error = [];
  model = Shell.empty;
  loaded_model = none;
  inflight = none;
}

abbrev stub_loader : Bytes → Option Bytes
stub_loader p = some (codes "no such model")

abbrev session : List Call
session =
    posts false (Cmd.generate 1 prompt)
    ∷ round
    ∷ posts false (Cmd.generate 2 prompt)
    ∷ shuts_down
    ∷ posts false (Cmd.reclaim 1)
    ∷ []

released_once_example :
    released 1 (calls stub_loader engine session).1
      + released 1 (engine_destroy (calls stub_loader engine session).0).1
    ≡ posted_all 1 session
released_once_example = released_once 1 stub_loader engine session refl

engine-IsSound : IsSound engine
engine-IsSound = record {
  loaded = λ h. absurd (ground arith);
  named = λ h. absurd (ground arith);
  unloaded = λ h. (refl, refl);
  broken = λ h. absurd (ground arith);
  cleared = λ h. refl;
  explained = λ h. absurd (ground arith);
  fits = omega arith;
}

-- A load that fails, one that succeeds, and an unload.
abbrev loads : List Call
loads =
    posts_load true false (some (codes "none"))
    ∷ round
    ∷ posts_load true false (some (codes "stub"))
    ∷ round
    ∷ posts false Cmd.unload
    ∷ round
    ∷ []

calls-IsSound_example : IsSound (calls stub_loader engine loads).0
calls-IsSound_example = calls-IsSound stub_loader engine loads engine-IsSound
