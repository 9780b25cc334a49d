-- ===== src/Engine/Control.antt =====
-- engine/engine.c: the mailbox, the commands, the load state and the engine thread's loop.
-- The mailbox is the list that its links make, head first. A stream is named by a number, and what
-- happens to streams is reported as effects.
pub mod Loading
pub mod Ownership
use mlxd.Base.{
  ℕ, zero, suc, ◌+◌, Bool, true, false, Option, none, some, List, [], ◌∷◌, ◌++◌, ℤ, pos, negsuc,
  length, take, Bytes, codes, bytes_eq, if◌then◌else◌, ltb,
}
use mlxd.Engine.Generate.{Command}

-- `engine_cmd_t`
pub data Cmd : Type 0 where
  generate : ℕ → Command → Cmd
  embed : Cmd
  load : Option Bytes → Cmd
  unload : Cmd
  reclaim : ℕ → Cmd
  stop : Cmd

-- `load_state_t`
pub data LoadState : Type 0 where
  idle in_progress ok failed : LoadState

-- What the model shell holds: zeroed, the stub, or a loaded model.
pub data Shell : Type 0 where
  empty stub resident : Shell

-- `engine_t`
pub record Engine : Type 0 where
  pub mailbox : List Cmd
  pub shutdown : Bool
  pub load_state : LoadState
  pub load_error : Bytes
  pub model : Shell
  pub loaded_model : Option Bytes
  pub inflight : Option ℕ

pub data Effect : Type 0 where
  -- `stream_finish_cancelled`, `stream_release`, `stream_cancel`
  finishes releases cancels : ℕ → Effect
  -- the body of `handle_generate` with the model that is there
  runs : ℕ → Shell → Command → Effect
  -- `engine_model_free`
  frees_model : Effect

-- `cmd_cancel`
unfoldable pub cmd_cancel : Cmd → List Effect
cmd_cancel (generate s c) = finishes s ∷ releases s ∷ []
cmd_cancel (reclaim s) = releases s ∷ []
cmd_cancel (load path) = []
cmd_cancel unload = []
cmd_cancel embed = []
cmd_cancel stop = []

-- `mailbox_dequeue` waits on an empty mailbox until the engine shuts down.
pub data Dequeue : Type 0 where
  waits : Dequeue
  woke : Option Cmd → Engine → Dequeue

take_head : Engine → List Cmd → Dequeue
take_head e [] = if e.shutdown then woke none e else waits
take_head e (c ∷ cs) = woke (some c) (record e { mailbox = cs })

unfoldable pub mailbox_dequeue : Engine → Dequeue
unfolding take_head
mailbox_dequeue e = take_head e e.mailbox

cancel_all : List Cmd → List Effect
unfolding cmd_cancel
cancel_all [] = []
cancel_all (c ∷ cs) = cmd_cancel c ++ cancel_all cs

-- `mailbox_drain_cancel`
unfoldable pub mailbox_drain_cancel : Engine → Engine × List Effect
unfolding cancel_all
mailbox_drain_cancel e = (record e { mailbox = [] }, cancel_all e.mailbox)

-- `mailbox_enqueue_locked`
unfoldable pub mailbox_enqueue_locked : Engine → Cmd → Engine
mailbox_enqueue_locked e c = record e { mailbox = e.mailbox ++ c ∷ [] }

-- `engine_post`: the check before the lock and the one under it, where `seen` is what the first saw.
unfoldable pub engine_post : Bool → Engine → Cmd → Engine × List Effect
unfolding cmd_cancel mailbox_enqueue_locked
engine_post seen e c =
    if seen
    then (e, cmd_cancel c)
    else if e.shutdown
    then (e, cmd_cancel c)
    else (mailbox_enqueue_locked e c, [])

-- A buffer of 256 bytes filled by `snprintf("%s")`.
abbrev pub clip : Bytes → Bytes
clip msg = take 255 msg

-- `set_load_state`, `clear_load_error`, `set_load_error`
unfoldable pub set_load_state : Engine → LoadState → Engine
set_load_state e st = record e { load_state = st }

unfoldable pub clear_load_error : Engine → Engine
clear_load_error e = record e { load_error = [] }

unfoldable pub set_load_error : Engine → Option Bytes → Engine
set_load_error e none = record e { load_error = [] }
set_load_error e (some msg) = record e { load_error = clip msg }

-- `engine_post_load`: its return value, the engine, and the effects. `alloc` is the outcome of `calloc`.
unfoldable pub engine_post_load : Bool → Bool → Engine → Option Bytes → ℤ × Engine × List Effect
unfolding cmd_cancel set_load_state clear_load_error mailbox_enqueue_locked
engine_post_load alloc seen e path =
    if alloc
    then if seen
      then (negsuc 0, e, cmd_cancel (load path))
      else if e.shutdown
      then (negsuc 0, e, cmd_cancel (load path))
      else (
        pos 0,
        mailbox_enqueue_locked (set_load_state (clear_load_error e) in_progress) (load path),
        [],
      )
    else (negsuc 0, e, [])

-- `free_resident_model`
free_shell : Engine → Shell → Engine × List Effect
free_shell e empty = (e, [])
free_shell e stub = (record e { model = empty }, [])
free_shell e resident = (record e { model = empty }, frees_model ∷ [])

unfoldable pub free_resident_model : Engine → Engine × List Effect
unfolding free_shell
free_resident_model e = free_shell e e.model

-- The real load: `engine_model_load` is the parameter `loader`, which gives `none` for success and
-- otherwise what it wrote to `errbuf`.
fail_text : Bytes → Option Bytes → Bytes
fail_text (b ∷ bs) path = b ∷ bs
fail_text [] (some p) = clip (codes "failed to load model from " ++ p)
fail_text [] none = clip (codes "failed to load model from (null)")

load_failed : Engine → Bytes → Option Bytes → Engine
unfolding fail_text set_load_error set_load_state
load_failed e text path =
    set_load_state
      (record (set_load_error e (some (fail_text text path))) {
        loaded_model = none;
        model = empty;
      })
      failed

load_real : (Bytes → Option Bytes) → Engine → Option Bytes → Engine
unfolding load_failed
load_real loader e none = load_failed e [] none
load_real loader e (some p) = elim (loader p) [
  | some text ↦ load_failed e text (some p)
  | none ↦ record e { model = resident; loaded_model = some p; load_state = ok }
]

is_stub : Option Bytes → Bool
is_stub none = false
is_stub (some p) = bytes_eq p (codes "stub")

-- `handle_load`
unfoldable pub handle_load : (Bytes → Option Bytes) → Engine → Option Bytes → Engine × List Effect
unfolding set_load_state clear_load_error free_resident_model load_real is_stub
handle_load loader e path =
    let e' : Engine = clear_load_error (set_load_state e in_progress) in
    let (e'', freed) = free_resident_model e' in
    if is_stub path
    then (record e'' { loaded_model = path; model = stub; load_state = ok }, freed)
    else (load_real loader e'' path, freed)

-- `handle_unload`
unfoldable pub handle_unload : Engine → Engine × List Effect
unfolding free_resident_model clear_load_error set_load_state
handle_unload e =
    let (e', freed) = free_resident_model e in
    (
      set_load_state (clear_load_error (record e' { loaded_model = none; model = empty })) idle,
      freed,
    )

-- What `handle_generate` serves a request with: nothing unless the load state is OK.
serving_at : LoadState → Shell → Shell
serving_at ok m = m
serving_at idle m = empty
serving_at in_progress m = empty
serving_at failed m = empty

unfoldable pub serving : Engine → Shell
unfolding serving_at
serving e = serving_at e.load_state e.model

-- `handle_generate` around its body.
unfoldable pub handle_generate : Engine → ℕ → Command → Engine × List Effect
unfolding serving
handle_generate e s c = (record e { inflight = none }, runs s (serving e) c ∷ releases s ∷ [])

-- One command on the engine thread; `none` for the engine ends the thread.
unfoldable pub handle : (Bytes → Option Bytes) → Engine → Cmd → Bool × Engine × List Effect
unfolding handle_load handle_unload handle_generate mailbox_drain_cancel
handle loader e (generate s c) = let (e', fx) = handle_generate e s c in (true, e', fx)
handle loader e embed = (true, e, [])
handle loader e (load path) = let (e', fx) = handle_load loader e path in (true, e', fx)
handle loader e unload = let (e', fx) = handle_unload e in (true, e', fx)
handle loader e (reclaim s) = (true, e, releases s ∷ [])
handle loader e stop = let (e', fx) = mailbox_drain_cancel e in (false, e', fx)

round_with : (Bytes → Option Bytes) → Dequeue → Option (Bool × Engine × List Effect)
unfolding handle
round_with loader waits = none
round_with loader (woke none e) = some (true, e, [])
round_with loader (woke (some c) e) = some (handle loader e c)

-- One round of `engine_thread_main`: whether the thread goes on, or none where it waits.
unfoldable pub engine_round : (Bytes → Option Bytes) → Engine → Option (Bool × Engine × List Effect)
unfolding mailbox_dequeue mailbox_drain_cancel round_with
engine_round loader e =
    if e.shutdown
    then (let (e', fx) = mailbox_drain_cancel e in some (false, e', fx))
    else round_with loader (mailbox_dequeue e)

-- `engine_signal_shutdown`
inflight_cancel : Option ℕ → List Effect
inflight_cancel none = []
inflight_cancel (some s) = cancels s ∷ []

unfoldable pub engine_signal_shutdown : Engine → Engine × List Effect
unfolding inflight_cancel
engine_signal_shutdown e = (record e { shutdown = true }, inflight_cancel e.inflight)

-- `engine_init`, where the allocation and `pthread_create` succeed
unfoldable pub engine_init : Bool → Bool → Option Engine
engine_init alloc thread =
    if alloc
    then if thread
      then some (record {
        mailbox = [];
        shutdown = false;
        load_state = idle;
        load_error = [];
        model = empty;
        loaded_model = none;
        inflight = none;
      })
      else none
    else none

-- `engine_destroy` after the thread has ended
unfoldable pub engine_destroy : Engine → Engine × List Effect
unfolding engine_signal_shutdown mailbox_drain_cancel free_resident_model clear_load_error
    set_load_state
engine_destroy e =
    let (e₁, fx₁) = engine_signal_shutdown e in
    let (e₂, fx₂) = mailbox_drain_cancel e₁ in
    let (e₃, fx₃) = free_resident_model e₂ in
    (
      set_load_state (clear_load_error (record e₃ { model = empty; loaded_model = none })) idle,
      fx₁ ++ fx₂ ++ fx₃,
    )

-- `engine_load_error`: the copy, unless the buffer of `n` bytes is missing or too small.
unfoldable pub engine_load_error : Engine → Bool → ℕ → Option Bytes
engine_load_error e null n =
    if null
    then none
    else if ltb 0 n
    then if ltb n (length e.load_error + 1) then none else some e.load_error
    else none

-- `engine_wait_load_until`: at each poll, whether `cancel` says so, and the state that is read. The
-- list runs out when the timeout does, and `last` is the read after it.
unfoldable pub engine_wait_load_until : List (Bool × LoadState) → LoadState → ℤ
engine_wait_load_until ((true, st) ∷ polls) last = negsuc 0
engine_wait_load_until ((false, ok) ∷ polls) last = pos 0
engine_wait_load_until ((false, failed) ∷ polls) last = negsuc 0
engine_wait_load_until ((false, idle) ∷ polls) last = engine_wait_load_until polls last
engine_wait_load_until ((false, in_progress) ∷ polls) last = engine_wait_load_until polls last
engine_wait_load_until [] ok = pos 0
engine_wait_load_until [] idle = negsuc 0
engine_wait_load_until [] in_progress = negsuc 0
engine_wait_load_until [] failed = negsuc 0
