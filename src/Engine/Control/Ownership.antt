-- ===== src/Engine/Control/Ownership.antt =====
-- Who owns the references to streams that commands carry.
use mlxd.Base.{
  ℕ, ◌+◌, ◌≡◌, refl, ap, ◌∙◌, Bool, true, Option, none, some, List, [], ◌∷◌, ◌++◌, ℤ, Bytes, arith,
  ◌==◌, if◌then◌else◌, Bool-cases, if_elim, Option-cases, inl, inr,
}
use mlxd.Engine.Control.{
  Cmd, generate, embed, load, unload, reclaim, stop, Engine, Effect, finishes, releases, cancels,
  runs, frees_model, Shell, empty, stub, resident, cmd_cancel, cancel_all, engine_post,
  engine_post_load, engine_round, engine_signal_shutdown, engine_destroy, handle, take_head,
  free_resident_model, mailbox_drain_cancel, handle_load, handle_unload, handle_generate, load_real,
  free_shell, mailbox_dequeue, is_stub, in_progress, round_with, mailbox_enqueue_locked,
  inflight_cancel,
}

-- How often `s` is named.
one : ℕ → ℕ → ℕ
one s t = if s == t then 1 else 0

-- The references to `s` that a command owns, and those that a mailbox does.
pub owned : ℕ → Cmd → ℕ
unfolding one
owned s (generate t c) = one s t
owned s (reclaim t) = one s t
owned s embed = 0
owned s (load p) = 0
owned s unload = 0
owned s stop = 0

pub owned_all : ℕ → List Cmd → ℕ
unfolding owned
owned_all s [] = 0
owned_all s (c ∷ cs) = owned s c + owned_all s cs

-- How often `stream_release` is called on `s`.
pub released : ℕ → List Effect → ℕ
unfolding one
released s [] = 0
released s (releases t ∷ fx) = one s t + released s fx
released s (finishes t ∷ fx) = released s fx
released s (cancels t ∷ fx) = released s fx
released s (runs t m c ∷ fx) = released s fx
released s (frees_model ∷ fx) = released s fx

-- The calls that change the engine: posts from other threads, rounds of its own, and the shutdown.
pub data Call : Type 0 where
  posts : Bool → Cmd → Call
  posts_load : Bool → Bool → Option Bytes → Call
  round : Call
  shuts_down : Call

-- A round that waits changes nothing.
unfoldable pub settled : Engine → Option (Bool × Engine × List Effect) → Engine × List Effect
settled e none = (e, [])
settled e (some (on, e', fx)) = (e', fx)

unfoldable pub call : (Bytes → Option Bytes) → Engine → Call → Engine × List Effect
unfolding settled
call loader e (posts seen c) = engine_post seen e c
call loader e (posts_load alloc seen p) =
    let (r, e', fx) = engine_post_load alloc seen e p in (e', fx)
call loader e round = settled e (engine_round loader e)
call loader e shuts_down = engine_signal_shutdown e

unfoldable pub calls : (Bytes → Option Bytes) → Engine → List Call → Engine × List Effect
calls loader e [] = (e, [])
calls loader e (c ∷ cs) =
    let (e', fx) = call loader e c in let (e'', fx') = calls loader e' cs in (e'', fx ++ fx')

-- The references to `s` that were handed over.
posted : ℕ → Call → ℕ
unfolding owned
posted s (posts seen c) = owned s c
posted s (posts_load alloc seen p) = 0
posted s round = 0
posted s shuts_down = 0

pub posted_all : ℕ → List Call → ℕ
unfolding posted
posted_all s [] = 0
posted_all s (c ∷ cs) = posted s c + posted_all s cs

released-append :
    (s : ℕ) (xs ys : List Effect) → released s (xs ++ ys) ≡ released s xs + released s ys
unfolding released
released-append s [] ys = omega arith
released-append s (releases t ∷ xs) ys = omega (arith, released-append s xs ys)
released-append s (finishes t ∷ xs) ys = released-append s xs ys
released-append s (cancels t ∷ xs) ys = released-append s xs ys
released-append s (runs t m c ∷ xs) ys = released-append s xs ys
released-append s (frees_model ∷ xs) ys = released-append s xs ys

owned_all-append :
    (s : ℕ) (xs ys : List Cmd) → owned_all s (xs ++ ys) ≡ owned_all s xs + owned_all s ys
unfolding owned_all
owned_all-append s [] ys = omega arith
owned_all-append s (c ∷ xs) ys = omega (arith, owned_all-append s xs ys)

-- A cancelled command gives its reference back.
released-cmd_cancel : (s : ℕ) (c : Cmd) → released s (cmd_cancel c) ≡ owned s c
unfolding released cmd_cancel owned
released-cmd_cancel s (generate t c) = omega arith
released-cmd_cancel s (reclaim t) = omega arith
released-cmd_cancel s embed = refl
released-cmd_cancel s (load p) = refl
released-cmd_cancel s unload = refl
released-cmd_cancel s stop = refl

released-cancel_all : (s : ℕ) (cs : List Cmd) → released s (cancel_all cs) ≡ owned_all s cs
unfolding cancel_all owned_all released
released-cancel_all s [] = refl
released-cancel_all s (c ∷ cs) = omega (
  arith,
  released-append s (cmd_cancel c) (cancel_all cs),
  released-cmd_cancel s c,
  released-cancel_all s cs,
)

-- Freeing the model releases no stream, and leaves the mailbox.
free_keeps :
    (s : ℕ) (e : Engine) (m : Shell)
    → (released s (free_shell e m).1 ≡ 0) × ((free_shell e m).0.mailbox ≡ e.mailbox)
unfolding free_shell released
free_keeps s e empty = (refl, refl)
free_keeps s e stub = (refl, refl)
free_keeps s e resident = (refl, refl)

load_real_keeps :
    (loader : Bytes → Option Bytes) (e : Engine) (p : Option Bytes)
    → (load_real loader e p).mailbox ≡ e.mailbox
unfolding load_real
load_real_keeps loader e none = refl
load_real_keeps loader e (some p) = elim (Option-cases (loader p)) [
  | inl fine ↦ rw (fine, load_real)
  | inr (text, bad) ↦ rw (bad, load_real)
]

load_keeps :
    (s : ℕ) (loader : Bytes → Option Bytes) (e : Engine) (p : Option Bytes)
    → (released s (handle_load loader e p).1 ≡ 0) × ((handle_load loader e p).0.mailbox ≡ e.mailbox)
unfolding handle_load
load_keeps s loader e p =
    let start : Engine = record e { load_state = in_progress; load_error = [] } in
    let (f, g) = free_keeps s start e.model in
    elim (Bool-cases (is_stub p)) [
      | inl h ↦ rw h (f, g)
      | inr h ↦ rw h (f, load_real_keeps loader (free_shell start e.model).0 p ∙ g)
    ]

-- A command that is handled gives its reference back too.
handle-releases :
    (s : ℕ) (loader : Bytes → Option Bytes) (e : Engine) (c : Cmd)
    → released s (handle loader e c).2 + owned_all s (handle loader e c).1.mailbox
      ≡ owned s c + owned_all s e.mailbox
unfolding handle handle_generate handle_unload mailbox_drain_cancel owned released
    free_resident_model owned_all
handle-releases s loader e (generate t c) = omega arith
handle-releases s loader e (reclaim t) = omega arith
handle-releases s loader e embed = refl
handle-releases s loader e (load p) =
    let (f, g) = load_keeps s loader e p in rw (f, g) (omega arith)
handle-releases s loader e unload = let (f, g) = free_keeps s e e.model in rw (f, g) (omega arith)
handle-releases s loader e stop = omega (arith, released-cancel_all s e.mailbox)

-- A round, or any other step, from `e` gives back what it takes off the mailbox.
abbrev Balanced : ℕ → ℕ → Engine → Engine × List Effect → Type 0
Balanced s extra e r = released s r.1 + owned_all s r.0.mailbox ≡ extra + owned_all s e.mailbox

round_with-Balanced :
    (s : ℕ) (loader : Bytes → Option Bytes) (e : Engine) (cs : List Cmd)
    → e.mailbox ≡ cs
    → Balanced s 0 e (settled e (round_with loader (take_head e cs)))
unfolding round_with take_head settled owned_all released
round_with-Balanced s loader e [] em =
    if_elim (λ d. Balanced s 0 e (settled e (round_with loader d))) e.shutdown (λ _. refl)
      (λ _. refl)
round_with-Balanced s loader e (c ∷ cs) em =
    omega (arith, handle-releases s loader (record e { mailbox = cs }) c, ap (owned_all s) em)

round-Balanced :
    (s : ℕ) (loader : Bytes → Option Bytes) (e : Engine)
    → Balanced s 0 e (settled e (engine_round loader e))
unfolding engine_round settled mailbox_dequeue mailbox_drain_cancel owned_all
round-Balanced s loader e =
    if_elim (λ r. Balanced s 0 e (settled e r)) e.shutdown
      (λ _. omega (arith, released-cancel_all s e.mailbox))
      (λ _. round_with-Balanced s loader e e.mailbox refl)

post-Balanced :
    (s : ℕ) (seen : Bool) (e : Engine) (c : Cmd) → Balanced s (owned s c) e (engine_post seen e c)
unfolding engine_post mailbox_enqueue_locked released owned_all
post-Balanced s seen e c =
    let cancelled = released-cmd_cancel s c in
    if_elim (Balanced s (owned s c) e) seen (λ _. omega (arith, cancelled))
      (λ _.
        if_elim (Balanced s (owned s c) e) e.shutdown (λ _. omega (arith, cancelled))
          (λ _. omega (arith, owned_all-append s e.mailbox (c ∷ []))))

post_load-Balanced :
    (s : ℕ) (alloc seen : Bool) (e : Engine) (p : Option Bytes)
    → let (r, e', fx) = engine_post_load alloc seen e p in Balanced s 0 e (e', fx)
unfolding engine_post_load mailbox_enqueue_locked released owned_all
post_load-Balanced s alloc seen e p =
    let P : ℤ × Engine × List Effect → Type 0 = λ r. Balanced s 0 e (r.1, r.2) in
    if_elim P alloc
      (λ _.
        if_elim P seen (λ _. refl)
          (λ _.
            if_elim P e.shutdown (λ _. refl)
              (λ _. omega (arith, owned_all-append s e.mailbox (load p ∷ [])))))
      (λ _. refl)

inflight-releases-none : (s : ℕ) (o : Option ℕ) → released s (inflight_cancel o) ≡ 0
unfolding released inflight_cancel
inflight-releases-none s none = refl
inflight-releases-none s (some t) = refl

call-Balanced :
    (s : ℕ) (loader : Bytes → Option Bytes) (e : Engine) (c : Call)
    → Balanced s (posted s c) e (call loader e c)
unfolding call posted engine_signal_shutdown released
call-Balanced s loader e (posts seen c) = post-Balanced s seen e c
call-Balanced s loader e (posts_load alloc seen p) = post_load-Balanced s alloc seen e p
call-Balanced s loader e round = round-Balanced s loader e
call-Balanced s loader e shuts_down = omega (arith, inflight-releases-none s e.inflight)

-- Through any interleaving of calls, the references to a stream that have been released and those
-- that wait in the mailbox are together the ones that were handed over.
calls-Balanced :
    (s : ℕ) (loader : Bytes → Option Bytes) (e : Engine) (cs : List Call)
    → Balanced s (posted_all s cs) e (calls loader e cs)
unfolding calls posted_all released
calls-Balanced s loader e [] = refl
calls-Balanced s loader e (c ∷ cs) =
    let (e', fx) = call loader e c in
    omega (
      arith,
      call-Balanced s loader e c,
      calls-Balanced s loader e' cs,
      released-append s fx (calls loader e' cs).1,
    )

destroy-releases : (s : ℕ) (e : Engine) → released s (engine_destroy e).1 ≡ owned_all s e.mailbox
unfolding engine_destroy engine_signal_shutdown mailbox_drain_cancel free_resident_model
destroy-releases s e =
    let e' : Engine = record e { shutdown = true; mailbox = [] } in
    let fx = inflight_cancel e.inflight in
    let gx = cancel_all e.mailbox in
    omega (
      arith,
      released-append s (fx ++ gx) (free_shell e' e.model).1,
      released-append s fx gx,
      inflight-releases-none s e.inflight,
      released-cancel_all s e.mailbox,
      (free_keeps s e' e.model).0,
    )

-- Every reference to a stream that is handed to an engine whose mailbox was empty is released exactly
-- once by the time that the engine is destroyed.
pub released_once :
    (s : ℕ) (loader : Bytes → Option Bytes) (e : Engine) (cs : List Call)
    → e.mailbox ≡ []
    → released s (calls loader e cs).1 + released s (engine_destroy (calls loader e cs).0).1
      ≡ posted_all s cs
unfolding owned_all
released_once s loader e cs empty_box =
    let start : owned_all s e.mailbox ≡ 0 = ap (owned_all s) empty_box in
    omega (arith, calls-Balanced s loader e cs, destroy-releases s (calls loader e cs).0)
