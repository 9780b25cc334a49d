-- ===== src/Engine/Control/Loading.antt =====
-- The load state and the model it speaks of.
use mlxd.Base.{
  ◌<◌, ◌≡◌, ◌≢◌, refl, Bool, true, Option, none, some, List, [], ◌∷◌, ◌++◌, ℤ, Bytes, arith, codes,
  length, length-take, if_elim, Option-cases, inl, inr,
}
use mlxd.Engine.Control.{
  Cmd, generate, embed, load, unload, reclaim, stop, Engine, Effect, Shell, idle, in_progress, ok,
  failed, resident, clip, fail_text, load_failed, load_real, handle_load, handle_unload, handle,
  free_shell, is_stub, set_load_error, engine_post, engine_post_load, engine_round, round_with,
  take_head, mailbox_dequeue, mailbox_drain_cancel, mailbox_enqueue_locked, engine_signal_shutdown,
  Dequeue, handle_generate,
}
use mlxd.Engine.Control.Ownership.{Call, posts, posts_load, round, shuts_down, call, calls, settled}

-- A loaded engine has a model and its path; an idle or failed one has neither. The error text is there
-- exactly after a failure, and fits its buffer with the final NUL.
pub record IsSound (e : Engine) : Type 0 where
  pub loaded : e.load_state ≡ ok → e.model ≢ Shell.empty
  pub named : e.load_state ≡ ok → (p : Bytes) × (e.loaded_model ≡ some p)
  pub unloaded : e.load_state ≡ idle → (e.model ≡ Shell.empty) × (e.loaded_model ≡ none)
  pub broken : e.load_state ≡ failed → (e.model ≡ Shell.empty) × (e.loaded_model ≡ none)
  pub cleared : e.load_state ≢ failed → e.load_error ≡ []
  pub explained : e.load_state ≡ failed → 0 < length e.load_error
  pub fits : length e.load_error < 256

clip-fits : (msg : Bytes) → length (clip msg) < 256
clip-fits msg = omega (arith, length-take 255 msg)

fail_text-filled : (text : Bytes) (p : Option Bytes) → 0 < length (fail_text text p)
unfolding fail_text
fail_text-filled (b ∷ bs) p = omega arith
fail_text-filled [] (some p) =
    omega (arith, length-take 255 (codes "failed to load model from " ++ p))
fail_text-filled [] none = omega arith

clip-filled : (msg : Bytes) → 0 < length msg → 0 < length (clip msg)
clip-filled msg h = omega (arith, length-take 255 msg)

load_failed-IsSound :
    (e : Engine) (text : Bytes) (p : Option Bytes) → IsSound (load_failed e text p)
unfolding load_failed set_load_error
load_failed-IsSound e text p = record {
  loaded = λ h. ground arith;
  named = λ h. absurd (ground arith);
  unloaded = λ h. absurd (ground arith);
  broken = λ h. (refl, refl);
  cleared = λ h. absurd (h refl);
  explained = λ h. clip-filled (fail_text text p) (fail_text-filled text p);
  fits = clip-fits (fail_text text p);
}

load_real-IsSound :
    (loader : Bytes → Option Bytes) (e : Engine) (p : Option Bytes)
    → e.load_error ≡ []
    → IsSound (load_real loader e p)
unfolding load_real
load_real-IsSound loader e none h = load_failed-IsSound e [] none
load_real-IsSound loader e (some p) h = elim (Option-cases (loader p)) [
  | inl fine ↦
      rw (fine, load_real)
        (record {
          loaded = λ x y. ground arith;
          named = λ x. (p, refl);
          unloaded = λ x. absurd (ground arith);
          broken = λ x. absurd (ground arith);
          cleared = λ x. h;
          explained = λ x. absurd (ground arith);
          fits = rw h (omega arith);
        })
  | inr (text, bad) ↦ rw (bad, load_real) (load_failed-IsSound e text (some p))
]

free-load_error : (e : Engine) (m : Shell) → (free_shell e m).0.load_error ≡ e.load_error
unfolding free_shell
free-load_error e Shell.empty = refl
free-load_error e Shell.stub = refl
free-load_error e resident = refl

stub_path : (p : Option Bytes) → is_stub p ≡ true → (q : Bytes) × (p ≡ some q)
unfolding is_stub
stub_path none h = absurd (ground arith)
stub_path (some q) h = (q, refl)

stub-IsSound :
    (e : Engine) (p : Option Bytes)
    → is_stub p ≡ true
    → e.load_error ≡ []
    → IsSound (record e { loaded_model = p; model = Shell.stub; load_state = ok })
stub-IsSound e p h kept = record {
  loaded = λ x y. ground arith;
  named = λ x. stub_path p h;
  unloaded = λ x. absurd (ground arith);
  broken = λ x. absurd (ground arith);
  cleared = λ x. kept;
  explained = λ x. absurd (ground arith);
  fits = rw kept (omega arith);
}

-- While a load is under way nothing is said of the model.
loading-IsSound : (e : Engine) → e.load_state ≡ in_progress → e.load_error ≡ [] → IsSound e
loading-IsSound e h kept = record {
  loaded = λ x. absurd (ground arith);
  named = λ x. absurd (ground arith);
  unloaded = λ x. absurd (ground arith);
  broken = λ x. absurd (ground arith);
  cleared = λ x. kept;
  explained = λ x. absurd (ground arith);
  fits = rw kept (omega arith);
}

handle_load-IsSound :
    (loader : Bytes → Option Bytes) (e : Engine) (p : Option Bytes)
    → IsSound (handle_load loader e p).0
unfolding handle_load
handle_load-IsSound loader e p =
    let start : Engine = record e { load_state = in_progress; load_error = [] } in
    let kept : (free_shell start e.model).0.load_error ≡ [] = free-load_error start e.model in
    if_elim (λ (r : Engine × List Effect). IsSound r.0) (is_stub p)
      (λ h. stub-IsSound (free_shell start e.model).0 p h kept)
      (λ _. load_real-IsSound loader (free_shell start e.model).0 p kept)

handle-IsSound :
    (loader : Bytes → Option Bytes) (e : Engine) (c : Cmd)
    → IsSound e
    → IsSound (handle loader e c).1
unfolding handle handle_generate handle_unload mailbox_drain_cancel
handle-IsSound loader e (generate s c) v = record {
  loaded = v.loaded;
  named = v.named;
  unloaded = v.unloaded;
  broken = v.broken;
  cleared = v.cleared;
  explained = v.explained;
  fits = v.fits;
}
handle-IsSound loader e embed v = v
handle-IsSound loader e (load p) v = handle_load-IsSound loader e p
handle-IsSound loader e unload v = record {
  loaded = λ h. absurd (ground arith);
  named = λ h. absurd (ground arith);
  unloaded = λ h. (refl, refl);
  broken = λ h. (refl, refl);
  cleared = λ h. refl;
  explained = λ h. absurd (ground arith);
  fits = omega arith;
}
handle-IsSound loader e (reclaim s) v = v
handle-IsSound loader e stop v = record {
  loaded = v.loaded;
  named = v.named;
  unloaded = v.unloaded;
  broken = v.broken;
  cleared = v.cleared;
  explained = v.explained;
  fits = v.fits;
}

with_mailbox : (e : Engine) (cs : List Cmd) → IsSound e → IsSound (record e { mailbox = cs })
with_mailbox e cs v = record {
  loaded = v.loaded;
  named = v.named;
  unloaded = v.unloaded;
  broken = v.broken;
  cleared = v.cleared;
  explained = v.explained;
  fits = v.fits;
}

round_with-IsSound :
    (loader : Bytes → Option Bytes) (e : Engine) (cs : List Cmd)
    → IsSound e
    → IsSound (settled e (round_with loader (take_head e cs))).0
unfolding round_with take_head settled
round_with-IsSound loader e [] v =
    if_elim (λ (d : Dequeue). IsSound (settled e (round_with loader d)).0) e.shutdown (λ _. v)
      (λ _. v)
round_with-IsSound loader e (c ∷ cs) v =
    handle-IsSound loader (record e { mailbox = cs }) c (with_mailbox e cs v)

post_load-IsSound :
    (alloc seen : Bool) (e : Engine) (p : Option Bytes)
    → IsSound e
    → IsSound (engine_post_load alloc seen e p).1
unfolding engine_post_load mailbox_enqueue_locked
post_load-IsSound alloc seen e p v =
    if_elim (λ (r : ℤ × Engine × List Effect). IsSound r.1) alloc
      (λ _.
        if_elim (λ (r : ℤ × Engine × List Effect). IsSound r.1) seen (λ _. v)
          (λ _.
            if_elim (λ (r : ℤ × Engine × List Effect). IsSound r.1) e.shutdown (λ _. v)
              (λ _. loading-IsSound _ refl refl)))
      (λ _. v)

call-IsSound :
    (loader : Bytes → Option Bytes) (e : Engine) (c : Call)
    → IsSound e
    → IsSound (call loader e c).0
unfolding call engine_post mailbox_enqueue_locked engine_round mailbox_dequeue mailbox_drain_cancel
    engine_signal_shutdown settled
call-IsSound loader e (posts seen c) v =
    if_elim (λ (r : Engine × List Effect). IsSound r.0) seen (λ _. v)
      (λ _.
        if_elim (λ (r : Engine × List Effect). IsSound r.0) e.shutdown (λ _. v)
          (λ _. with_mailbox e (e.mailbox ++ c ∷ []) v))
call-IsSound loader e (posts_load alloc seen p) v = post_load-IsSound alloc seen e p v
call-IsSound loader e round v =
    if_elim (λ (r : Option (Bool × Engine × List Effect)). IsSound (settled e r).0) e.shutdown
      (λ _. with_mailbox e [] v) (λ _. round_with-IsSound loader e e.mailbox v)
call-IsSound loader e shuts_down v = record {
  loaded = v.loaded;
  named = v.named;
  unloaded = v.unloaded;
  broken = v.broken;
  cleared = v.cleared;
  explained = v.explained;
  fits = v.fits;
}

-- Every interleaving of posts, rounds of the engine thread and a shutdown keeps a sound engine sound.
pub calls-IsSound :
    (loader : Bytes → Option Bytes) (e : Engine) (cs : List Call)
    → IsSound e
    → IsSound (calls loader e cs).0
unfolding calls
calls-IsSound loader e [] v = v
calls-IsSound loader e (c ∷ cs) v =
    calls-IsSound loader (call loader e c).0 cs (call-IsSound loader e c v)
