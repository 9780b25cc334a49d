-- ===== src/Engine/World/Total.antt =====
-- Termination: a consumer that reads between any two steps never leaves the engine thread waiting.
use mlxd.Base.{
  ℕ, suc, ◌≤◌, ◌<◌, ◌≡◌, refl, sym, ap, ◌∙◌, Bool, true, false, Option, some, List, [], ◌∷◌, length,
  arith, if◌then◌else◌,
}
use mlxd.Engine.Stream.{Chunk, push, Push, blocked, refused, pushed, next, cancel, finish_cancelled}
use mathlib.Core.Path.{subst}
use mlxd.Engine.Stream.Laws.{IsValid, push-IsValid, finish_cancelled-IsValid}
use mlxd.Engine.World.{
  World, Act, consume, cancels, shuts_down, act, acts, M, ◌>>=◌, ret, settle, load_shutdown,
  load_stop, wait_push, send, finish, turn,
}
use mlxd.Engine.World.Send.{acts-Keeps, act-Keeps}

abbrev pub consumes : List Act → Bool
consumes [] = false
consumes (consume ∷ as') = true
consumes (cancels ∷ as') = consumes as'
consumes (shuts_down ∷ as') = consumes as'

-- The consumer reads in every turn that the other threads get.
abbrev pub IsSteady : List (List Act) → Type 0
IsSteady [] = Unit {0}
IsSteady (b ∷ bs) = (consumes b ≡ true) × IsSteady bs

-- A well formed stream, and a steady schedule of at least `k` turns.
pub record Ready (k : ℕ) (w : World) : Type 0 where
  pub valid : IsValid w.stream
  pub steady : IsSteady w.schedule
  pub enough : k ≤ length w.schedule

pub Ready-le : {j k : ℕ} {w : World} → k ≤ j → Ready j w → Ready k w
Ready-le h r = record { valid = r.valid; steady = r.steady; enough = omega arith }

-- Acts leave the schedule and the ring's size, and do not fill it.
record Drains (w w' : World) : Type 0 where
  same : w'.schedule ≡ w.schedule
  cap_same : w'.stream.cap ≡ w.stream.cap
  less : w'.stream.len ≤ w.stream.len

act-Drains : (w : World) (a : Act) → Drains w (act w a)
unfolding act next cancel
act-Drains w consume = ground arith
act-Drains w cancels = record { same = refl; cap_same = refl; less = omega arith }
act-Drains w shuts_down = record { same = refl; cap_same = refl; less = omega arith }

acts-Drains : (w : World) (as' : List Act) → Drains w (acts w as')
unfolding acts
acts-Drains w [] = record { same = refl; cap_same = refl; less = omega arith }
acts-Drains w (a ∷ as') =
    let h = act-Drains w a in
    let k = acts-Drains (act w a) as' in
    record { same = k.same ∙ h.same; cap_same = k.cap_same ∙ h.cap_same; less = omega arith }

consume-room :
    (w : World) → IsValid w.stream → (act w consume).stream.len < (act w consume).stream.cap
unfolding act next
consume-room w v = ground arith

acts-room :
    (w : World) (as' : List Act)
    → IsValid w.stream
    → consumes as' ≡ true
    → (acts w as').stream.len < (acts w as').stream.cap
unfolding acts
acts-room w [] v h = absurd (ground arith)
acts-room w (consume ∷ as') v h =
    let k = acts-Drains (act w consume) as' in omega (arith, consume-room w v)
acts-room w (cancels ∷ as') v h = acts-room (act w cancels) as' ((act-Keeps w cancels).valid v) h
acts-room w (shuts_down ∷ as') v h =
    acts-room (act w shuts_down) as' ((act-Keeps w shuts_down).valid v) h

-- From `k` turns, `m` returns with `j` turns left.
abbrev pub Runs : {A : Type 0} → ℕ → ℕ → M A → Type 0
Runs {A} k j m =
    (w : World) → Ready k w → (a : A) × (w' : World) × (m w ≡ some (a, w')) × Ready j w'

pub Runs-bind :
    {A B : Type 0} (k j i : ℕ) (m : M A) (f : A → M B)
    → Runs k j m
    → ((a : A) → Runs j i (f a))
    → Runs k i (m >>= f)
Runs-bind k j i m f h g w r =
    let (a, w', e, r') = h w r in
    let (b, w'', e', r'') = g a w' r' in (b, w'', rw (e, ◌>>=◌) e', r'')

pub Runs-ret : {A : Type 0} (k : ℕ) (a : A) → Runs k k (ret a)
Runs-ret k a w r = (a, w, refl, r)

pub Runs-le : {A : Type 0} (k k' j j' : ℕ) (m : M A) → k ≤ k' → j' ≤ j → Runs k j m → Runs k' j' m
Runs-le k k' j j' m h g run w r =
    let (a, w', e, r') = run w (Ready-le h r) in (a, w', e, Ready-le g r')

-- A turn from a steady schedule leaves room in the ring.
turn-Ready :
    (k : ℕ) (w : World) (b : List Act) (bs : List (List Act))
    → w.schedule ≡ b ∷ bs
    → Ready (suc k) w
    → Ready k (acts (record w { schedule = bs }) b)
      × ((acts (record w { schedule = bs }) b).stream.len
          < (acts (record w { schedule = bs }) b).stream.cap)
turn-Ready k w b bs e r =
    let v : World = record w { schedule = bs } in
    let d = acts-Drains v b in
    let steady : IsSteady (b ∷ bs) = subst IsSteady e r.steady in
    (
      record {
        valid = (acts-Keeps v b).valid r.valid;
        steady = subst IsSteady (sym d.same) steady.1;
        enough = omega (arith, ap length e, ap length d.same, r.enough);
      },
      acts-room v b r.valid steady.0,
    )

settle-at :
    (k : ℕ) (w : World) (bs : List (List Act))
    → w.schedule ≡ bs
    → Ready (suc k) w
    → Ready k (turn w bs)
settle-at k w [] e r = Ready-le {j = suc k} (omega arith) r
settle-at k w (b ∷ bs) e r = (turn-Ready k w b bs e r).0

pub Runs-settle : (k : ℕ) → Runs (suc k) k settle
unfolding settle
Runs-settle k w r = (tt, turn w w.schedule, refl, settle-at k w w.schedule refl r)

pub Runs-load_shutdown : (k : ℕ) → Runs (suc k) k load_shutdown
unfolding load_shutdown settle
Runs-load_shutdown k w r = (_, turn w w.schedule, refl, settle-at k w w.schedule refl r)

pub Runs-load_stop : (k : ℕ) → Runs (suc k) k load_stop
unfolding load_stop settle
Runs-load_stop k w r = (_, turn w w.schedule, refl, settle-at k w w.schedule refl r)

Ready-finish :
    (k : ℕ) (w : World) → Ready k w → Ready k (record w { stream = (finish_cancelled w.stream).0 })
Ready-finish k w r = record {
  valid = finish_cancelled-IsValid w.stream r.valid;
  steady = r.steady;
  enough = r.enough;
}

pub Runs-finish : (k : ℕ) → Runs (suc k) k finish
unfolding finish settle
Runs-finish k w r = (
  tt,
  record (turn w w.schedule) { stream = _ },
  refl,
  Ready-finish k _ (settle-at k w w.schedule refl r),
)

-- With room in the ring a push does not wait.
push-Ready :
    (k : ℕ) (v : World) (bs : List (List Act)) (c : Chunk) (p : Push)
    → push v.stream c ≡ p
    → v.stream.len < v.stream.cap
    → Ready k v
    → (a : Bool) × (w' : World) × (elim p as (λ _. Option (Bool × World)) [
      | blocked ↦ wait_push bs c v
      | refused ms ↦ some (false, v)
      | pushed s cb ↦ some (true, record v { stream = s })
    ]
        ≡ some (a, w'))
      × Ready k w'
unfolding push
push-Ready k v bs c blocked e h r = absurd (ground arith)
push-Ready k v bs c (refused ms) e h r = (false, v, refl, r)
push-Ready k v bs c (pushed s cb) e h r = (
  true,
  record v { stream = s },
  refl,
  record { valid = push-IsValid c r.valid e; steady = r.steady; enough = r.enough },
)

send-at :
    (k : ℕ) (c : Chunk) (w : World) (bs : List (List Act))
    → w.schedule ≡ bs
    → Ready (suc k) w
    → (a : Bool) × (w' : World) × (wait_push bs c w ≡ some (a, w')) × Ready k w'
unfolding wait_push
send-at k c w [] e r = absurd (omega (arith, ap length e, r.enough))
send-at k c w (b ∷ bs) e r =
    let v : World = acts (record w { schedule = bs }) b in
    let (r', room) = turn-Ready k w b bs e r in push-Ready k v bs c (push v.stream c) refl room r'

pub Runs-send : (k : ℕ) (c : Chunk) → Runs (suc k) k (send c)
unfolding send
Runs-send k c w r = send-at k c w w.schedule refl r

pub Runs-if :
    {A : Type 0} (k j : ℕ) (t : Bool) (x y : M A)
    → (t ≡ true → Runs k j x)
    → (t ≡ false → Runs k j y)
    → Runs k j (if t then x else y)
Runs-if k j true x y h g = h refl
Runs-if k j false x y h g = g refl
