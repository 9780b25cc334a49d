-- ===== src/Http/GenRequest/Drain/Returns.antt =====
-- The loop of `gen_on_async` comes to an end.
use mlxd.Base.{
  ℕ, zero, suc, ◌+◌, ◌<◌, ◌≤◌, ◌≡◌, ◌⊎◌, inl, inr, ◌∷◌, refl, ap, Bool, true, false, Option, none,
  some, List, [], ◌++◌, ◌==◌, if_elim, arith,
}
use mlxd.Engine.Stream.{
  Stream, Chunk, next, poll, Next, Push, push, Release, release, finish_cancelled,
}
use mlxd.Http.GenRequest.{Request, Out}
use mlxd.Http.GenRequest.Respond.{Env}
use mlxd.Http.GenRequest.Drain.{
  Drained, drained, before, on_chunk, next_of, go_on, turn, drain, fuel_for, gen_on_async,
  EngineAct, pushes, finishes, lets_go, engine_act, engine_acts, pushed_to, released, puts,
  puts_ever, Turn, this_turn, later, ran, ran_on,
}
use mlxd.Http.GenRequest.Drain.Chunks.{left, Keeps, chunk-Keeps}

-- What a push, a release and an act add to the stream: at most one chunk.
push-len : (s : Stream) (c : Chunk) (p : Push) → push s c ≡ p → (pushed_to s p).len ≤ s.len + 1
unfolding pushed_to push
push-len s c Push.blocked e = omega arith
push-len s c (Push.refused ms) e = omega arith
push-len s c (Push.pushed t cb) e = ground arith

release-len : (s : Stream) (r : Release) → release s ≡ r → (released s r).len ≤ s.len + 0
unfolding released release
release-len s (Release.alive t) e = ground arith
release-len s (Release.gone ms) e = omega arith

act-len : (s : Stream) (a : EngineAct) → (engine_act s a).len ≤ s.len + puts (a ∷ [])
unfolding engine_act pushed_to released puts
act-len s (pushes c) = push-len s c (push s c) refl
act-len s finishes = unfold finish_cancelled in ground arith
act-len s lets_go = release-len s (release s) refl

acts-len : (s : Stream) (as' : List EngineAct) → (engine_acts s as').len ≤ s.len + puts as'
unfolding engine_acts puts
acts-len s [] = omega arith
acts-len s (pushes c ∷ as') =
    omega (arith, act-len s (pushes c), acts-len (engine_act s (pushes c)) as')
acts-len s (finishes ∷ as') =
    omega (arith, act-len s finishes, acts-len (engine_act s finishes) as')
acts-len s (lets_go ∷ as') = omega (arith, act-len s lets_go, acts-len (engine_act s lets_go) as')

turn-puts :
    (ts : List Turn)
    → puts (this_turn ts).ahead + puts (this_turn ts).between + puts_ever (later ts) ≡ puts_ever ts
unfolding this_turn later puts_ever puts
turn-puts [] = refl
turn-puts (t ∷ ts) = refl

-- The stream is there, with at most `n` chunks.
Has : ℕ → Option Stream → Type 0
Has n none = ⊥
Has n (some s) = s.len ≤ n

left-Has : (n m : ℕ) (o : Option Stream) → left o ≡ some m → m ≤ n → Has n o
unfolding left Has
left-Has n m none h k = absurd (ground arith)
left-Has n m (some s) h k = ground arith

ran-Has :
    (n : ℕ) (as' : List EngineAct) (o : Option Stream) → Has n o → Has (n + puts as') (ran_on as' o)
unfolding Has ran_on
ran-Has n as' none h = h
ran-Has n as' (some s) h = omega (arith, acts-len s as')

fuel-enough :
    (ts : List Turn) (o : Option Stream) (s : Stream)
    → o ≡ some s
    → s.len + puts_ever ts < fuel_for ts o
unfolding fuel_for
fuel-enough ts none s h = absurd (ground arith)
fuel-enough ts (some t) s h = ground arith

module _ (env : Env) where
  -- The loop ends with an empty stream, or with a chunk after which it returns with no connection.
  pub Emptied : Request → Type 0
  Emptied gr = (s : Stream) × (gr.stream ≡ some s) × (s.len ≡ 0)

  pub Returned : Request → Type 0
  Returned gr =
      (gr.conn ≡ false)
      × ((g : Request) × (c : Chunk) × (o : List Out) × (on_chunk env g c ≡ (false, gr, o)))

  pub Ended : Drained → Type 0
  Ended d = (gr : Request) × (o : List Out) × (d ≡ drained gr o) × (Emptied gr ⊎ Returned gr)

  module _ (all_sent : (k : ℕ) → env.sent k ≡ true) where
    before-Ended : (o : List Out) (d : Drained) → Ended d → Ended (before o d)
    unfolding Ended before
    before-Ended o d (gr, o', e, h) = (gr, o ++ o', ap (before o) e, h)

    go_on-Ended :
        (again : Request → Drained) (g : Request) (c : Chunk) (m : ℕ)
        (x : Bool × Request × List Out)
        → on_chunk env g c ≡ x
        → Keeps (some m) x
        → ((gr : Request) → left gr.stream ≡ some m → Ended (again gr))
        → Ended (go_on again x)
    unfolding go_on Keeps Ended Returned
    go_on-Ended again g c m (true, gr, o) e h k = before-Ended o (again gr) (k gr h)
    go_on-Ended again g c m (false, gr, o) e h k = (gr, o, refl, inr (h, (g, c, o, e)))

    -- What `next` with no waiting gives: nothing of an empty stream, or a chunk and a stream of one
    -- chunk fewer.
    Shrinks : ℕ → Next → Type 0
    Shrinks n Next.waits = n ≡ 0
    Shrinks n Next.nothing = n ≡ 0
    Shrinks n (Next.got c s) = suc s.len ≡ n

    next-Shrinks : (s : Stream) → Shrinks s.len (next poll s)
    unfolding next Shrinks
    next-Shrinks s = if_elim (Shrinks s.len) (s.len == 0) (λ h. ground arith) (λ h. ground arith)

    turn-Ended :
        (as' : List EngineAct) (again : Request → Drained) (gr : Request) (s : Stream) (x : Next)
        → gr.stream ≡ some s
        → Shrinks s.len x
        → ((m : ℕ) (gr' : Request)
            → m < s.len + puts as'
            → left gr'.stream ≡ some m
            → Ended (again gr'))
        → Ended (turn env as' again gr (some x))
    unfolding turn Shrinks Ended Emptied left
    turn-Ended as' again gr s Next.waits e h k = (gr, [], refl, inl (s, e, h))
    turn-Ended as' again gr s Next.nothing e h k = (gr, [], refl, inl (s, e, h))
    turn-Ended as' again gr s (Next.got c t) e h k =
        let gr' : Request = record gr { stream = some (engine_acts t as') } in
        go_on-Ended again gr' c (engine_acts t as').len (on_chunk env gr' c) refl
          (chunk-Keeps env all_sent gr' c)
          (λ g. k (engine_acts t as').len g (omega (arith, acts-len t as')))

    next_of-Ended :
        (as' : List EngineAct) (again : Request → Drained) (gr : Request) (n : ℕ)
        (o : Option Stream)
        → gr.stream ≡ o
        → Has n o
        → ((m : ℕ) (gr' : Request)
            → m < n + puts as'
            → left gr'.stream ≡ some m
            → Ended (again gr'))
        → Ended (turn env as' again gr (next_of o))
    unfolding next_of Has
    next_of-Ended as' again gr n none e h k = absurd h
    next_of-Ended as' again gr n (some s) e h k =
        turn-Ended as' again gr s (next poll s) e (next-Shrinks s)
          (λ m gr' x. k m gr' (omega arith))

    drain-Ended :
        (fuel n : ℕ) (ts : List Turn) (gr : Request)
        → Has n gr.stream
        → n + puts_ever ts < fuel
        → Ended (drain env fuel ts gr)
    unfolding drain ran
    drain-Ended zero n ts gr h k = absurd (omega arith)
    drain-Ended (suc fuel) n ts gr h k =
        let t : Turn = this_turn ts in
        next_of-Ended t.between (drain env fuel (later ts)) (ran t.ahead gr) (n + puts t.ahead)
          (ran_on t.ahead gr.stream) refl (ran-Has n t.ahead gr.stream h)
          (λ m gr' x e.
            drain-Ended fuel m (later ts) gr' (left-Has m m gr'.stream e (omega arith))
              (omega (arith, turn-puts ts)))

    some-Has : (gr : Request) (s : Stream) → gr.stream ≡ some s → Has s.len gr.stream
    unfolding Has
    some-Has gr s e = rw e (omega arith)

    async-Ended :
        (ts : List Turn) (gr : Request) (s : Stream)
        → gr.stream ≡ some s
        → gr.closing ≡ false
        → Ended (gen_on_async env ts gr)
    unfolding gen_on_async
    async-Ended ts gr s e live =
        if_elim Ended gr.closing (λ h. absurd (ground arith))
          (λ _.
            drain-Ended (fuel_for ts gr.stream) s.len ts gr (some-Has gr s e)
              (fuel-enough ts gr.stream s e))

-- If every write to the connection is queued, a running request is drained to the end, whatever the
-- engine thread does to the stream meanwhile: in no more rounds than there are chunks, those that come
-- during the loop included, and without reading a NULL stream. The loop ends only on an empty stream or
-- with a chunk whose handling ends the response and gives up the connection.
pub gen_on_async_returns :
    (env : Env) (ts : List Turn) (gr : Request) (s : Stream)
    → ((k : ℕ) → env.sent k ≡ true)
    → gr.closing ≡ false
    → gr.stream ≡ some s
    → (gr' : Request) × (o : List Out) × (gen_on_async env ts gr ≡ drained gr' o)
      × (Emptied env gr' ⊎ Returned env gr')
unfolding Ended
gen_on_async_returns env ts gr s all_sent live h = async-Ended env all_sent ts gr s h live
