-- ===== src/Engine/World.antt =====
-- What the engine thread shares with the threads that consume, cancel and shut down, while it works
-- on one generate command. The other threads act between its steps: a schedule holds, for each
-- step that the engine thread takes, the acts that come before it.
pub mod Send
pub mod Asked
pub mod Triple
pub mod Total
use mlxd.Base.{Bool, true, false, Option, none, some, List, [], ◌∷◌, ◌++◌, if◌then◌else◌}
use mlxd.Engine.Stream.{
  Stream, Chunk, Push, blocked, refused, pushed, Next, waits, nothing, got, poll, push, next,
  cancel, finish_cancelled, contents,
}

pub data Act : Type 0 where
  -- `stream_next` with a timeout of 0 by the consumer
  consume : Act
  -- `stream_cancel`
  cancels : Act
  -- the store to `eng->shutdown`
  shuts_down : Act

-- `taken` is what the consumer has read so far.
pub record World : Type 0 where
  pub stream : Stream
  pub shutdown : Bool
  pub taken : List Chunk
  pub schedule : List (List Act)

abbrev consumed : World → Next → World
consumed w waits = w
consumed w nothing = w
consumed w (got c s) = record w { stream = s; taken = w.taken ++ c ∷ [] }

pub act : World → Act → World
act w consume = consumed w (next poll w.stream)
act w cancels = record w { stream = cancel w.stream }
act w shuts_down = record w { shutdown = true }

pub acts : World → List Act → World
acts w [] = w
acts w (a ∷ as') = acts (act w a) as'

-- A step of the engine thread. It is `none` when the schedule ends while the thread waits.
abbrev pub M : Type 0 → Type 0
M A = World → Option (A × World)

infixl 5 ◌>>=◌ ◌>>◌
abbrev pub ◌>>=◌ : {A B : Type 0} → M A → (A → M B) → M B
◌>>=◌ m f w = elim (m w) [ none ↦ none | some (a, w') ↦ f a w' ]

abbrev pub ◌>>◌ : {B : Type 0} → M (Unit {0}) → M B → M B
m >> k = m >>= λ _. k

abbrev pub ret : {A : Type 0} → A → M A
ret a w = some (a, w)

-- `P` holds of what a step returns, if it returns.
abbrev pub At : {A : Type 0} → (A → World → Type 0) → Option (A × World) → Type 0
At P none = Unit {0}
At P (some (a, w)) = P a w

-- The other threads act; with no schedule left they are done.
abbrev pub turn : World → List (List Act) → World
turn w [] = w
turn w (b ∷ bs) = acts (record w { schedule = bs }) b

unfoldable pub settle : M (Unit {0})
unfolding acts act
settle w = some (tt, turn w w.schedule)

-- `atomic_load(&eng->shutdown)`, and with `|| atomic_load(&s->cancelled)`
unfoldable pub load_shutdown : M Bool
unfolding settle
load_shutdown = do settle; (λ w. ret w.shutdown w)

pub load_stop : M Bool
unfolding settle
load_stop = do settle; (λ w. ret (if w.shutdown then true else w.stream.cancelled) w)

-- `stream_push`: the loop around the wait
wait_push : List (List Act) → Chunk → M Bool
wait_push [] c w = none
wait_push (b ∷ bs) c w =
    let w' : World = acts (record w { schedule = bs }) b in
    elim (push w'.stream c) [
      | blocked ↦ wait_push bs c w'
      | refused ms ↦ ret false w'
      | pushed s cb ↦ ret true (record w' { stream = s })
    ]

pub send : Chunk → M Bool
unfolding wait_push
send c w = wait_push w.schedule c w

-- `stream_finish_cancelled`
pub finish : M (Unit {0})
unfolding settle
finish = do settle; (λ w. ret tt (record w { stream = (finish_cancelled w.stream).0 }))

-- All that was ever put on the stream and not overwritten: what was read, then what is buffered.
unfoldable pub log : World → List Chunk
log w = w.taken ++ contents w.stream
