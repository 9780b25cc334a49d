-- ===== src/Engine/World/Asked.antt =====
-- Whether a run was asked to stop: by the time it starts, or by a thread that acts during it.
use mlxd.Base.{
  ◌≡◌, refl, ◌∙◌, sym, Bool, true, false, some, List, [], ◌∷◌, if◌then◌else◌, arith, inl, inr,
  Bool-cases, ◌==◌,
}
use mlxd.Engine.Stream.{Chunk, next, cancel, blocked, refused, pushed, push}
use mlxd.Engine.Stream.Laws.{IsValid}
use mlxd.Engine.World.{
  World, Act, consume, cancels, shuts_down, act, acts, wait_push, send, turn, At, finish, settle,
}
use mlxd.Engine.World.Send.{PushCases, push_cases, acts-Keeps}

-- Whether one of the acts is a cancel or a shutdown.
abbrev pub asks : List Act → Bool
asks [] = false
asks (consume ∷ as') = asks as'
asks (cancels ∷ as') = true
asks (shuts_down ∷ as') = true

abbrev pub asks_ever : List (List Act) → Bool
asks_ever [] = false
asks_ever (b ∷ bs) = if asks b then true else asks_ever bs

-- The stream is cancelled, the engine is shutting down, or a thread is still to ask for either.
abbrev pub asked : World → Bool
asked w = if w.shutdown then true else if w.stream.cancelled then true else asks_ever w.schedule

-- `q` is true if the world is asked to stop.
pub record Within (q : Bool) (w : World) : Type 0 where
  pub flagged : w.stream.cancelled ≡ true → q ≡ true
  pub down : w.shutdown ≡ true → q ≡ true
  pub later : asks_ever w.schedule ≡ true → q ≡ true

pub asked-Within : (w : World) → Within (asked w) w
asked-Within w = record {
  flagged = λ h. ground arith;
  down = λ h. ground arith;
  later = λ h. ground arith;
}

module _ (q : Bool) where
  act-Within :
      (w : World) (a : Act) → Within q w → (asks (a ∷ []) ≡ true → q ≡ true) → Within q (act w a)
  unfolding act next cancel
  act-Within w consume v h = elim (Bool-cases (w.stream.len == 0)) [
    | inl e ↦ rw e v
    | inr e ↦ rw e (record { flagged = v.flagged; down = v.down; later = v.later })
  ]
  act-Within w cancels v h = record { flagged = λ _. h refl; down = v.down; later = v.later }
  act-Within w shuts_down v h = record { flagged = v.flagged; down = λ _. h refl; later = v.later }

  acts-Within :
      (w : World) (as' : List Act)
      → Within q w
      → (asks as' ≡ true → q ≡ true)
      → Within q (acts w as')
  unfolding acts
  acts-Within w [] v h = v
  acts-Within w (consume ∷ as') v h =
      acts-Within (act w consume) as' (act-Within w consume v (λ x. absurd (ground arith))) h
  acts-Within w (cancels ∷ as') v h =
      acts-Within (act w cancels) as' (act-Within w cancels v (λ _. h refl)) (λ _. h refl)
  acts-Within w (shuts_down ∷ as') v h =
      acts-Within (act w shuts_down) as' (act-Within w shuts_down v (λ _. h refl)) (λ _. h refl)

  taken-Within :
      (w : World) (b : List Act) (bs : List (List Act))
      → Within q w
      → (asks_ever (b ∷ bs) ≡ true → q ≡ true)
      → Within q (acts (record w { schedule = bs }) b)
  taken-Within w b bs v h =
      acts-Within (record w { schedule = bs }) b
        (record { flagged = v.flagged; down = v.down; later = λ x. h (ground arith) })
        (λ x. h (ground arith))

  turn_of :
      (w : World) (bs : List (List Act))
      → Within q w
      → (asks_ever bs ≡ true → q ≡ true)
      → Within q (turn w bs)
  turn_of w [] v h = v
  turn_of w (b ∷ bs) v h = taken-Within w b bs v h

  pub turn-Within : (w : World) → Within q w → Within q (turn w w.schedule)
  turn-Within w v = turn_of w w.schedule v v.later

  -- A push that is refused has met a cancelled stream.
  abbrev pub Pushed : Bool → World → Type 0
  Pushed sent w = Within q w × (sent ≡ false → q ≡ true)

  send_now :
      (c : Chunk) (v : World) (bs : List (List Act))
      → Within q v
      → At Pushed (wait_push bs c v)
      → PushCases v.stream c
      → At Pushed (elim (push v.stream c) [
        | blocked ↦ wait_push bs c v
        | refused ms ↦ some (false, v)
        | pushed s cb ↦ some (true, record v { stream = s })
      ])
  send_now c v bs k ih (inl e) = rw e ih
  send_now c v bs k ih (inr (inl (ms, e, h))) = rw e (k, λ _. k.flagged h)
  send_now c v bs k ih (inr (inr (t, cb, e, fits, l, same))) = rw e (
    record { flagged = λ x. k.flagged (sym same ∙ x); down = k.down; later = k.later },
    λ x. absurd (ground arith),
  )

  wait-Within :
      (bs : List (List Act)) (c : Chunk) (w : World)
      → IsValid w.stream
      → Within q w
      → (asks_ever bs ≡ true → q ≡ true)
      → At Pushed (wait_push bs c w)
  unfolding wait_push
  wait-Within [] c w ok k h = tt
  wait-Within (b ∷ bs) c w ok k h =
      let v : World = acts (record w { schedule = bs }) b in
      let valid : IsValid v.stream = (acts-Keeps (record w { schedule = bs }) b).valid ok in
      let k' : Within q v = taken-Within w b bs k h in
      send_now c v bs k' (wait-Within bs c v valid k' (λ x. h (ground arith)))
        (push_cases v.stream c valid)

  pub send-Within : (c : Chunk) (w : World) → IsValid w.stream → Within q w → At Pushed (send c w)
  unfolding send
  send-Within c w ok k = wait-Within w.schedule c w ok k k.later

  pub finish-Within : (w : World) → Within q w → q ≡ true → At (λ _ w'. Within q w') (finish w)
  unfolding finish settle
  finish-Within w k h = record { flagged = λ _. h; down = λ _. h; later = λ _. h }
