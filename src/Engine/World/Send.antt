-- ===== src/Engine/World/Send.antt =====
-- What the other threads, a push and the final DONE do to the log.
use mlxd.Base.{
  ℕ, ◌+◌, ◌≡◌, refl, sym, ap, ◌∙◌, Bool, true, false, Option, none, some, List, [], ◌∷◌, ◌++◌, ◌⊎◌,
  inl, inr, arith, Bytes, Bool-cases, if◌then◌else◌, ◌==◌, set,
}
use mathlib.Core.List.{append_assoc}
use mlxd.Core.Types.{FinishReason}
use mlxd.Engine.Stream.{
  Stream, Chunk, done, blocked, refused, pushed, push, next, cancel, tail, contents, freed,
}
use mlxd.Engine.Stream.Laws.{
  IsValid, contents-push, push-IsValid, contents-next, finish_cancelled-IsValid,
  finish_cancelled-Finished, finish_cancelled-closed,
}
use mlxd.Engine.World.{
  World, Act, consume, cancels, shuts_down, act, acts, settle, wait_push, send, finish, log, turn,
  At,
}

-- The other threads keep the stream well formed and the log as it is, and never take a cancel back.
pub record Keeps (w w' : World) : Type 0 where
  pub valid : IsValid w.stream → IsValid w'.stream
  pub logs : log w' ≡ log w
  pub stays : w.stream.cancelled ≡ true → w'.stream.cancelled ≡ true
  pub shut : w.shutdown ≡ true → w'.shutdown ≡ true

consume-Keeps : (w : World) → Keeps w (act w consume)
unfolding act log next
consume-Keeps w = elim (Bool-cases (w.stream.len == 0)) [
  | inl e ↦ rw e (record { valid = λ v. v; logs = refl; stays = λ h. h; shut = λ h. h })
  | inr e ↦ record {
    valid = ground arith;
    logs = rw e (
        append_assoc w.taken _ _
        ∙ ap (λ t. w.taken ++ t) (sym (contents-next w.stream (ground arith))));
    stays = λ h. ground arith;
    shut = λ h. ground arith;
  }
]

pub act-Keeps : (w : World) (a : Act) → Keeps w (act w a)
unfolding act log cancel contents
act-Keeps w consume = consume-Keeps w
act-Keeps w cancels = record {
  valid = λ v. omega arith;
  logs = refl;
  stays = λ h. refl;
  shut = λ h. h;
}
act-Keeps w shuts_down = record { valid = λ v. v; logs = refl; stays = λ h. h; shut = λ h. refl }

Keeps-trans : {u v w : World} → Keeps u v → Keeps v w → Keeps u w
Keeps-trans h k = record {
  valid = λ x. k.valid (h.valid x);
  logs = k.logs ∙ h.logs;
  stays = λ x. k.stays (h.stays x);
  shut = λ x. k.shut (h.shut x);
}

pub acts-Keeps : (w : World) (as' : List Act) → Keeps w (acts w as')
unfolding acts
acts-Keeps w [] = record { valid = λ v. v; logs = refl; stays = λ h. h; shut = λ h. h }
acts-Keeps w (a ∷ as') = Keeps-trans (act-Keeps w a) (acts-Keeps (act w a) as')

rest-Keeps : (w : World) (bs : List (List Act)) → Keeps w (record w { schedule = bs })
unfolding log
rest-Keeps w bs = record { valid = λ v. v; logs = refl; stays = λ h. h; shut = λ h. h }

pub turn-Keeps : (w : World) (bs : List (List Act)) → Keeps w (turn w bs)
turn-Keeps w [] = record { valid = λ v. v; logs = refl; stays = λ h. h; shut = λ h. h }
turn-Keeps w (b ∷ bs) = Keeps-trans (rest-Keeps w bs) (acts-Keeps _ b)

-- A push that returns has put its chunk at the end of the log, or met a cancelled stream.
pub record Sends (c : Chunk) (w : World) (sent : Bool) (w' : World) : Type 0 where
  pub valid : IsValid w'.stream
  pub logs : log w' ≡ (if sent then log w ++ c ∷ [] else log w)
  pub refusal : sent ≡ false → w'.stream.cancelled ≡ true
  pub stays : w.stream.cancelled ≡ true → w'.stream.cancelled ≡ true
  pub shut : w.shutdown ≡ true → w'.shutdown ≡ true

-- The three results of a push on a well formed stream.
abbrev pub PushCases : Stream → Chunk → Type 0
PushCases s c =
    (push s c ≡ blocked)
    ⊎ ((ms : List Bytes) × (push s c ≡ refused ms) × (s.cancelled ≡ true))
    ⊎ ((t : Stream) × (cb : Option ℕ) × (push s c ≡ pushed t cb)
        × IsValid t
        × (contents t ≡ contents s ++ c ∷ [])
        × (t.cancelled ≡ s.cancelled))

pub push_cases : (s : Stream) (c : Chunk) → IsValid s → PushCases s c
unfolding push
push_cases s c v = elim (Bool-cases s.cancelled) [
  | inl h ↦ inr (inl (freed (c ∷ []), ground arith, h))
  | inr h ↦ elim (Bool-cases (s.len == s.cap)) [
    | inl e ↦ inl (ground arith)
    | inr e ↦
        let t : Stream = record s { buf = set s.buf (tail s) c; len = s.len + 1 } in
        let run : push s c ≡ pushed t s.on_push = ground arith in
        inr
          (inr (t, s.on_push, run, push-IsValid c v run, contents-push s c v (ground arith), refl))
  ]
]

pub At-map :
    {A : Type 0} (P Q : A → World → Type 0) (o : Option (A × World))
    → ((a : A) (w : World) → P a w → Q a w)
    → At P o
    → At Q o
At-map P Q none f h = tt
At-map P Q (some (a, w)) f h = f a w h

Sends-after :
    {c : Chunk} {w v : World} {b : Bool} {w' : World} → Keeps w v → Sends c v b w' → Sends c w b w'
Sends-after {c} {w} {v} {b} {w'} k s = record {
  valid = s.valid;
  logs = rw (← k.logs) s.logs;
  refusal = s.refusal;
  stays = λ h. s.stays (k.stays h);
  shut = λ h. s.shut (k.shut h);
}

send_now :
    (c : Chunk) (v : World) (bs : List (List Act))
    → IsValid v.stream
    → At (Sends c v) (wait_push bs c v)
    → PushCases v.stream c
    → At (Sends c v) (elim (push v.stream c) [
      | blocked ↦ wait_push bs c v
      | refused ms ↦ some (false, v)
      | pushed s cb ↦ some (true, record v { stream = s })
    ])
unfolding log
send_now c v bs ok ih (inl e) = rw e ih
send_now c v bs ok ih (inr (inl (ms, e, h))) =
    rw e (record { valid = ok; logs = refl; refusal = λ _. h; stays = λ x. x; shut = λ x. x })
send_now c v bs ok ih (inr (inr (t, cb, e, fits, l, same))) = rw e (record {
  valid = fits;
  logs = rw (l, append_assoc);
  refusal = λ x. cc;
  stays = λ x. same ∙ x;
  shut = λ x. x;
})

wait-Sends :
    (bs : List (List Act)) (c : Chunk) (w : World)
    → IsValid w.stream
    → At (Sends c w) (wait_push bs c w)
unfolding wait_push
wait-Sends [] c w ok = tt
wait-Sends (b ∷ bs) c w ok =
    let v : World = acts (record w { schedule = bs }) b in
    let k : Keeps w v = Keeps-trans (rest-Keeps w bs) (acts-Keeps _ b) in
    At-map (Sends c v) (Sends c w) (wait_push (b ∷ bs) c w) (λ a w' s. Sends-after k s)
      (send_now c v bs (k.valid ok) (wait-Sends bs c v (k.valid ok))
        (push_cases v.stream c (k.valid ok)))

pub send-Sends : (c : Chunk) (w : World) → IsValid w.stream → At (Sends c w) (send c w)
unfolding send
send-Sends c w ok = wait-Sends w.schedule c w ok

-- The final DONE takes the place behind the log, or that of its newest chunk.
pub record Finishes (w w' : World) : Type 0 where
  pub valid : IsValid w'.stream
  pub logs :
      (log w' ≡ log w ++ done FinishReason.cancelled ∷ [])
      ⊎ ((xs : List Chunk) × (y : Chunk) × (log w ≡ xs ++ y ∷ [])
          × (log w' ≡ xs ++ done FinishReason.cancelled ∷ []))
  pub closed : w'.stream.cancelled ≡ true
  pub shut : w.shutdown ≡ true → w'.shutdown ≡ true

pub finish-Finishes : (w : World) → IsValid w.stream → At (λ _. Finishes w) (finish w)
unfolding finish settle log
finish-Finishes w ok =
    let v : World = turn w w.schedule in
    let k : Keeps w v = turn-Keeps w w.schedule in
    record {
      valid = finish_cancelled-IsValid v.stream (k.valid ok);
      logs = elim (finish_cancelled-Finished v.stream (k.valid ok)) [
        | inl e ↦ inl (rw (e, ← k.logs) (sym (append_assoc v.taken (contents v.stream) _)))
        | inr (xs, y, e, f) ↦ inr (
          v.taken ++ xs,
          y,
          sym k.logs ∙ ap (λ t. v.taken ++ t) e ∙ sym (append_assoc v.taken xs (y ∷ [])),
          rw f (sym (append_assoc v.taken xs (done FinishReason.cancelled ∷ []))),
        )
      ];
      closed = finish_cancelled-closed v.stream;
      shut = k.shut;
    }
