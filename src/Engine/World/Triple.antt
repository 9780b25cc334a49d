-- ===== src/Engine/World/Triple.antt =====
-- Reasoning about a chain of steps by what it does to the log.
use mlxd.Base.{
  if◌then◌else◌, arith, Bool-cases, Bool, true, false, Option, none, some, List, [], ◌∷◌, ◌++◌, ◌≡◌,
  refl, sym, ◌∙◌, inl, inr,
}
use mathlib.Core.List.{append_assoc, append-nil}
use mlxd.Core.Types.{FinishReason}
use mlxd.Engine.Stream.{Chunk, done}
use mlxd.Engine.Stream.Laws.{IsValid}
use mlxd.Engine.World.{
  World, M, ◌>>=◌, At, ret, send, finish, settle, load_shutdown, load_stop, log, turn,
}
use mlxd.Engine.World.Asked.{Within, turn-Within, Pushed, send-Within, finish-Within}
use mlxd.Engine.World.Send.{turn-Keeps, Sends, send-Sends, Finishes, finish-Finishes, At-map}

-- Whether a cancel or a shutdown was asked for at any time, whether the run started after the shutdown,
-- and whether the stream is cancelled now.
pub record Flags : Type 0 where
  pub asked : Bool
  pub late : Bool
  pub cancelled : Bool

abbrev pub IsStopped : Flags → Type 0
IsStopped b = (b.asked ≡ true) × (b.cancelled ≡ true)

-- At the start, with nothing known of the stream.
abbrev pub idle : Bool → Bool → Flags
idle q late = record { asked = q; late = late; cancelled = false }

abbrev pub flags : Bool → Bool → World → Flags
flags q late w = record { asked = q; late = late; cancelled = w.stream.cancelled }

-- A world that is asked to stop only if `q` is true, and is shutting down if `late` is.
pub record Fits (q late : Bool) (w : World) : Type 0 where
  pub within : Within q w
  pub shut : late ≡ true → w.shutdown ≡ true

abbrev pub Assertion : Type 0 → Type 1
Assertion A = A → Flags → List Chunk → Type 0

-- `Q` of a result, of the flags, and of the log, in a world that fits.
abbrev pub Result : {A : Type 0} → Bool → Bool → Assertion A → A → World → Type 0
Result q late Q a w = IsValid w.stream × Fits q late w × Q a (flags q late w) (log w)

-- From a well formed stream with the log `l`, stopped if `c` says so, in a world that fits `c`, `m`
-- ends, if it ends, in a well formed stream, with `Q`.
abbrev pub Post : {A : Type 0} → Flags → List Chunk → M A → Assertion A → Type 0
Post c l m Q =
    (w : World)
    → IsValid w.stream
    → Fits c.asked c.late w
    → log w ≡ l
    → (IsStopped c → w.stream.cancelled ≡ true)
    → At (Result c.asked c.late Q) (m w)

At-bind :
    {A B : Type 0} (P : A → World → Type 0) (Q : B → World → Type 0) (o : Option (A × World))
    (f : A → M B)
    → At P o
    → ((a : A) (w : World) → P a w → At Q (f a w))
    → At Q (elim o [ none ↦ none | some (a, w') ↦ f a w' ])
At-bind P Q none f h k = tt
At-bind P Q (some (a, w)) f h k = k a w h

At-both :
    {A : Type 0} (P Q : A → World → Type 0) (o : Option (A × World))
    → At P o
    → At Q o
    → At (λ a w. P a w × Q a w) o
At-both P Q none h k = tt
At-both P Q (some (a, w)) h k = (h, k)

module _ {A : Type 0} (c : Flags) (l : List Chunk) where
  pub Post-bind :
      {B : Type 0} (m : M A) (f : A → M B) (P : Assertion A) (Q : Assertion B)
      → Post c l m P
      → ((a : A) (b : Flags) (l' : List Chunk) → P a b l' → Post b l' (f a) Q)
      → Post c l (m >>= f) Q
  Post-bind m f P Q h k w ok r e x =
      At-bind (Result c.asked c.late P) (Result c.asked c.late Q) (m w) f (h w ok r e x)
        (λ a w' p. k a (flags c.asked c.late w') (log w') p.2 w' p.0 p.1 refl (λ y. y.1))

  pub Post-weaken :
      (m : M A) (P Q : Assertion A)
      → Post c l m P
      → ((a : A) (b : Flags) (l' : List Chunk) → P a b l' → Q a b l')
      → Post c l m Q
  Post-weaken m P Q h k w ok r e x =
      At-map (Result c.asked c.late P) (Result c.asked c.late Q) (m w)
        (λ a w' p. (p.0, p.1, k a (flags c.asked c.late w') (log w') p.2)) (h w ok r e x)

  pub Post-ret :
      (a : A) (Q : Assertion A)
      → ((b : Flags) → (IsStopped c → IsStopped b) → Q a b l)
      → Post c l (ret a) Q
  Post-ret a Q q w ok r e x = rw e (ok, r, q (flags c.asked c.late w) (λ y. (y.0, x y)))

-- A push that returns true has added its chunk; one that returns false has met a cancelled stream.
abbrev pub AfterSend : List Chunk → Chunk → Assertion Bool
AfterSend l c true b l' = l' ≡ l ++ c ∷ []
AfterSend l c false b l' = (l' ≡ l) × IsStopped b

after_send :
    (d : Flags) (l : List Chunk) (c : Chunk) (w : World)
    → Fits d.asked d.late w
    → log w ≡ l
    → (a : Bool) (w' : World) → Sends c w a w' × Pushed d.asked a w'
    → Result d.asked d.late (AfterSend l c) a w'
after_send d l c w r e true w' (s, k) =
    (s.valid, record { within = k.0; shut = λ h. s.shut (r.shut h) }, rw (← e) s.logs)
after_send d l c w r e false w' (s, k) = (
  s.valid,
  record { within = k.0; shut = λ h. s.shut (r.shut h) },
  (rw (← e) s.logs, (k.1 refl, s.refusal refl)),
)

-- `l` is the start of `whole`, followed by the DONE of a cancelled request.
abbrev pub IsCut : List Chunk → List Chunk → Type 0
IsCut whole l =
    (xs : List Chunk) × (ys : List Chunk) × (whole ≡ xs ++ ys)
    × (l ≡ xs ++ done FinishReason.cancelled ∷ [])

pub IsCut-append : (whole more l : List Chunk) → IsCut whole l → IsCut (whole ++ more) l
IsCut-append whole more l (xs, ys, e, f) = (xs, ys ++ more, rw e (append_assoc xs ys more), f)

-- `finish` leaves a part of the log, its DONE, and a cancelled stream.
abbrev pub AfterFinish : List Chunk → Assertion (Unit {0})
AfterFinish l a b l' = IsCut l l' × IsStopped b

after_finish :
    (d : Flags) (l : List Chunk) (w : World)
    → Fits d.asked d.late w
    → log w ≡ l
    → d.asked ≡ true
    → (w' : World) → Finishes w w' × Within d.asked w'
    → Result d.asked d.late (AfterFinish l) tt w'
after_finish d l w r e h w' (f, k) = (
  f.valid,
  record { within = k; shut = λ x. f.shut (r.shut x) },
  (
    elim f.logs [
      | inl g ↦ (l, [], sym (append-nil l), rw (← e) g)
      | inr (xs, y, g, h) ↦ (xs, y ∷ [], sym e ∙ g, h)
    ],
    (h, f.closed),
  ),
)

-- A poll leaves the log, and a stopped stream stopped; it returns true only after a cancel or a
-- shutdown, and false only if the run started before the shutdown.
abbrev pub AfterPoll : Flags → List Chunk → Assertion Bool
AfterPoll c l a b l' =
    (l' ≡ l)
    × (IsStopped c → IsStopped b)
    × (a ≡ true → b.asked ≡ true)
    × (a ≡ false → c.late ≡ false)
    × (b.late ≡ c.late)

poll_missed :
    (c : Flags) (w : World)
    → Fits c.asked c.late w
    → (a : Bool) → (w.shutdown ≡ true → a ≡ true)
    → a ≡ false
    → c.late ≡ false
poll_missed c w r a h e = elim (Bool-cases c.late) [
  | inl x ↦ let y : true ≡ false = sym (h (r.shut x)) ∙ e in absurd (ground arith)
  | inr x ↦ x
]

turn-Fits :
    (c : Flags) (w : World) → Fits c.asked c.late w → Fits c.asked c.late (turn w w.schedule)
turn-Fits c w r = record {
  within = turn-Within c.asked w r.within;
  shut = λ h. (turn-Keeps w w.schedule).shut (r.shut h);
}

stop_flag :
    (q : Bool) (w : World)
    → Within q w
    → (if w.shutdown then true else w.stream.cancelled) ≡ true
    → q ≡ true
stop_flag q w r h = elim (Bool-cases w.shutdown) [
  | inl e ↦ r.down e
  | inr e ↦ r.flagged (ground arith)
]

module _ (c : Flags) (l : List Chunk) where
  pub Post-send : (x : Chunk) → Post c l (send x) (AfterSend l x)
  Post-send x w ok r e h =
      At-map _ (Result c.asked c.late (AfterSend l x)) (send x w) (after_send c l x w r e) (
        At-both (Sends x w) (Pushed c.asked) (send x w) (send-Sends x w ok)
          (send-Within c.asked x w ok r.within))

  pub Post-finish : c.asked ≡ true → Post c l finish (AfterFinish l)
  Post-finish stop w ok r e h =
      At-map _ (Result c.asked c.late (AfterFinish l)) (finish w)
        (λ _ w' f. after_finish c l w r e stop w' f)
        (At-both (λ _. Finishes w) (λ _ w'. Within c.asked w') (finish w) (finish-Finishes w ok)
          (finish-Within c.asked w r.within stop))

  after_poll :
      (w : World) (a : Bool)
      → IsValid w.stream
      → Fits c.asked c.late w
      → log w ≡ l
      → (IsStopped c → w.stream.cancelled ≡ true)
      → (a ≡ true → c.asked ≡ true)
      → ((turn w w.schedule).shutdown ≡ true → a ≡ true)
      → Result c.asked c.late (AfterPoll c l) a (turn w w.schedule)
  after_poll w a ok r e h found missed =
      let k = turn-Keeps w w.schedule in
      let r' : Fits c.asked c.late (turn w w.schedule) = turn-Fits c w r in
      (
        k.valid ok,
        r',
        (
          k.logs ∙ e,
          λ x. (x.0, k.stays (h x)),
          found,
          poll_missed c (turn w w.schedule) r' a missed,
          refl,
        ),
      )

  pub Post-load_shutdown : Post c l load_shutdown (AfterPoll c l)
  unfolding load_shutdown settle
  Post-load_shutdown w ok r e h =
      after_poll w (turn w w.schedule).shutdown ok r e h (turn-Fits c w r).within.down (λ y. y)

  pub Post-load_stop : Post c l load_stop (AfterPoll c l)
  unfolding load_stop settle
  Post-load_stop w ok r e h =
      after_poll w _ ok r e h (stop_flag c.asked (turn w w.schedule) (turn-Fits c w r).within)
        (λ y. ground arith)

  pub Post-if :
      {A : Type 0} (Q : Assertion A) (t : Bool) (x y : M A)
      → (t ≡ true → Post c l x Q)
      → (t ≡ false → Post c l y Q)
      → Post c l (if t then x else y) Q
  Post-if Q true x y h k = h refl
  Post-if Q false x y h k = k refl
