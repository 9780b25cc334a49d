-- ===== src/Engine/Generate/FailLaws.antt =====
-- What `generate_fail` leaves on the stream.
use mlxd.Base.{
  ◌≡◌, refl, ◌∙◌, Bool, true, false, List, [], ◌∷◌, ◌++◌, ◌⊎◌, inl, inr, if◌then◌else◌, Bytes,
  arith,
}
use mathlib.Core.List.{append_assoc}
use mlxd.Core.Types.{FinishReason}
use mlxd.Engine.Stream.{Chunk, error, done, ErrKind}
use mlxd.Engine.World.{◌>>=◌, ret, send, finish, load_shutdown}
use mlxd.Engine.World.Triple.{
  Flags, IsStopped, Assertion, Post, Post-bind, Post-weaken, Post-ret, Post-send, Post-finish,
  Post-load_shutdown, IsCut, IsCut-append, AfterSend, AfterFinish, AfterPoll,
}
use mlxd.Engine.Generate.{push_error_kind, close_failed, generate_fail}

-- A failed run with the log `whole` so far: the error and a DONE; the error alone, or nothing, if the
-- stream was cancelled in between and the engine is not shutting down (or there was no memory for the
-- message); or the DONE of a cancelled request.
abbrev pub FailEnds : Bool → Chunk → List Chunk → Assertion (Unit {0})
FailEnds dup_ok e whole a b l =
    (l ≡ whole ++ e ∷ done FinishReason.stop ∷ [])
    ⊎ ((l ≡ whole ++ e ∷ []) × IsStopped b)
    ⊎ ((l ≡ whole) × (IsStopped b ⊎ (dup_ok ≡ false)))
    ⊎ (IsCut (whole ++ e ∷ []) l × IsStopped b)

module _ (dup_ok : Bool) (e : Chunk) (whole : List Chunk) where
  FailEnds-mono :
      (b b' : Flags) (l : List Chunk)
      → (IsStopped b → IsStopped b')
      → FailEnds dup_ok e whole tt b l
      → FailEnds dup_ok e whole tt b' l
  FailEnds-mono b b' l x (inl p) = inl p
  FailEnds-mono b b' l x (inr (inl (p, q))) = inr (inl (p, x q))
  FailEnds-mono b b' l x (inr (inr (inl (p, inl q)))) = inr (inr (inl (p, inl (x q))))
  FailEnds-mono b b' l x (inr (inr (inl (p, inr q)))) = inr (inr (inl (p, inr q)))
  FailEnds-mono b b' l x (inr (inr (inr (p, q)))) = inr (inr (inr (p, x q)))

  module _ (l : List Chunk) (cut : (k : List Chunk) → IsCut l k → IsCut (whole ++ e ∷ []) k) where
    after_flag :
        (b : Flags)
        → FailEnds dup_ok e whole tt b l
        → (a : Bool) (b' : Flags) (l' : List Chunk) → AfterPoll b l a b' l'
        → Post b' l' (if a then finish else ret tt) (FailEnds dup_ok e whole)
    after_flag b f true b' l' (same, x, y, _, _) = rw same (
        Post-weaken b' l finish (AfterFinish l) (FailEnds dup_ok e whole)
          (Post-finish b' l (y refl)) (λ _ c k p. inr (inr (inr (cut k p.0, p.1)))))
    after_flag b f false b' l' (same, x, _, _, _) =
        rw same
          (Post-ret b' l tt (FailEnds dup_ok e whole) (λ c y. FailEnds-mono b c l (λ z. y (x z)) f))

    -- After a push that was refused, or not made: poll the shutdown flag.
    close_tail :
        (b : Flags)
        → FailEnds dup_ok e whole tt b l
        → Post b l
            (do down ← load_shutdown; if down then finish else ret tt)
            (FailEnds dup_ok e whole)
    close_tail b f =
        Post-bind b l load_shutdown (λ down. if down then finish else ret tt) (AfterPoll b l)
          (FailEnds dup_ok e whole) (Post-load_shutdown b l) (after_flag b f)

  IsCut-whole : (k : List Chunk) → IsCut whole k → IsCut (whole ++ e ∷ []) k
  IsCut-whole k = IsCut-append whole (e ∷ []) k

  after_stop :
      (a : Bool) (b : Flags) (l : List Chunk)
      → AfterSend (whole ++ e ∷ []) (done FinishReason.stop) a b l
      → Post b l
          (if a then ret tt else (do down ← load_shutdown; if down then finish else ret tt))
          (FailEnds dup_ok e whole)
  after_stop true b l h =
      Post-ret b l tt (FailEnds dup_ok e whole) (λ c x. inl (h ∙ append_assoc whole (e ∷ []) _))
  after_stop false b l (same, x) =
      rw same (close_tail (whole ++ e ∷ []) (λ k c. c) b (inr (inl (refl, x))))

  close_failed-ends :
      (a : Bool) (b : Flags) (l : List Chunk)
      → (AfterSend whole e a b l ⊎ ((a ≡ false) × (l ≡ whole) × (dup_ok ≡ false)))
      → Post b l (close_failed a) (FailEnds dup_ok e whole)
  unfolding close_failed
  close_failed-ends true b l (inl h) = rw h (
      Post-bind b (whole ++ e ∷ []) (send (done FinishReason.stop)) _
        (AfterSend (whole ++ e ∷ []) (done FinishReason.stop)) (FailEnds dup_ok e whole)
        (Post-send b (whole ++ e ∷ []) (done FinishReason.stop)) after_stop)
  close_failed-ends false b l (inl (h, x)) =
      rw h (close_tail whole IsCut-whole b (inr (inr (inl (refl, inl x)))))
  close_failed-ends true b l (inr h) = absurd (ground arith)
  close_failed-ends false b l (inr (_, h, x)) =
      rw h (close_tail whole IsCut-whole b (inr (inr (inl (refl, inr x)))))

pub generate_fail-FailEnds :
    (dup_ok : Bool) (msg : Bytes) (kind : ErrKind) (b : Flags) (whole : List Chunk)
    → Post b whole (generate_fail dup_ok msg kind) (FailEnds dup_ok (error msg kind) whole)
unfolding generate_fail push_error_kind
generate_fail-FailEnds true msg kind b whole =
    Post-bind b whole (send (error msg kind)) close_failed (AfterSend whole (error msg kind))
      (FailEnds true (error msg kind) whole) (Post-send b whole (error msg kind))
      (λ a c l h. close_failed-ends true (error msg kind) whole a c l (inl h))
generate_fail-FailEnds false msg kind b whole =
    close_failed-ends false (error msg kind) whole false b whole (inr (refl, refl, refl))
