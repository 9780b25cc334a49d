-- ===== src/Engine/Generate/StubLaws.antt =====
-- What a generate command on the stub model leaves on its stream.
use mlxd.Base.{
  ℕ, ◌+◌, ◌≡◌, refl, sym, Bool, true, false, List, [], ◌∷◌, ◌++◌, ◌⊎◌, inl, inr, take, pos_part,
  if◌then◌else◌,
}
use mathlib.Core.Path.{subst}
use mathlib.Core.List.{append_assoc, append-nil}
use mlxd.Core.Types.{FinishReason}
use mlxd.Engine.Stream.{Chunk, token, done}
use mlxd.Engine.World.{M, ◌>>=◌, ◌>>◌, ret, send, finish, load_shutdown}
use mlxd.Engine.World.Triple.{
  Flags, IsStopped, idle, Assertion, Post, Post-bind, Post-weaken, Post-ret, Post-send, Post-finish,
  Post-load_shutdown, IsCut, IsCut-append, AfterSend, AfterFinish, AfterPoll,
}
use mlxd.Engine.Generate.{
  Command, push_done, stub_loop, stub_limit, stub_reason, handle_generate_stub,
}

-- The chunks of the tokens from index `i` on.
pub echo : Command → ℕ → List ℕ → List Chunk
echo cmd i [] = []
echo cmd i (id ∷ ids) =
    token id (if cmd.logprobs then cmd.stub_logprob i else 0) ∷ echo cmd (i + 1) ids

-- A run that ended by itself has all of `whole` and its DONE; one that was stopped, a part of it and
-- the DONE of a cancelled request.
abbrev pub Ends : List Chunk → FinishReason → Assertion (Unit {0})
Ends whole reason a b l = (l ≡ whole ++ done reason ∷ []) ⊎ (IsCut whole l × IsStopped b)

after_done :
    (l : List Chunk) (reason : FinishReason) (a : Bool) (b : Flags) (l' : List Chunk)
    → AfterSend l (done reason) a b l'
    → Post b l' (if a then ret tt else finish) (Ends l reason)
after_done l reason true b l' h = Post-ret b l' tt (Ends l reason) (λ b' x. inl h)
after_done l reason false b l' h = rw h.0 (
    Post-weaken b l finish (AfterFinish l) (Ends l reason) (Post-finish b l h.1.0)
      (λ _ b' k p. inr p))

pub Post-push_done :
    (b : Flags) (l : List Chunk) (reason : FinishReason)
    → Post b l (push_done reason) (Ends l reason)
unfolding push_done
Post-push_done b l reason =
    Post-bind b l (send (done reason)) (λ ok. if ok then ret tt else finish)
      (AfterSend l (done reason)) (Ends l reason) (Post-send b l (done reason))
      (after_done l reason)

-- After the loop: stopped in the middle, or all chunks are out.
abbrev Looped : List Chunk → Assertion Bool
Looped whole true b l = IsCut whole l × IsStopped b
Looped whole false b l = l ≡ whole

stop_here :
    (b : Flags) (whole l more : List Chunk)
    → whole ≡ l ++ more
    → b.asked ≡ true
    → Post b l (do finish; ret true) (Looped whole)
stop_here b whole l more e stop =
    Post-bind b l finish (λ _. ret true) (AfterFinish l) (Looped whole) (Post-finish b l stop)
      (λ _ c k p.
        Post-ret c k true (Looped whole) (λ c' x. (rw e (IsCut-append l more k p.0), x p.1)))

module _ (cmd : Command) (id : ℕ) (ids : List ℕ) (i : ℕ) (l : List Chunk) where
  abbrev chunk : Chunk
  chunk = token id (if cmd.logprobs then cmd.stub_logprob i else 0)

  abbrev whole : List Chunk
  whole = l ++ chunk ∷ echo cmd (i + 1) ids

  abbrev rest : M Bool
  rest = stub_loop cmd (i + 1) ids

  module _ (ih : (b : Flags) → Post b (l ++ chunk ∷ []) rest (Looped whole)) where
    after_token :
        (a : Bool) (b : Flags) (l' : List Chunk)
        → AfterSend l chunk a b l'
        → Post b l' (if a then rest else (do finish; ret true)) (Looped whole)
    after_token true b l' e = rw e (ih b)
    after_token false b l' e = rw e.0 (stop_here b whole l _ refl e.1.0)

    after_poll :
        (c : Flags) (a : Bool) (b : Flags) (l' : List Chunk)
        → AfterPoll c l a b l'
        → Post b l'
            (if a
              then (do finish; ret true)
              else (do ok ← send chunk; if ok then rest else (do finish; ret true)))
            (Looped whole)
    after_poll c true b l' (e, _, y, _, _) = rw e (stop_here b whole l _ refl (y refl))
    after_poll c false b l' e = rw e.0 (
        Post-bind b l (send chunk) (λ ok. if ok then rest else (do finish; ret true))
          (AfterSend l chunk) (Looped whole) (Post-send b l chunk) after_token)

stub_loop-Looped :
    (b : Flags) (cmd : Command) (i : ℕ) (ids : List ℕ) (l : List Chunk)
    → Post b l (stub_loop cmd i ids) (Looped (l ++ echo cmd i ids))
unfolding stub_loop echo
stub_loop-Looped b cmd i [] l = Post-ret b l false (Looped (l ++ [])) (λ b' x. sym (append-nil l))
stub_loop-Looped b cmd i (id ∷ ids) l =
    Post-bind b l load_shutdown _ (AfterPoll b l)
      (Looped (l ++ chunk cmd id ids i l ∷ echo cmd (i + 1) ids)) (Post-load_shutdown b l)
      (after_poll cmd id ids i l
        (λ b'.
          subst
            (λ t. Post b' (l ++ chunk cmd id ids i l ∷ []) (stub_loop cmd (i + 1) ids) (Looped t))
            (append_assoc l (chunk cmd id ids i l ∷ []) (echo cmd (i + 1) ids))
            (stub_loop-Looped b' cmd (i + 1) ids (l ++ chunk cmd id ids i l ∷ [])))
        b)

after_loop :
    (whole : List Chunk) (reason : FinishReason) (a : Bool) (b : Flags) (l' : List Chunk)
    → Looped whole a b l'
    → Post b l' (if a then ret tt else push_done reason) (Ends whole reason)
after_loop whole reason true b l' h =
    Post-ret b l' tt (Ends whole reason) (λ b' x. inr (h.0, x h.1))
after_loop whole reason false b l' h = rw h (Post-push_done b whole reason)

pub stub-Ends :
    (cmd : Command) (q late : Bool)
    → Post
        (idle q late)
        []
        (handle_generate_stub cmd)
        (Ends (echo cmd 0 (take (pos_part (stub_limit cmd)) cmd.token_ids)) (stub_reason cmd))
unfolding handle_generate_stub
stub-Ends cmd q late =
    let ids = take (pos_part (stub_limit cmd)) cmd.token_ids in
    Post-bind (idle q late) [] (stub_loop cmd 0 ids)
      (λ a. if a then ret tt else push_done (stub_reason cmd)) (Looped (echo cmd 0 ids))
      (Ends (echo cmd 0 ids) (stub_reason cmd)) (stub_loop-Looped (idle q late) cmd 0 ids [])
      (after_loop (echo cmd 0 ids) (stub_reason cmd))
