-- ===== src/Http/Parser/Feeds.antt =====
-- What a feed answers, by the status that was left.
use mlxd.Base.{
  ℕ, ◌≤◌, ◌≡◌, ap, Bool, not, ◌&&◌, Option, none, some, List, ◌∷◌, length, if_elim, arith, Bytes,
}
use mlxd.Http.Parser.{
  Llhttp, Ctx, Status, incomplete, complete, failed, too_large, Call, Errno, ok, paused, error,
  Parsed, ended, finished, stopped_by, outcome, execute_with, calls, feed_from, http_parser_feed,
  is_error, consumed_by,
}

module _ {P : Type 0} (lib : Llhttp P) (grows : ℕ → Bool) where
  -- Once a request is complete, feeds say so again and write none.
  pub feed-complete :
      (c : Ctx P) (bytes : Bytes)
      → c.last_status ≡ complete
      → http_parser_feed lib grows c bytes ≡ (complete, c, none)
  unfolding http_parser_feed feed_from
  feed-complete c bytes h = ap (feed_from lib grows c bytes) h

  -- A request that is completed is written, and some bytes belong to it.
  unfoldable pub Written : Status × Ctx P × Option Parsed → Type 0
  Written (incomplete, c, pr) = Unit {0}
  Written (failed, c, pr) = Unit {0}
  Written (too_large, c, pr) = Unit {0}
  Written (complete, c, none) = ⊥
  Written (complete, c, some pr) = 1 ≤ c.consumed

  -- llhttp ends no message before its first byte.
  unfoldable pub Advances : Type 0
  Advances = (p : P) (b : ℕ) (bytes : Bytes) → 1 ≤ lib.message_end p (b ∷ bytes)

  consumed_pos : (err : Errno) (at len : ℕ) → 1 ≤ at → 1 ≤ len → 1 ≤ consumed_by err at len
  unfolding consumed_by
  consumed_pos paused at len h k = h
  consumed_pos ok at len h k = k
  consumed_pos error at len h k = k

  finished-Written : (n : ℕ) (c : Ctx P) → 1 ≤ n → Written (finished lib grows n c)
  unfolding finished ended Written
  finished-Written n c h = if_elim Written (c.url_null && not (grows 1)) (λ _. tt) (λ _. h)

  outcome-Written :
      (p : P) (b : ℕ) (bytes : Bytes) (r : Errno × Ctx P)
      → Advances
      → Written (outcome lib grows p (b ∷ bytes) r)
  unfolding outcome ended Written Advances
  outcome-Written p b bytes (err, c) adv =
      if_elim Written c.is_too_large (λ _. tt)
        (λ _.
          if_elim Written (is_error err && not c.is_complete) (λ _. tt)
            (λ _.
              if_elim Written c.is_complete
                (λ _. finished-Written _ c (
                  consumed_pos err (lib.message_end p (b ∷ bytes)) (length (b ∷ bytes))
                    (adv p b bytes) (omega arith)))
                (λ _. tt)))

  execute-Written :
      (c : Ctx P) (b : ℕ) (bytes : Bytes) (r : P × List Call × Errno)
      → Advances
      → Written (execute_with lib grows c (b ∷ bytes) r)
  unfolding execute_with
  execute-Written c b bytes (p, xs, err) adv =
      outcome-Written c.parser b bytes (stopped_by err (calls grows xs (record c { parser = p })))
        adv

  from-Written :
      (c : Ctx P) (b : ℕ) (bytes : Bytes) (st : Status)
      → Advances
      → st ≡ incomplete
      → Written (feed_from lib grows c (b ∷ bytes) st)
  unfolding feed_from
  from-Written c b bytes incomplete adv h =
      execute-Written c b bytes (lib.execute c.parser (b ∷ bytes)) adv
  from-Written c b bytes complete adv h = absurd (ground arith)
  from-Written c b bytes failed adv h = absurd (ground arith)
  from-Written c b bytes too_large adv h = absurd (ground arith)

  pub feed-Written :
      (c : Ctx P) (b : ℕ) (bytes : Bytes)
      → Advances
      → c.last_status ≡ incomplete
      → Written (http_parser_feed lib grows c (b ∷ bytes))
  unfolding http_parser_feed
  feed-Written c b bytes adv h = from-Written c b bytes c.last_status adv h
