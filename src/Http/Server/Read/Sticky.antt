-- ===== src/Http/Server/Read/Sticky.antt =====
-- What a read on a connection may dereference.
use mlxd.Base.{
  ℕ, zero, suc, ◌≤◌, ◌<◌, ◌≡◌, refl, sym, ap, false, not, Option, none, some, List, [], ◌∷◌, ◌++◌,
  length, get_elem?, drop, get_elem?-set_found, length-drop, ◌==◌, if_elim, arith, Bytes, bytes_eq,
  codes,
}
use mathlib.Core.Path.{subst}
use mlxd.Http.Parser.{
  Ctx, Status, incomplete, complete, failed, too_large, Parsed, http_parser_feed, http_parser_reset,
}
use mlxd.Http.Parser.Feeds.{feed-complete, Written, Advances, feed-Written}
use mlxd.Http.Router.{http_router_match}
use mlxd.Http.Server.{Conn, Server, Out, put, preflight}
use mlxd.Http.Server.Read.{
  Env, dispatch, Read, null_method, finished, ahead, finish, write_error, reads_on, reset_at,
  send_or_close, routed, by_status, after_dispatch, round, round_at, read_loop, is_owned, on_read,
}

-- A parser that has completed a request and was not reset, on a connection that is open and read.
pub record IsStale {P : Type 0} (c : Conn P) : Type 0 where
  pub still_open : c.closing ≡ false
  pub not_owned : c.gen_owned ≡ false
  pub status : c.parser.last_status ≡ complete

module _ {P H : Type 0} (env : Env P H) where
  round_at-stale :
      (again : Bytes → Server P → Read env) (s : Server P) (i : ℕ) (c : Conn P) (b : ℕ)
      (bytes : Bytes)
      → IsStale c
      → round_at env again s i (some c) (b ∷ bytes) ≡ null_method
  unfolding round_at round by_status after_dispatch dispatch
  round_at-stale again s i c b bytes h =
      if_elim (λ (r : Read env). r ≡ null_method) c.closing
        (λ e. absurd (ground (arith, h.still_open)))
        (λ _.
          ap
            (λ (r : Status × Ctx P × Option Parsed).
              by_status env (again (drop r.1.consumed (b ∷ bytes)))
                (put s i (record c { parser = r.1 })) i r.0 r.2)
            (feed-complete env.lib env.grows c.parser (b ∷ bytes) h.status))

  owned-stale : (c : Conn P) → IsStale c → is_owned env (some c) ≡ false
  unfolding is_owned
  owned-stale c h = h.not_owned

  -- On an open connection that no deferred request owns, and whose parser has completed a request and
  -- was not reset, a read of any bytes takes the method of a request that was not written.
  pub stale_read :
      (s : Server P) (i : ℕ) (c : Conn P) (b : ℕ) (bytes : Bytes)
      → get_elem? s.conns i ≡ some c
      → IsStale c
      → on_read env s i (some (b ∷ bytes)) ≡ null_method
  unfolding on_read read_loop
  stale_read s i c b bytes e h =
      let at : (o : Option (Conn P)) → o ≡ some c → is_owned env o ≡ false =
        λ o x. subst (λ y. is_owned env y ≡ false) (sym x) (owned-stale c h) in
      if_elim (λ (r : Read env). r ≡ null_method) (length (b ∷ bytes) == 0)
        (λ x. absurd (ground arith))
        (λ _.
          if_elim (λ (r : Read env). r ≡ null_method) (is_owned env (get_elem? s.conns i))
            (λ x. absurd (ground (arith, at (get_elem? s.conns i) e)))
            (λ _.
              subst
                (λ o.
                  round_at env (read_loop env (length (b ∷ bytes)) i) s i o (b ∷ bytes)
                  ≡ null_method)
                (sym e) (round_at-stale (read_loop env (length (b ∷ bytes)) i) s i c b bytes h)))

  -- The read has an end.
  Ended : Read env → Type 0
  Ended r = (s : Server P) × (o : List Out) × (r ≡ finished s o)

  -- A connection whose parser is in the middle of a request, or at its start.
  Fresh : Option (Conn P) → Type 0
  Fresh none = Unit {0}
  Fresh (some c) = c.parser.last_status ≡ incomplete

  reset-Fresh :
      (s : Server P) (i : ℕ) (o : Option (Conn P))
      → get_elem? s.conns i ≡ o
      → Fresh (get_elem? (reset_at env s i o).conns i)
  unfolding reset_at put
  reset-Fresh s i none e = subst Fresh (sym e) (unfold Fresh in tt)
  reset-Fresh s i (some c) e =
      subst Fresh (sym (get_elem?-set_found s.conns i c _ e))
        (unfold Fresh http_parser_reset in refl)

  ahead-Ended : (o : List Out) (r : Read env) → Ended r → Ended (ahead env o r)
  unfolding Ended ahead
  ahead-Ended o r (s, o', e) = (s, o ++ o', ap (ahead env o) e)

  finish-Ended : (r : Server P × List Out) → Ended (finish env r)
  unfolding Ended finish
  finish-Ended (s, o) = (s, o, refl)

  after-Ended :
      (again : Server P → Read env) (i : ℕ) (pr : Option Parsed) (s : Server P) (o : List Out)
      → ((s' : Server P) → Fresh (get_elem? s'.conns i) → Ended (again s'))
      → Ended (after_dispatch env again i pr (some (s, o)))
  unfolding after_dispatch
  after-Ended again i pr s o k =
      let c = get_elem? s.conns i in
      if_elim Ended (reads_on env pr c)
        (λ _.
          ahead-Ended o (again (reset_at env s i c))
            (k (reset_at env s i c) (reset-Fresh s i c refl)))
        (λ _. unfold Ended in (s, o, refl))

  dispatch-some :
      (s : Server P) (i : ℕ) (pr : Parsed)
      → (r : Server P × List Out) × (dispatch env s i (some pr) ≡ some r)
  unfolding dispatch
  dispatch-some s i pr =
      if_elim (λ (o : Option (Server P × List Out)). (r : Server P × List Out) × (o ≡ some r))
        (bytes_eq pr.method (codes "OPTIONS"))
        (λ _. (send_or_close env s i preflight (not pr.keep_alive), refl))
        (λ _. (routed env s i pr (http_router_match env.router pr.method pr.path), refl))

  status-Ended :
      (again : Server P → Read env) (s : Server P) (i : ℕ) (r : Status × Ctx P × Option Parsed)
      → Written env.lib env.grows r
      → (1 ≤ r.1.consumed → (s' : Server P) → Fresh (get_elem? s'.conns i) → Ended (again s'))
      → Ended (by_status env again s i r.0 r.2)
  unfolding by_status Written
  status-Ended again s i (incomplete, c, pr) w k = unfold Ended in (s, [], refl)
  status-Ended again s i (failed, c, pr) w k = finish-Ended (write_error env s i 400 false)
  status-Ended again s i (too_large, c, pr) w k = finish-Ended (write_error env s i 413 false)
  status-Ended again s i (complete, c, none) w k = absurd w
  status-Ended again s i (complete, c, some pr) w k =
      let (r, e) = dispatch-some s i pr in
      subst (λ o. Ended (after_dispatch env again i (some pr) o)) (sym e)
        (after-Ended again i (some pr) r.0 r.1 (k w))

  at-Ended :
      (again : Bytes → Server P → Read env) (i : ℕ) (bytes : Bytes) (s : Server P)
      (o : Option (Conn P))
      → Advances env.lib env.grows
      → Fresh o
      → ((rest : Bytes) (s' : Server P)
          → length rest < length bytes
          → Fresh (get_elem? s'.conns i)
          → Ended (again rest s'))
      → Ended (round_at env again s i o bytes)
  unfolding round_at round Fresh
  at-Ended again i bytes s none adv h k = unfold Ended in (s, [], refl)
  at-Ended again i [] s (some c) adv h k = unfold Ended in (s, [], refl)
  at-Ended again i (b ∷ bytes) s (some c) adv h k =
      let r = http_parser_feed env.lib env.grows c.parser (b ∷ bytes) in
      if_elim Ended c.closing (λ _. unfold Ended in (s, [], refl))
        (λ _.
          status-Ended (again (drop r.1.consumed (b ∷ bytes))) (put s i (record c { parser = r.1 }))
            i r (feed-Written env.lib env.grows c.parser b bytes adv h)
            (λ w s'.
              k (drop r.1.consumed (b ∷ bytes)) s'
                (omega (arith, length-drop r.1.consumed (b ∷ bytes)))))

  loop-Ended :
      (fuel i : ℕ) (bytes : Bytes) (s : Server P)
      → Advances env.lib env.grows
      → length bytes < fuel
      → Fresh (get_elem? s.conns i)
      → Ended (read_loop env fuel i bytes s)
  unfolding read_loop
  loop-Ended zero i bytes s adv lt h = absurd (omega arith)
  loop-Ended (suc fuel) i bytes s adv lt h =
      at-Ended (read_loop env fuel i) i bytes s (get_elem? s.conns i) adv h
        (λ rest s' l. loop-Ended fuel i rest s' adv (omega arith))

  -- If llhttp ends no message before its first byte, then a read on a connection whose parser has not
  -- completed a request comes to an end: the loop takes no more rounds than there are bytes and one,
  -- and dispatches only requests that were written.
  pub read_returns :
      (s : Server P) (i : ℕ) (c : Conn P) (bytes : Bytes)
      → ((p : P) (b : ℕ) (bs : Bytes) → 1 ≤ env.lib.message_end p (b ∷ bs))
      → get_elem? s.conns i ≡ some c
      → c.parser.last_status ≡ incomplete
      → (s' : Server P) × (o : List Out) × (on_read env s i (some bytes) ≡ finished s' o)
  unfolding on_read Ended Advances
  read_returns s i c bytes adv e h =
      if_elim Ended (length bytes == 0) (λ _. (s, [], refl))
        (λ _.
          if_elim Ended (is_owned env (get_elem? s.conns i)) (λ _. (s, [], refl))
            (λ _.
              loop-Ended (suc (length bytes)) i bytes s adv (omega arith)
                (subst Fresh (sym e) (unfold Fresh in h))))
