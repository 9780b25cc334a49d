-- ===== src/Http/Server/Draining/Stopping.antt =====
-- The graceful stop and its deadline.
use mlxd.Base.{
  ℕ, zero, suc, ◌+◌, ◌≡◌, refl, sym, ap, ◌∙◌, Bool, true, false, not, ◌||◌, Bool-cases, inl, inr,
  Option, none, some, List, [], ◌∷◌, length, length-set, take, take_all, get_elem?, set, ltb,
  if_elim, if◌then◌else◌, arith,
}
use mathlib.Core.Path.{subst}
use mlxd.Http.Server.{
  Conn, Server, Out, drain_check, put, close_open, close_at, close_conn, drained_conn, walk_drain,
  on_stop_async, force_close, on_drain_timeout,
}
use mlxd.Http.Server.Draining.{open_one, open_conns, Counts, Counts-eq, IsSound}

not_draining : (d t : Bool) (n k : ℕ) → d ≡ false → Counts d t n k → t ≡ false
unfolding Counts
not_draining false false n k e h = refl
not_draining false true n k e h = absurd h
not_draining true t n k e h = absurd (ground arith)

timed : (d t : Bool) (n k : ℕ) → t ≡ true → Counts d t n k → d ≡ true
unfolding Counts
timed true t n k e h = refl
timed false false n k e h = absurd (ground arith)
timed false true n k e h = absurd h

stopped-Counts :
    (n k : ℕ) (t : Bool)
    → t ≡ false
    → Counts true (if ltb 0 n then true else t) (if ltb 0 n then n else k) n
unfolding Counts
stopped-Counts n k t h = elim (Bool-cases (ltb 0 n)) [
  | inl some_owned ↦ rw some_owned (refl, ground arith)
  | inr none_owned ↦ rw (none_owned, h) (ground arith)
]

module _ {P : Type 0} where
  drained-open : (i : ℕ) (c : Conn P) → open_one (drained_conn i c).1 ≡ (drained_conn i c).0
  unfolding drained_conn open_one
  drained-open i c =
      let Q : ℕ × Conn P × List Out → Type 0 = λ r. (if r.1.closing then 0 else 1) ≡ r.0 in
      if_elim Q c.closing (λ h. ap (λ b. if b then 0 else 1) h)
        (λ h. if_elim Q c.gen_owned (λ _. ap (λ b. if b then 0 else 1) h) (λ _. refl))

  -- The walk leaves as many open connections as it has counted.
  walk-open : (i : ℕ) (cs : List (Conn P)) → open_conns (walk_drain i cs).1 ≡ (walk_drain i cs).0
  unfolding walk_drain open_conns
  walk-open i [] = refl
  walk-open i (c ∷ cs) = omega (arith, drained-open i c, walk-open (suc i) cs)

  pub on_stop-IsSound : (s : Server P) → IsSound s → IsSound (on_stop_async s).0
  unfolding on_stop_async
  on_stop-IsSound s v =
      let (n, cs, o) = walk_drain 0 s.conns in
      if_elim (λ (r : Server P × List Out). IsSound r.0) s.draining (λ _. v)
        (λ d. Counts-eq refl refl refl (sym (walk-open 0 s.conns)) (
          stopped-Counts n s.drain_open_conns s.drain_timer_active
            (not_draining s.draining s.drain_timer_active _ _ d v)))

  check_off : (s : Server P) → s.drain_timer_active ≡ false → drain_check s ≡ (s, [])
  unfolding drain_check
  check_off s h =
      if_elim (λ (r : Server P × List Out). r ≡ (s, []))
        (not s.draining || not s.drain_timer_active) (λ _. refl) (λ e. absurd (ground (arith, h)))

  -- The open connections among the first `i`.
  below : ℕ → List (Conn P) → ℕ
  below i cs = open_conns (take i cs)

  below-none : (i : ℕ) (cs : List (Conn P)) → get_elem? cs i ≡ none → below (suc i) cs ≡ below i cs
  unfolding below open_conns
  below-none zero [] h = refl
  below-none (suc i) [] h = refl
  below-none zero (c ∷ cs) h = absurd (ground arith)
  below-none (suc i) (c ∷ cs) h = ap (λ n. open_one c + n) (below-none i cs h)

  below-closing :
      (i : ℕ) (cs : List (Conn P)) (c : Conn P)
      → get_elem? cs i ≡ some c
      → c.closing ≡ true
      → below (suc i) cs ≡ below i cs
  unfolding below open_conns open_one
  below-closing zero [] c h k = absurd (ground arith)
  below-closing (suc i) [] c h k = absurd (ground arith)
  below-closing zero (x ∷ cs) c h k =
      let q : x.closing ≡ c.closing = ap (λ o. elim o [ none ↦ false | some y ↦ y.closing ]) h in
      let a : open_one x ≡ 0 = ap (λ b. if b then 0 else 1) (q ∙ k) in omega (arith, a)
  below-closing (suc i) (x ∷ cs) c h k = ap (λ n. open_one x + n) (below-closing i cs c h k)

  below-set :
      (i : ℕ) (cs : List (Conn P)) (c c' : Conn P)
      → get_elem? cs i ≡ some c
      → c'.closing ≡ true
      → below (suc i) (set cs i c') ≡ below i cs
  unfolding below open_conns open_one
  below-set zero [] c c' h k = absurd (ground arith)
  below-set (suc i) [] c c' h k = absurd (ground arith)
  below-set zero (x ∷ cs) c c' h k =
      let a : open_one c' ≡ 0 = ap (λ b. if b then 0 else 1) k in omega (arith, a)
  below-set (suc i) (x ∷ cs) c c' h k = ap (λ n. open_one x + n) (below-set i cs c c' h k)

  -- With the timer off, closing the `i`-th connection does that and no more.
  record Shuts (i : ℕ) (s r : Server P) : Type 0 where
    pub draining : r.draining ≡ s.draining
    pub timer : r.drain_timer_active ≡ false
    pub size : length r.conns ≡ length s.conns
    pub opens : below (suc i) r.conns ≡ below i s.conns

  close_at-Shuts :
      (s : Server P) (i : ℕ) (o : Option (Conn P))
      → get_elem? s.conns i ≡ o
      → s.drain_timer_active ≡ false
      → Shuts i s (close_at s i o).0
  unfolding close_at close_open put
  close_at-Shuts s i none e h = record {
    draining = refl;
    timer = h;
    size = refl;
    opens = below-none i s.conns e;
  }
  close_at-Shuts s i (some c) e h =
      if_elim (λ (r : Server P × List Out). Shuts i s r.0) c.closing
        (λ k. record {
          draining = refl;
          timer = h;
          size = refl;
          opens = below-closing i s.conns c e k;
        })
        (λ _.
          let s' = put s i (record c { closing = true; on_gone = none }) in
          subst (λ (r : Server P × List Out). Shuts i s r.0) (sym (check_off s' h))
            (record {
              draining = refl;
              timer = h;
              size = length-set s.conns i (record c { closing = true; on_gone = none });
              opens = below-set i s.conns c (record c { closing = true; on_gone = none }) e refl;
            }))

  close_conn-Shuts :
      (s : Server P) (i : ℕ) → s.drain_timer_active ≡ false → Shuts i s (close_conn s i).0
  unfolding close_conn
  close_conn-Shuts s i h = close_at-Shuts s i (get_elem? s.conns i) refl h

  record ShutsAll (n i : ℕ) (s r : Server P) : Type 0 where
    pub draining : r.draining ≡ s.draining
    pub timer : r.drain_timer_active ≡ false
    pub size : length r.conns ≡ length s.conns
    pub opens : below (n + i) r.conns ≡ below i s.conns

  force_close-ShutsAll :
      (n i : ℕ) (s : Server P) → s.drain_timer_active ≡ false → ShutsAll n i s (force_close n i s).0
  unfolding force_close
  force_close-ShutsAll zero i s h = record {
    draining = refl;
    timer = h;
    size = refl;
    opens = ap (λ k. below k s.conns) (omega arith);
  }
  force_close-ShutsAll (suc n) i s h =
      let r = (close_conn s i).0 in
      let a = close_conn-Shuts s i h in
      let b = force_close-ShutsAll n (suc i) r a.timer in
      record {
        draining = b.draining ∙ a.draining;
        timer = b.timer;
        size = b.size ∙ a.size;
        opens =
            ap (λ k. below k (force_close n (suc i) r).0.conns) (omega arith) ∙ b.opens ∙ a.opens;
      }

  below-all : (cs : List (Conn P)) → below (length cs + 0) cs ≡ open_conns cs
  unfolding below
  below-all cs = ap (λ k. open_conns (take k cs)) (omega arith) ∙ ap open_conns (take_all cs)

  -- The deadline closes what is open.
  pub on_timeout-IsSound :
      (s : Server P)
      → s.drain_timer_active ≡ true
      → IsSound s
      → IsSound (on_drain_timeout s).0 × (open_conns (on_drain_timeout s).0.conns ≡ 0)
  unfolding on_drain_timeout
  on_timeout-IsSound s h v =
      let s' = record s { drain_timer_active = false } in
      let a = force_close-ShutsAll (length s.conns) 0 s' refl in
      let r = (force_close (length s.conns) 0 s').0 in
      let e : open_conns r.conns ≡ 0 =
        sym (below-all r.conns)
        ∙ ap (λ k. below (k + 0) r.conns) a.size
        ∙ a.opens
        ∙ (unfold below open_conns in refl) in
      (
        Counts-eq (sym (a.draining ∙ timed _ _ _ _ h v)) (sym a.timer) refl (sym e)
            (unfold Counts in refl),
        e,
      )
