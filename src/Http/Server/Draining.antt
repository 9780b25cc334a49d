-- ===== src/Http/Server/Draining.antt =====
-- The drain counter is the number of open connections, and the timer is stopped with the last of them.
pub mod Stopping
use mlxd.Base.{
  ℕ, zero, suc, ◌+◌, ◌-◌, ◌≤◌, ◌≡◌, refl, sym, ap, ◌∙◌, Bool, true, false, not, ◌&&◌, ◌||◌,
  Bool-cases, inl, inr, Option, none, some, List, [], ◌∷◌, ◌++◌, length, get_elem?, set, ltb, ◌==◌,
  if_elim, if◌then◌else◌, arith, Bytes,
}
use mathlib.Core.Path.{subst}
use mlxd.Http.Parser.{Llhttp, http_parser_create}
use mlxd.Http.Server.{
  Conn, Server, Out, Wire, drain_check, put, close_open, close_at, close_conn, is_closing,
  queue_write, on_write, observe_at, http_conn_set_observer, on_new_connection, drained_conn,
  walk_drain, on_stop_async, force_close, on_drain_timeout, gone_event,
}

-- Before the stop the timer is not running; after it the timer runs as long as there are open
-- connections, and counts them.
unfoldable pub Counts : Bool → Bool → ℕ → ℕ → Type 0
Counts false false n k = Unit {0}
Counts false true n k = ⊥
Counts true true n k = (n ≡ k) × (1 ≤ k)
Counts true false n k = k ≡ 0

pub before_stop : (d t : Bool) (n k k' : ℕ) → d ≡ false → Counts d t n k → Counts d t n k'
unfolding Counts
before_stop false false n k k' e h = tt
before_stop false true n k k' e h = h
before_stop true t n k k' e h = absurd (ground arith)

-- `drain_check` after one of `suc k` open connections has closed.
checked : Bool → Bool → ℕ → Bool × ℕ
checked d t n = if not d || not t then (t, n) else if n == 1 then (false, 0) else (t, n - 1)

checked-Counts :
    (d t : Bool) (n k : ℕ) → Counts d t n (suc k) → Counts d (checked d t n).0 (checked d t n).1 k
unfolding checked Counts
checked-Counts false false n k h = tt
checked-Counts false true n k h = h
checked-Counts true false n k h = absurd (omega arith)
checked-Counts true true n k (h, _) =
    if_elim (λ (r : Bool × ℕ). Counts true r.0 r.1 k) (n == 1) (λ e. ground arith)
      (λ e. (ground arith, ground arith))

pub Counts-eq :
    {d d' t t' : Bool} {n n' k k' : ℕ}
    → d ≡ d'
    → t ≡ t'
    → n ≡ n'
    → k ≡ k'
    → Counts d t n k
    → Counts d' t' n' k'
Counts-eq p q r e h = subst (λ x. x) (λ i. Counts (p i) (q i) (r i) (e i)) h

module _ {P : Type 0} where
  pub open_one : Conn P → ℕ
  open_one c = if c.closing then 0 else 1

  -- The connections that are open.
  pub open_conns : List (Conn P) → ℕ
  unfolding open_one
  open_conns [] = 0
  open_conns (c ∷ cs) = open_one c + open_conns cs

  abbrev pub IsSound : Server P → Type 0
  IsSound s = Counts s.draining s.drain_timer_active s.drain_open_conns (open_conns s.conns)

  check-fields :
      (s : Server P)
      → let r = (drain_check s).0 in
        let c = checked s.draining s.drain_timer_active s.drain_open_conns in
        (r.draining ≡ s.draining)
        × (r.drain_timer_active ≡ c.0)
        × (r.drain_open_conns ≡ c.1)
        × (r.conns ≡ s.conns)
  unfolding drain_check checked
  check-fields s =
      let Q : Server P × List Out → Bool × ℕ → Type 0 = λ r c.
        (r.0.draining ≡ s.draining)
        × (r.0.drain_timer_active ≡ c.0)
        × (r.0.drain_open_conns ≡ c.1)
        × (r.0.conns ≡ s.conns) in
      elim (Bool-cases (not s.draining || not s.drain_timer_active)) [
        | inl off ↦ rw off (refl, refl, refl, refl)
        | inr on ↦ elim (Bool-cases (s.drain_open_conns == 1)) [
          | inl last ↦ rw (on, last) (refl, refl, refl, refl)
          | inr more ↦ rw (on, more) (refl, refl, refl, refl)
        ]
      ]

  -- One of the connections of a sound server has closed.
  check-IsSound :
      (s : Server P)
      → Counts s.draining s.drain_timer_active s.drain_open_conns (suc (open_conns s.conns))
      → IsSound (drain_check s).0
  check-IsSound s h =
      let (d, t, n, c) = check-fields s in
      Counts-eq (sym d) (sym t) (sym n) (ap open_conns (sym c))
        (checked-Counts s.draining s.drain_timer_active s.drain_open_conns (open_conns s.conns) h)

  -- A connection that is replaced by one that is open or not as it was, and by one that is closed.
  open_conns-set_same :
      (cs : List (Conn P)) (i : ℕ) (c c' : Conn P)
      → get_elem? cs i ≡ some c
      → c'.closing ≡ c.closing
      → open_conns (set cs i c') ≡ open_conns cs
  unfolding open_conns
  open_conns-set_same [] i c c' e h = refl
  open_conns-set_same (x ∷ cs) zero c c' e h =
      let q : x.closing ≡ c.closing = ap (λ o. elim o [ none ↦ false | some y ↦ y.closing ]) e in
      ap (λ b. (if b then 0 else 1) + open_conns cs) (h ∙ sym q)
  open_conns-set_same (x ∷ cs) (suc i) c c' e h =
      ap (λ n. open_one x + n) (open_conns-set_same cs i c c' e h)

  open_conns-set_closed :
      (cs : List (Conn P)) (i : ℕ) (c c' : Conn P)
      → get_elem? cs i ≡ some c
      → c.closing ≡ false
      → c'.closing ≡ true
      → suc (open_conns (set cs i c')) ≡ open_conns cs
  unfolding open_conns
  open_conns-set_closed [] i c c' e h k = absurd (ground arith)
  open_conns-set_closed (x ∷ cs) zero c c' e h k =
      let q : x.closing ≡ c.closing = ap (λ o. elim o [ none ↦ false | some y ↦ y.closing ]) e in
      let a : open_one x ≡ 1 = ap (λ b. if b then 0 else 1) (q ∙ h) in
      let b : open_one c' ≡ 0 = ap (λ b. if b then 0 else 1) k in omega (arith, a, b)
  open_conns-set_closed (x ∷ cs) (suc i) c c' e h k =
      omega (arith, open_conns-set_closed cs i c c' e h k)

  pub put-IsSound :
      (s : Server P) (i : ℕ) (c c' : Conn P)
      → get_elem? s.conns i ≡ some c
      → c'.closing ≡ c.closing
      → IsSound s
      → IsSound (put s i c')
  unfolding put
  put-IsSound s i c c' e h v =
      Counts-eq refl refl refl (sym (open_conns-set_same s.conns i c c' e h)) v

  close_at-IsSound :
      (s : Server P) (i : ℕ) (o : Option (Conn P))
      → get_elem? s.conns i ≡ o
      → IsSound s
      → IsSound (close_at s i o).0
  unfolding close_at close_open put
  close_at-IsSound s i none e v = v
  close_at-IsSound s i (some c) e v =
      if_elim (λ (r : Server P × List Out). IsSound r.0) c.closing (λ _. v)
        (λ h. check-IsSound (put s i (record c { closing = true; on_gone = none })) (
          Counts-eq refl refl refl
            (sym (
              open_conns-set_closed s.conns i c (record c { closing = true; on_gone = none }) e h
                refl))
            v))

  pub close_conn-IsSound : (s : Server P) (i : ℕ) → IsSound s → IsSound (close_conn s i).0
  unfolding close_conn
  close_conn-IsSound s i v = close_at-IsSound s i (get_elem? s.conns i) refl v

  pub queue_write-IsSound :
      (sent : Bool) (s : Server P) (i : ℕ) (w : Wire) (close_after : Bool)
      → IsSound s
      → IsSound (queue_write sent s i w close_after).0
  unfolding queue_write
  queue_write-IsSound sent s i w close_after v =
      let Q : Server P × List Out → Type 0 = λ r. IsSound r.0 in
      if_elim Q (is_closing (get_elem? s.conns i)) (λ _. v)
        (λ _. if_elim Q sent (λ _. v) (λ _. close_conn-IsSound s i v))

  pub on_write-IsSound :
      (s : Server P) (i : ℕ) (close_after ok : Bool)
      → IsSound s
      → IsSound (on_write s i close_after ok).0
  unfolding on_write
  on_write-IsSound s i close_after ok v =
      if_elim (λ (r : Server P × List Out). IsSound r.0) (close_after || not ok)
        (λ _. close_conn-IsSound s i v) (λ _. v)

  pub observe-IsSound :
      (s : Server P) (i : ℕ) (ctx : Option ℕ) → IsSound s → IsSound (http_conn_set_observer s i ctx)
  unfolding http_conn_set_observer observe_at
  observe-IsSound s i ctx v = at (get_elem? s.conns i) refl
    where
      at : (o : Option (Conn P)) → get_elem? s.conns i ≡ o → IsSound (observe_at s i ctx o)
      at none e = v
      at (some c) e = put-IsSound s i c (record c { on_gone = ctx }) e refl v
