-- ===== src/Registry/Discover/Latest.antt =====
-- The snapshot that is chosen.
use mathlib.Core.Path.{subst}
use mlxd.Base.{
  ℕ, zero, suc, ◌≤◌, ◌≡◌, ◌⊎◌, refl, sym, ap, ◌∙◌, true, Bool-cases, inl, inr, Option, none, some,
  List, [], ◌∷◌, get_elem?, ltb, if_elim, arith,
}
use mlxd.Registry.Discover.{Snapshot, better, usable, find_latest, reg_find_latest_snapshot}

-- The choice is at least as late as `n`.
pub AtLeast : ℕ → Option (Snapshot × ℕ) → Type 0
AtLeast n none = ⊥
AtLeast n (some (s, m)) = n ≤ m

better-keeps :
    (n : ℕ) (s : Snapshot) (st : Option ℕ) (best : Option (Snapshot × ℕ))
    → AtLeast n best
    → AtLeast n (better s st best)
unfolding better AtLeast
better-keeps n s none best h = h
better-keeps n s (some t) none h = absurd h
better-keeps n s (some t) (some (b, m)) h =
    if_elim (AtLeast n) (ltb m t) (λ lt. ground arith) (λ _. h)

better-takes :
    (n : ℕ) (s : Snapshot) (st : Option ℕ) (best : Option (Snapshot × ℕ))
    → st ≡ some n
    → AtLeast n (better s st best)
unfolding better AtLeast
better-takes n s none best h = cc
better-takes n s (some t) none h = let e : t ≡ n = cc in omega arith
better-takes n s (some t) (some (b, m)) h =
    let e : t ≡ n = cc in if_elim (AtLeast n) (ltb m t) (λ lt. omega arith) (λ ge. ground arith)

latest-keeps :
    (n : ℕ) (ss : List Snapshot) (best : Option (Snapshot × ℕ))
    → AtLeast n best
    → AtLeast n (find_latest ss best)
unfolding find_latest
latest-keeps n [] best h = h
latest-keeps n (s ∷ ss) best h =
    if_elim (AtLeast n) (usable s)
      (λ _. latest-keeps n ss (better s s.stat best) (better-keeps n s s.stat best h))
      (λ _. latest-keeps n ss best h)

latest-takes :
    (n i : ℕ) (t : Snapshot) (ss : List Snapshot) (best : Option (Snapshot × ℕ))
    → get_elem? ss i ≡ some t
    → usable t ≡ true
    → t.stat ≡ some n
    → AtLeast n (find_latest ss best)
unfolding find_latest
latest-takes n i t [] best at u e = cc
latest-takes n zero t (s ∷ ss) best at u e =
    let q : s ≡ t = cc in
    let us : usable s ≡ true = ap usable q ∙ u in
    let es : s.stat ≡ some n = ap (λ (x : Snapshot). x.stat) q ∙ e in
    rw us (latest-keeps n ss (better s s.stat best) (better-takes n s s.stat best es))
latest-takes n (suc i) t (s ∷ ss) best at u e =
    if_elim (AtLeast n) (usable s) (λ _. latest-takes n i t ss (better s s.stat best) at u e)
      (λ _. latest-takes n i t ss best at u e)

-- A choice is one of the usable snapshots, with its time.
pub Chosen : List Snapshot → Snapshot × ℕ → Type 0
Chosen ss (s, m) = (i : ℕ) × (get_elem? ss i ≡ some s) × (usable s ≡ true) × (s.stat ≡ some m)

From : List Snapshot → Option (Snapshot × ℕ) → Option (Snapshot × ℕ) → Type 0
From ss best none = Unit {0}
From ss best (some c) = (best ≡ some c) ⊎ Chosen ss c

later-From :
    (s : Snapshot) (ss : List Snapshot) (best r : Option (Snapshot × ℕ))
    → From ss best r
    → From (s ∷ ss) best r
unfolding From Chosen
later-From s ss best none h = h
later-From s ss best (some (t, m)) (inl e) = inl e
later-From s ss best (some (t, m)) (inr (i, at, u, e)) = inr (suc i, at, u, e)

head-Chosen :
    (s : Snapshot) (ss : List Snapshot) (m : ℕ) (c : Snapshot × ℕ)
    → usable s ≡ true
    → s.stat ≡ some m
    → some (s, m) ≡ some c
    → Chosen (s ∷ ss) c
head-Chosen s ss m c u e q =
    let p : (s, m) ≡ c = cc in subst (Chosen (s ∷ ss)) p (unfold Chosen in (0, refl, u, e))

-- The head of the list may have become the best.
head-From :
    (s : Snapshot) (ss : List Snapshot) (st : Option ℕ) (best r : Option (Snapshot × ℕ))
    → usable s ≡ true
    → s.stat ≡ st
    → From (s ∷ ss) (better s st best) r
    → From (s ∷ ss) best r
unfolding From better
head-From s ss st best none u e h = tt
head-From s ss none best (some c) u e h = h
head-From s ss (some m) none (some c) u e (inl q) = inr (head-Chosen s ss m c u e q)
head-From s ss (some m) none (some c) u e (inr h) = inr h
head-From s ss (some m) (some (b, k)) (some c) u e (inr h) = inr h
head-From s ss (some m) (some (b, k)) (some c) u e (inl q) = elim (Bool-cases (ltb k m)) [
  | inl lt ↦
      let taken : better s (some m) (some (b, k)) ≡ some (s, m) = rw lt refl in
      inr (head-Chosen s ss m c u e (sym taken ∙ q))
  | inr ge ↦
      let kept : better s (some m) (some (b, k)) ≡ some (b, k) = rw ge refl in inl (sym kept ∙ q)
]

latest-From :
    (ss : List Snapshot) (best : Option (Snapshot × ℕ)) → From ss best (find_latest ss best)
unfolding find_latest
latest-From [] best = none_new best
  where
    none_new : (best : Option (Snapshot × ℕ)) → From [] best best
    none_new none = unfold From in tt
    none_new (some c) = unfold From in inl refl
latest-From (s ∷ ss) best =
    if_elim (From (s ∷ ss) best) (usable s)
      (λ u.
        head-From s ss s.stat best _ u refl
          (later-From s ss (better s s.stat best) _ (latest-From ss (better s s.stat best))))
      (λ _. later-From s ss best _ (latest-From ss best))

started : (ss : List Snapshot) (c : Snapshot × ℕ) → From ss none (some c) → Chosen ss c
unfolding From
started ss c (inl q) = cc q
started ss c (inr h) = h

-- The snapshot that is chosen in a directory is one of the usable ones, with its time, and if any
-- usable snapshot has a time, then one is chosen whose time is not earlier.
pub latest_lem :
    (ss : List Snapshot)
    → ((c : Snapshot × ℕ) → reg_find_latest_snapshot ss ≡ some c → Chosen ss c)
      × ((i n : ℕ) (t : Snapshot)
          → get_elem? ss i ≡ some t
          → usable t ≡ true
          → t.stat ≡ some n
          → AtLeast n (reg_find_latest_snapshot ss))
unfolding reg_find_latest_snapshot
latest_lem ss = (
  λ c e. started ss c (subst (From ss none) e (latest-From ss none)),
  λ i n t at u e. latest-takes n i t ss none at u e,
)
