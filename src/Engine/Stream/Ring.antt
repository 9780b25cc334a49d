-- ===== src/Engine/Stream/Ring.antt =====
-- Reading and writing slots of the ring behind a stream.
use mlxd.Base.{
  ℕ, zero, suc, ◌+◌, ◌%◌, ◌<◌, ◌≡◌, ◌≢◌, refl, sym, ap, ◌∙◌, List, [], ◌∷◌, ◌++◌, length, get_or,
  set, arith, mod_small, mod_once, get_or-set_self, get_or-set_ne, dec_lt,
}
use native.Mathlib.Nat.{add-zero}
use mlxd.Engine.Stream.{Chunk, blank, slice}

-- The slot after the next `n`, seen from the slot after `r`.
pub step_mod : (cap r n : ℕ) → r < cap → n < cap → ((r + 1) % cap + n) % cap ≡ (r + suc n) % cap
step_mod cap r n hr hn = elim (dec_lt (r + 1) cap) [
  | yes p ↦ rw (mod_small p) (ap (λ (t : ℕ). t % cap) (omega arith))
  | no p ↦
      let e : r + 1 ≡ cap = omega arith in
      let a : (r + 1) % cap ≡ 0 =
        mod_once {a = r + 1} {m = cap} (omega arith) (omega arith) ∙ omega arith in
      let b : (r + suc n) % cap ≡ n =
        mod_once {a = r + suc n} {m = cap} (omega arith) (omega arith) ∙ omega arith in
      rw (a, b) (ap (λ (t : ℕ). t % cap) (omega arith) ∙ mod_small hn)
]

pub mod_ne : (cap r n : ℕ) → r < cap → suc n < cap → (r + suc n) % cap ≢ r
mod_ne cap r n hr hn e = elim (dec_lt (r + suc n) cap) [
  | yes p ↦ omega (arith, mod_small p)
  | no p ↦ omega (arith, mod_once {a = r + suc n} {m = cap} (omega arith) (omega arith))
]

pub next-lt : (cap r : ℕ) → r < cap → (r + 1) % cap < cap
next-lt cap r h = omega arith

-- A write behind the slice leaves it alone.
pub slice-set_outside :
    (cap n r m : ℕ) (buf : List Chunk) (c : Chunk)
    → r < cap
    → n + m < cap
    → slice cap n r (set buf ((r + (n + m)) % cap) c) ≡ slice cap n r buf
unfolding slice
slice-set_outside cap zero r m buf c hr h = refl
slice-set_outside cap (suc n) r m buf c hr h =
    let e : (r + (suc n + m)) % cap ≡ (r + suc (n + m)) % cap =
      ap (λ (t : ℕ). t % cap) (omega arith) in
    rw e (
      rw
        (get_or-set_ne buf ((r + suc (n + m)) % cap) r c blank
          (mod_ne cap r (n + m) hr (omega arith)))
        (ap (λ t. get_or buf r blank ∷ t)
          (rw (← step_mod cap r (n + m) hr (omega arith))
            (slice-set_outside cap n ((r + 1) % cap) m buf c (next-lt cap r hr) (omega arith)))))

pub slice-snoc :
    (cap n r : ℕ) (buf : List Chunk)
    → r < cap
    → n < cap
    → slice cap (suc n) r buf ≡ slice cap n r buf ++ get_or buf ((r + n) % cap) blank ∷ []
unfolding slice
slice-snoc cap zero r buf hr h =
    let e : (r + 0) % cap ≡ r = ap (λ (t : ℕ). t % cap) (add-zero r) ∙ mod_small hr in rw e
slice-snoc cap (suc n) r buf hr h =
    ap (λ t. get_or buf r blank ∷ t)
      (rw (← step_mod cap r n hr (omega arith))
        (slice-snoc cap n ((r + 1) % cap) buf (next-lt cap r hr) (omega arith)))

-- A write just behind the slice makes it one longer.
pub slice-set_end :
    (cap n r : ℕ) (buf : List Chunk) (c : Chunk)
    → r < cap
    → n < cap
    → length buf ≡ cap
    → slice cap (suc n) r (set buf ((r + n) % cap) c) ≡ slice cap n r buf ++ c ∷ []
slice-set_end cap n r buf c hr h e = rw (slice-snoc cap n r (set buf ((r + n) % cap) c) hr h) (
    rw (get_or-set_self buf ((r + n) % cap) c blank (omega arith)) (
      ap (λ t. t ++ c ∷ [])
        (let e' : (r + n) % cap ≡ (r + (n + 0)) % cap =
            ap (λ (t : ℕ). (r + t) % cap) (sym (add-zero n)) in
          rw e' (slice-set_outside cap n r 0 buf c hr (omega arith)))))

pub length-slice : (cap n r : ℕ) (buf : List Chunk) → length (slice cap n r buf) ≡ n
unfolding slice
length-slice cap zero r buf = refl
length-slice cap (suc n) r buf = ap suc (length-slice cap n ((r + 1) % cap) buf)
