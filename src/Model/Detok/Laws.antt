-- ===== src/Model/Detok/Laws.antt =====
-- The detokenizer loses and invents no byte.
use mlxd.Base.{
  ℕ, ◌+◌, ◌≡◌, refl, sym, ap, ◌∙◌, Bool, true, false, Option, none, some, List, [], ◌∷◌, ◌++◌,
  length, length-append, length-drop, ltb, if_elim, arith, Bytes, take-append-drop, take_all,
  le-new_cap,
}
use mathlib.Core.List.{append_assoc, append-nil}
use mathlib.Core.Path.{subst}
use mlxd.Model.Detok.{
  Detok, append_text, emit, detok_feed, detok_flush, utf8_complete_prefix, IsFitting,
}

-- The detokenizer with `s` behind its bytes, if there is one.
Appends : Detok → Bytes → Option Detok → Type 0
Appends d s none = Unit {0}
Appends d s (some d') = (d'.buf ≡ d.buf ++ s) × (IsFitting d → IsFitting d')

append_text-Appends : (grow : Bool) (d : Detok) (s : Bytes) → Appends d s (append_text grow d s)
unfolding append_text Appends IsFitting
append_text-Appends grow d [] = (sym (append-nil d.buf), λ h. h)
append_text-Appends grow d (b ∷ s) =
    if_elim (Appends d (b ∷ s)) (ltb 0 (length (b ∷ s)))
      (λ _.
        if_elim (Appends d (b ∷ s)) (ltb d.cap (length d.buf + length (b ∷ s)))
          (λ _.
            if_elim (Appends d (b ∷ s)) grow
              (λ _. (
                refl,
                λ _. omega (
                  arith,
                  length-append d.buf (b ∷ s),
                  le-new_cap d.cap (length d.buf + length (b ∷ s)),
                ),
              ))
              (λ _. tt))
          (λ small. (refl, λ _. ground (arith, length-append d.buf (b ∷ s)))))
      (λ empty. absurd (ground arith))

-- What is put out and what is kept make up the bytes that were there and `s`.
Splits : Detok → Bytes → Option Bytes × Detok → Type 0
Splits d s (none, d') = Unit {0}
Splits d s (some out, d') = (out ++ d'.buf ≡ d.buf ++ s) × (IsFitting d → IsFitting d')

emit-Splits :
    (alloc : Bool) (n : ℕ) (d d' : Detok) (s : Bytes)
    → Appends d s (some d')
    → Splits d s (emit alloc d' n)
unfolding emit Splits Appends IsFitting
emit-Splits false n d d' s h = tt
emit-Splits true n d d' s (e, fits) =
    (take-append-drop n d'.buf ∙ e, λ h. omega (arith, fits h, length-drop n d'.buf))

fed : Bool → Detok → Option Detok → Option Bytes × Detok
fed alloc d none = (none, d)
fed alloc d (some d') = emit alloc d' (utf8_complete_prefix d'.buf)

fed-Splits :
    (alloc : Bool) (d : Detok) (s : Bytes) (o : Option Detok)
    → Appends d s o
    → Splits d s (fed alloc d o)
unfolding Splits fed
fed-Splits alloc d s none h = tt
fed-Splits alloc d s (some d') h = emit-Splits alloc (utf8_complete_prefix d'.buf) d d' s h

feed-Splits :
    (grow alloc : Bool) (d : Detok) (s : Bytes) → Splits d s (detok_feed (some s) grow alloc d)
unfolding detok_feed fed
feed-Splits grow alloc d s =
    fed-Splits alloc d s (append_text grow d s) (append_text-Appends grow d s)

-- A call: the text of the token and the outcomes of the two allocations.
pub record Feed : Type 0 where
  pub text : Bytes
  pub grow : Bool
  pub alloc : Bool

abbrev pub texts : List Feed → Bytes
texts [] = []
texts (f ∷ fs) = f.text ++ texts fs

-- The bytes that a first call and the others put out; nothing if one of them fails.
unfoldable pub then_out : Option Bytes → Option Bytes → Option Bytes
then_out none r = none
then_out (some out) none = none
then_out (some out) (some outs) = some (out ++ outs)

-- The calls of `detok_feed` for `fs` and a last `detok_flush`.
unfoldable pub feed_all : Detok → List Feed → Bool → Option Bytes
unfolding then_out
feed_all d [] alloc = (detok_flush alloc d).0
feed_all d (f ∷ fs) alloc =
    let (out, d') = detok_feed (some f.text) f.grow f.alloc d in then_out out (feed_all d' fs alloc)

-- `o` is either nothing or `t`.
Emits : Bytes → Option Bytes → Type 0
Emits t none = Unit {0}
Emits t (some out) = out ≡ t

flush-Emits : (alloc : Bool) (d : Detok) → Emits (d.buf ++ []) (detok_flush alloc d).0
unfolding detok_flush emit Emits
flush-Emits false d = tt
flush-Emits true d = take_all d.buf ∙ sym (append-nil d.buf)

then-Emits :
    (d : Detok) (s t : Bytes) (r : Option Bytes × Detok) (rest : Option Bytes)
    → Splits d s r
    → Emits (r.1.buf ++ t) rest
    → Emits (d.buf ++ (s ++ t)) (then_out r.0 rest)
unfolding Splits Emits then_out
then-Emits d s t (none, d') rest h k = tt
then-Emits d s t (some out, d') none h k = tt
then-Emits d s t (some out, d') (some outs) (e, _) k =
    ap (λ x. out ++ x) k
    ∙ sym (append_assoc out d'.buf t)
    ∙ ap (λ x. x ++ t) e
    ∙ append_assoc d.buf s t

feed_all-Emits :
    (d : Detok) (fs : List Feed) (alloc : Bool) → Emits (d.buf ++ texts fs) (feed_all d fs alloc)
unfolding feed_all
feed_all-Emits d [] alloc = flush-Emits alloc d
feed_all-Emits d (f ∷ fs) alloc =
    let r = detok_feed (some f.text) f.grow f.alloc d in
    then-Emits d f.text (texts fs) r (feed_all r.1 fs alloc) (feed-Splits f.grow f.alloc d f.text)
      (feed_all-Emits r.1 fs alloc)

-- Whatever the buffer holds, if no call fails then the feeds and the flush together put out the bytes
-- that the buffer held and the texts of the tokens, in order.
pub feed_all_conserves :
    (d : Detok) (fs : List Feed) (alloc : Bool) (out : Bytes)
    → feed_all d fs alloc ≡ some out
    → out ≡ d.buf ++ texts fs
unfolding Emits
feed_all_conserves d fs alloc out h =
    subst (Emits (d.buf ++ texts fs)) h (feed_all-Emits d fs alloc)
