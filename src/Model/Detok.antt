-- ===== src/Model/Detok.antt =====
-- model/detok.c: token by token text, cut at character boundaries.
pub mod Laws
use mlxd.Base.{
  ℕ, zero, suc, ◌+◌, ◌≤◌, Bool, true, false, Option, none, some, [], ◌∷◌, ◌++◌, length, take, drop,
  ltb, if◌then◌else◌, Bytes, new_cap,
}

-- `struct detok`; the bytes behind `len` are not kept.
pub record Detok : Type 0 where
  pub buf : Bytes
  pub cap : ℕ

-- `utf8_char_len`, the masks as ranges of the lead byte.
pub utf8_char_len : ℕ → ℕ
utf8_char_len lead =
    if ltb lead 128
    then 1
    else if ltb lead 192
    then 1
    else if ltb lead 224
    then 2
    else if ltb lead 240
    then 3
    else if ltb lead 248
    then 4
    else 1

-- `utf8_complete_prefix`: the loop from `i` on, where the rest of the buffer is `bs`. `fuel` is the
-- number of rounds, of which each takes at least a byte.
prefix_from : ℕ → ℕ → Bytes → ℕ
unfolding utf8_char_len
prefix_from zero i bs = i
prefix_from (suc fuel) i [] = i
prefix_from (suc fuel) i (b ∷ bs) =
    let cl : ℕ = utf8_char_len b in
    let rest : ℕ = prefix_from fuel (i + cl) (drop cl (b ∷ bs)) in
    if ltb (length (b ∷ bs)) cl then i else rest

pub utf8_complete_prefix : Bytes → ℕ
unfolding prefix_from
utf8_complete_prefix buf = prefix_from (length buf) 0 buf

-- `emit`: what is put out, or none where its allocation fails, and what is left.
unfoldable pub emit : Bool → Detok → ℕ → Option Bytes × Detok
emit false d boundary = (none, d)
emit true d boundary = (some (take boundary d.buf), record d { buf = drop boundary d.buf })

-- The part of `detok_feed` that appends; none where the buffer cannot grow.
append_text : Bool → Detok → Bytes → Option Detok
append_text grow d s =
    if ltb 0 (length s)
    then if ltb d.cap (length d.buf + length s)
      then if grow
        then some (record { buf = d.buf ++ s; cap = new_cap d.cap (length d.buf + length s) })
        else none
      else some (record d { buf = d.buf ++ s })
    else some d

-- `detok_feed` with what `tokenizer_decode` gives, and the outcomes of `realloc` and `malloc`.
unfoldable pub detok_feed : Option Bytes → Bool → Bool → Detok → Option Bytes × Detok
unfolding append_text emit utf8_complete_prefix
detok_feed none grow alloc d = (none, d)
detok_feed (some s) grow alloc d = elim (append_text grow d s) [
  | none ↦ (none, d)
  | some d' ↦ emit alloc d' (utf8_complete_prefix d'.buf)
]

-- `detok_flush`
unfoldable pub detok_flush : Bool → Detok → Option Bytes × Detok
unfolding emit
detok_flush alloc d = emit alloc d (length d.buf)

-- `detok_create`: nothing for a missing or a WordPiece tokenizer.
pub detok_create : Bool → Bool → Bool → Option Detok
detok_create tokenizer wordpiece alloc =
    if tokenizer
    then if wordpiece then none else if alloc then some (record { buf = []; cap = 0 }) else none
    else none

-- The bytes fit the buffer.
pub IsFitting : Detok → Type 0
IsFitting d = length d.buf ≤ d.cap
