-- ===== src/Http/Sse/RoundTrip.antt =====
-- An event that is formatted is read back by a client.
use mlxd.Base.{
  ℕ, zero, suc, ◌≤◌, ◌≡◌, refl, ap, ◌∙◌, Bool, true, Bool-cases, inl, inr, Option, none, some, [],
  ◌∷◌, ◌++◌, length, ◌==◌, if◌then◌else◌, if_elim, arith, Bytes,
}
use mathlib.Core.List.{append_assoc}
use mlxd.Http.Sse.{segment, behind, data_prefix, after_line, write_lines, sse_format}

-- What the loop writes behind the first prefix, byte by byte.
unfoldable pub body : Bytes → Bytes
unfolding data_prefix
body [] = 10 ∷ 10 ∷ []
body (c ∷ cs) = if c == 10 then 10 ∷ (data_prefix ++ body cs) else c ∷ body cs

-- One line and those behind it, with enough rounds.
line-body :
    (fuel : ℕ) (p : Bytes)
    → length p ≤ fuel
    → segment p ++ (10 ∷ after_line (write_lines fuel) (behind p)) ≡ body p
unfolding segment behind after_line body write_lines
line-body fuel [] h = refl
line-body zero (c ∷ cs) h = absurd (omega arith)
line-body (suc fuel) (c ∷ cs) h = elim (Bool-cases (c == 10)) [
  | inl newline ↦ rw newline (ap (λ t. 10 ∷ (data_prefix ++ t)) (line-body fuel cs (omega arith)))
  | inr other ↦ rw other (ap (λ t. c ∷ t) (line-body (suc fuel) cs (omega arith)))
]

pub write_lines-body :
    (fuel : ℕ) (p : Bytes) → length p ≤ fuel → write_lines (suc fuel) p ≡ data_prefix ++ body p
unfolding write_lines
write_lines-body fuel p h = ap (λ t. data_prefix ++ t) (line-body fuel p h)

pub format-body : (p : Bytes) → sse_format true p ≡ some (data_prefix ++ body p)
unfolding sse_format body
format-body [] = refl
format-body (c ∷ cs) =
    if_elim (λ (o : Option Bytes). o ≡ some (data_prefix ++ body (c ∷ cs))) (length (c ∷ cs) == 0)
      (λ h. absurd (ground arith))
      (λ _. ap some (write_lines-body (length (c ∷ cs)) (c ∷ cs) (omega arith)))

-- A client: each line of an event begins with `data: `, the lines are joined by newlines, and an empty
-- line ends the event. The mode says how many bytes of a prefix are still to come; none in
-- the text of a line.
is_at : ℕ → ℕ → Bool
is_at left c =
    if left == 6
    then c == 100
    else if left == 5
    then c == 97
    else if left == 4
    then c == 116
    else if left == 3
    then c == 97
    else if left == 2
    then c == 58
    else c == 32

pub data Mode : Type 0 where
  prefix : ℕ → Mode
  after_newline : Mode

-- The text of the event that `bs` begins with in a mode, and what follows the event.
with_byte : ℕ → Option (Bytes × Bytes) → Option (Bytes × Bytes)
with_byte c none = none
with_byte c (some (t, rest)) = some (c ∷ t, rest)

pub read_event : Mode → Bytes → Option (Bytes × Bytes)
unfolding is_at with_byte
read_event (prefix n) [] = none
read_event after_newline [] = none
read_event (prefix zero) (c ∷ cs) =
    let newline = read_event after_newline cs in
    let other = read_event (prefix zero) cs in if c == 10 then newline else with_byte c other
read_event (prefix (suc n)) (c ∷ cs) =
    let rest = read_event (prefix n) cs in if is_at (suc n) c then rest else none
read_event after_newline (c ∷ cs) =
    let more = read_event (prefix 5) cs in
    if c == 10 then some ([], cs) else if is_at 6 c then with_byte 10 more else none

-- The prefix is skipped, at the start and behind a newline.
read-prefix : (bs : Bytes) → read_event (prefix 6) (data_prefix ++ bs) ≡ read_event (prefix 0) bs
unfolding read_event data_prefix
read-prefix bs = refl

read-newline :
    (bs : Bytes)
    → read_event after_newline (data_prefix ++ bs) ≡ with_byte 10 (read_event (prefix 0) bs)
unfolding read_event data_prefix
read-newline bs = refl

event-body : (p rest : Bytes) → read_event (prefix 0) (body p ++ rest) ≡ some (p, rest)
unfolding read_event body
event-body [] rest = refl
event-body (c ∷ cs) rest = elim (Bool-cases (c == 10)) [
  | inl newline ↦
      let e : c ≡ 10 = ground arith in
      rw newline (
        ap (λ bs. read_event after_newline bs) (append_assoc data_prefix (body cs) rest)
        ∙ read-newline (body cs ++ rest)
        ∙ ap (with_byte 10) (event-body cs rest)
        ∙ rw e)
  | inr other ↦ rw other (rw other (ap (with_byte c) (event-body cs rest)))
]

-- Whatever the text, a formatted event that is followed by other bytes is read back by a client: the text
-- joined from its lines, and the bytes behind it.
pub read_event-sse_format :
    (p rest wire : Bytes)
    → sse_format true p ≡ some wire
    → read_event (prefix 6) (wire ++ rest) ≡ some (p, rest)
read_event-sse_format p rest wire h =
    let e : wire ≡ data_prefix ++ body p = cc (format-body p) in
    rw e (
      ap (λ bs. read_event (prefix 6) bs) (append_assoc data_prefix (body p) rest)
      ∙ read-prefix (body p ++ rest)
      ∙ event-body p rest)
