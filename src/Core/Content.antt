-- ===== src/Core/Content.antt =====
-- core/types.c, the names of roles and the text of a message's content.
use mlxd.Base.{
  ℕ, ◌+◌, ◌≡◌, sym, ap, ◌∙◌, Bool, true, false, Bool-cases, inl, inr, Option, none, some, List, [],
  ◌∷◌, ◌++◌, length, length-append, if◌then◌else◌, arith, Bytes, bytes_eq, codes,
}
use mathlib.Core.List.{append_assoc, append-nil}

-- `role_t`
data Role : Type 0 where
  system user assistant tool : Role

-- `role_str`
role_str : Role → Bytes
role_str system = codes "system"
role_str user = codes "user"
role_str assistant = codes "assistant"
role_str tool = codes "tool"

-- `content_part_t`, as far as its text goes; a NULL pointer is none.
pub record Part : Type 0 where
  pub kind : Option Bytes
  pub text : Option Bytes

-- `message_content_t`
pub data Content : Type 0 where
  nothing : Content
  string : Option Bytes → Content
  parts : List Part → Content

is_text_with : Option Bytes → Option Bytes → Bool
unfolding bytes_eq
is_text_with none t = false
is_text_with (some k) none = false
is_text_with (some k) (some t) = bytes_eq k (codes "text")

-- `content_part_is_text`
pub content_part_is_text : Part → Bool
unfolding is_text_with
content_part_is_text p = is_text_with p.kind p.text

text_or_empty : Option Bytes → Bytes
text_or_empty none = []
text_or_empty (some t) = t

-- The loop that counts bytes, from `total` on.
count_text : List Part → ℕ → ℕ
unfolding content_part_is_text text_or_empty
count_text [] total = total
count_text (p ∷ ps) total =
    if content_part_is_text p
    then count_text ps (total + length (text_or_empty p.text))
    else count_text ps total

-- The loop that copies, behind what is written.
copy_text : List Part → Bytes → Bytes
unfolding content_part_is_text text_or_empty
copy_text [] out = out
copy_text (p ∷ ps) out =
    if content_part_is_text p then copy_text ps (out ++ text_or_empty p.text) else copy_text ps out

-- The bytes that are allocated for parts.
pub text_bytes : List Part → ℕ
unfolding count_text
text_bytes ps = count_text ps 0 + 1

-- `message_content_text`, with the outcome of its allocation
unfoldable pub message_content_text : Bool → Content → Option Bytes
unfolding copy_text
message_content_text alloc nothing = none
message_content_text alloc (string none) = none
message_content_text alloc (string (some s)) = if alloc then some s else none
message_content_text alloc (parts ps) = if alloc then some (copy_text ps []) else none

-- The texts of the parts that are texts, joined.
pub joined : List Part → Bytes
unfolding text_or_empty
joined [] = []
joined (p ∷ ps) = (if content_part_is_text p then text_or_empty p.text else []) ++ joined ps

copy-joined : (ps : List Part) (out : Bytes) → copy_text ps out ≡ out ++ joined ps
unfolding copy_text joined
copy-joined [] out = sym (append-nil out)
copy-joined (p ∷ ps) out = elim (Bool-cases (content_part_is_text p)) [
  | inl e ↦ rw e (
      copy-joined ps (out ++ text_or_empty p.text)
      ∙ append_assoc out (text_or_empty p.text) (joined ps))
  | inr e ↦ rw e (copy-joined ps out)
]

count-joined : (ps : List Part) (total : ℕ) → count_text ps total ≡ total + length (joined ps)
unfolding count_text joined
count-joined [] total = omega arith
count-joined (p ∷ ps) total = elim (Bool-cases (content_part_is_text p)) [
  | inl e ↦ rw e (
      omega (
        arith,
        count-joined ps (total + length (text_or_empty p.text)),
        length-append (text_or_empty p.text) (joined ps),
      ))
  | inr e ↦ rw e (count-joined ps total)
]

-- Where the text of parts is made, it is the joined text of those that are texts, and with its NUL it
-- takes exactly the bytes that are allocated.
pub message_content_text_lem :
    (ps : List Part) (text : Bytes)
    → message_content_text true (parts ps) ≡ some text
    → (text ≡ joined ps) × (length text + 1 ≡ text_bytes ps)
unfolding text_bytes message_content_text
message_content_text_lem ps text e =
    let copied : copy_text ps [] ≡ text = cc e in
    let same : text ≡ joined ps = sym copied ∙ copy-joined ps [] in
    (same, omega (arith, ap length same, count-joined ps 0))
