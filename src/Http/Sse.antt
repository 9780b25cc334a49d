-- ===== src/Http/Sse.antt =====
-- http/sse.c, server-sent events.
pub mod RoundTrip
pub mod Bounds
use mlxd.Base.{
  ℕ, zero, suc, ◌+◌, ◌*◌, Bool, true, false, Option, none, some, List, [], ◌∷◌, ◌++◌, length, ◌==◌,
  if◌then◌else◌, Bytes, codes,
}

-- `memchr(p, '\n', …)`: the segment before the newline, and what is behind it if there is one.
pub segment : Bytes → Bytes
segment [] = []
segment (c ∷ cs) = if c == 10 then [] else c ∷ segment cs

pub behind : Bytes → Option Bytes
behind [] = none
behind (c ∷ cs) = if c == 10 then some cs else behind cs

-- The count of lines.
pub count_lines : Bytes → ℕ
count_lines [] = 1
count_lines (c ∷ cs) = let n = count_lines cs in if c == 10 then suc n else n

pub data_prefix : Bytes
data_prefix = codes "data: "

-- What is written behind a line, where `again` writes the lines that follow.
pub after_line : (Bytes → Bytes) → Option Bytes → Bytes
after_line again none = 10 ∷ []
after_line again (some rest) = again rest

-- The loop, from the segment at `p` on; `fuel` bounds the segments.
pub write_lines : ℕ → Bytes → Bytes
unfolding segment behind data_prefix after_line
write_lines zero p = []
write_lines (suc fuel) p =
    data_prefix ++ (segment p ++ (10 ∷ after_line (write_lines fuel) (behind p)))

-- `sse_format`, with the outcome of `malloc`; the terminating NUL is left out. A line takes a round,
-- and there are no more lines than bytes and one.
unfoldable pub sse_format : Bool → Bytes → Option Bytes
unfolding write_lines
sse_format alloc data_bytes =
    if alloc
    then if length data_bytes == 0
      then some (codes "data: \n\n")
      else some (write_lines (suc (length data_bytes)) data_bytes)
    else none

-- The bytes that are allocated for a text that is not empty.
pub allocated : Bytes → ℕ
unfolding count_lines
allocated data_bytes = count_lines data_bytes * 7 + length data_bytes + 2

-- `sse_done`
pub sse_done : Bytes
sse_done = codes "data: [DONE]\n\n"
