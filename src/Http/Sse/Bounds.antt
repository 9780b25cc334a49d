-- ===== src/Http/Sse/Bounds.antt =====
-- The buffer of `sse_format` is large enough.
use mlxd.Base.{
  ◌+◌, ◌*◌, ◌≤◌, ◌≡◌, refl, true, some, [], ◌∷◌, ◌++◌, length, length-append, ◌==◌, if_elim, arith,
  Bytes,
}
use mlxd.Http.Sse.{data_prefix, count_lines, sse_format, allocated}
use mlxd.Http.Sse.RoundTrip.{body, format-body}

length-prefix : length data_prefix ≡ 6
unfolding data_prefix
length-prefix = refl

-- A newline in the text costs a prefix more; the text ends with two newlines.
length-body : (p : Bytes) → length (body p) + 4 ≡ length p + 6 * count_lines p
unfolding body count_lines
length-body [] = refl
length-body (c ∷ cs) =
    if_elim (λ (b : Bytes). length b + 4 ≡ length (c ∷ cs) + 6 * count_lines (c ∷ cs)) (c == 10)
      (λ h. ground (arith, length-body cs, length-append data_prefix (body cs), length-prefix))
      (λ h. ground (arith, length-body cs))

lines_pos : (p : Bytes) → 1 ≤ count_lines p
unfolding count_lines
lines_pos [] = omega arith
lines_pos (c ∷ cs) = ground (arith, lines_pos cs)

-- What is written for a text, with its terminating NUL, fits the buffer that is allocated for it.
pub sse_format_fits :
    (p wire : Bytes) → sse_format true p ≡ some wire → length wire + 1 ≤ allocated p
unfolding allocated
sse_format_fits p wire h =
    let e : wire ≡ data_prefix ++ body p = cc (format-body p) in
    rw e
      (omega (arith, length-append data_prefix (body p), length-prefix, length-body p, lines_pos p))
