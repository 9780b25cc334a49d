-- ===== src/Http/Response/Framing.antt =====
-- A client finds the body of a response behind its head.
use mathlib.Core.List.{append_assoc}
use mathlib.Core.Path.{subst}
use mlxd.Base.{
  ℕ, ◌≤◌, ◌≡◌, refl, sym, ap, ◌∙◌, Bool, true, false, ◌&&◌, ◌||◌, Bool-cases, inl, inr, Option,
  none, some, List, [], ◌∷◌, ◌++◌, length, drop, leb, ◌==◌, if_elim, if◌then◌else◌, arith, Bytes,
  codes,
}
use mlxd.Http.Response.{
  http_status_reason, no_breaks, line, conn_value, status_line, head_lines, head_text,
  http_build_response,
}

-- A client that reads up to the first empty line; `fresh` at the start of a line.
at_break : Bool → ℕ → Bytes → Bool
at_break false c ds = false
at_break true c [] = false
at_break true c (d ∷ ds) = c == 13 && d == 10

pub body_of : Bool → Bytes → Option Bytes
unfolding at_break
body_of fresh [] = none
body_of fresh (c ∷ cs) =
    let rest = body_of (c == 10) cs in if at_break fresh c cs then some (drop 1 cs) else rest

at_break_other :
    (fresh : Bool) (c : ℕ) (ds : Bytes) → (c == 13) ≡ false → at_break fresh c ds ≡ false
unfolding at_break
at_break_other false c ds h = refl
at_break_other true c [] h = refl
at_break_other true c (d ∷ ds) h = rw h refl

body-next :
    (fresh : Bool) (c : ℕ) (cs : Bytes)
    → (c == 13) ≡ false
    → (c == 10) ≡ false
    → body_of fresh (c ∷ cs) ≡ body_of false cs
unfolding body_of
body-next fresh c cs h k = rw (at_break_other fresh c cs h, k) refl

no_break_head :
    (c : ℕ) (cs : Bytes)
    → no_breaks (c ∷ cs) ≡ true
    → ((c == 13) ≡ false) × ((c == 10) ≡ false) × (no_breaks cs ≡ true)
unfolding no_breaks
no_break_head c cs h = elim (Bool-cases (c == 13 || c == 10)) [
  | inl e ↦ let q : no_breaks (c ∷ cs) ≡ false = rw e refl in cc (sym h ∙ q)
  | inr e ↦
      let q : no_breaks (c ∷ cs) ≡ no_breaks cs = rw e refl in
      (ground (arith, e), ground (arith, e), sym q ∙ h)
]

-- The end of a line without breaks leads to the next.
over_rest :
    (text rest : Bytes)
    → no_breaks text ≡ true
    → body_of false (text ++ (13 ∷ 10 ∷ rest)) ≡ body_of true rest
over_rest [] rest h = unfold body_of at_break in refl
over_rest (c ∷ cs) rest h =
    let (a, b, k) = no_break_head c cs h in
    body-next false c (cs ++ (13 ∷ 10 ∷ rest)) a b ∙ over_rest cs rest k

-- The lines of a head: not empty, and without breaks.
Lines : List Bytes → Type 0
Lines [] = Unit {0}
Lines (l ∷ ls) = (1 ≤ length l) × (no_breaks l ≡ true) × Lines ls

over_line :
    (text rest : Bytes)
    → 1 ≤ length text
    → no_breaks text ≡ true
    → body_of true (line text ++ rest) ≡ body_of true rest
unfolding line
over_line [] rest le h = absurd (omega arith)
over_line (c ∷ cs) rest le h =
    let (a, b, k) = no_break_head c cs h in
    body-next true c ((cs ++ (13 ∷ 10 ∷ [])) ++ rest) a b
    ∙ ap (body_of false) (append_assoc cs (13 ∷ 10 ∷ []) rest)
    ∙ over_rest cs rest k

over_head :
    (ls : List Bytes) (body : Bytes) → Lines ls → body_of true (head_text ls ++ body) ≡ some body
unfolding head_text Lines
over_head [] body h = unfold body_of at_break line in refl
over_head (l ∷ ls) body (some_char, no_break, h) =
    ap (body_of true) (append_assoc (line l) (head_text ls) body)
    ∙ over_line l (head_text ls ++ body) some_char no_break
    ∙ over_head ls body h

append-no_breaks :
    (x y : Bytes) → no_breaks x ≡ true → no_breaks y ≡ true → no_breaks (x ++ y) ≡ true
unfolding no_breaks
append-no_breaks [] y h k = k
append-no_breaks (c ∷ cs) y h k =
    let (a, b, rest) = no_break_head c cs h in
    let ih = append-no_breaks cs y rest k in ground (arith, ih)

reason_lem : (status : ℕ) → no_breaks (http_status_reason status) ≡ true
unfolding http_status_reason no_breaks
reason_lem status =
    let P : Bytes → Type 0 = λ r. no_breaks r ≡ true in
    if_elim P (status == 200) (λ _. refl)
      (λ _.
        if_elim P (status == 204) (λ _. refl)
          (λ _.
            if_elim P (status == 400) (λ _. refl)
              (λ _.
                if_elim P (status == 404) (λ _. refl)
                  (λ _.
                    if_elim P (status == 405) (λ _. refl)
                      (λ _.
                        if_elim P (status == 413) (λ _. refl)
                          (λ _.
                            if_elim P (status == 500) (λ _. refl)
                              (λ _.
                                if_elim P (status == 501) (λ _. refl)
                                  (λ _. if_elim P (status == 503) (λ _. refl) (λ _. refl)))))))))

head-Lines :
    (print : ℕ → Bytes) (status : ℕ) (content_type : Bytes) (n : ℕ) (keep_alive : Bool)
    → ((k : ℕ) → no_breaks (print k) ≡ true)
    → no_breaks content_type ≡ true
    → Lines (head_lines print status content_type n keep_alive)
unfolding head_lines Lines status_line conn_value no_breaks
head-Lines print status content_type n keep_alive plain h =
    let reason =
      append-no_breaks (print status) (codes " " ++ http_status_reason status) (plain status)
        (reason_lem status) in
    let conn : no_breaks (conn_value keep_alive) ≡ true =
      if_elim (λ (v : Bytes). no_breaks v ≡ true) keep_alive (λ _. refl) (λ _. refl) in
    (
      omega arith,
      reason,
      (omega arith, h, (omega arith, plain n, (omega arith, refl, (omega arith, conn, tt)))),
    )

-- What is built frames its body.
Frames : Bytes → Bytes → Option Bytes → Type 0
Frames content_type body none = Unit {0}
Frames content_type body (some wire) =
    (body_of true wire ≡ some body) × (no_breaks content_type ≡ true)

build-Frames :
    (print : ℕ → Bytes) (alloc : Bool) (status : ℕ) (content_type body : Bytes) (keep_alive : Bool)
    → ((k : ℕ) → no_breaks (print k) ≡ true)
    → Frames content_type body
        (http_build_response print alloc status (some content_type) body keep_alive)
unfolding http_build_response Frames
build-Frames print alloc status content_type body keep_alive plain =
    let F = Frames content_type body in
    let ls = head_lines print status content_type (length body) keep_alive in
    if_elim F (no_breaks content_type)
      (λ h.
        if_elim F (leb 512 (length (head_text ls))) (λ _. tt)
          (λ _.
            if_elim F alloc
              (λ _. (
                over_head ls body
                    (head-Lines print status content_type (length body) keep_alive plain h),
                h,
              ))
              (λ _. tt)))
      (λ _. tt)

-- If decimals are printed without line breaks: where a response is built, its content type has no line
-- break, and a client that reads up to the first empty line finds behind it the body, whatever that
-- holds.
pub body_of-response :
    (print : ℕ → Bytes) (alloc : Bool) (status : ℕ) (content_type body wire : Bytes)
    (keep_alive : Bool)
    → ((k : ℕ) → no_breaks (print k) ≡ true)
    → http_build_response print alloc status (some content_type) body keep_alive ≡ some wire
    → (body_of true wire ≡ some body) × (no_breaks content_type ≡ true)
body_of-response print alloc status content_type body wire keep_alive plain e =
    unfold Frames in
    subst (Frames content_type body) e
      (build-Frames print alloc status content_type body keep_alive plain)
