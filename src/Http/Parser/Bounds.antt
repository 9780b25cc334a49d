-- ===== src/Http/Parser/Bounds.antt =====
-- The buffers of a parser stay within their limits, with a byte to spare for the terminating NUL.
use mlxd.Base.{
  ℕ, ◌+◌, ◌≤◌, ◌<◌, ◌≡◌, refl, Bool, not, ◌&&◌, Option, none, some, List, [], ◌∷◌, length,
  length-append, ltb, ◌==◌, if_elim, if◌then◌else◌, arith, ap, ◌∙◌, Bytes, le-new_cap,
}
use Prim.Native.Nat.{max}
use mathlib.Core.Path.{subst}
use mlxd.Http.Parser.{
  Status, incomplete, complete, failed, too_large, Call, url, headers_complete, body,
  message_complete, Errno, paused, error, Llhttp, Parsed, Ctx, Called, goes_on, stops, pauses,
  append, max_url, url_stored, body_stored, on_url, on_body, on_headers_complete,
  on_message_complete, call_one, after_call, calls, http_parser_create, http_parser_reset, ended,
  finished, stopped_by, outcome, execute_with, feed_from, http_parser_feed, is_error,
}

-- What happens to a parser: bytes with the outcomes of allocations, or a reset.
pub data Op : Type 0 where
  feed : (ℕ → Bool) → Bytes → Op
  reset : Op

Stored : ℕ → Bytes → Option (Bytes × ℕ) → Type 0
Stored n s none = Unit {0}
Stored n s (some (buf, cap)) = (length buf ≡ n + length s) × (length buf < max 1 cap)

append-Stored :
    (grow : Bool) (buf : Bytes) (cap : ℕ) (s : Bytes)
    → Stored (length buf) s (append grow buf cap s)
unfolding append Stored
append-Stored grow buf cap s =
    let need : ℕ = length buf + length s + 1 in
    let l = length-append buf s in
    if_elim (Stored (length buf) s) (ltb cap need)
      (λ _.
        if_elim (Stored (length buf) s) grow (λ _. (l, omega (arith, l, le-new_cap cap need)))
          (λ _. tt))
      (λ h. (l, ground (arith, l)))

module _ {P : Type 0} where
  -- The target and the body are within their limits, and a NUL fits behind what a buffer holds, unless
  -- the buffer is NULL and nothing is held.
  pub record IsBounded (c : Ctx P) : Type 0 where
    pub url_limit : length c.url_buf ≤ max_url
    pub body_limit : length c.body_buf ≤ c.max_body
    pub url_fits : length c.url_buf < max 1 c.url_cap
    pub body_fits : length c.body_buf < max 1 c.body_cap

  -- The context that a callback leaves is bounded, with the same limit.
  Kept : ℕ → Called P → Type 0
  Kept n (goes_on c) = IsBounded c × (c.max_body ≡ n)
  Kept n (stops c) = IsBounded c × (c.max_body ≡ n)
  Kept n (pauses c) = IsBounded c × (c.max_body ≡ n)

  url-Kept :
      (c : Ctx P) (s : Bytes) (o : Option (Bytes × ℕ))
      → IsBounded c
      → length c.url_buf + length s ≤ max_url
      → Stored (length c.url_buf) s o
      → Kept c.max_body (url_stored c o)
  unfolding Stored Kept url_stored
  url-Kept c s none b h st = (b, refl)
  url-Kept c s (some (buf, cap)) b h (l, f) = (
    record {
      url_limit = omega (arith, l, h);
      body_limit = b.body_limit;
      url_fits = f;
      body_fits = b.body_fits;
    },
    refl,
  )

  body-Kept :
      (c : Ctx P) (s : Bytes) (o : Option (Bytes × ℕ))
      → IsBounded c
      → length c.body_buf + length s ≤ c.max_body
      → Stored (length c.body_buf) s o
      → Kept c.max_body (body_stored c o)
  unfolding Stored Kept body_stored
  body-Kept c s none b h st = (b, refl)
  body-Kept c s (some (buf, cap)) b h (l, f) = (
    record {
      url_limit = b.url_limit;
      body_limit = omega (arith, l, h);
      url_fits = b.url_fits;
      body_fits = f;
    },
    refl,
  )

  -- A context with the same buffers.
  flag-IsBounded :
      (c c' : Ctx P)
      → (c'.url_buf ≡ c.url_buf)
        × (c'.url_cap ≡ c.url_cap)
        × (c'.body_buf ≡ c.body_buf)
        × (c'.body_cap ≡ c.body_cap)
        × (c'.max_body ≡ c.max_body)
      → IsBounded c
      → IsBounded c'
  flag-IsBounded c c' (p, q, r, s, t) b = record {
    url_limit = omega (arith, ap length p, b.url_limit);
    body_limit = omega (arith, ap length r, t, b.body_limit);
    url_fits = omega (arith, ap length p, q, b.url_fits);
    body_fits = omega (arith, ap length r, s, b.body_fits);
  }

  call-Kept :
      (grows : ℕ → Bool) (c : Ctx P) (x : Call) → IsBounded c → Kept c.max_body (call_one grows c x)
  unfolding call_one on_url on_body on_headers_complete on_message_complete
  call-Kept grows c (url s) b =
      if_elim (Kept c.max_body) (ltb max_url (length c.url_buf + length s))
        (λ _. unfold Kept in (b, refl))
        (λ h. url-Kept c s _ b (ground arith) (append-Stored _ c.url_buf c.url_cap s))
  call-Kept grows c (body s) b =
      if_elim (Kept c.max_body) (ltb c.max_body (length c.body_buf + length s))
        (λ _. unfold Kept in (flag-IsBounded c _ (refl, refl, refl, refl, refl) b, refl))
        (λ h. body-Kept c s _ b (ground arith) (append-Stored _ c.body_buf c.body_cap s))
  call-Kept grows c (headers_complete none) b = unfold Kept in (b, refl)
  call-Kept grows c (headers_complete (some cl)) b =
      if_elim (Kept c.max_body) (ltb c.max_body cl)
        (λ _. unfold Kept in (flag-IsBounded c _ (refl, refl, refl, refl, refl) b, refl))
        (λ _. unfold Kept in (b, refl))
  call-Kept grows c (message_complete keep) b =
      unfold Kept in (flag-IsBounded c _ (refl, refl, refl, refl, refl) b, refl)

  after-Kept :
      (n : ℕ) (again : Ctx P → Called P) (r : Called P)
      → Kept n r
      → ((c' : Ctx P) → IsBounded c' → c'.max_body ≡ n → Kept n (again c'))
      → Kept n (after_call again r)
  unfolding after_call Kept
  after-Kept n again (goes_on c) k f = f c k.0 k.1
  after-Kept n again (stops c) k f = k
  after-Kept n again (pauses c) k f = k

  calls-Kept :
      (grows : ℕ → Bool) (xs : List Call) (c : Ctx P) (n : ℕ)
      → IsBounded c
      → c.max_body ≡ n
      → Kept n (calls grows xs c)
  unfolding calls after_call Kept
  calls-Kept grows [] c n b h = (b, h)
  calls-Kept grows (x ∷ xs) c n b h =
      after-Kept n (calls grows xs) (call_one grows c x)
        (subst (λ m. Kept m (call_one grows c x)) h (call-Kept grows c x b))
        (λ c'. calls-Kept grows xs c' n)

  Fed : ℕ → Status × Ctx P × Option Parsed → Type 0
  Fed n (st, c, out) = IsBounded c × (c.max_body ≡ n)

  ended-Fed :
      (st : Status) (k n : ℕ) (c : Ctx P) → IsBounded c → c.max_body ≡ n → Fed n (ended st k c)
  unfolding ended Fed
  ended-Fed st k n c b h = (flag-IsBounded c _ (refl, refl, refl, refl, refl) b, h)

  finished-Fed :
      (lib : Llhttp P) (grows : ℕ → Bool) (k n : ℕ) (c : Ctx P)
      → IsBounded c
      → c.max_body ≡ n
      → Fed n (finished lib grows k c)
  unfolding finished
  finished-Fed lib grows k n c b h =
      if_elim (Fed n) (c.url_null && not (grows 1)) (λ _. ended-Fed failed k n c b h)
        (λ _. unfold Fed in (flag-IsBounded c _ (refl, refl, refl, refl, refl) b, h))

  outcome-Fed :
      (lib : Llhttp P) (grows : ℕ → Bool) (before : P) (bytes : Bytes) (n : ℕ) (err : Errno)
      (c : Ctx P)
      → IsBounded c
      → c.max_body ≡ n
      → Fed n (outcome lib grows before bytes (err, c))
  unfolding outcome
  outcome-Fed lib grows before bytes n err c b h =
      if_elim (Fed n) c.is_too_large (λ _. ended-Fed too_large _ n c b h)
        (λ _.
          if_elim (Fed n) (is_error err && not c.is_complete) (λ _. ended-Fed failed _ n c b h)
            (λ _.
              if_elim (Fed n) c.is_complete (λ _. finished-Fed lib grows _ n c b h)
                (λ _. unfold Fed in (flag-IsBounded c _ (refl, refl, refl, refl, refl) b, h))))

  stopped-Fed :
      (lib : Llhttp P) (grows : ℕ → Bool) (before : P) (bytes : Bytes) (n : ℕ) (err : Errno)
      (r : Called P)
      → Kept n r
      → Fed n (outcome lib grows before bytes (stopped_by err r))
  unfolding stopped_by Kept
  stopped-Fed lib grows before bytes n err (goes_on c) (b, h) =
      outcome-Fed lib grows before bytes n err c b h
  stopped-Fed lib grows before bytes n err (stops c) (b, h) =
      outcome-Fed lib grows before bytes n error c b h
  stopped-Fed lib grows before bytes n err (pauses c) (b, h) =
      outcome-Fed lib grows before bytes n paused c b h

  execute-Fed :
      (lib : Llhttp P) (grows : ℕ → Bool) (c : Ctx P) (bytes : Bytes) (r : P × List Call × Errno)
      → IsBounded c
      → Fed c.max_body (execute_with lib grows c bytes r)
  unfolding execute_with
  execute-Fed lib grows c bytes (p, xs, err) b =
      stopped-Fed lib grows c.parser bytes c.max_body err _ (
        calls-Kept grows xs (record c { parser = p }) c.max_body
          (flag-IsBounded c _ (refl, refl, refl, refl, refl) b) refl)

  from-Fed :
      (lib : Llhttp P) (grows : ℕ → Bool) (c : Ctx P) (bytes : Bytes) (st : Status)
      → IsBounded c
      → Fed c.max_body (feed_from lib grows c bytes st)
  unfolding feed_from Fed
  from-Fed lib grows c bytes incomplete b =
      execute-Fed lib grows c bytes (lib.execute c.parser bytes) b
  from-Fed lib grows c bytes complete b = (b, refl)
  from-Fed lib grows c bytes failed b = (b, refl)
  from-Fed lib grows c bytes too_large b = (b, refl)

  pub run_ops : Llhttp P → List Op → Ctx P → Ctx P
  run_ops lib [] c = c
  run_ops lib (feed grows bytes ∷ ops) c = run_ops lib ops (http_parser_feed lib grows c bytes).1
  run_ops lib (reset ∷ ops) c = run_ops lib ops (http_parser_reset lib c)

  ops-IsBounded :
      (lib : Llhttp P) (ops : List Op) (c : Ctx P) (n : ℕ)
      → IsBounded c
      → c.max_body ≡ n
      → IsBounded (run_ops lib ops c) × ((run_ops lib ops c).max_body ≡ n)
  unfolding run_ops http_parser_feed http_parser_reset Fed
  ops-IsBounded lib [] c n b h = (b, h)
  ops-IsBounded lib (feed grows bytes ∷ ops) c n b h =
      let r = from-Fed lib grows c bytes c.last_status b in
      ops-IsBounded lib ops (http_parser_feed lib grows c bytes).1 n r.0 (r.1 ∙ h)
  ops-IsBounded lib (reset ∷ ops) c n b h =
      ops-IsBounded lib ops (http_parser_reset lib c) n
        (record {
          url_limit = omega arith;
          body_limit = omega arith;
          url_fits = omega arith;
          body_fits = omega arith;
        })
        h

-- Whatever llhttp calls and whichever allocations fail, a parser that is created with a limit, and then fed
-- and reset in any order, keeps the target within 8192 bytes and the body within the limit (1 MiB for
-- 0), and its buffers have room for the terminating NUL behind what they hold.
pub parser-IsBounded :
    {P : Type 0} (lib : Llhttp P) (limit : ℕ) (ops : List Op)
    → let c = run_ops lib ops (http_parser_create lib limit) in
      IsBounded c × (c.max_body ≡ (if limit == 0 then 1048576 else limit))
unfolding http_parser_create
parser-IsBounded lib limit ops =
    ops-IsBounded lib ops (http_parser_create lib limit) _
      (record {
        url_limit = omega arith;
        body_limit = omega arith;
        url_fits = omega arith;
        body_fits = omega arith;
      })
      refl
