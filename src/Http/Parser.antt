-- ===== src/Http/Parser.antt =====
-- http/conn.c, the parser of a connection around llhttp, and what it keeps of a request.
pub mod Bounds
pub mod Feeds
use mlxd.Base.{
  ℕ, zero, suc, ◌+◌, Bool, true, false, not, ◌&&◌, ◌||◌, Option, none, some, List, [], ◌∷◌, ◌++◌,
  length, ltb, ◌==◌, if◌then◌else◌, Bytes, new_cap,
}

-- `http_parse_status_t`
pub data Status : Type 0 where
  incomplete complete failed too_large : Status

-- The callbacks that llhttp makes, in order. A content length of none is not given.
pub data Call : Type 0 where
  url : Bytes → Call
  headers_complete : Option ℕ → Call
  body : Bytes → Call
  message_complete : Bool → Call

-- HPE_OK, HPE_PAUSED, and any other error.
pub data Errno : Type 0 where
  ok paused error : Errno

-- llhttp: its state at the start, what it does with bytes (its calls, and per message the number of
-- bytes up to the end of the message), and the method it read.
pub record Llhttp (P : Type 0) : Type 0 where
  pub start : P
  pub execute : P → Bytes → P × List Call × Errno
  pub message_end : P → Bytes → ℕ
  pub method : P → Bytes

-- `http_parsed_request_t`
pub record Parsed : Type 0 where
  pub method : Bytes
  pub path : Bytes
  pub payload : Option Bytes
  pub keep_alive : Bool

-- `struct http_parser_ctx`. `url_null` says whether `url_buf` is NULL; a `body_buf` that is NULL has
-- capacity 0.
pub record Ctx (P : Type 0) : Type 0 where
  pub parser : P
  pub url_null : Bool
  pub url_buf : Bytes
  pub url_cap : ℕ
  pub body_buf : Bytes
  pub body_cap : ℕ
  pub max_body : ℕ
  pub is_complete : Bool
  pub is_too_large : Bool
  pub keep_alive : Bool
  pub consumed : ℕ
  pub last_status : Status

-- `append`: the bytes and the capacity, with one byte left for a NUL; none where `realloc` fails.
append : Bool → Bytes → ℕ → Bytes → Option (Bytes × ℕ)
append grow buf cap s =
    let need : ℕ = length buf + length s + 1 in
    if ltb cap need
    then if grow then some (buf ++ s, new_cap cap need) else none
    else some (buf ++ s, cap)

abbrev pub max_url : ℕ
max_url = 8192

is_error : Errno → Bool
is_error ok = false
is_error paused = false
is_error error = true

-- The bytes that are consumed, of which `at` end the message.
consumed_by : Errno → ℕ → ℕ → ℕ
consumed_by paused at len = at
consumed_by ok at len = len
consumed_by error at len = len

-- The target up to a query or a fragment.
pub cut_target : Bytes → Bytes
cut_target [] = []
cut_target (c ∷ cs) = if c == 63 || c == 35 then [] else c ∷ cut_target cs

-- What a callback leaves: the context with 0, -1 or HPE_PAUSED.
pub data Called (P : Type 0) : Type 0 where
  goes_on : Ctx P → Called P
  stops : Ctx P → Called P
  pauses : Ctx P → Called P

module _ {P : Type 0} where
  url_stored : Ctx P → Option (Bytes × ℕ) → Called P
  url_stored c none = stops c
  url_stored c (some (buf, cap)) =
      goes_on (record c { url_null = false; url_buf = buf; url_cap = cap })

  body_stored : Ctx P → Option (Bytes × ℕ) → Called P
  body_stored c none = stops c
  body_stored c (some (buf, cap)) = goes_on (record c { body_buf = buf; body_cap = cap })

  -- `on_url`
  on_url : Bool → Ctx P → Bytes → Called P
  unfolding append url_stored
  on_url grow c s =
      if ltb max_url (length c.url_buf + length s)
      then stops c
      else url_stored c (append grow c.url_buf c.url_cap s)

  -- `on_body`
  on_body : Bool → Ctx P → Bytes → Called P
  unfolding append body_stored
  on_body grow c s =
      if ltb c.max_body (length c.body_buf + length s)
      then stops (record c { is_too_large = true })
      else body_stored c (append grow c.body_buf c.body_cap s)

  -- `on_headers_complete`
  on_headers_complete : Ctx P → Option ℕ → Called P
  on_headers_complete c none = goes_on c
  on_headers_complete c (some cl) =
      if ltb c.max_body cl then stops (record c { is_too_large = true }) else goes_on c

  -- `on_message_complete`
  on_message_complete : Ctx P → Bool → Called P
  on_message_complete c keep = pauses (record c { keep_alive = keep; is_complete = true })

  call_one : (ℕ → Bool) → Ctx P → Call → Called P
  unfolding on_url on_body on_headers_complete on_message_complete
  call_one grows c (url s) = on_url (grows (length c.url_buf + length s)) c s
  call_one grows c (body s) = on_body (grows (length c.body_buf + length s)) c s
  call_one grows c (headers_complete cl) = on_headers_complete c cl
  call_one grows c (message_complete keep) = on_message_complete c keep

  -- The callbacks in order, until one of them stops llhttp.
  after_call : (Ctx P → Called P) → Called P → Called P
  after_call again (goes_on c) = again c
  after_call again (stops c) = stops c
  after_call again (pauses c) = pauses c

  pub calls : (ℕ → Bool) → List Call → Ctx P → Called P
  unfolding call_one after_call
  calls grows [] c = goes_on c
  calls grows (x ∷ xs) c = after_call (calls grows xs) (call_one grows c x)

  -- `http_parser_create`, where its allocation succeeds
  unfoldable pub http_parser_create : Llhttp P → ℕ → Ctx P
  http_parser_create lib max_body = record {
    parser = lib.start;
    url_null = true;
    url_buf = [];
    url_cap = 0;
    body_buf = [];
    body_cap = 0;
    max_body = if max_body == 0 then 1048576 else max_body;
    is_complete = false;
    is_too_large = false;
    keep_alive = false;
    consumed = 0;
    last_status = incomplete;
  }

  -- `http_parser_reset`, with `clear_buffers`
  unfoldable pub http_parser_reset : Llhttp P → Ctx P → Ctx P
  http_parser_reset lib c = record c {
    parser = lib.start;
    url_buf = [];
    body_buf = [];
    is_complete = false;
    is_too_large = false;
    keep_alive = false;
    consumed = 0;
    last_status = incomplete;
  }

  ended : Status → ℕ → Ctx P → Status × Ctx P × Option Parsed
  ended st n c = (st, record c { consumed = n; last_status = st }, none)

  -- The end of a feed that completes a message. A missing target is an empty one, for which `calloc`
  -- is called, which leaves the capacity as it is.
  finished : Llhttp P → (ℕ → Bool) → ℕ → Ctx P → Status × Ctx P × Option Parsed
  unfolding cut_target ended
  finished lib grows n c = if c.url_null && not (grows 1) then ended failed n c else (
    complete,
    record c { consumed = n; last_status = complete; url_null = false },
    some (record {
      method = lib.method c.parser;
      path = if c.url_null then [] else cut_target c.url_buf;
      payload = if length c.body_buf == 0 then none else some c.body_buf;
      keep_alive = c.keep_alive;
    }),
  )

  stopped_by : Errno → Called P → Errno × Ctx P
  stopped_by err (goes_on c) = (err, c)
  stopped_by err (stops c) = (error, c)
  stopped_by err (pauses c) = (paused, c)

  outcome : Llhttp P → (ℕ → Bool) → P → Bytes → Errno × Ctx P → Status × Ctx P × Option Parsed
  unfolding finished ended is_error consumed_by
  outcome lib grows before bytes (err, c) =
      if c.is_too_large
      then ended too_large (length bytes) c
      else if is_error err && not c.is_complete
      then ended failed (length bytes) c
      else if c.is_complete
      then finished lib grows (consumed_by err (lib.message_end before bytes) (length bytes)) c
      else (incomplete, record c { consumed = length bytes }, none)

  execute_with :
      Llhttp P → (ℕ → Bool) → Ctx P → Bytes → P × List Call × Errno → Status × Ctx P × Option Parsed
  unfolding calls outcome stopped_by
  execute_with lib grows c bytes (p, xs, err) =
      outcome lib grows c.parser bytes (stopped_by err (calls grows xs (record c { parser = p })))

  feed_from : Llhttp P → (ℕ → Bool) → Ctx P → Bytes → Status → Status × Ctx P × Option Parsed
  unfolding execute_with
  feed_from lib grows c bytes incomplete =
      execute_with lib grows c bytes (lib.execute c.parser bytes)
  feed_from lib grows c bytes complete = (complete, c, none)
  feed_from lib grows c bytes failed = (failed, c, none)
  feed_from lib grows c bytes too_large = (too_large, c, none)

  -- `http_parser_feed`; the request is none where `out` is not written.
  unfoldable pub http_parser_feed :
      Llhttp P → (ℕ → Bool) → Ctx P → Bytes → Status × Ctx P × Option Parsed
  unfolding feed_from
  http_parser_feed lib grows c bytes = feed_from lib grows c bytes c.last_status
