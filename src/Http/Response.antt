-- ===== src/Http/Response.antt =====
-- http/response.c, the messages that are written. The decimals that `snprintf` prints are a parameter.
pub mod Framing
use mlxd.Base.{
  ℕ, ◌+◌, Bool, true, false, ◌||◌, Option, none, some, List, [], ◌∷◌, ◌++◌, length, leb, ◌==◌,
  if◌then◌else◌, Bytes, codes,
}

-- `http_status_reason`
http_status_reason : ℕ → Bytes
http_status_reason status =
    if status == 200
    then codes "OK"
    else if status == 204
    then codes "No Content"
    else if status == 400
    then codes "Bad Request"
    else if status == 404
    then codes "Not Found"
    else if status == 405
    then codes "Method Not Allowed"
    else if status == 413
    then codes "Payload Too Large"
    else if status == 500
    then codes "Internal Server Error"
    else if status == 501
    then codes "Not Implemented"
    else if status == 503
    then codes "Service Unavailable"
    else codes "Unknown"

-- The loop over a content type: no CR and no LF.
unfoldable pub no_breaks : Bytes → Bool
no_breaks [] = true
no_breaks (c ∷ cs) = if c == 13 || c == 10 then false else no_breaks cs

-- A line with its CR and LF.
line : Bytes → Bytes
line text = text ++ (13 ∷ 10 ∷ [])

conn_value : Bool → Bytes
conn_value keep_alive = if keep_alive then codes "keep-alive" else codes "close"

-- The lines of the head.
status_line : (ℕ → Bytes) → ℕ → Bytes
unfolding http_status_reason
status_line print status =
    codes "HTTP/1.1 " ++ (print status ++ (codes " " ++ http_status_reason status))

head_lines : (ℕ → Bytes) → ℕ → Bytes → ℕ → Bool → List Bytes
unfolding status_line conn_value
head_lines print status content_type body_len keep_alive =
    status_line print status
    ∷ (codes "Content-Type: " ++ content_type)
    ∷ (codes "Content-Length: " ++ print body_len)
    ∷ codes "Access-Control-Allow-Origin: *"
    ∷ (codes "Connection: " ++ conn_value keep_alive)
    ∷ []

-- The lines, and an empty one.
head_text : List Bytes → Bytes
unfolding line
head_text [] = line []
head_text (l ∷ ls) = line l ++ head_text ls

-- `http_build_response` for a body that is there, with the outcome of `malloc`
unfoldable pub http_build_response :
    (ℕ → Bytes) → Bool → ℕ → Option Bytes → Bytes → Bool → Option Bytes
unfolding head_text head_lines no_breaks
http_build_response print alloc status none body keep_alive = none
http_build_response print alloc status (some content_type) body keep_alive =
    let head : Bytes = head_text (head_lines print status content_type (length body) keep_alive) in
    if no_breaks content_type
    then if leb 512 (length head) then none else if alloc then some (head ++ body) else none
    else none

-- `http_build_preflight`
http_build_preflight : Bool → Bool → Option Bytes
unfolding head_text conn_value
http_build_preflight alloc keep_alive =
    let head : Bytes = head_text (
      codes "HTTP/1.1 204 No Content"
      ∷ codes "Access-Control-Allow-Origin: *"
      ∷ codes "Access-Control-Allow-Methods: GET, POST, OPTIONS"
      ∷ codes "Access-Control-Allow-Headers: Content-Type, Authorization"
      ∷ codes "Content-Length: 0"
      ∷ (codes "Connection: " ++ conn_value keep_alive)
      ∷ []) in
    if leb 512 (length head) then none else if alloc then some head else none

-- `http_build_sse_head`
http_build_sse_head : Bool → Option Bytes
unfolding head_text
http_build_sse_head alloc =
    if alloc
    then some (
        head_text (
          codes "HTTP/1.1 200 OK"
          ∷ codes "Content-Type: text/event-stream"
          ∷ codes "Cache-Control: no-cache"
          ∷ codes "Access-Control-Allow-Origin: *"
          ∷ codes "Connection: close"
          ∷ []))
    else none
