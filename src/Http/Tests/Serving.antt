-- ===== src/Http/Tests/Serving.antt =====
-- The theorems on routes, events, the parser and the server at concrete ones.
use mlxd.Base.{
  ℕ, suc, ◌+◌, ◌≤◌, ◌≡◌, refl, true, false, ◌&&◌, ◌||◌, none, some, List, [], ◌∷◌, ◌++◌, length,
  if◌then◌else◌, if_elim, ◌==◌, arith, Bytes, codes, bytes_eq,
}
use mlxd.Http.Response.{no_breaks, http_build_response}
use mlxd.Http.Response.Framing.{body_of, body_of-response}
use mlxd.Http.Router.{Router, http_router_add, http_router_match, http_router_path_exists}
use mlxd.Http.Router.Laws.{or_else, add_route}
use mlxd.Http.Sse.{sse_format, allocated}
use mlxd.Http.Sse.RoundTrip.{read_event, prefix, read_event-sse_format}
use mlxd.Http.Sse.Bounds.{sse_format_fits}
use mlxd.Http.Parser.{Llhttp, url, body, message_complete, paused, complete, http_parser_create}
use mlxd.Http.Parser.Bounds.{feed, reset, run_ops, IsBounded, parser-IsBounded}
use mlxd.Http.Server.{Conn, Server, Out}
use mlxd.Http.Server.Draining.{IsSound}
use mlxd.Http.Server.Read.{Env, responds, null_method, finished, on_read}
use mlxd.Http.Server.Read.Sticky.{stale_read, read_returns}
use mlxd.Http.Server.Read.Sound.{accepts, reads, stops, times_out, start, history, history-IsSound}

abbrev no_routes : Router ℕ
no_routes = record { routes = []; cap = 0 }

abbrev one_route : Router ℕ
one_route = record {
  routes = record { method = codes "GET"; path = codes "/health"; fn = 7 } ∷ [];
  cap = 4;
}

add_route_example :
    ((m p : Bytes)
      → http_router_match one_route m p
        ≡ or_else
            (http_router_match no_routes m p)
            (if bytes_eq (codes "GET") m && bytes_eq (codes "/health") p then some 7 else none))
    × ((p : Bytes)
        → http_router_path_exists one_route p
          ≡ (http_router_path_exists no_routes p || bytes_eq (codes "/health") p))
    × (length no_routes.routes ≤ no_routes.cap → length one_route.routes ≤ one_route.cap)
unfolding http_router_add
add_route_example = add_route true no_routes one_route (codes "GET") (codes "/health") 7 refl

abbrev two_lines : Bytes
two_lines = codes "a\nb"

abbrev two_lines_wire : Bytes
two_lines_wire = codes "data: a\ndata: b\n\n"

read_event-sse_format_example :
    read_event (prefix 6) (two_lines_wire ++ codes "data: x\n")
    ≡ some (two_lines, codes "data: x\n")
unfolding sse_format
read_event-sse_format_example =
    read_event-sse_format two_lines (codes "data: x\n") two_lines_wire refl

sse_format_fits_example : length two_lines_wire + 1 ≤ allocated two_lines
unfolding sse_format
sse_format_fits_example = sse_format_fits two_lines two_lines_wire refl

-- A parser that takes whatever it is given for a whole request, and closes the connection.
abbrev takes_all : Llhttp ℕ
takes_all = record {
  start = 0;
  execute =
      λ p bytes. (suc p, url (codes "/health") ∷ body bytes ∷ message_complete false ∷ [], paused);
  message_end = λ p bytes. length bytes;
  method = λ p. codes "GET";
}

parser-IsBounded_example :
    let c =
      run_ops takes_all
        (feed (λ k. true) (codes "ab") ∷ reset ∷ feed (λ k. true) (codes "abcde") ∷ [])
        (http_parser_create takes_all 4) in
    IsBounded c × (c.max_body ≡ 4)
parser-IsBounded_example =
    parser-IsBounded takes_all 4
      (feed (λ k. true) (codes "ab") ∷ reset ∷ feed (λ k. true) (codes "abcde") ∷ [])

abbrev serving : Env ℕ ℕ
serving = record {
  lib = takes_all;
  grows = λ k. true;
  router = one_route;
  handle = λ h pr. responds 200;
  built = λ w. true;
  sent = λ w. true;
}

abbrev used_conn : Conn ℕ
used_conn = record {
  parser = record {
    parser = 1;
    url_null = false;
    url_buf = codes "/health";
    url_cap = 64;
    body_buf = codes "ab";
    body_cap = 64;
    max_body = 4;
    is_complete = true;
    is_too_large = false;
    keep_alive = false;
    consumed = 2;
    last_status = complete;
  };
  closing = false;
  gen_owned = false;
  on_gone = none;
}

abbrev one_conn : Conn ℕ → Server ℕ
one_conn c = record {
  conns = c ∷ [];
  draining = false;
  drain_timer_active = false;
  drain_open_conns = 0;
}

stale_read_example : on_read serving (one_conn used_conn) 0 (some (codes "x")) ≡ null_method
stale_read_example =
    stale_read serving (one_conn used_conn) 0 used_conn 120 [] refl
      (record { still_open = refl; not_owned = refl; status = refl })

abbrev new_conn : Conn ℕ
new_conn = record used_conn { parser = http_parser_create takes_all 4 }

read_returns_example :
    (s : Server ℕ) × (o : List Out) × (on_read serving (one_conn new_conn) 0 (some (codes "GET"))
      ≡ finished s o)
unfolding http_parser_create
read_returns_example =
    read_returns serving (one_conn new_conn) 0 new_conn (codes "GET") (λ p b bs. omega arith) refl
      refl

history-IsSound_example : IsSound (
    history serving
      (start serving)
      (accepts 4 true true true ∷ reads 0 (some (codes "x")) ∷ stops ∷ times_out ∷ []))
history-IsSound_example =
    history-IsSound serving
      (accepts 4 true true true ∷ reads 0 (some (codes "x")) ∷ stops ∷ times_out ∷ [])

abbrev small_wire : Bytes
small_wire =
    codes
      "HTTP/1.1 200 OK\r\nContent-Type: text/plain\r\nContent-Length: 2\r\nAccess-Control-Allow-Origin: *\r\nConnection: close\r\n\r\nhi"

abbrev two_numbers : ℕ → Bytes
two_numbers n = if n == 200 then codes "200" else codes "2"

plain_numbers : (k : ℕ) → no_breaks (two_numbers k) ≡ true
unfolding no_breaks
plain_numbers k = if_elim (λ (b : Bytes). no_breaks b ≡ true) (k == 200) (λ _. refl) (λ _. refl)

body_of-response_example :
    (body_of true small_wire ≡ some (codes "hi")) × (no_breaks (codes "text/plain") ≡ true)
unfolding http_build_response
body_of-response_example =
    body_of-response two_numbers true 200 (codes "text/plain") (codes "hi") small_wire false
      plain_numbers refl
