-- ===== src/Http/Server.antt =====
-- lib/HttpServer/src/SNFHttpServer/HttpServer.h and HttpServer.cpp: the routes, the static files and
-- the state of each socket. A socket is a number. A handler is a function that replies or throws. What
-- the file system answers is an argument, nothing where the call throws. What the server does to a
-- socket and what it emits are actions, in their order; what the socket then reports are events.
pub mod Flushed
pub mod Files
mod Tests
use simply_node_framework.Prelude.{
  ℕ, Bool, List, Option, [], none, drop, false, if◌then◌else◌, leb, length, not, some, take, true,
  ◌&&◌, ◌++◌, ◌+◌, ◌==◌, ◌∷◌,
}
use simply_node_framework.Prelude.Bytes.{codes, bytes_eq, find}
use mathlib.Core.List.{reverse}
use simply_node_framework.Prelude.Maps.{insert}
use simply_node_framework.Http.Request.{Request}
use simply_node_framework.Http.RequestParser.{
  ParseError, Parser, feed, is_complete, bad_request_line, unsupported_version, missing_colon,
  bad_chunk_size, is_failed, parse, reset,
}
use simply_node_framework.Http.Response.{
  Response, bad_request, content_type_key, guess_content_type, internal_server_error, not_found,
  response, serialize,
}

pub data Reply : Type 0 where
  replied : Response → Reply
  threw : List ℕ → Reply

abbrev pub Handler : Type 0
Handler = Request → Reply

pub record Route : Type 0 where
  pub method : List ℕ
  pub path : List ℕ
  pub handler : Handler

pub record StaticPrefix : Type 0 where
  pub url_prefix : List ℕ
  pub fs_path : List ℕ

pub record SocketState : Type 0 where
  pub parser : Parser
  pub pending_close : Bool
  pub total_to_send : ℕ
  pub total_sent : ℕ

-- `std::filesystem` and `std::ifstream`.
pub record FileSystem : Type 0 where
  pub canonical : List ℕ → Option (List ℕ)
  pub relative : List ℕ → List ℕ → Option (List ℕ)
  pub is_regular : List ℕ → Bool
  pub content : List ℕ → Option (List ℕ)

pub record Server : Type 0 where
  pub routes : List Route
  pub static_prefixes : List StaticPrefix
  pub socket_states : ℕ → Option SocketState

pub data Action : Type 0 where
  written : ℕ → List ℕ → Action
  closed deleted : ℕ → Action
  errored : List ℕ → Action

-- `_routes[key] = handler`.
pub put_route : Route → List Route → List Route
unfolding bytes_eq
put_route r [] = r ∷ []
put_route r (q ∷ qs) =
    if bytes_eq q.method r.method && bytes_eq q.path r.path then r ∷ qs else q ∷ put_route r qs

pub find_route : List ℕ → List ℕ → List Route → Option Handler
unfolding bytes_eq
find_route method path [] = none
find_route method path (q ∷ qs) =
    if bytes_eq q.method method && bytes_eq q.path path
    then some q.handler
    else find_route method path qs

abbrev pub add_route : List ℕ → List ℕ → Handler → Server → Server
unfolding put_route
add_route method path handler s = record s {
  routes = put_route (record { method = method; path = path; handler = handler }) s.routes;
}

pub get : List ℕ → Handler → Server → Server
unfolding put_route
get path handler s = add_route (codes "GET") path handler s

pub post : List ℕ → Handler → Server → Server
unfolding put_route
post path handler s = add_route (codes "POST") path handler s

pub serve_static : List ℕ → List ℕ → Server → Server
serve_static url_prefix fs_path s = record s {
  static_prefixes =
      s.static_prefixes ++ (record { url_prefix = url_prefix; fs_path = fs_path } ∷ []);
}

abbrev pub put_socket : ℕ → Option SocketState → Server → Server
put_socket socket state s = record s {
  socket_states = λ x. if x == socket then state else s.socket_states x;
}

abbrev pub new_state : SocketState
new_state = record { parser = reset; pending_close = false; total_to_send = 0; total_sent = 0 }

-- One socket of the loop of `_onNewConnection`.
pub on_new_connection : ℕ → Server → Server
on_new_connection socket s = put_socket socket (some new_state) s

abbrev pub is_nil : List ℕ → Bool
is_nil [] = true
is_nil _ = false

abbrev pub is_found : Option ℕ → Bool
is_found none = false
is_found (some i) = true

-- The folder ends in a slash already. (`back` of an empty folder is not defined.)
pub ends_in_slash : List ℕ → Bool
ends_in_slash [] = false
ends_in_slash (c ∷ []) = c == b'/'
ends_in_slash (c ∷ d ∷ s) = ends_in_slash (d ∷ s)

pub joined_path : List ℕ → List ℕ → List ℕ
unfolding ends_in_slash
joined_path fs_path request_path =
    (if ends_in_slash fs_path then fs_path else fs_path ++ codes "/") ++ request_path

-- `_resolvePath`.
pub resolve_path : FileSystem → List ℕ → List ℕ → List ℕ
unfolding joined_path find
resolve_path fs fs_path request_path = elim (fs.canonical (joined_path fs_path request_path)) [
  | none ↦ []
  | some resolved ↦ elim (fs.canonical fs_path) [
    | none ↦ []
    | some base ↦ elim (fs.relative resolved base) [
      | none ↦ []
      | some rel ↦
          if not (is_nil rel) && not (is_found (find (codes "..") rel)) then resolved else []
    ]
  ]
]

-- `_readFile`.
pub read_file : FileSystem → List ℕ → List ℕ
read_file fs path = elim (fs.content path) [ none ↦ [] | some bytes ↦ bytes ]

abbrev pub index_html : List ℕ → List ℕ
index_html [] = codes "index.html"
index_html (c ∷ s) = c ∷ s

-- The path of the file that a prefix has for a request.
pub resolved_for : FileSystem → List ℕ → StaticPrefix → List ℕ
unfolding resolve_path
resolved_for fs path p = resolve_path fs p.fs_path (index_html (drop (length p.url_prefix) path))

pub file_response : FileSystem → List ℕ → Response
unfolding read_file insert
file_response fs name = record (response 200 []) {
  headers = insert content_type_key (guess_content_type name) (response 200 []).headers;
  body = read_file fs name;
}

-- The loop over the prefixes, in the order given, and what is behind it.
pub find_static : FileSystem → List ℕ → List StaticPrefix → Response
unfolding resolved_for file_response bytes_eq
find_static fs path [] = not_found
find_static fs path (p ∷ ps) =
    if bytes_eq (take (length p.url_prefix) path) p.url_prefix
      && fs.is_regular (resolved_for fs path p)
    then file_response fs (resolved_for fs path p)
    else find_static fs path ps

-- The response to a request: its route, or a static file, the latest prefix first.
pub respond : FileSystem → Server → Request → Response
unfolding find_route find_static
respond fs s request = elim (find_route request.method request.path s.routes) [
  | none ↦ find_static fs request.path (reverse s.static_prefixes)
  | some handler ↦ elim (handler request) [
    | replied r ↦ r
    | threw what ↦ internal_server_error what
  ]
]

-- The text of `parser.error()`.
pub error_message : Option ParseError → List ℕ
error_message none = []
error_message (some bad_request_line) = codes "Invalid request line format"
error_message (some unsupported_version) = codes "Unsupported HTTP protocol version"
error_message (some missing_colon) = codes "Invalid header format (missing colon)"
error_message (some bad_chunk_size) = codes "Invalid chunk size"

-- A response goes out, and the socket is to be closed behind it.
pub send : ℕ → Parser → Response → Server → Server × List Action
send socket parser r s =
    let bytes = serialize r in
    (
      put_socket socket
          (some (record {
            parser = parser;
            pending_close = true;
            total_to_send = length bytes;
            total_sent = 0;
          }))
          s,
      written socket bytes ∷ [],
    )

-- `_onSocketReadyRead`, with the bytes that `readAll` gives.
pub on_ready_read : FileSystem → ℕ → List ℕ → Server → Server × List Action
unfolding respond send error_message
on_ready_read fs socket bytes s = elim (s.socket_states socket) [
  | none ↦ (s, [])
  | some state ↦
      let p = feed state.parser bytes in
      let (request, after) = parse p in
      if is_nil bytes
      then (s, [])
      else if is_complete p.state
      then send socket after (respond fs s request) s
      else if is_failed p.state
      then send socket p (bad_request (error_message p.error)) s
      else (put_socket socket (some (record state { parser = p })) s, [])
]

-- `_closeSocket`.
pub close_socket : ℕ → Server → Server × List Action
close_socket socket s = (put_socket socket none s, closed socket ∷ deleted socket ∷ [])

-- The listener of `bytesWritten`.
pub on_bytes_written : ℕ → ℕ → Server → Server × List Action
unfolding close_socket
on_bytes_written socket n s = elim (s.socket_states socket) [
  | none ↦ (s, [])
  | some state ↦
      let sent = record state { total_sent = state.total_sent + n } in
      let kept = put_socket socket (some sent) s in
      if state.pending_close && leb state.total_to_send (state.total_sent + n)
      then close_socket socket kept
      else (kept, [])
]

-- `_onSocketError`.
pub on_socket_error : ℕ → List ℕ → Server → Server × List Action
unfolding close_socket
on_socket_error socket message s =
    let (t, actions) = close_socket socket s in (t, errored message ∷ actions)
