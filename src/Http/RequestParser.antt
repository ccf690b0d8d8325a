-- ===== src/Http/RequestParser.antt =====
-- lib/HttpServer/src/SNFHttpServer/HttpRequestParser.h and HttpRequestParser.cpp: the incremental
-- parser of HTTP/1.1 requests. `size_t` and `unsigned long` have 64 bits. The loops over header lines
-- and over chunks take fuel; each round takes two bytes out of the buffer at least, and they are
-- started with more fuel than the buffer has bytes.
pub mod Lines
pub mod SizedBody
pub mod HeaderLines
pub mod Split
pub mod Pieces
pub mod Feeds
pub mod Chunks
pub mod Coded
mod Tests
use simply_node_framework.Prelude.{
  ℕ, Bool, List, Option, [], drop, false, if◌then◌else◌, leb, length, ltb, map, none, not, some,
  suc, take, true, zero, ◌%◌, ◌&&◌, ◌++◌, ◌+◌, ◌-◌, ◌==◌, ◌^◌, ◌||◌, ◌∷◌,
}
use simply_node_framework.Prelude.Bytes.{find, bytes_eq, codes}
use simply_node_framework.Prelude.Maps.{insert}
use simply_node_framework.Prelude.Chars.{stoul, next_word, split_on, to_upper, trim_by}
use simply_node_framework.Http.Request.{Request, StringMap, empty_request, get_header}

pub data State : Type 0 where
  request_line headers body complete failed : State

pub data ParseError : Type 0 where
  bad_request_line unsupported_version missing_colon bad_chunk_size : ParseError

pub record Parser : Type 0 where
  pub state : State
  pub buffer : List ℕ
  pub error : Option ParseError
  pub request : Request
  pub body_bytes_read : ℕ
  pub body_bytes_expected : ℕ
  pub is_chunked : Bool

abbrev pub reset : Parser
reset = record {
  state = request_line;
  buffer = [];
  error = none;
  request = empty_request;
  body_bytes_read = 0;
  body_bytes_expected = 0;
  is_chunked = false;
}

abbrev pub crlf : List ℕ
crlf = 13 ∷ 10 ∷ []

abbrev pub fail : ParseError → Parser → Parser
fail e p = record p { state = failed; error = some e }

-- One `key=value` of the query string.
pub add_param : StringMap → List ℕ → StringMap
add_param m param = elim (find (b'=' ∷ []) param) [
  | none ↦ insert param [] m
  | some i ↦ insert (take i param) (drop (i + 1) param) m
]

pub add_params : StringMap → List (List ℕ) → StringMap
unfolding add_param
add_params m [] = m
add_params m (q ∷ qs) = add_params (add_param m q) qs

pub set_target : List ℕ → Request → Request
unfolding add_params
set_target target r = elim (find (b'?' ∷ []) target) [
  | none ↦ record r { path = target }
  | some i ↦ record r {
    path = take i target;
    query_params = add_params r.query_params (split_on b'&' (drop (i + 1) target));
  }
]

pub is_supported : List ℕ → Bool
is_supported protocol = bytes_eq protocol (codes "HTTP/1.1") || bytes_eq protocol (codes "HTTP/1.0")

abbrev pub is_empty : List ℕ → Bool
is_empty [] = true
is_empty (c ∷ cs) = false

-- The request line without its line end.
pub accept_request_line : List ℕ → Parser → Parser
accept_request_line line p =
    let (method, rest) = next_word line in
    let (target, rest') = next_word rest in
    let (protocol, _) = next_word rest' in
    if is_empty method || is_empty target || is_empty protocol
    then fail bad_request_line p
    else let q = record p {
      request = set_target target (record (p.request) { method = map to_upper method });
    } in
      if is_supported protocol then record q { state = headers } else fail unsupported_version q

abbrev pub cut_line : ℕ → Parser → Parser
cut_line i p = record p { buffer = drop (i + 2) p.buffer }

pub parse_request_line : Parser → Parser
parse_request_line p = elim (find crlf p.buffer) [
  | none ↦ p
  | some i ↦ accept_request_line (take i p.buffer) (cut_line i p)
]

-- `_parseContentLength`.
unfoldable pub parse_content_length : List ℕ → ℕ
unfolding stoul
parse_content_length text = elim (stoul 10 text) [ none ↦ 0 | some n ↦ n ]

abbrev pub contains : List ℕ → List ℕ → Bool
contains needle s = elim (find needle s) [ none ↦ false | some i ↦ true ]

-- The size and the kind of the body, from the headers.
pub set_body : Parser → Parser
set_body p =
    let encoding = get_header (codes "Transfer-Encoding") p.request.headers in
    let size = get_header (codes "Content-Length") p.request.headers in
    if not (is_empty encoding)
    then (if contains (codes "chunked") encoding
        then record p { is_chunked = true; body_bytes_expected = 0 }
        else p)
    else if not (is_empty size)
    then record p { body_bytes_expected = parse_content_length size }
    else p

pub end_headers : Parser → Parser
end_headers p =
    let q = set_body (record p { state = body }) in
    if q.body_bytes_expected == 0 && not q.is_chunked then record q { state = complete } else q

abbrev is_blank : ℕ → Bool
is_blank c = c == b' ' || c == 9

pub accept_header : List ℕ → ℕ → Parser → Parser
accept_header line i p = record p {
  request = record (p.request) {
    headers = insert (take i line) (trim_by is_blank (drop (i + 1) line)) p.request.headers;
  };
}

pub parse_headers : ℕ → Parser → Parser
parse_headers zero p = p
parse_headers (suc fuel) p = elim (find crlf p.buffer) [
  | none ↦ p
  | some i ↦
      let line = take i p.buffer in
      elim (is_empty line) [
        | true ↦ end_headers (cut_line i p)
        | false ↦ elim (find (b':' ∷ []) line) [
          | none ↦ fail missing_colon (cut_line i p)
          | some j ↦ parse_headers fuel (accept_header line j (cut_line i p))
        ]
      ]
]

abbrev pub add_body : List ℕ → Parser → Parser
add_body bytes p = record p { request = record (p.request) { body = p.request.body ++ bytes } }

pub parse_sized_body : Parser → Parser
parse_sized_body p =
    let needed = p.body_bytes_expected - p.body_bytes_read in
    if ltb p.body_bytes_read p.body_bytes_expected
    then (if leb needed (length p.buffer)
        then record (add_body (take needed p.buffer) p) {
          buffer = drop needed p.buffer;
          body_bytes_read = p.body_bytes_expected;
          state = complete;
        }
        else record (add_body p.buffer p) {
          body_bytes_read = p.body_bytes_read + length p.buffer;
          buffer = [];
        })
    else p

-- The bytes that a chunk of `size` bytes and its line end take, modulo 2 ^ 64.
abbrev pub chunk_span : ℕ → ℕ
chunk_span size = (size + 2) % 2 ^ 64

pub parse_chunks : ℕ → Parser → Parser
parse_chunks zero p = p
parse_chunks (suc fuel) p = elim (find crlf p.buffer) [
  | none ↦ p
  | some i ↦
      let q = cut_line i p in
      elim (stoul 16 (take i p.buffer)) [
        | none ↦ fail bad_chunk_size q
        | some size ↦ elim (size == 0) [
          | true ↦ record q { state = complete }
          | false ↦ elim (ltb (length q.buffer) (chunk_span size)) [
            | true ↦ q
            | false ↦ parse_chunks fuel (record (add_body (take size q.buffer) q) {
              buffer = drop (chunk_span size) q.buffer;
            })
          ]
        ]
      ]
]

abbrev pub enough : Parser → ℕ
enough p = suc (length p.buffer)

pub parse_body : Parser → Parser
parse_body p = if not p.is_chunked then parse_sized_body p else parse_chunks (enough p) p

abbrev pub when_request_line : State → Parser → Parser
when_request_line request_line p = parse_request_line p
when_request_line _ p = p

abbrev pub when_headers : State → Parser → Parser
when_headers headers p = parse_headers (enough p) p
when_headers _ p = p

abbrev pub when_body : State → Parser → Parser
when_body body p = parse_body p
when_body _ p = p

-- The three tests of `feed`, each on the state that the stage before it left. (A state that passes
-- one of them is not the error state.)
pub stage_headers : Parser → Parser
stage_headers p = let q = when_headers p.state p in when_body q.state q

pub advance : Parser → Parser
advance p = stage_headers (when_request_line p.state p)

abbrev pub is_failed : State → Bool
is_failed failed = true
is_failed _ = false

abbrev pub appended : Parser → List ℕ → Parser
appended p bytes = record p { buffer = p.buffer ++ bytes }

pub feed : Parser → List ℕ → Parser
feed p bytes = if is_failed p.state then p else advance (appended p bytes)

abbrev pub is_complete : State → Bool
is_complete complete = true
is_complete _ = false

-- `parse`: the request, and the parser after the reset.
pub parse : Parser → Request × Parser
parse p = if is_complete p.state then (p.request, reset) else (empty_request, p)
