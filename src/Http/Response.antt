-- ===== src/Http/Response.antt =====
-- lib/HttpServer/src/SNFHttpServer/HttpResponse.h and HttpResponse.cpp: building a response and its
-- text. A status code is a number that is not negative; a file is an argument, nothing where it does
-- not open.
pub mod Read
pub mod Sent
mod Tests
use simply_node_framework.Prelude.{
  ℕ, List, Option, [], if◌then◌else◌, length, map, none, some, ◌++◌, ◌==◌, ◌||◌, ◌∷◌,
}
use simply_node_framework.Prelude.Bytes.{bytes_eq, codes}
use simply_node_framework.Prelude.Chars.{to_lower}
use simply_node_framework.Prelude.Decimal.{decimal}
use simply_node_framework.Prelude.Maps.{insert}
use simply_node_framework.Http.Request.{StringMap}
use simply_node_framework.Http.RequestParser.{crlf}

pub record Response : Type 0 where
  pub status_code : ℕ
  pub headers : StringMap
  pub body : List ℕ

abbrev pub content_type_key : List ℕ
content_type_key = codes "Content-Type"

abbrev pub content_length_key : List ℕ
content_length_key = codes "Content-Length"

unfoldable pub response : ℕ → List ℕ → Response
unfolding insert
response code body = record {
  status_code = code;
  headers = insert content_type_key (codes "text/plain") [];
  body = body;
}

unfoldable pub set_content : List ℕ → List ℕ → Response → Response
unfolding insert
set_content body kind r = record r { headers = insert content_type_key kind r.headers; body = body }

pub json : List ℕ → Response → Response
unfolding set_content
json data_bytes r = set_content data_bytes (codes "application/json") r

unfoldable pub plain : List ℕ → Response → Response
unfolding set_content
plain bytes r = set_content bytes (codes "text/plain") r

pub html : List ℕ → Response → Response
unfolding set_content
html bytes r = set_content bytes (codes "text/html") r

-- What is behind the last dot, with the dot.
pub extension : List ℕ → Option (List ℕ)
extension [] = none
extension (c ∷ s) =
    let rest = extension s in
    elim rest [ some e ↦ some e | none ↦ if c == b'.' then some (c ∷ s) else none ]

-- The table of MIME types.
pub kind_of : List ℕ → List ℕ
unfolding bytes_eq
kind_of e =
    if bytes_eq e (codes ".html") || bytes_eq e (codes ".htm")
    then codes "text/html"
    else if bytes_eq e (codes ".css")
    then codes "text/css"
    else if bytes_eq e (codes ".js")
    then codes "application/javascript"
    else if bytes_eq e (codes ".json")
    then codes "application/json"
    else if bytes_eq e (codes ".xml")
    then codes "application/xml"
    else if bytes_eq e (codes ".txt")
    then codes "text/plain"
    else if bytes_eq e (codes ".png")
    then codes "image/png"
    else if bytes_eq e (codes ".jpg") || bytes_eq e (codes ".jpeg")
    then codes "image/jpeg"
    else if bytes_eq e (codes ".gif")
    then codes "image/gif"
    else if bytes_eq e (codes ".svg")
    then codes "image/svg+xml"
    else if bytes_eq e (codes ".ico")
    then codes "image/x-icon"
    else if bytes_eq e (codes ".webp")
    then codes "image/webp"
    else if bytes_eq e (codes ".wasm")
    then codes "application/wasm"
    else if bytes_eq e (codes ".woff")
    then codes "font/woff"
    else if bytes_eq e (codes ".woff2")
    then codes "font/woff2"
    else if bytes_eq e (codes ".ttf")
    then codes "font/ttf"
    else if bytes_eq e (codes ".pdf")
    then codes "application/pdf"
    else if bytes_eq e (codes ".zip")
    then codes "application/zip"
    else if bytes_eq e (codes ".mp4")
    then codes "video/mp4"
    else if bytes_eq e (codes ".mp3")
    then codes "audio/mpeg"
    else if bytes_eq e (codes ".wav")
    then codes "audio/wav"
    else codes "application/octet-stream"

pub guess_content_type : List ℕ → List ℕ
unfolding extension kind_of to_lower
guess_content_type path = elim (extension path) [
  | none ↦ codes "application/octet-stream"
  | some e ↦ kind_of (map to_lower e)
]

pub file : List ℕ → Option (List ℕ) → Response → Response
unfolding insert guess_content_type
file path content r = elim content [
  | none ↦ record {
    status_code = 500;
    headers = insert content_type_key (codes "text/plain") r.headers;
    body = codes "Internal Server Error: Cannot read file";
  }
  | some bytes ↦ record {
    status_code = 200;
    headers = insert content_type_key (guess_content_type path) r.headers;
    body = bytes;
  }
]

abbrev pub status : ℕ → Response → Response
status code r = record r { status_code = code }

pub header : List ℕ → List ℕ → Response → Response
unfolding insert
header key v r = record r { headers = insert key v r.headers }

unfoldable pub status_text : ℕ → List ℕ
status_text code =
    if code == 200
    then codes "OK"
    else if code == 201
    then codes "Created"
    else if code == 204
    then codes "No Content"
    else if code == 400
    then codes "Bad Request"
    else if code == 404
    then codes "Not Found"
    else if code == 405
    then codes "Method Not Allowed"
    else if code == 411
    then codes "Length Required"
    else if code == 500
    then codes "Internal Server Error"
    else if code == 503
    then codes "Service Unavailable"
    else codes "Unknown"

unfoldable pub status_line : ℕ → List ℕ
unfolding status_text
status_line code = codes "HTTP/1.1 " ++ decimal code ++ codes " " ++ status_text code ++ crlf

unfoldable pub write_headers : StringMap → List ℕ
write_headers [] = []
write_headers ((key, v) ∷ m) = key ++ codes ": " ++ v ++ crlf ++ write_headers m

-- `headersCopy`.
unfoldable pub sent_headers : Response → StringMap
unfolding insert
sent_headers r = insert content_length_key (decimal (length r.body)) r.headers

unfoldable pub serialize : Response → List ℕ
unfolding status_line write_headers sent_headers
serialize r = status_line r.status_code ++ write_headers (sent_headers r) ++ crlf ++ r.body

pub not_found : Response
unfolding response insert
not_found = record (response 404 []) {
  headers = insert content_type_key (codes "text/plain") (response 404 []).headers;
  body = codes "404 Not Found";
}

pub method_not_allowed : Response
unfolding response insert
method_not_allowed = record (response 405 []) {
  headers = insert content_type_key (codes "text/plain") (response 405 []).headers;
  body = codes "405 Method Not Allowed";
}

pub bad_request : List ℕ → Response
unfolding response insert
bad_request reason = record (response 400 []) {
  headers = insert content_type_key (codes "text/plain") (response 400 []).headers;
  body = codes "400 Bad Request: " ++ reason;
}

pub internal_server_error : List ℕ → Response
unfolding response insert
internal_server_error reason = record (response 500 []) {
  headers = insert content_type_key (codes "text/plain") (response 500 []).headers;
  body = codes "500 Internal Server Error: " ++ reason;
}
