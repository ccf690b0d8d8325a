-- ===== src/Http/Response/Tests.antt =====
-- HttpResponse.cpp on small responses.
use simply_node_framework.Prelude.{[], arith, refl, ◌++◌, ◌≡◌, if◌then◌else◌, some, ◌==◌}
use simply_node_framework.Prelude.Bytes.{bytes_eq, codes}
use simply_node_framework.Prelude.Chars.{to_lower}
use simply_node_framework.Prelude.Decimal.{decimal, decimal_on}
use simply_node_framework.Prelude.Maps.{insert, bytes_lt, lookup}
use simply_node_framework.Http.RequestParser.{crlf}
use simply_node_framework.Http.Response.{
  Response, extension, guess_content_type, header, kind_of, plain, response, sent_headers,
  serialize, set_content, status_line, status_text, write_headers,
}
use simply_node_framework.Prelude.Chars.Pieces.{all_fail→Fails}
use simply_node_framework.Http.Response.Read.{read_message, Message}
use simply_node_framework.Http.Response.Sent.{announced, serialize-read_message, start_of}

abbrev teapot : Response
teapot = header (codes "Content-Length") (codes "9") (plain (codes "tea") (response 418 []))

sent :
    serialize teapot
    ≡ codes "HTTP/1.1 418 Unknown"
      ++ crlf
      ++ codes "Content-Length: 3"
      ++ crlf
      ++ codes "Content-Type: text/plain"
      ++ crlf
      ++ crlf
      ++ codes "tea"
unfolding serialize status_line status_text write_headers sent_headers header plain set_content
    response insert bytes_eq bytes_lt decimal decimal_on
sent = refl

guessed : guess_content_type (codes "a.b/x.tar.PNG") ≡ codes "image/png"
unfolding guess_content_type extension kind_of bytes_eq to_lower
guessed = refl

serialize-read_message_example :
    (m : Message) × (read_message (serialize teapot) ≡ some m)
    × (m.start_line ≡ start_of teapot)
    × (m.content ≡ codes "tea")
    × (announced (lookup (codes "Content-Length") m.fields) ≡ 3)
    × (lookup (codes "Content-Type") m.fields ≡ (
        if bytes_eq (codes "Content-Length") (codes "Content-Type")
        then some (decimal 3)
        else lookup (codes "Content-Type") teapot.headers))
unfolding header plain set_content response insert bytes_eq bytes_lt
serialize-read_message_example =
    serialize-read_message teapot (codes "Content-Type")
      (
        (
          all_fail→Fails (λ c. c == 13) (codes "Content-Length") refl,
          all_fail→Fails (λ c. c == b':') (codes "Content-Length") refl,
          all_fail→Fails (λ c. c == 13) (codes "9") refl,
        ),
        (
          (
            all_fail→Fails (λ c. c == 13) (codes "Content-Type") refl,
            all_fail→Fails (λ c. c == b':') (codes "Content-Type") refl,
            all_fail→Fails (λ c. c == 13) (codes "text/plain") refl,
          ),
          tt,
        ),
      )
      (omega arith)
