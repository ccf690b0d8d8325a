-- ===== src/Http/RequestParser/Tests.antt =====
-- HttpRequestParser.cpp on whole requests.
use simply_node_framework.Http.RequestParser.Coded.{feed-wire, Chunk, wire}
use simply_node_framework.Http.RequestParser.SizedBody.{Same}
use simply_node_framework.Prelude.Chars.{
  stoul, digit_value, digits_value, drop_while, is_space, next_word, trim_by,
}
use simply_node_framework.Prelude.Maps.{insert}
use simply_node_framework.Http.Request.{get_header, empty_request}
use simply_node_framework.Prelude.{ℕ, List, refl, ◌++◌, ◌≡◌, [], arith, true, ◌∷◌}
use simply_node_framework.Prelude.Bytes.{codes, bytes_eq, find}
use simply_node_framework.Http.RequestParser.{
  Parser, reset, accept_header, accept_request_line, add_param, add_params, advance, body, crlf,
  end_headers, feed, is_supported, parse_body, parse_content_length, parse_headers,
  parse_request_line, parse_sized_body, set_body, set_target, stage_headers, parse_chunks, complete,
}
use simply_node_framework.Http.Request.{get_header, empty_request}
use simply_node_framework.Http.RequestParser.Feeds.{feed_all, pieces-Same}
use simply_node_framework.Http.RequestParser.Chunks.{size_line_lost}

abbrev front : List ℕ
front = codes "POST /a?k=v&w HTTP/1.1" ++ crlf ++ codes "Content-Le"

abbrev back : List ℕ
back = codes "ngth:  3 " ++ crlf ++ crlf ++ codes "abc"

abbrev whole : Parser
whole = feed reset (front ++ back)

abbrev front_chunked : List ℕ
front_chunked =
    codes "POST / HTTP/1.1" ++ crlf ++ codes "Transfer-Encoding: chunked" ++ crlf ++ crlf

abbrev in_chunks : Parser
in_chunks = record reset { state = body; is_chunked = true }

post_body : whole.request.body ≡ codes "abc"
unfolding feed advance stage_headers parse_request_line accept_request_line set_target add_params
    add_param parse_headers accept_header end_headers set_body parse_content_length parse_body
    parse_sized_body is_supported find next_word bytes_eq get_header insert trim_by
post_body = refl

chunked_front : (feed reset front_chunked).is_chunked ≡ true
unfolding feed advance stage_headers parse_request_line accept_request_line set_target add_params
    add_param parse_headers accept_header end_headers set_body parse_content_length parse_body
    parse_chunks is_supported find next_word bytes_eq get_header insert trim_by
chunked_front = refl

pieces-Same_example : Same (feed_all reset (front ∷ back ∷ [])) (feed reset (front ++ (back ++ [])))
unfolding feed advance stage_headers parse_request_line accept_request_line set_target add_params
    add_param parse_headers accept_header end_headers set_body parse_content_length parse_body
    parse_sized_body is_supported find next_word bytes_eq get_header insert trim_by
pieces-Same_example = pieces-Same reset front (back ∷ []) refl

size_line_lost_example :
    feed (feed in_chunks (codes "3" ++ crlf ++ codes "a")) (codes "bc" ++ crlf)
    ≡ parse_body (record in_chunks { buffer = codes "a" ++ codes "bc" ++ crlf })
unfolding find stoul digits_value digit_value drop_while is_space
size_line_lost_example =
    size_line_lost in_chunks (codes "3" ++ crlf ++ codes "a") (codes "bc" ++ crlf) 1 3 refl refl
      refl refl (omega arith) (omega arith)

abbrev chunk : Chunk
chunk = record { size_line = codes "3"; content = codes "abc" }

feed-wire_example : feed in_chunks (wire (chunk ∷ []) (codes "0") crlf) ≡ record in_chunks {
  request = record empty_request { body = codes "abc" ++ [] };
  buffer = crlf;
  state = complete;
}
unfolding stoul digits_value digit_value drop_while is_space
feed-wire_example =
    feed-wire in_chunks (wire (chunk ∷ []) (codes "0") crlf) (chunk ∷ []) (codes "0") crlf refl refl
      refl
      (
        record {
          one_line = (refl, tt);
          sized = refl;
          some_bytes = omega arith;
          fits = omega arith;
        },
        tt,
      )
      (refl, tt) refl
