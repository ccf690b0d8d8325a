-- ===== src/Http/RequestParser/Chunks.antt =====
-- A chunk whose data comes in a later call, in HttpRequestParser.cpp.
use simply_node_framework.Prelude.{
  ℕ, List, arith, drop, length, some, take, true, ◌++◌, ◌+◌, ◌<◌, ◌≡◌, ap, ◌∙◌,
}
use simply_node_framework.Prelude.Bytes.{find}
use simply_node_framework.Prelude.Chars.{stoul}
use simply_node_framework.Http.RequestParser.{
  Parser, body, chunk_span, crlf, cut_line, feed, parse_body, parse_chunks, appended, is_failed,
}
use simply_node_framework.Http.RequestParser.SizedBody.{advance_body, feed_going}

parse_body_short :
    (p : Parser) (i size : ℕ)
    → p.is_chunked ≡ true
    → find crlf p.buffer ≡ some i
    → stoul 16 (take i p.buffer) ≡ some size
    → 0 < size
    → length (cut_line i p).buffer < chunk_span size
    → parse_body p ≡ cut_line i p
unfolding parse_body parse_chunks
parse_body_short p i size ch e d pos short = ground arith

module _ (p : Parser) (a b : List ℕ) (i size : ℕ) where
  -- In a chunked body, a size line that comes without all of its chunk's bytes is gone when the next
  -- bytes come: they are read as if the chunk's data stood where a size line has to stand.
  pub size_line_lost :
      p.state ≡ body
      → p.is_chunked ≡ true
      → find crlf (p.buffer ++ a) ≡ some i
      → stoul 16 (take i (p.buffer ++ a)) ≡ some size
      → 0 < size
      → length (drop (i + 2) (p.buffer ++ a)) < chunk_span size
      → feed (feed p a) b ≡ parse_body (record p { buffer = drop (i + 2) (p.buffer ++ a) ++ b })
  size_line_lost st ch e d pos short =
      let q : Parser = cut_line i (appended p a) in
      let first : feed p a ≡ q =
        feed_going p a (ap is_failed st)
        ∙ advance_body (appended p a) st
        ∙ parse_body_short (appended p a) i size ch e d pos short in
      ap (λ (t : Parser). feed t b) first
      ∙ feed_going q b (ap is_failed st)
      ∙ advance_body (appended q b) st
