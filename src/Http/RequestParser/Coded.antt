-- ===== src/Http/RequestParser/Coded.antt =====
-- A chunked body that comes whole, in HttpRequestParser.cpp.
use simply_node_framework.Prelude.{
  ℕ, All, List, [], arith, drop, false, length, some, ◌++◌, ◌+◌, ◌<◌, ◌==◌, ◌^◌, ◌∷◌, ◌≡◌, ap,
  drop-append_ge, length-append, ltb, refl, suc, take, take-append, true, ◌∙◌, ◌≤◌, append-nil,
  append_assoc, zero, ◌-◌,
}
use simply_node_framework.Prelude.Bytes.{find, starts_with}
use simply_node_framework.Prelude.Chars.{stoul}
use simply_node_framework.Http.RequestParser.{
  crlf, Parser, add_body, body, chunk_span, complete, cut_line, feed, parse_chunks, appended,
  enough, is_failed, parse_body,
}
use simply_node_framework.Http.RequestParser.SizedBody.{advance_body, feed_going}

-- A chunk as it is sent, its size in front of it.
pub record Chunk : Type 0 where
  pub size_line : List ℕ
  pub content : List ℕ

abbrev pub IsLine : List ℕ → Type 0
IsLine line = All (λ c. (c == 13) ≡ false) line

pub record IsChunk (c : Chunk) : Type 0 where
  pub one_line : IsLine c.size_line
  pub sized : stoul 16 c.size_line ≡ some (length c.content)
  pub some_bytes : 0 < length c.content
  pub fits : length c.content + 2 < 2 ^ 64

-- The body on the wire: the chunks, the line of the last one, and what follows.
abbrev pub wire : List Chunk → List ℕ → List ℕ → List ℕ
wire [] last rest = last ++ (13 ∷ 10 ∷ rest)
wire (c ∷ cs) last rest = c.size_line ++ (13 ∷ 10 ∷ (c.content ++ (13 ∷ 10 ∷ wire cs last rest)))

abbrev pub contents : List Chunk → List ℕ
contents [] = []
contents (c ∷ cs) = c.content ++ contents cs

pub find-line :
    (line r : List ℕ) → IsLine line → find crlf (line ++ (13 ∷ 10 ∷ r)) ≡ some (length line)
unfolding find starts_with
find-line [] r h = ground arith
find-line (c ∷ []) r h = ground arith
find-line (c ∷ d ∷ line) r (h, hs) = ground (arith, h, find-line (d ∷ line) r hs)

pub after_line : (line r : List ℕ) → drop (length line + 2) (line ++ (13 ∷ 10 ∷ r)) ≡ r
after_line line r =
    let two : length line + 2 - length line ≡ 2 = omega arith in
    drop-append_ge (length line + 2) line (13 ∷ 10 ∷ r) (omega arith)
    ∙ ap (λ n. drop n (13 ∷ 10 ∷ r)) two

chunk_span_lem : (size : ℕ) → size + 2 < 2 ^ 64 → chunk_span size ≡ size + 2
chunk_span_lem size h = omega arith

module _ (k : ℕ) (p : Parser) (i size : ℕ) (found : find crlf p.buffer ≡ some i) where
  last_round :
      stoul 16 (take i p.buffer) ≡ some 0
      → parse_chunks (suc k) p ≡ record (cut_line i p) { state = complete }
  unfolding parse_chunks
  last_round d = rw (found, parse_chunks) (rw (d, parse_chunks) refl)

  chunk_round :
      stoul 16 (take i p.buffer) ≡ some size
      → 0 < size
      → chunk_span size ≤ length (drop (i + 2) p.buffer)
      → parse_chunks (suc k) p
        ≡ parse_chunks k (record (add_body (take size (drop (i + 2) p.buffer)) (cut_line i p)) {
          buffer = drop (chunk_span size) (drop (i + 2) p.buffer);
        })
  unfolding parse_chunks
  chunk_round d some_bytes all_there =
      let not_last : (size == 0) ≡ false = ground arith in
      let whole : ltb (length (drop (i + 2) p.buffer)) (chunk_span size) ≡ false = ground arith in
      rw (found, parse_chunks)
        (rw (d, parse_chunks) (rw (not_last, parse_chunks) (rw (whole, parse_chunks) refl)))

abbrev with_content : List ℕ → List ℕ → Parser → Parser
with_content bytes rest p = record (add_body bytes p) { buffer = rest }

one_chunk :
    (k : ℕ) (p : Parser) (c : Chunk) (rest : List ℕ)
    → IsChunk c
    → p.buffer ≡ c.size_line ++ (13 ∷ 10 ∷ (c.content ++ (13 ∷ 10 ∷ rest)))
    → parse_chunks (suc k) p ≡ parse_chunks k (with_content c.content rest p)
one_chunk k p c rest ok e =
    let tail : List ℕ = c.content ++ (13 ∷ 10 ∷ rest) in
    let size : ℕ = length c.content in
    let found : find crlf p.buffer ≡ some (length c.size_line) =
      ap (find crlf) e ∙ find-line c.size_line tail ok.one_line in
    let line : take (length c.size_line) p.buffer ≡ c.size_line =
      ap (take (length c.size_line)) e ∙ take-append c.size_line (13 ∷ 10 ∷ tail) in
    let behind : drop (length c.size_line + 2) p.buffer ≡ tail =
      ap (drop (length c.size_line + 2)) e ∙ after_line c.size_line tail in
    let span : chunk_span size ≡ size + 2 = chunk_span_lem size ok.fits in
    let room : size + 2 ≤ length tail = omega (arith, length-append c.content (13 ∷ 10 ∷ rest)) in
    let got : take size (drop (length c.size_line + 2) p.buffer) ≡ c.content =
      ap (take size) behind ∙ take-append c.content (13 ∷ 10 ∷ rest) in
    let left : drop (chunk_span size) (drop (length c.size_line + 2) p.buffer) ≡ rest =
      ap (λ n. drop n (drop (length c.size_line + 2) p.buffer)) span
      ∙ ap (drop (size + 2)) behind
      ∙ after_line c.content rest in
    chunk_round k p (length c.size_line) size found (ap (stoul 16) line ∙ ok.sized) ok.some_bytes
      (omega (arith, span, room, ap length behind))
    ∙ ap (parse_chunks k) (cc (got, left))

abbrev with_body : List ℕ → List ℕ → Parser → Parser
with_body bytes rest p = record (add_body bytes p) { buffer = rest; state = complete }

parse_chunks-wire :
    (k : ℕ) (p : Parser) (cs : List Chunk) (last rest : List ℕ)
    → length cs < k
    → p.buffer ≡ wire cs last rest
    → All IsChunk cs
    → IsLine last
    → stoul 16 last ≡ some 0
    → parse_chunks k p ≡ with_body (contents cs) rest p
parse_chunks-wire zero p cs last rest h e ok one z = absurd (omega arith)
parse_chunks-wire (suc k) p [] last rest h e ok one z =
    let line : take (length last) p.buffer ≡ last =
      ap (take (length last)) e ∙ take-append last (13 ∷ 10 ∷ rest) in
    let left : drop (length last + 2) p.buffer ≡ rest =
      ap (drop (length last + 2)) e ∙ after_line last rest in
    last_round k p (length last) 0 (ap (find crlf) e ∙ find-line last rest one)
      (ap (stoul 16) line ∙ z)
    ∙ cc (left, append-nil p.request.body)
parse_chunks-wire (suc k) p (c ∷ cs) last rest h e (ok, oks) one z =
    let next : Parser = with_content c.content (wire cs last rest) p in
    one_chunk k p c (wire cs last rest) ok e
    ∙ parse_chunks-wire k next cs last rest (omega arith) refl oks one z
    ∙ cc (append_assoc p.request.body c.content (contents cs))

length-wire : (cs : List Chunk) (last rest : List ℕ) → length cs ≤ length (wire cs last rest)
length-wire [] last rest = omega arith
length-wire (c ∷ cs) last rest = omega (
  arith,
  length-wire cs last rest,
  length-append c.size_line (13 ∷ 10 ∷ (c.content ++ (13 ∷ 10 ∷ wire cs last rest))),
  length-append c.content (13 ∷ 10 ∷ wire cs last rest),
)

parse_body_chunked : (p : Parser) → p.is_chunked ≡ true → parse_body p ≡ parse_chunks (enough p) p
unfolding parse_body
parse_body_chunked p ch = ground arith

-- Chunks that come whole, behind one another and with the last one, are put together: the body grows
-- by their contents, the request is complete, and what follows the last size line (the line end that
-- closes the body and any trailing headers among it) is not discarded: it stays in the buffer, unread.
pub feed-wire :
    (p : Parser) (b : List ℕ) (cs : List Chunk) (last rest : List ℕ)
    → p.state ≡ body
    → p.is_chunked ≡ true
    → p.buffer ++ b ≡ wire cs last rest
    → All IsChunk cs
    → IsLine last
    → stoul 16 last ≡ some 0
    → feed p b ≡ record (add_body (contents cs) p) { buffer = rest; state = complete }
feed-wire p b cs last rest st ch e ok one zero_size =
    feed_going p b (ap is_failed st)
    ∙ advance_body (appended p b) st
    ∙ parse_body_chunked (appended p b) ch
    ∙ parse_chunks-wire (enough (appended p b)) (appended p b) cs last rest
        (omega (arith, ap length e, length-wire cs last rest)) e ok one zero_size
