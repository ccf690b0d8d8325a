-- ===== src/Http/RequestParser/HeaderLines.antt =====
-- The loop of `_parseHeaders` in HttpRequestParser.cpp, one line at a time.
use simply_node_framework.Prelude.{
  ℕ, List, [], ap, arith, drop-append_le, false, none, refl, some, suc, take, take-append_le, true,
  ◌++◌, ◌+◌, ◌∷◌, ◌≡◌, ◌⊎◌,
}
use simply_node_framework.Prelude.Bytes.{find}
use simply_node_framework.Http.RequestParser.{
  Parser, accept_header, appended, body, complete, crlf, cut_line, end_headers, fail, is_empty,
  missing_colon, parse_headers, set_body, when_body,
}
use simply_node_framework.Http.RequestParser.Lines.{find-crlf-le}

pub headers_wait : (k : ℕ) (p : Parser) → find crlf p.buffer ≡ none → parse_headers (suc k) p ≡ p
unfolding parse_headers
headers_wait k p e = rw (e, parse_headers) refl

module _ (k : ℕ) (p : Parser) (i : ℕ) (found : find crlf p.buffer ≡ some i) where
  pub headers_end :
      is_empty (take i p.buffer) ≡ true → parse_headers (suc k) p ≡ end_headers (cut_line i p)
  unfolding parse_headers
  headers_end e = rw (found, parse_headers) (rw (e, parse_headers) refl)

  pub headers_bad :
      is_empty (take i p.buffer) ≡ false
      → find (b':' ∷ []) (take i p.buffer) ≡ none
      → parse_headers (suc k) p ≡ fail missing_colon (cut_line i p)
  unfolding parse_headers
  headers_bad e c = rw (found, parse_headers) (rw (e, parse_headers) (rw (c, parse_headers) refl))

  pub headers_line :
      (j : ℕ)
      → is_empty (take i p.buffer) ≡ false
      → find (b':' ∷ []) (take i p.buffer) ≡ some j
      → parse_headers (suc k) p ≡ parse_headers k (accept_header (take i p.buffer) j (cut_line i p))
  unfolding parse_headers
  headers_line j e c =
      rw (found, parse_headers) (rw (e, parse_headers) (rw (c, parse_headers) refl))

-- Bytes behind the line take no part.
pub cut_line-appended :
    (p : Parser) (b : List ℕ) (i : ℕ)
    → find crlf p.buffer ≡ some i
    → cut_line i (appended p b) ≡ appended (cut_line i p) b
cut_line-appended p b i found =
    ap (λ (t : List ℕ). record p { buffer = t })
      (drop-append_le (i + 2) p.buffer b (find-crlf-le p.buffer i found))

pub line-appended :
    (p : Parser) (b : List ℕ) (i : ℕ)
    → find crlf p.buffer ≡ some i
    → take i (p.buffer ++ b) ≡ take i p.buffer
line-appended p b i found =
    take-append_le i p.buffer b (omega (arith, find-crlf-le p.buffer i found))

pub accept_header-appended :
    (p : Parser) (b line : List ℕ) (j : ℕ)
    → accept_header line j (appended p b) ≡ appended (accept_header line j p) b
unfolding accept_header
accept_header-appended p b line j = refl

set_body-appended : (p : Parser) (b : List ℕ) → set_body (appended p b) ≡ appended (set_body p) b
unfolding set_body
set_body-appended p b = ground arith

pub end_headers-appended :
    (p : Parser) (b : List ℕ) → end_headers (appended p b) ≡ appended (end_headers p) b
unfolding end_headers
end_headers-appended p b = rw (set_body-appended (record p { state = body }) b) (ground arith)

set_body-state : (p : Parser) → (set_body p).state ≡ p.state
unfolding set_body
set_body-state p = ground arith

pub end_headers-state :
    (p : Parser) → ((end_headers p).state ≡ body) ⊎ ((end_headers p).state ≡ complete)
unfolding end_headers
end_headers-state p = ground (arith, set_body-state (record p { state = body }))

pub accept_header-state :
    (p : Parser) (line : List ℕ) (j : ℕ) → (accept_header line j p).state ≡ p.state
unfolding accept_header
accept_header-state p line j = refl

pub accept_header-buffer :
    (p : Parser) (line : List ℕ) (j : ℕ) → (accept_header line j p).buffer ≡ p.buffer
unfolding accept_header
accept_header-buffer p line j = refl

abbrev pub after : ℕ → Parser → Parser
after k p = when_body (parse_headers k p).state (parse_headers k p)
