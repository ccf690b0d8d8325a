-- ===== src/Http/RequestParser/SizedBody.antt =====
-- A body with a Content-Length in HttpRequestParser.cpp, read in two pieces or in one.
use mathlib.Core.Path.{subst}
use native.Mathlib.Decide.{dec_le}
use simply_node_framework.Prelude.{
  ℕ, List, arith, false, length, refl, true, ◌-◌, ◌<◌, ◌≡◌, ◌≤◌, [], ap, append_assoc, dec_lt, drop,
  drop-append_ge, drop-append_le, length-append, sym, take, take-append_ge, take-append_le, ◌++◌,
  ◌+◌, ◌∙◌,
}
use simply_node_framework.Http.RequestParser.{
  Parser, advance, appended, body, complete, enough, feed, headers, is_failed, parse_body,
  parse_headers, parse_sized_body, stage_headers, when_body, add_body,
}

-- One parser, but for bytes that an error leaves unread in the second.
pub record Same (p q : Parser) : Type 0 where
  pub unread : p ≡ record q { buffer = p.buffer }
  pub whole : is_failed q.state ≡ false → p ≡ q

pub Same-refl : (p : Parser) → Same p p
Same-refl p = record { unread = refl; whole = λ _. refl }

pub Same-of_eq : {p q : Parser} → p ≡ q → Same p q
Same-of_eq {p} e = subst (λ t. Same p t) e (Same-refl p)

pub feed_going :
    (q : Parser) (b : List ℕ) → is_failed q.state ≡ false → feed q b ≡ advance (appended q b)
unfolding feed
feed_going q b going = rw going refl

pub feed_failed : (q : Parser) (b : List ℕ) → is_failed q.state ≡ true → feed q b ≡ q
unfolding feed
feed_failed q b bad = rw bad refl

pub advance_body : (p : Parser) → p.state ≡ body → advance p ≡ parse_body p
unfolding advance stage_headers
advance_body p e = ground arith

pub advance_complete : (p : Parser) → p.state ≡ complete → advance p ≡ p
unfolding advance stage_headers
advance_complete p e = ground arith

pub advance_headers : (p : Parser) → p.state ≡ headers → advance p ≡ stage_headers p
unfolding advance
advance_headers p e = ground arith

pub stage_headers_lem :
    (p : Parser)
    → p.state ≡ headers
    → stage_headers p ≡ when_body (parse_headers (enough p) p).state (parse_headers (enough p) p)
unfolding stage_headers
stage_headers_lem p e = ground arith

-- The body.
abbrev missing : Parser → ℕ
missing p = p.body_bytes_expected - p.body_bytes_read

pub parse_body_plain : (p : Parser) → p.is_chunked ≡ false → parse_body p ≡ parse_sized_body p
unfolding parse_body
parse_body_plain p plain = ground arith

abbrev filled : Parser → Parser
filled p = record (add_body (take (missing p) p.buffer) p) {
  buffer = drop (missing p) p.buffer;
  body_bytes_read = p.body_bytes_expected;
  state = complete;
}

abbrev partial : Parser → Parser
partial p = record (add_body p.buffer p) {
  body_bytes_read = p.body_bytes_read + length p.buffer;
  buffer = [];
}

parse_sized_body-filled :
    (p : Parser)
    → p.body_bytes_read < p.body_bytes_expected
    → missing p ≤ length p.buffer
    → parse_sized_body p ≡ filled p
unfolding parse_sized_body
parse_sized_body-filled p h k = ground arith

parse_sized_body-partial :
    (p : Parser)
    → p.body_bytes_read < p.body_bytes_expected
    → length p.buffer < missing p
    → parse_sized_body p ≡ partial p
unfolding parse_sized_body
parse_sized_body-partial p h k = ground arith

parse_sized_body_full :
    (p : Parser) → p.body_bytes_expected ≤ p.body_bytes_read → parse_sized_body p ≡ p
unfolding parse_sized_body
parse_sized_body_full p h = ground arith

filled-appended :
    (p : Parser) (b : List ℕ)
    → missing p ≤ length p.buffer
    → appended (filled p) b ≡ filled (appended p b)
filled-appended p b h =
    cc (take-append_le (missing p) p.buffer b h, drop-append_le (missing p) p.buffer b h)

filled-partial :
    (p : Parser) (b : List ℕ)
    → length p.buffer < missing p
    → filled (appended (partial p) b) ≡ filled (appended p b)
filled-partial p b h =
    let left : missing (partial p) ≡ missing p - length p.buffer = omega arith in
    cc (
      left,
      take-append_ge (missing p) p.buffer b (omega arith),
      drop-append_ge (missing p) p.buffer b (omega arith),
      append_assoc p.request.body p.buffer (take (missing p - length p.buffer) b),
    )

partial-partial :
    (p : Parser) (b : List ℕ) → partial (appended (partial p) b) ≡ partial (appended p b)
partial-partial p b =
    let sum : p.body_bytes_read + length p.buffer + length b
        ≡ p.body_bytes_read + length (p.buffer ++ b) =
      omega (arith, length-append p.buffer b) in
    cc (sum, append_assoc p.request.body p.buffer b)

module _ (p : Parser) (b : List ℕ) (in_body : p.state ≡ body) (plain : p.is_chunked ≡ false) where
  sized_enough :
      p.body_bytes_read < p.body_bytes_expected
      → missing p ≤ length p.buffer
      → feed (parse_sized_body p) b ≡ parse_sized_body (appended p b)
  sized_enough h k =
      ap (λ (t : Parser). feed t b) (parse_sized_body-filled p h k)
      ∙ feed_going (filled p) b refl
      ∙ advance_complete (appended (filled p) b) refl
      ∙ filled-appended p b k
      ∙ sym (parse_sized_body-filled (appended p b) h (omega (arith, length-append p.buffer b)))

  feed_in_body :
      (q : Parser)
      → q.state ≡ body
      → q.is_chunked ≡ false
      → feed q b ≡ parse_sized_body (appended q b)
  feed_in_body q e f =
      feed_going q b (ap is_failed e)
      ∙ advance_body (appended q b) e
      ∙ parse_body_plain (appended q b) f

  sized_short :
      p.body_bytes_read < p.body_bytes_expected
      → length p.buffer < missing p
      → feed (parse_sized_body p) b ≡ parse_sized_body (appended p b)
  sized_short h k =
      ap (λ (t : Parser). feed t b) (parse_sized_body-partial p h k)
      ∙ feed_in_body (partial p) in_body plain
      ∙ elim (dec_le (missing (partial p)) (length b)) [
        | yes fits ↦
            parse_sized_body-filled (appended (partial p) b) (omega arith) fits
            ∙ filled-partial p b k
            ∙ sym
                (parse_sized_body-filled (appended p b) h (omega (arith, length-append p.buffer b)))
        | no short ↦
            parse_sized_body-partial (appended (partial p) b) (omega arith) (omega arith)
            ∙ partial-partial p b
            ∙ sym (
                parse_sized_body-partial (appended p b) h (omega (arith, length-append p.buffer b)))
      ]

  pub sized_body-Same : feed (parse_sized_body p) b ≡ parse_sized_body (appended p b)
  sized_body-Same = elim (dec_lt p.body_bytes_read p.body_bytes_expected) [
    | no full ↦
        ap (λ (t : Parser). feed t b) (parse_sized_body_full p (omega arith))
        ∙ feed_in_body p in_body plain
    | yes h ↦ elim (dec_le (missing p) (length p.buffer)) [
      | yes k ↦ sized_enough h k
      | no k ↦ sized_short h (omega arith)
    ]
  ]
