-- ===== src/Http/RequestParser/Split.antt =====
-- How the bytes of a request that is not chunked are cut into calls of `feed` makes no difference to
-- HttpRequestParser.cpp.
use mathlib.Core.Path.{subst}
use simply_node_framework.Prelude.{
  ℕ, Bool-cases, List, Option-cases, [], arith, false, inl, inr, length, length-drop, none, some,
  suc, sym, take, true, zero, ◌+◌, ◌<◌, ◌∙◌, ◌∷◌, ◌≡◌, ◌≤◌, ap, length-append, refl, ◌++◌, ◌⊎◌,
}
use simply_node_framework.Prelude.Bytes.{find}
use simply_node_framework.Http.RequestParser.{
  Parser, accept_header, crlf, cut_line, is_empty, parse_headers, ParseError, appended, body,
  complete, end_headers, enough, fail, feed, headers, is_failed, missing_colon, when_body,
}
use simply_node_framework.Http.RequestParser.Lines.{find-crlf-le, find-crlf-append}
use simply_node_framework.Http.RequestParser.HeaderLines.{
  accept_header-buffer, headers_bad, headers_end, headers_line, headers_wait,
  accept_header-appended, accept_header-state, after, cut_line-appended, end_headers-appended,
  end_headers-state, line-appended,
}
use simply_node_framework.Http.RequestParser.SizedBody.{
  Same, Same-of_eq, advance_complete, advance_headers, feed_failed, feed_going, parse_body_plain,
  sized_body-Same, stage_headers_lem,
}

-- What one round of the loop over header lines meets.
pub data Round (p : Parser) : Type 0 where
  waits : find crlf p.buffer ≡ none → Round p
  ends : (i : ℕ) → find crlf p.buffer ≡ some i → is_empty (take i p.buffer) ≡ true → Round p
  bad :
      (i : ℕ)
      → find crlf p.buffer ≡ some i
      → is_empty (take i p.buffer) ≡ false
      → find (b':' ∷ []) (take i p.buffer) ≡ none
      → Round p
  one_line :
      (i j : ℕ)
      → find crlf p.buffer ≡ some i
      → is_empty (take i p.buffer) ≡ false
      → find (b':' ∷ []) (take i p.buffer) ≡ some j
      → Round p

pub round : (p : Parser) → Round p
round p = elim (Option-cases (find crlf p.buffer)) [
  | inl e ↦ waits e
  | inr (i, e) ↦ elim (Bool-cases (is_empty (take i p.buffer))) [
    | inl blank ↦ ends i e blank
    | inr full ↦ elim (Option-cases (find (b':' ∷ []) (take i p.buffer))) [
      | inl c ↦ bad i e full c
      | inr (j, c) ↦ one_line i j e full c
    ]
  ]
]

cut_line-shorter :
    (p : Parser) (i : ℕ)
    → find crlf p.buffer ≡ some i
    → length (cut_line i p).buffer + 2 ≤ length p.buffer
cut_line-shorter p i e = omega (arith, find-crlf-le p.buffer i e, length-drop (i + 2) p.buffer)

-- More fuel than bytes is enough.
parse_headers-fuel :
    (k m : ℕ) (p : Parser)
    → length p.buffer < k
    → length p.buffer < m
    → parse_headers k p ≡ parse_headers m p
parse_headers-fuel zero m p h h' = absurd (omega arith)
parse_headers-fuel (suc k) zero p h h' = absurd (omega arith)
parse_headers-fuel (suc k) (suc m) p h h' = elim (round p) [
  | waits e ↦ headers_wait k p e ∙ sym (headers_wait m p e)
  | ends i e blank ↦ headers_end k p i e blank ∙ sym (headers_end m p i e blank)
  | bad i e full c ↦ headers_bad k p i e full c ∙ sym (headers_bad m p i e full c)
  | one_line i j e full c ↦
      let next : Parser = accept_header (take i p.buffer) j (cut_line i p) in
      let short : length next.buffer + 2 ≤ length p.buffer =
        subst (λ (t : List ℕ). length t + 2 ≤ length p.buffer)
          (sym (accept_header-buffer (cut_line i p) (take i p.buffer) j))
          (cut_line-shorter p i e) in
      headers_line k p i e j full c
      ∙ parse_headers-fuel k m next (omega arith) (omega arith)
      ∙ sym (headers_line m p i e j full c)
]

pub after_eq : (k : ℕ) (p q : Parser) → parse_headers k p ≡ q → after k p ≡ when_body q.state q
after_eq k p q e = ap (λ (t : Parser). when_body t.state t) e

pub feed_in_headers :
    (p : Parser) (b : List ℕ)
    → p.state ≡ headers
    → feed p b ≡ after (enough (appended p b)) (appended p b)
feed_in_headers p b st =
    feed_going p b (ap is_failed st)
    ∙ advance_headers (appended p b) st
    ∙ stage_headers_lem (appended p b) st

-- After the last header line.
ended :
    (q : Parser) (b : List ℕ)
    → (q.state ≡ body) ⊎ (q.state ≡ complete)
    → q.is_chunked ≡ false
    → feed (when_body q.state q) b ≡ when_body q.state (appended q b)
ended q b (inl st) plain =
    ap (λ t. feed (when_body t q) b) st
    ∙ ap (λ (t : Parser). feed t b) (parse_body_plain q plain)
    ∙ sized_body-Same q b st plain
    ∙ sym (parse_body_plain (appended q b) plain)
    ∙ ap (λ t. when_body t (appended q b)) (sym st)
ended q b (inr st) plain =
    ap (λ t. feed (when_body t q) b) st
    ∙ feed_going q b (ap is_failed st)
    ∙ advance_complete (appended q b) st
    ∙ ap (λ t. when_body t (appended q b)) (sym st)

pub Same-left : {p p' q : Parser} → p ≡ p' → Same p' q → Same p q
Same-left {q} e s = subst (λ t. Same t q) (sym e) s

pub Same-right : {p q q' : Parser} → q ≡ q' → Same p q' → Same p q
Same-right {p} e s = subst (λ t. Same p t) (sym e) s

Same-failed :
    (p : Parser) (e : ParseError) (b : List ℕ) → Same (feed (fail e p) b) (fail e (appended p b))
Same-failed p e b =
    Same-left (feed_failed (fail e p) b refl) (record { unread = refl; whole = λ h. cc })

module _ (b : List ℕ) where
  ends-Same :
      (k m : ℕ) (p : Parser) (i : ℕ)
      → find crlf p.buffer ≡ some i
      → is_empty (take i p.buffer) ≡ true
      → (parse_headers (suc m) (appended p b)).is_chunked ≡ false
      → Same (feed (after (suc k) p) b) (after (suc m) (appended p b))
  ends-Same k m p i e blank plain =
      let q : Parser = end_headers (cut_line i p) in
      let there : parse_headers (suc m) (appended p b) ≡ appended q b =
        headers_end m (appended p b) i (find-crlf-append p.buffer b i e)
          (ap is_empty (line-appended p b i e) ∙ blank)
        ∙ ap end_headers (cut_line-appended p b i e)
        ∙ end_headers-appended (cut_line i p) b in
      let plain' : q.is_chunked ≡ false = ap (λ (t : Parser). t.is_chunked) (sym there) ∙ plain in
      Same-of_eq (
        ap (λ (t : Parser). feed t b) (after_eq (suc k) p q (headers_end k p i e blank))
        ∙ ended q b (end_headers-state (cut_line i p)) plain'
        ∙ sym (after_eq (suc m) (appended p b) (appended q b) there))

  bad-Same :
      (k m : ℕ) (p : Parser) (i : ℕ)
      → find crlf p.buffer ≡ some i
      → is_empty (take i p.buffer) ≡ false
      → find (b':' ∷ []) (take i p.buffer) ≡ none
      → Same (feed (after (suc k) p) b) (after (suc m) (appended p b))
  bad-Same k m p i e full c =
      let q : Parser = cut_line i p in
      let there : parse_headers (suc m) (appended p b) ≡ fail missing_colon (appended q b) =
        headers_bad m (appended p b) i (find-crlf-append p.buffer b i e)
          (ap is_empty (line-appended p b i e) ∙ full)
          (ap (find (b':' ∷ [])) (line-appended p b i e) ∙ c)
        ∙ ap (fail missing_colon) (cut_line-appended p b i e) in
      Same-left
        (ap (λ (t : Parser). feed t b)
          (after_eq (suc k) p (fail missing_colon q) (headers_bad k p i e full c)))
        (Same-right (after_eq (suc m) (appended p b) (fail missing_colon (appended q b)) there)
          (Same-failed q missing_colon b))

  -- The header lines, and the body where they end.
  pub after-Same :
      (k m : ℕ) (p : Parser)
      → p.state ≡ headers
      → length p.buffer < k
      → length p.buffer + length b < m
      → (parse_headers m (appended p b)).is_chunked ≡ false
      → Same (feed (after k p) b) (after m (appended p b))
  after-Same zero m p st h hm plain = absurd (omega arith)
  after-Same (suc k) zero p st h hm plain = absurd (omega arith)
  after-Same (suc k) (suc m) p st h hm plain = elim (round p) [
    | waits e ↦
        let fuel : length (p.buffer ++ b) < suc m = omega (arith, length-append p.buffer b) in
        Same-of_eq (
          ap (λ (t : Parser). feed t b)
            (after_eq (suc k) p p (headers_wait k p e) ∙ ap (λ t. when_body t p) st)
          ∙ feed_in_headers p b st
          ∙ ap (λ (t : Parser). when_body t.state t)
              (parse_headers-fuel (enough (appended p b)) (suc m) (appended p b) (omega arith)
                fuel))
    | ends i e blank ↦ ends-Same k m p i e blank plain
    | bad i e full c ↦ bad-Same k m p i e full c
    | one_line i j e full c ↦
        let next : Parser = accept_header (take i p.buffer) j (cut_line i p) in
        let short : length next.buffer + 2 ≤ length p.buffer =
          subst (λ (t : List ℕ). length t + 2 ≤ length p.buffer)
            (sym (accept_header-buffer (cut_line i p) (take i p.buffer) j))
            (cut_line-shorter p i e) in
        let there : parse_headers (suc m) (appended p b) ≡ parse_headers m (appended next b) =
          headers_line m (appended p b) i (find-crlf-append p.buffer b i e) j
            (ap is_empty (line-appended p b i e) ∙ full)
            (ap (find (b':' ∷ [])) (line-appended p b i e) ∙ c)
          ∙ ap (parse_headers m) (
              ap (λ t. accept_header t j (cut_line i (appended p b))) (line-appended p b i e)
              ∙ ap (accept_header (take i p.buffer) j) (cut_line-appended p b i e)
              ∙ accept_header-appended (cut_line i p) b (take i p.buffer) j) in
        Same-left
          (ap (λ (t : Parser). feed (when_body t.state t) b) (headers_line k p i e j full c))
          (Same-right (ap (λ (t : Parser). when_body t.state t) there) (
            after-Same k m next (accept_header-state (cut_line i p) (take i p.buffer) j ∙ st)
              (omega arith) (omega arith) (ap (λ (t : Parser). t.is_chunked) (sym there) ∙ plain)))
  ]
