-- ===== src/Http/RequestParser/Pieces.antt =====
-- `feed` of HttpRequestParser.cpp, called with the pieces of a request that is not chunked.
use simply_node_framework.Prelude.{
  ℕ, List, ap, arith, none, refl, some, take, ◌≡◌, ◌⊎◌, false, inl, inr, length-append, ◌∙◌, suc,
  sym, zero, Option-cases, drop, append_assoc, ◌++◌,
}
use simply_node_framework.Prelude.Bytes.{find}
use simply_node_framework.Http.RequestParser.{
  Parser, accept_request_line, advance, appended, crlf, cut_line, failed, headers, is_failed,
  parse_request_line, request_line, stage_headers, enough, feed, State, accept_header, body,
  complete, end_headers, parse_body, parse_chunks, parse_headers, parse_sized_body, set_body,
  when_body, add_body, chunk_span,
}
use simply_node_framework.Http.RequestParser.SizedBody.{
  Same, feed_failed, stage_headers_lem, Same-of_eq, advance_body, advance_complete, advance_headers,
  feed_going, parse_body_plain, sized_body-Same,
}
use simply_node_framework.Http.RequestParser.HeaderLines.{
  after, headers_bad, headers_end, headers_line, headers_wait, cut_line-appended, line-appended,
}
use simply_node_framework.Http.RequestParser.Split.{
  Same-left, Same-right, after-Same, bad, ends, round, waits, one_line,
}
use simply_node_framework.Prelude.Chars.{stoul}
use simply_node_framework.Http.RequestParser.Lines.{find-crlf-append}

accept_request_line-appended :
    (p : Parser) (b line : List ℕ)
    → accept_request_line line (appended p b) ≡ appended (accept_request_line line p) b
unfolding accept_request_line
accept_request_line-appended p b line = ground arith

pub accept_request_line-state :
    (p : Parser) (line : List ℕ)
    → ((accept_request_line line p).state ≡ headers) ⊎ ((accept_request_line line p).state ≡ failed)
unfolding accept_request_line
accept_request_line-state p line = ground arith

pub advance_waits :
    (p : Parser) → p.state ≡ request_line → find crlf p.buffer ≡ none → advance p ≡ p
unfolding advance stage_headers parse_request_line
advance_waits p st e = ground arith

pub advance_line :
    (p : Parser) (i : ℕ)
    → p.state ≡ request_line
    → find crlf p.buffer ≡ some i
    → advance p ≡ stage_headers (accept_request_line (take i p.buffer) (cut_line i p))
unfolding advance parse_request_line
advance_line p i st e = ground arith

pub stage_failed : (p : Parser) → p.state ≡ failed → stage_headers p ≡ p
unfolding stage_headers
stage_failed p st = ground arith

unread-Same : (p : Parser) (b : List ℕ) → p.state ≡ failed → Same p (appended p b)
unread-Same p b st = record { unread = refl; whole = λ going. cc st }

-- Only the end of the header lines says whether a body is chunked.
parse_chunks-is_chunked : (k : ℕ) (p : Parser) → (parse_chunks k p).is_chunked ≡ p.is_chunked
unfolding parse_chunks
parse_chunks-is_chunked zero p = refl
parse_chunks-is_chunked (suc k) p = elim (Option-cases (find crlf p.buffer)) [
  | inl e ↦ ground (arith, e)
  | inr (i, e) ↦ elim (Option-cases (stoul 16 (take i p.buffer))) [
    | inl d ↦ ground (arith, e, d)
    | inr (size, d) ↦
        let q : Parser = cut_line i p in
        let next : Parser = record (add_body (take size q.buffer) q) {
          buffer = drop (chunk_span size) q.buffer;
        } in
        ground (arith, e, d, parse_chunks-is_chunked k next)
  ]
]

parse_sized_body-is_chunked : (p : Parser) → (parse_sized_body p).is_chunked ≡ p.is_chunked
unfolding parse_sized_body
parse_sized_body-is_chunked p = ground arith

pub parse_body-is_chunked : (p : Parser) → (parse_body p).is_chunked ≡ p.is_chunked
unfolding parse_body
parse_body-is_chunked p =
    ground (arith, parse_sized_body-is_chunked p, parse_chunks-is_chunked (enough p) p)

pub when_body-is_chunked : (s : State) (p : Parser) → (when_body s p).is_chunked ≡ p.is_chunked
when_body-is_chunked request_line p = refl
when_body-is_chunked headers p = refl
when_body-is_chunked body p = parse_body-is_chunked p
when_body-is_chunked complete p = refl
when_body-is_chunked failed p = refl

end_headers-is_chunked : (p : Parser) → (end_headers p).is_chunked ≡ false → p.is_chunked ≡ false
unfolding end_headers set_body
end_headers-is_chunked p h = ground arith

accept_header-is_chunked :
    (p : Parser) (line : List ℕ) (j : ℕ) → (accept_header line j p).is_chunked ≡ p.is_chunked
unfolding accept_header
accept_header-is_chunked p line j = refl

pub parse_headers-is_chunked :
    (k : ℕ) (p : Parser) → (parse_headers k p).is_chunked ≡ false → p.is_chunked ≡ false
unfolding parse_headers
parse_headers-is_chunked zero p h = h
parse_headers-is_chunked (suc k) p h = elim (round p) [
  | waits e ↦ ap (λ (t : Parser). t.is_chunked) (sym (headers_wait k p e)) ∙ h
  | ends i e blank ↦
      end_headers-is_chunked (cut_line i p)
        (ap (λ (t : Parser). t.is_chunked) (sym (headers_end k p i e blank)) ∙ h)
  | bad i e full c ↦ ap (λ (t : Parser). t.is_chunked) (sym (headers_bad k p i e full c)) ∙ h
  | one_line i j e full c ↦
      sym (accept_header-is_chunked (cut_line i p) (take i p.buffer) j)
      ∙ parse_headers-is_chunked k (accept_header (take i p.buffer) j (cut_line i p))
          (ap (λ (t : Parser). t.is_chunked) (sym (headers_line k p i e j full c)) ∙ h)
]

stage-Same :
    (q : Parser) (b : List ℕ)
    → (q.state ≡ headers) ⊎ (q.state ≡ failed)
    → (stage_headers (appended q b)).is_chunked ≡ false
    → Same (feed (stage_headers q) b) (stage_headers (appended q b))
stage-Same q b (inl st) plain =
    let there : stage_headers (appended q b) ≡ after (enough (appended q b)) (appended q b) =
      stage_headers_lem (appended q b) st in
    Same-left (ap (λ (t : Parser). feed t b) (stage_headers_lem q st)) (
      Same-right there (
        after-Same b (enough q) (enough (appended q b)) q st (omega arith)
          (omega (arith, length-append q.buffer b))
          (sym (
              when_body-is_chunked (parse_headers (enough (appended q b)) (appended q b)).state
                (parse_headers (enough (appended q b)) (appended q b)))
            ∙ ap (λ (t : Parser). t.is_chunked) (sym there)
            ∙ plain)))
stage-Same q b (inr st) plain =
    Same-left
      (ap (λ (t : Parser). feed t b) (stage_failed q st) ∙ feed_failed q b (ap is_failed st))
      (Same-right (stage_failed (appended q b) st) (unread-Same q b st))

module _ (p : Parser) (b : List ℕ) where
  request_line-Same :
      p.state ≡ request_line
      → (advance (appended p b)).is_chunked ≡ false
      → Same (feed (advance p) b) (advance (appended p b))
  request_line-Same st plain = elim (Option-cases (find crlf p.buffer)) [
    | inl e ↦
        Same-of_eq
          (ap (λ (t : Parser). feed t b) (advance_waits p st e) ∙ feed_going p b (ap is_failed st))
    | inr (i, e) ↦
        let q : Parser = accept_request_line (take i p.buffer) (cut_line i p) in
        let there : advance (appended p b) ≡ stage_headers (appended q b) =
          advance_line (appended p b) i st (find-crlf-append p.buffer b i e)
          ∙ ap stage_headers (
              ap (λ t. accept_request_line t (cut_line i (appended p b))) (line-appended p b i e)
              ∙ ap (accept_request_line (take i p.buffer)) (cut_line-appended p b i e)
              ∙ accept_request_line-appended (cut_line i p) b (take i p.buffer)) in
        Same-left (ap (λ (t : Parser). feed t b) (advance_line p i st e)) (
          Same-right there (
            stage-Same q b (accept_request_line-state (cut_line i p) (take i p.buffer))
              (ap (λ (t : Parser). t.is_chunked) (sym there) ∙ plain)))
  ]

  headers-Same :
      p.state ≡ headers
      → (advance (appended p b)).is_chunked ≡ false
      → Same (feed (advance p) b) (advance (appended p b))
  headers-Same st plain = Same-left (ap (λ (t : Parser). feed t b) (advance_headers p st)) (
      Same-right (advance_headers (appended p b) st) (
        stage-Same p b (inl st)
          (ap (λ (t : Parser). t.is_chunked) (sym (advance_headers (appended p b) st)) ∙ plain)))

  body-Same :
      p.state ≡ body
      → (advance (appended p b)).is_chunked ≡ false
      → Same (feed (advance p) b) (advance (appended p b))
  body-Same st plain =
      let plain' : p.is_chunked ≡ false =
        sym (parse_body-is_chunked (appended p b))
        ∙ ap (λ (t : Parser). t.is_chunked) (sym (advance_body (appended p b) st))
        ∙ plain in
      Same-of_eq (
        ap (λ (t : Parser). feed t b) (advance_body p st ∙ parse_body_plain p plain')
        ∙ sized_body-Same p b st plain'
        ∙ sym (advance_body (appended p b) st ∙ parse_body_plain (appended p b) plain'))

  complete-Same : p.state ≡ complete → Same (feed (advance p) b) (advance (appended p b))
  complete-Same st =
      Same-of_eq
        (ap (λ (t : Parser). feed t b) (advance_complete p st) ∙ feed_going p b (ap is_failed st))

pub State-cases :
    (s : State) → (s ≡ request_line) ⊎ (s ≡ headers) ⊎ (s ≡ body) ⊎ (s ≡ complete) ⊎ (s ≡ failed)
State-cases request_line = inl refl
State-cases headers = inr (inl refl)
State-cases body = inr (inr (inl refl))
State-cases complete = inr (inr (inr (inl refl)))
State-cases failed = inr (inr (inr (inr refl)))

-- Bytes that come in two calls and bytes that come in one lead to one parser, an error's unread bytes
-- aside, when the request is not chunked.
pub feed-Same :
    (p : Parser) (a b : List ℕ)
    → (feed p (a ++ b)).is_chunked ≡ false
    → Same (feed (feed p a) b) (feed p (a ++ b))
feed-Same p a b plain = elim (State-cases p.state) [
  | inl st ↦ going (ap is_failed st) (request_line-Same (appended p a) b st)
  | inr (inl st) ↦ going (ap is_failed st) (headers-Same (appended p a) b st)
  | inr (inr (inl st)) ↦ going (ap is_failed st) (body-Same (appended p a) b st)
  | inr (inr (inr (inl st))) ↦ going (ap is_failed st) (λ _. complete-Same (appended p a) b st)
  | inr (inr (inr (inr st))) ↦ Same-of_eq (
      ap (λ (t : Parser). feed t b) (feed_failed p a (ap is_failed st))
      ∙ feed_failed p b (ap is_failed st)
      ∙ sym (feed_failed p (a ++ b) (ap is_failed st)))
]
  where
    going :
        is_failed p.state ≡ false
        → ((advance (appended (appended p a) b)).is_chunked ≡ false
            → Same (feed (advance (appended p a)) b) (advance (appended (appended p a) b)))
        → Same (feed (feed p a) b) (feed p (a ++ b))
    going ok same =
        let there : feed p (a ++ b) ≡ advance (appended (appended p a) b) =
          feed_going p (a ++ b) ok
          ∙ ap (λ (t : List ℕ). advance (record p { buffer = t }))
              (sym (append_assoc p.buffer a b)) in
        Same-left (ap (λ (t : Parser). feed t b) (feed_going p a ok))
          (Same-right there (same (ap (λ (t : Parser). t.is_chunked) (sym there) ∙ plain)))
