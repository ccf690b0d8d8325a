-- ===== src/Http/RequestParser/Feeds.antt =====
-- Any number of calls of `feed` of HttpRequestParser.cpp.
use simply_node_framework.Prelude.{
  ℕ, Bool-cases, List, Option-cases, [], ap, append-nil, append_assoc, arith, false, inl, inr, refl,
  sym, take, true, ◌++◌, ◌∙◌, ◌∷◌, ◌≡◌, ◌⊎◌,
}
use simply_node_framework.Prelude.Bytes.{find}
use simply_node_framework.Http.RequestParser.{
  Parser, accept_request_line, advance, appended, crlf, cut_line, enough, failed, feed, headers,
  is_failed, parse_headers, request_line, stage_headers,
}
use simply_node_framework.Http.RequestParser.SizedBody.{
  Same, Same-of_eq, advance_body, advance_complete, advance_headers, feed_failed, feed_going,
  stage_headers_lem,
}
use simply_node_framework.Http.RequestParser.Split.{Same-left, Same-right}
use simply_node_framework.Http.RequestParser.Pieces.{
  feed-Same, State-cases, accept_request_line-state, advance_line, advance_waits,
  parse_body-is_chunked, parse_headers-is_chunked, stage_failed, when_body-is_chunked,
}

abbrev pub feed_all : Parser → List (List ℕ) → Parser
feed_all p [] = p
feed_all p (b ∷ bs) = feed_all (feed p b) bs

abbrev pub join : List (List ℕ) → List ℕ
join [] = []
join (b ∷ bs) = b ++ join bs

stage_headers-is_chunked :
    (p : Parser)
    → (p.state ≡ headers) ⊎ (p.state ≡ failed)
    → (stage_headers p).is_chunked ≡ false
    → p.is_chunked ≡ false
stage_headers-is_chunked p (inl st) h =
    let q : Parser = parse_headers (enough p) p in
    parse_headers-is_chunked (enough p) p (
      sym (when_body-is_chunked q.state q)
      ∙ ap (λ (t : Parser). t.is_chunked) (sym (stage_headers_lem p st))
      ∙ h)
stage_headers-is_chunked p (inr st) h =
    ap (λ (t : Parser). t.is_chunked) (sym (stage_failed p st)) ∙ h

accept_request_line-is_chunked :
    (p : Parser) (line : List ℕ) → (accept_request_line line p).is_chunked ≡ p.is_chunked
unfolding accept_request_line
accept_request_line-is_chunked p line = ground arith

advance_request_line-is_chunked :
    (p : Parser) → p.state ≡ request_line → (advance p).is_chunked ≡ false → p.is_chunked ≡ false
advance_request_line-is_chunked p st h = elim (Option-cases (find crlf p.buffer)) [
  | inl e ↦ ap (λ (t : Parser). t.is_chunked) (sym (advance_waits p st e)) ∙ h
  | inr (i, e) ↦
      let q : Parser = cut_line i p in
      let line : List ℕ = take i p.buffer in
      sym (accept_request_line-is_chunked q line)
      ∙ stage_headers-is_chunked (accept_request_line line q) (accept_request_line-state q line)
          (ap (λ (t : Parser). t.is_chunked) (sym (advance_line p i st e)) ∙ h)
]

feed-is_chunked : (p : Parser) (b : List ℕ) → (feed p b).is_chunked ≡ false → p.is_chunked ≡ false
feed-is_chunked p b h = elim (State-cases p.state) [
  | inl st ↦ advance_request_line-is_chunked (appended p b) st (going (ap is_failed st))
  | inr (inl st) ↦ stage_headers-is_chunked (appended p b) (inl st) (
      ap (λ (t : Parser). t.is_chunked) (sym (advance_headers (appended p b) st))
      ∙ going (ap is_failed st))
  | inr (inr (inl st)) ↦
      sym (parse_body-is_chunked (appended p b))
      ∙ ap (λ (t : Parser). t.is_chunked) (sym (advance_body (appended p b) st))
      ∙ going (ap is_failed st)
  | inr (inr (inr (inl st))) ↦
      ap (λ (t : Parser). t.is_chunked) (sym (advance_complete (appended p b) st))
      ∙ going (ap is_failed st)
  | inr (inr (inr (inr st))) ↦
      ap (λ (t : Parser). t.is_chunked) (sym (feed_failed p b (ap is_failed st))) ∙ h
]
  where
    going : is_failed p.state ≡ false → (advance (appended p b)).is_chunked ≡ false
    going ok = ap (λ (t : Parser). t.is_chunked) (sym (feed_going p b ok)) ∙ h

Same-trans : (p q r : Parser) → Same p q → Same q r → Same p r
Same-trans p q r s t = record {
  unread = s.unread ∙ ap (λ (x : Parser). record x { buffer = p.buffer }) t.unread;
  whole = λ ok. s.whole (ap (λ (x : Parser). is_failed x.state) (t.whole ok) ∙ ok) ∙ t.whole ok;
}

feed_all_failed : (p : Parser) (bs : List (List ℕ)) → is_failed p.state ≡ true → feed_all p bs ≡ p
feed_all_failed p [] stuck = refl
feed_all_failed p (b ∷ bs) stuck =
    ap (λ (t : Parser). feed_all t bs) (feed_failed p b stuck) ∙ feed_all_failed p bs stuck

-- Two parsers that differ in unread bytes at most stay so.
feed_all-Same :
    (p q : Parser) (bs : List (List ℕ)) → Same p q → Same (feed_all p bs) (feed_all q bs)
feed_all-Same p q bs s = elim (Bool-cases (is_failed q.state)) [
  | inl stuck ↦
      Same-left (feed_all_failed p bs (ap (λ (t : Parser). is_failed t.state) s.unread ∙ stuck))
        (Same-right (feed_all_failed q bs stuck) s)
  | inr ok ↦ Same-of_eq (ap (λ (t : Parser). feed_all t bs) (s.whole ok))
]

-- However the bytes of a request are cut into calls of `feed`, the parser ends as after one call with
-- all of them (an error's unread bytes aside), when the request is not chunked.
pub pieces-Same :
    (p : Parser) (b : List ℕ) (bs : List (List ℕ))
    → (feed p (b ++ join bs)).is_chunked ≡ false
    → Same (feed_all p (b ∷ bs)) (feed p (b ++ join bs))
pieces-Same p b [] plain = Same-of_eq (ap (feed p) (sym (append-nil b)))
pieces-Same p b (c ∷ cs) plain =
    let regroup : feed p (b ++ (c ++ join cs)) ≡ feed p ((b ++ c) ++ join cs) =
      ap (feed p) (sym (append_assoc b c (join cs))) in
    let plain' : (feed p ((b ++ c) ++ join cs)).is_chunked ≡ false =
      ap (λ (t : Parser). t.is_chunked) (sym regroup) ∙ plain in
    let last : Same (feed (feed p (b ++ c)) (join cs)) (feed p ((b ++ c) ++ join cs)) =
      feed-Same p (b ++ c) (join cs) plain' in
    let early : (feed p (b ++ c)).is_chunked ≡ false =
      feed-is_chunked (feed p (b ++ c)) (join cs)
        (ap (λ (t : Parser). t.is_chunked) last.unread ∙ plain') in
    Same-right regroup (
      Same-trans (feed_all p (b ∷ c ∷ cs)) (feed_all p ((b ++ c) ∷ cs))
        (feed p ((b ++ c) ++ join cs))
        (feed_all-Same (feed (feed p b) c) (feed p (b ++ c)) cs (feed-Same p b c early))
        (pieces-Same p (b ++ c) cs plain'))
