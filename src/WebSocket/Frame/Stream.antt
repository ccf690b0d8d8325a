-- ===== src/WebSocket/Frame/Stream.antt =====
-- The loop of `feed` in WebSocketFrame.cpp: it ends, and how the bytes are cut into calls of
-- `feed` makes no difference.
use simply_node_framework.Prelude.{
  ℕ, List, [], arith, drop, inl, inr, length, length-drop, none, refl, some, suc, zero, ◌++◌, ◌+◌,
  ◌<◌, ◌∙◌, ◌∷◌, ◌≡◌, ◌≢◌, ◌≤◌, ◌⊎◌, drop-append_le, if◌then◌else◌, length-append, Option-cases,
  append-nil, append_assoc,
}
use simply_node_framework.WebSocket.Frame.{
  Parser, Frame, FrameError, Parse, appended, drain, fail, has_error, more, ok, parse_front, feed,
}
use simply_node_framework.WebSocket.Frame.Extends.{parse_front-le, parse_front-Keeps}

-- One round of the loop, by what the buffer holds.
pub drain_more :
    (fuel : ℕ) (p : Parser) → p.error ≡ none → parse_front p.buffer ≡ more → drain (suc fuel) p ≡ p
unfolding drain
drain_more fuel p clear e = ground arith

pub drain-fail :
    (fuel : ℕ) (p : Parser) (x : FrameError)
    → p.error ≡ none
    → parse_front p.buffer ≡ fail x
    → drain (suc fuel) p ≡ record p { error = some x }
unfolding drain
drain-fail fuel p x clear e = ground arith

abbrev pub advanced : Parser → Frame → ℕ → Parser
advanced p frame count = record p { buffer = drop count p.buffer; frames = p.frames ++ frame ∷ [] }

pub drain_ok :
    (fuel : ℕ) (p : Parser) (frame : Frame) (count : ℕ)
    → p.error ≡ none
    → parse_front p.buffer ≡ ok (frame, count)
    → drain (suc fuel) p ≡ drain fuel (advanced p frame count)
unfolding drain
drain_ok fuel p frame count clear e = ground arith

pub Parse-cases {ℓ} :
    {A : Type ℓ} (r : Parse A)
    → (r ≡ more) ⊎ ((e : FrameError) × (r ≡ fail e)) ⊎ ((a : A) × (r ≡ ok a))
Parse-cases more = inl refl
Parse-cases (fail e) = inr (inl (e, refl))
Parse-cases (ok a) = inr (inr (a, refl))

advanced-shorter :
    (p : Parser) (frame : Frame) (count : ℕ)
    → parse_front p.buffer ≡ ok (frame, count)
    → (length (advanced p frame count).buffer + 2 ≤ length p.buffer)
advanced-shorter p frame count e =
    omega (arith, parse_front-le p.buffer frame count e, length-drop count p.buffer)

-- Fuel above the length of the buffer is as good as any other.
drain_fuel :
    (k m : ℕ) (p : Parser)
    → p.error ≡ none
    → length p.buffer < k
    → length p.buffer < m
    → drain k p ≡ drain m p
drain_fuel zero m p clear h h' = absurd (omega arith)
drain_fuel (suc k) zero p clear h h' = absurd (omega arith)
drain_fuel (suc k) (suc m) p clear h h' = elim (Parse-cases (parse_front p.buffer)) [
  | inl e ↦ rw (drain_more k p clear e, drain_more m p clear e)
  | inr (inl (x, e)) ↦ rw (drain-fail k p x clear e, drain-fail m p x clear e)
  | inr (inr ((frame, count), e)) ↦
      rw (drain_ok k p frame count clear e, drain_ok m p frame count clear e)
        (drain_fuel k m (advanced p frame count) clear
          (omega (arith, advanced-shorter p frame count e))
          (omega (arith, advanced-shorter p frame count e)))
]

-- Nothing more can be read: the parser is in error, or waits for bytes.
abbrev pub IsSettled : Parser → Type 0
IsSettled p = (p.error ≢ none) ⊎ (parse_front p.buffer ≡ more)

drain-IsSettled :
    (k : ℕ) (p : Parser) → p.error ≡ none → length p.buffer < k → IsSettled (drain k p)
drain-IsSettled zero p clear h = absurd (omega arith)
drain-IsSettled (suc k) p clear h = elim (Parse-cases (parse_front p.buffer)) [
  | inl e ↦ rw (drain_more k p clear e) (inr e)
  | inr (inl (x, e)) ↦ rw (drain-fail k p x clear e) (inl (λ q. cc))
  | inr (inr ((frame, count), e)) ↦ rw (drain_ok k p frame count clear e) (
      drain-IsSettled k (advanced p frame count) clear
        (omega (arith, advanced-shorter p frame count e)))
]

-- The two parsers have the same frames and the same error, and are one where there is no error.
pub record Same (p q : Parser) : Type 0 where
  pub frames : p.frames ≡ q.frames
  pub error : p.error ≡ q.error
  pub whole : q.error ≡ none → p ≡ q

pub Same-refl : (p : Parser) → Same p p
Same-refl p = record { frames = refl; error = refl; whole = λ _. refl }

pub Same-trans : {p q r : Parser} → Same p q → Same q r → Same p r
Same-trans {p} {q} {r} s t = record {
  frames = s.frames ∙ t.frames;
  error = s.error ∙ t.error;
  whole = λ e. s.whole (t.error ∙ e) ∙ t.whole e;
}

-- Reading on after more bytes have come, on enough fuel.
resume : Parser → List ℕ → ℕ → Parser
resume q bytes m = if has_error q then q else drain m (appended q bytes)

resume_clear :
    (q : Parser) (bytes : List ℕ) (m : ℕ)
    → q.error ≡ none
    → resume q bytes m ≡ drain m (appended q bytes)
unfolding resume
resume_clear q bytes m clear = ground arith

resume_error :
    (q : Parser) (bytes : List ℕ) (m : ℕ) (x : FrameError) → q.error ≡ some x → resume q bytes m ≡ q
unfolding resume
resume_error q bytes m x e = ground arith

drain-append :
    (k m n : ℕ) (p : Parser) (bytes : List ℕ)
    → p.error ≡ none
    → length p.buffer < k
    → length p.buffer + length bytes < m
    → length (drain k p).buffer + length bytes < n
    → Same (resume (drain k p) bytes n) (drain m (appended p bytes))
drain-append zero m n p bytes clear h hm hn = absurd (omega arith)
drain-append (suc k) zero n p bytes clear h hm hn = absurd (omega arith)
drain-append (suc k) (suc m) n p bytes clear h hm hn = elim (Parse-cases (parse_front p.buffer)) [
  | inl e ↦
      rw
        (
          drain_more k p clear e,
          resume_clear p bytes n clear,
          drain_fuel n (suc m) (appended p bytes) clear
              (omega (arith, rw (drain_more k p clear e) at hn, length-append p.buffer bytes))
              (omega (arith, length-append p.buffer bytes)),
        )
        (Same-refl _)
  | inr (inl (x, e)) ↦
      let e' : parse_front (p.buffer ++ bytes) ≡ fail x =
        rw e at (parse_front-Keeps p.buffer bytes) in
      rw
        (
          drain-fail k p x clear e,
          resume_error (record p { error = some x }) bytes n x refl,
          drain-fail m (appended p bytes) x clear e',
        )
        (record { frames = refl; error = refl; whole = λ q. cc })
  | inr (inr ((frame, count), e)) ↦
      let e' : parse_front (p.buffer ++ bytes) ≡ ok (frame, count) =
        rw e at (parse_front-Keeps p.buffer bytes) in
      let shorter = advanced-shorter p frame count e in
      let cut : drop count (p.buffer ++ bytes) ≡ drop count p.buffer ++ bytes =
        drop-append_le count p.buffer bytes
          (omega (arith, parse_front-le p.buffer frame count e)) in
      rw (drain_ok k p frame count clear e, drain_ok m (appended p bytes) frame count clear e')
        (rw cut (
          drain-append k m n (advanced p frame count) bytes clear (omega arith) (omega arith)
            (rw (drain_ok k p frame count clear e) at hn)))
]

pub feed_nil : (p : Parser) → feed p [] ≡ p
unfolding feed
feed_nil p = ground arith

pub feed_error :
    (p : Parser) (bytes : List ℕ) (x : FrameError) → p.error ≡ some x → feed p bytes ≡ p
unfolding feed
feed_error p bytes x e = ground arith

pub feed_clear :
    (p : Parser) (b : ℕ) (bs : List ℕ)
    → p.error ≡ none
    → feed p (b ∷ bs) ≡ drain (suc (length (p.buffer ++ b ∷ bs))) (appended p (b ∷ bs))
unfolding feed
feed_clear p b bs clear = ground arith

feed-resume :
    (q : Parser) (b : ℕ) (bs : List ℕ)
    → feed q (b ∷ bs) ≡ resume q (b ∷ bs) (suc (length (q.buffer ++ b ∷ bs)))
unfolding feed resume
feed-resume q b bs = ground arith

-- Two calls of `feed` come to one with all the bytes.
feed-Same : (p : Parser) (a b : List ℕ) → Same (feed (feed p a) b) (feed p (a ++ b))
feed-Same p [] b = rw (feed_nil p) (Same-refl _)
feed-Same p (x ∷ a) [] = rw (feed_nil (feed p (x ∷ a)), append-nil a) (Same-refl _)
feed-Same p (x ∷ a) (y ∷ b) = elim (Option-cases p.error) [
  | inl clear ↦
      let whole = appended p (x ∷ a) in
      let q = drain (suc (length (p.buffer ++ x ∷ a))) whole in
      rw
        (
          feed_clear p x a clear,
          feed-resume q y b,
          feed_clear p x (a ++ y ∷ b) clear,
          ← append_assoc p.buffer (x ∷ a) (y ∷ b),
        )
        (drain-append _ _ _ whole (y ∷ b) clear (omega arith)
          (omega (arith, length-append (p.buffer ++ x ∷ a) (y ∷ b)))
          (omega (arith, length-append q.buffer (y ∷ b))))
  | inr (e, failed) ↦
      rw
        (
          feed_error p (x ∷ a) e failed,
          feed_error p (y ∷ b) e failed,
          feed_error p (x ∷ (a ++ y ∷ b)) e failed,
        )
        (Same-refl p)
]

abbrev pub feed_all : Parser → List (List ℕ) → Parser
feed_all p [] = p
feed_all p (c ∷ cs) = feed_all (feed p c) cs

abbrev pub joined : List (List ℕ) → List ℕ
joined [] = []
joined (c ∷ cs) = c ++ joined cs

-- However the bytes are cut into pieces, the parser comes to the frames and the error that it comes
-- to when they arrive at once; where that is no error, it comes to the same state, buffer included.
pub feed_all-Same :
    (p : Parser) (pieces : List (List ℕ)) → Same (feed_all p pieces) (feed p (joined pieces))
feed_all-Same p [] = rw (feed_nil p) (Same-refl p)
feed_all-Same p (c ∷ cs) = Same-trans (feed_all-Same (feed p c) cs) (feed-Same p c (joined cs))

-- After `feed` of at least one byte there is an error, or no whole frame is
-- left in the buffer: the loop has run to its end on the fuel that it is given.
pub feed-IsSettled : (p : Parser) (b : ℕ) (bs : List ℕ) → IsSettled (feed p (b ∷ bs))
feed-IsSettled p b bs = elim (Option-cases p.error) [
  | inl clear ↦
      rw (feed_clear p b bs clear) (drain-IsSettled _ (appended p (b ∷ bs)) clear (omega arith))
  | inr (e, failed) ↦ rw (feed_error p (b ∷ bs) e failed) (inl (λ q. cc))
]

-- The frames that a parser holds already take no part in the reading.
abbrev pub prepend : List Frame → Parser → Parser
prepend fs p = record p { frames = fs ++ p.frames }

drain-prepend :
    (k : ℕ) (fs : List Frame) (p : Parser)
    → p.error ≡ none
    → drain k (prepend fs p) ≡ prepend fs (drain k p)
unfolding drain
drain-prepend zero fs p clear = refl
drain-prepend (suc k) fs p clear = elim (Parse-cases (parse_front p.buffer)) [
  | inl e ↦ rw (drain_more k p clear e, drain_more k (prepend fs p) clear e) refl
  | inr (inl (x, e)) ↦ rw (drain-fail k p x clear e, drain-fail k (prepend fs p) x clear e) refl
  | inr (inr ((frame, count), e)) ↦
      rw (drain_ok k p frame count clear e, drain_ok k (prepend fs p) frame count clear e)
        (rw (append_assoc fs p.frames (frame ∷ []))
          (drain-prepend k fs (advanced p frame count) clear))
]

feed-prepend :
    (fs : List Frame) (p : Parser) (bytes : List ℕ)
    → feed (prepend fs p) bytes ≡ prepend fs (feed p bytes)
feed-prepend fs p [] = rw (feed_nil p, feed_nil (prepend fs p)) refl
feed-prepend fs p (b ∷ bs) = elim (Option-cases p.error) [
  | inl clear ↦
      rw (feed_clear p b bs clear, feed_clear (prepend fs p) b bs clear)
        (drain-prepend _ fs (appended p (b ∷ bs)) clear)
  | inr (x, failed) ↦
      rw (feed_error p (b ∷ bs) x failed, feed_error (prepend fs p) (b ∷ bs) x failed) refl
]

pub feed_all-prepend :
    (fs : List Frame) (p : Parser) (pieces : List (List ℕ))
    → feed_all (prepend fs p) pieces ≡ prepend fs (feed_all p pieces)
feed_all-prepend fs p [] = refl
feed_all-prepend fs p (c ∷ cs) = rw (feed-prepend fs p c) (feed_all-prepend fs (feed p c) cs)
