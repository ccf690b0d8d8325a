-- ===== src/Network/TcpSocket/Sent.antt =====
-- What a socket sends is what it was given to write, from the first byte on.
use Prim.Native.Nat.{min}
use simply_node_framework.Prelude.{
  ℕ, List, [], ap, append_assoc, arith, by_test, drop, false, length, length-append, length-take,
  none, refl, sym, take, take-append-drop, true, ◌++◌, ◌+◌, ◌∙◌, ◌∷◌, ◌≡◌,
}
use simply_node_framework.Network.TcpSocket.{
  TcpSocket, Failure, Signal, apply_disconnected, broken, bytes_written, connected_signal,
  disconnected, disconnected_signal, drop_consumed, emit, error_occurred, fail_with, is_live,
  pop_consumed, ready_read, took, transition_to_disconnected, update_interest,
}

abbrev pub joined : List (List ℕ) → List ℕ
joined [] = []
joined (d ∷ ds) = d ++ joined ds

-- How many bytes the `bytesWritten` signals come to.
abbrev pub reported : List Signal → ℕ
reported [] = 0
reported (bytes_written n ∷ ss) = n + reported ss
reported (_ ∷ ss) = reported ss

-- The bytes accepted so far: some are sent, and in their order; while the connection lives the others
-- are in the queue. The signals tell of all that are sent.
pub record Keeps (accepted : List ℕ) (t : TcpSocket) : Type 0 where
  pub rest : List ℕ
  pub split : accepted ≡ t.sent ++ rest
  pub waiting : is_live t.state ≡ true → rest ≡ joined t.write_queue
  pub told : reported t.signals ≡ length t.sent

reported-append : (ss us : List Signal) → reported (ss ++ us) ≡ reported ss + reported us
reported-append [] us = omega arith
reported-append (bytes_written n ∷ ss) us = omega (arith, reported-append ss us)
reported-append (connected_signal ∷ ss) us = reported-append ss us
reported-append (disconnected_signal ∷ ss) us = reported-append ss us
reported-append (ready_read ∷ ss) us = reported-append ss us
reported-append (error_occurred f ∷ ss) us = reported-append ss us

-- A change that sends nothing and keeps the queue of a connection that lives.
pub still-Keeps :
    (accepted : List ℕ) (t u : TcpSocket)
    → u.sent ≡ t.sent
    → reported u.signals ≡ reported t.signals
    → (is_live u.state ≡ true
        → (is_live t.state ≡ true) × (joined u.write_queue ≡ joined t.write_queue))
    → Keeps accepted t
    → Keeps accepted u
still-Keeps accepted t u same quiet lives h = record {
  rest = h.rest;
  split = h.split ∙ ap (λ s. s ++ h.rest) (sym same);
  waiting = λ l. h.waiting (lives l).0 ∙ sym (lives l).1;
  told = quiet ∙ h.told ∙ ap length (sym same);
}

-- A signal that tells of no bytes.
pub emit-Keeps :
    (accepted : List ℕ) (t : TcpSocket) (s : Signal)
    → reported (s ∷ []) ≡ 0
    → Keeps accepted t
    → Keeps accepted (emit s t)
emit-Keeps accepted t s silent h =
    still-Keeps accepted t (emit s t) refl
      (omega (arith, reported-append t.signals (s ∷ []), silent)) (λ l. (l, refl)) h

pub apply_disconnected-Keeps :
    (accepted : List ℕ) (t : TcpSocket) → Keeps accepted t → Keeps accepted (apply_disconnected t)
unfolding apply_disconnected transition_to_disconnected
apply_disconnected-Keeps accepted t h =
    let v : TcpSocket = record t {
      state = disconnected;
      read_buffer = [];
      write_queue = [];
      active = false;
      descriptor = none;
    } in
    let k : Keeps accepted v =
      still-Keeps accepted t v refl refl (λ l. absurd (ground (arith, l))) h in
    by_test (Keeps accepted) (is_live t.state) (emit disconnected_signal v) v
      (λ e. emit-Keeps accepted v disconnected_signal refl k) (λ e. k)

pub fail_with-Keeps :
    (accepted : List ℕ) (f : Failure) (t : TcpSocket)
    → Keeps accepted t
    → Keeps accepted (fail_with f t)
unfolding fail_with
fail_with-Keeps accepted f t h =
    let v : TcpSocket = record t { state = broken } in
    emit-Keeps accepted v (error_occurred f) refl
      (still-Keeps accepted t v refl refl (λ l. absurd (ground (arith, l))) h)

pub update_interest-Keeps :
    (accepted : List ℕ) (t : TcpSocket) → Keeps accepted t → Keeps accepted (update_interest t)
unfolding update_interest
update_interest-Keeps accepted t h =
    still-Keeps accepted t (update_interest t) refl refl (λ l. (l, refl)) h

pub joined-drop_consumed : (ds : List (List ℕ)) → joined (drop_consumed ds) ≡ joined ds
unfolding drop_consumed
joined-drop_consumed [] = refl
joined-drop_consumed ([] ∷ ds) = joined-drop_consumed ds
joined-drop_consumed ((c ∷ d) ∷ ds) = refl

joined-pop_consumed :
    (d : List ℕ) (ds : List (List ℕ)) → joined (pop_consumed d ds) ≡ d ++ joined ds
joined-pop_consumed [] ds = refl
joined-pop_consumed (c ∷ d) ds = refl

pub took-Keeps :
    (accepted : List ℕ) (n : ℕ) (d : List ℕ) (ds : List (List ℕ)) (t : TcpSocket)
    → is_live t.state ≡ true
    → joined t.write_queue ≡ d ++ joined ds
    → Keeps accepted t
    → Keeps accepted (took (min n (length d)) d ds t)
unfolding took
took-Keeps accepted n d ds t live front h =
    let w = min n (length d) in
    record {
      rest = drop w d ++ joined ds;
      split =
          h.split
          ∙ ap (λ r. t.sent ++ r) (h.waiting live ∙ front)
          ∙ ap (λ r. t.sent ++ (r ++ joined ds)) (sym (take-append-drop w d))
          ∙ ap (λ r. t.sent ++ r) (append_assoc (take w d) (drop w d) (joined ds))
          ∙ sym (append_assoc t.sent (take w d) (drop w d ++ joined ds));
      waiting = λ l. sym (joined-pop_consumed (drop w d) ds);
      told = omega (
        arith,
        h.told,
        reported-append t.signals (bytes_written w ∷ []),
        length-append t.sent (take w d),
        length-take w d,
      );
    }
