-- ===== src/Network/TcpSocket/Delivered.antt =====
-- The order of the bytes holds over every run of a socket.
use Prim.Native.Nat.{min}
use mathlib.Core.Path.{subst}
use simply_node_framework.Prelude.{
  ℕ, Bool, List, [], arith, by_test, false, if◌then◌else◌, length, refl, sym, true, ◌++◌, ◌==◌, ◌∷◌,
  ◌≡◌, ap, append-nil, append_assoc, by_option, not, take, ◌&&◌, ◌||◌, ◌∙◌,
}
use simply_node_framework.Network.TcpSocket.{
  TcpSocket, Taken, drop_consumed, fail_with, flush, flush_loop, interrupted, is_live, is_open,
  refused, send_broken, send_failed, send_once, takes, took, would_block, Events, Failure, Received,
  again, apply_connected, apply_disconnected, at_end, complete_connect, completion_failed,
  connected, connected_signal, emit, failing, getsockopt_failed, gives, handle_events,
  handle_readable, handle_writable, is_connected, is_connecting, is_nil, no_error, no_more,
  read_loop, ready_read, recv_failed, transfer, update_interest, write,
}
use simply_node_framework.Network.TcpSocket.Sent.{
  Keeps, apply_disconnected-Keeps, fail_with-Keeps, joined, still-Keeps, emit-Keeps,
  joined-drop_consumed, took-Keeps, update_interest-Keeps,
}

send_broken-Keeps :
    (accepted : List ℕ) (t : TcpSocket) → Keeps accepted t → Keeps accepted (send_broken t)
unfolding send_broken
send_broken-Keeps accepted t h =
    apply_disconnected-Keeps accepted (fail_with send_failed t)
      (fail_with-Keeps accepted send_failed t h)

-- What one call of `send` leaves, and that the connection lives where the loop goes on.
abbrev Goes : List ℕ → Bool × TcpSocket → Type 0
Goes accepted r = Keeps accepted r.1 × (r.0 ≡ true → is_live (r.1).state ≡ true)

send_once-Goes :
    (accepted : List ℕ) (a : Taken) (d : List ℕ) (ds : List (List ℕ)) (t : TcpSocket)
    → is_live t.state ≡ true
    → joined t.write_queue ≡ d ++ joined ds
    → Keeps accepted t
    → Goes accepted (send_once a d ds t)
unfolding send_once took
send_once-Goes accepted (takes n) d ds t live front h =
    by_test (Goes accepted) (min n (length d) == 0) (false, send_broken t)
      (true, took (min n (length d)) d ds t)
      (λ e. (send_broken-Keeps accepted t h, λ g. absurd (ground (arith, g))))
      (λ e. (took-Keeps accepted n d ds t live front h, λ g. live))
send_once-Goes accepted would_block d ds t live front h = (
  still-Keeps accepted t (record t { write_queue = d ∷ ds }) refl refl (λ l. (l, sym front)) h,
  λ g. live,
)
send_once-Goes accepted interrupted d ds t live front h = (
  still-Keeps accepted t (record t { write_queue = d ∷ ds }) refl refl (λ l. (l, sym front)) h,
  λ g. live,
)
send_once-Goes accepted refused d ds t live front h =
    (send_broken-Keeps accepted t h, λ g. absurd (ground (arith, g)))

-- A round of the loop, where the rounds behind it keep the order.
round-Keeps :
    (accepted : List ℕ) (a : Taken) (answers : List Taken) (t : TcpSocket) (q : List (List ℕ))
    → ((u : TcpSocket)
        → is_live u.state ≡ true
        → Keeps accepted u
        → Keeps accepted (flush_loop answers u))
    → is_live t.state ≡ true
    → Keeps accepted t
    → joined t.write_queue ≡ joined q
    → Keeps accepted (elim q as (λ x. TcpSocket) [
      | [] ↦ record t { write_queue = [] }
      | d ∷ ds ↦
          let (goes_on, u) = send_once a d ds t in
          let rest = flush_loop answers u in if goes_on then rest else u
    ])
round-Keeps accepted a answers t [] behind live h e =
    still-Keeps accepted t (record t { write_queue = [] }) refl refl (λ l. (l, sym e)) h
round-Keeps accepted a answers t (d ∷ ds) behind live h e =
    let (goes_on, u) = send_once a d ds t in
    let (kept, lives) = send_once-Goes accepted a d ds t live e h in
    by_test (Keeps accepted) goes_on (flush_loop answers u) u (λ g. behind u (lives g) kept)
      (λ g. kept)

flush_loop-Keeps :
    (accepted : List ℕ) (answers : List Taken) (t : TcpSocket)
    → is_live t.state ≡ true
    → Keeps accepted t
    → Keeps accepted (flush_loop answers t)
unfolding flush_loop
flush_loop-Keeps accepted [] t live h =
    still-Keeps accepted t (record t { write_queue = drop_consumed t.write_queue }) refl refl
      (λ l. (l, joined-drop_consumed t.write_queue)) h
flush_loop-Keeps accepted (a ∷ answers) t live h =
    round-Keeps accepted a answers t (drop_consumed t.write_queue)
      (λ u l k. flush_loop-Keeps accepted answers u l k) live h
      (sym (joined-drop_consumed t.write_queue))

flush-Keeps :
    (accepted : List ℕ) (answers : List Taken) (t : TcpSocket)
    → is_live t.state ≡ true
    → Keeps accepted t
    → Keeps accepted (flush answers t)
unfolding flush
flush-Keeps accepted answers t live h =
    by_test (Keeps accepted) (is_open t.descriptor) (flush_loop answers t) t
      (λ e. flush_loop-Keeps accepted answers t live h) (λ e. h)

handle_writable-Keeps :
    (accepted : List ℕ) (answers : List Taken) (t : TcpSocket)
    → is_live t.state ≡ true
    → Keeps accepted t
    → Keeps accepted (handle_writable answers t)
unfolding handle_writable
handle_writable-Keeps accepted answers t live h =
    update_interest-Keeps accepted (flush answers t) (flush-Keeps accepted answers t live h)

pub apply_connected-Keeps :
    (accepted : List ℕ) (answers : List Taken) (t : TcpSocket)
    → is_live t.state ≡ true
    → Keeps accepted t
    → Keeps accepted (apply_connected answers t)
unfolding apply_connected update_interest handle_writable
apply_connected-Keeps accepted answers t live h =
    let u : TcpSocket = record (update_interest (record t { state = connected })) {
      active = true;
    } in
    let k : Keeps accepted u = still-Keeps accepted t u refl refl (λ l. (live, refl)) h in
    handle_writable-Keeps accepted answers (emit connected_signal u) refl
      (emit-Keeps accepted u connected_signal refl k)

take_all : (s : List ℕ) → take (length s) s ≡ s
take_all [] = refl
take_all (c ∷ s) = ap (◌∷◌ c) (take_all s)

joined-append : (q : List (List ℕ)) (d : List ℕ) → joined (q ++ (d ∷ [])) ≡ joined q ++ d
joined-append [] d = append-nil d
joined-append (x ∷ q) d = ap (λ s. x ++ s) (joined-append q d) ∙ sym (append_assoc x (joined q) d)

pub write-Keeps :
    (accepted : List ℕ) (answers : List Taken) (bytes : List ℕ) (t : TcpSocket)
    → Keeps accepted t
    → (let (n, u) = write answers bytes t in Keeps (accepted ++ take n bytes) u)
unfolding write
write-Keeps accepted answers bytes t h =
    by_test {A = ℕ × TcpSocket} (λ r. Keeps (accepted ++ take r.0 bytes) r.1)
      (is_nil bytes || not (is_live t.state)) (0, t)
      (
        length bytes,
        update_interest (flush answers (record t { write_queue = t.write_queue ++ (bytes ∷ []) })),
      )
      (λ e. subst (λ s. Keeps s t) (sym (append-nil accepted)) h)
      (λ e.
        let live : is_live t.state ≡ true = ground (arith, e) in
        let u : TcpSocket = record t { write_queue = t.write_queue ++ (bytes ∷ []) } in
        let whole : accepted ++ take (length bytes) bytes ≡ accepted ++ bytes =
          ap (λ s. accepted ++ s) (take_all bytes) in
        let k : Keeps (accepted ++ bytes) u = record {
          rest = h.rest ++ bytes;
          split = ap (λ s. s ++ bytes) h.split ∙ append_assoc t.sent h.rest bytes;
          waiting =
              λ l. ap (λ s. s ++ bytes) (h.waiting live) ∙ sym (joined-append t.write_queue bytes);
          told = h.told;
        } in
        subst (λ s. Keeps s (update_interest (flush answers u))) (sym whole)
          (update_interest-Keeps (accepted ++ bytes) (flush answers u)
            (flush-Keeps (accepted ++ bytes) answers u live k)))

read_loop-Keeps :
    (accepted : List ℕ) (b : Bool) (answers : List Received) (t : TcpSocket)
    → Keeps accepted t
    → Keeps accepted (read_loop b answers t)
unfolding read_loop
read_loop-Keeps accepted b [] t h =
    by_test (Keeps accepted) b (emit ready_read t) t (λ e. emit-Keeps accepted t ready_read refl h)
      (λ e. h)
read_loop-Keeps accepted b (gives bytes ∷ answers) t h =
    let u : TcpSocket = record t { read_buffer = t.read_buffer ++ bytes } in
    by_test (Keeps accepted) (is_nil bytes) (apply_disconnected t) (read_loop true answers u)
      (λ e. apply_disconnected-Keeps accepted t h)
      (λ e.
        read_loop-Keeps accepted true answers u
          (still-Keeps accepted t u refl refl (λ l. (l, refl)) h))
read_loop-Keeps accepted b (at_end ∷ answers) t h = apply_disconnected-Keeps accepted t h
read_loop-Keeps accepted b (no_more ∷ answers) t h =
    by_test (Keeps accepted) b (emit ready_read t) t (λ e. emit-Keeps accepted t ready_read refl h)
      (λ e. h)
read_loop-Keeps accepted b (again ∷ answers) t h = read_loop-Keeps accepted b answers t h
read_loop-Keeps accepted b (failing ∷ answers) t h =
    apply_disconnected-Keeps accepted (fail_with recv_failed t)
      (fail_with-Keeps accepted recv_failed t h)

transfer-Keeps :
    (accepted : List ℕ) (e : Events) (takens : List Taken) (receiveds : List Received)
    (t : TcpSocket)
    → Keeps accepted t
    → Keeps accepted (transfer e takens receiveds t)
unfolding transfer handle_readable
transfer-Keeps accepted e takens receiveds t h =
    let u = if e.readable && is_connected t.state then handle_readable receiveds t else t in
    let k : Keeps accepted u =
      by_test (Keeps accepted) (e.readable && is_connected t.state) (handle_readable receiveds t) t
        (λ r.
          by_test (Keeps accepted) (is_open t.descriptor) (read_loop false receiveds t) t
            (λ o. read_loop-Keeps accepted false receiveds t h) (λ o. h))
        (λ r. h) in
    by_test (Keeps accepted) (e.writable && is_connected u.state) (handle_writable takens u) u
      (λ w.
        let live : is_live u.state ≡ true = ground (arith, w) in
        handle_writable-Keeps accepted takens u live k)
      (λ w. k)

complete_connect-Keeps :
    (accepted : List ℕ) (e : Events) (answers : List Taken) (t : TcpSocket)
    → is_live t.state ≡ true
    → Keeps accepted t
    → Keeps accepted (complete_connect e answers t).1
unfolding complete_connect
complete_connect-Keeps accepted e answers t live h =
    let failed = λ (f : Failure).
      apply_disconnected-Keeps accepted (fail_with f t) (fail_with-Keeps accepted f t h) in
    let P : Bool × TcpSocket → Type 0 = λ r. Keeps accepted r.1 in
    by_test P (not (is_open t.descriptor))
      (false, apply_disconnected (fail_with getsockopt_failed t)) _ (λ o. failed getsockopt_failed)
      (λ o.
        by_option P e.socket_error (false, apply_disconnected (fail_with getsockopt_failed t)) _
          (λ n. failed getsockopt_failed)
          (λ n found.
            by_test P (not (n == 0)) (false, apply_disconnected (fail_with completion_failed t))
              (true, apply_connected answers t) (λ z. failed completion_failed)
              (λ z. apply_connected-Keeps accepted answers t live h)))

pub handle_events-Keeps :
    (accepted : List ℕ) (e : Events) (first takens : List Taken) (receiveds : List Received)
    (t : TcpSocket)
    → Keeps accepted t
    → Keeps accepted (handle_events e first takens receiveds t)
unfolding handle_events
handle_events-Keeps accepted e first takens receiveds t h =
    by_test (Keeps accepted) e.hung_up _ _
      (λ gone.
        by_test (Keeps accepted)
          (is_connecting t.state && is_open t.descriptor && no_error e.socket_error)
          (apply_connected first t) (apply_disconnected t)
          (λ c. apply_connected-Keeps accepted first t (ground (arith, c)) h)
          (λ c. apply_disconnected-Keeps accepted t h))
      (λ there.
        by_test (Keeps accepted) (is_connecting t.state && e.writable) _ _
          (λ c.
            let (goes_on, u) = complete_connect e first t in
            let k = complete_connect-Keeps accepted e first t (ground (arith, c)) h in
            by_test (Keeps accepted) goes_on (transfer e takens receiveds u) u
              (λ g. transfer-Keeps accepted e takens receiveds u k) (λ g. k))
          (λ c. transfer-Keeps accepted e takens receiveds t h))
