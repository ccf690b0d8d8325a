-- ===== src/Network/TcpSocket/Runs.antt =====
-- Every run of a socket that is connected once.
use mathlib.Core.Path.{subst}
use simply_node_framework.Prelude.{
  ℕ, Bool, List, [], append-nil, append_assoc, refl, some, sym, take, true, ◌++◌, ◌∷◌,
}
use simply_node_framework.Network.TcpSocket.{
  TcpSocket, Events, Received, Taken, adopt, apply_disconnected, handle_events, new_socket,
  read_all, update_interest, write,
}
use simply_node_framework.Network.TcpSocket.Sent.{Keeps, apply_disconnected-Keeps, still-Keeps}
use simply_node_framework.Network.TcpSocket.Delivered.{write-Keeps, handle_events-Keeps}

-- A call of the owner, or events of the descriptor.
pub data Op : Type 0 where
  writing : List Taken → List ℕ → Op
  reading closing : Op
  seeing : Events → List Taken → List Taken → List Received → Op

-- The bytes that the call has accepted, and the socket.
unfoldable pub do_op : Op → TcpSocket → List ℕ × TcpSocket
unfolding write read_all apply_disconnected handle_events
do_op (writing answers bytes) t = let (n, u) = write answers bytes t in (take n bytes, u)
do_op reading t = ([], (read_all t).1)
do_op closing t = ([], apply_disconnected t)
do_op (seeing e first takens receiveds) t = ([], handle_events e first takens receiveds t)

unfoldable pub do_all : List Op → TcpSocket → List ℕ × TcpSocket
unfolding do_op
do_all [] t = ([], t)
do_all (op ∷ ops) t =
    let (first, u) = do_op op t in let (rest, v) = do_all ops u in (first ++ rest, v)

do_op-Keeps :
    (accepted : List ℕ) (op : Op) (t : TcpSocket)
    → Keeps accepted t
    → (let (more, u) = do_op op t in Keeps (accepted ++ more) u)
unfolding do_op read_all
do_op-Keeps accepted (writing answers bytes) t h = write-Keeps accepted answers bytes t h
do_op-Keeps accepted reading t h =
    subst (λ s. Keeps s (record t { read_buffer = [] })) (sym (append-nil accepted))
      (still-Keeps accepted t (record t { read_buffer = [] }) refl refl (λ l. (l, refl)) h)
do_op-Keeps accepted closing t h =
    subst (λ s. Keeps s (apply_disconnected t)) (sym (append-nil accepted))
      (apply_disconnected-Keeps accepted t h)
do_op-Keeps accepted (seeing e first takens receiveds) t h =
    subst (λ s. Keeps s (handle_events e first takens receiveds t)) (sym (append-nil accepted))
      (handle_events-Keeps accepted e first takens receiveds t h)

do_all-Keeps_on :
    (accepted : List ℕ) (ops : List Op) (t : TcpSocket)
    → Keeps accepted t
    → (let (more, u) = do_all ops t in Keeps (accepted ++ more) u)
unfolding do_all
do_all-Keeps_on accepted [] t h = subst (λ s. Keeps s t) (sym (append-nil accepted)) h
do_all-Keeps_on accepted (op ∷ ops) t h =
    let (first, u) = do_op op t in
    let (rest, v) = do_all ops u in
    subst (λ s. Keeps s v) (append_assoc accepted first rest)
      (do_all-Keeps_on (accepted ++ first) ops u (do_op-Keeps accepted op t h))

adopt-Keeps : (fd : ℕ) (blocking : Bool) → Keeps [] (adopt (some fd) true (new_socket blocking))
unfolding adopt update_interest
adopt-Keeps fd blocking = record { rest = []; split = refl; waiting = λ l. refl; told = refl }

-- For a socket that adopts a descriptor, and any calls of write, readAll and close and any events
-- behind it, whatever send and recv answer: the bytes that send has taken are the first of the bytes
-- that write has accepted, in their order. While the connection lives, the others wait in the queue in
-- theirs. The bytesWritten signals tell of exactly as many bytes as send has taken.
pub do_all-Keeps :
    (fd : ℕ) (blocking : Bool) (ops : List Op)
    → (let (accepted, t) = do_all ops (adopt (some fd) true (new_socket blocking)) in
        Keeps accepted t)
do_all-Keeps fd blocking ops =
    do_all-Keeps_on [] ops (adopt (some fd) true (new_socket blocking)) (adopt-Keeps fd blocking)
