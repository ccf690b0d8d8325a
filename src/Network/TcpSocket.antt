-- ===== src/Network/TcpSocket.antt =====
-- lib/Network/src/SNFNetwork/TcpSocket.h and TcpSocket.cpp, on the thread that owns the socket. What
-- the operating system answers to a call is an argument: the answers of `send` and `recv` in their
-- order, behind which the call would block. The signals are listed in the order they are emitted or,
-- with an owner, posted to it, so that no listener runs within a call. `sent` is what `send` has
-- taken. Of IOEvent, a socket has its descriptor, whether it is active, and whether it waits for
-- bytes and for room; the signals that IOEvent emits itself are left out.
pub mod Sent
pub mod Delivered
pub mod Runs
mod Tests
use Prim.Native.Nat.{min}
use simply_node_framework.Prelude.{
  ℕ, Bool, List, Option, [], none, drop, false, if◌then◌else◌, length, not, some, take, true, ◌&&◌,
  ◌++◌, ◌==◌, ◌||◌, ◌∷◌,
}

pub data SocketState : Type 0 where
  disconnected connecting connected broken : SocketState

pub data Failure : Type 0 where
  resolve_failed connect_failed getsockopt_failed completion_failed : Failure
  send_failed recv_failed bad_descriptor mode_failed : Failure

pub data Signal : Type 0 where
  connected_signal disconnected_signal ready_read : Signal
  bytes_written : ℕ → Signal
  error_occurred : Failure → Signal

-- An answer of `send`, which takes no more bytes than it is given, and of `recv`.
pub data Taken : Type 0 where
  takes : ℕ → Taken
  would_block interrupted refused : Taken

pub data Received : Type 0 where
  gives : List ℕ → Received
  at_end no_more again failing : Received

pub record TcpSocket : Type 0 where
  pub state : SocketState
  pub blocking : Bool
  pub descriptor : Option ℕ
  pub read_buffer : List ℕ
  pub write_queue : List (List ℕ)
  pub wants_read : Bool
  pub wants_write : Bool
  pub active : Bool
  pub signals : List Signal
  pub sent : List ℕ

abbrev pub new_socket : Bool → TcpSocket
new_socket blocking = record {
  state = disconnected;
  blocking = blocking;
  descriptor = none;
  read_buffer = [];
  write_queue = [];
  wants_read = true;
  wants_write = false;
  active = false;
  signals = [];
  sent = [];
}

abbrev pub emit : Signal → TcpSocket → TcpSocket
emit signal t = record t { signals = t.signals ++ (signal ∷ []) }

abbrev pub is_connected : SocketState → Bool
is_connected connected = true
is_connected _ = false

abbrev pub is_connecting : SocketState → Bool
is_connecting connecting = true
is_connecting _ = false

-- `Connected` or `Connecting`.
abbrev pub is_live : SocketState → Bool
is_live s = is_connected s || is_connecting s

abbrev pub is_nil {ℓ} : {A : Type ℓ} → List A → Bool
is_nil [] = true
is_nil (x ∷ xs) = false

pub update_interest : TcpSocket → TcpSocket
update_interest t = record t {
  wants_read = is_connected t.state;
  wants_write = is_connecting t.state || is_connected t.state && not (is_nil t.write_queue);
}

-- `transitionToDisconnected`: whether the signal is to be emitted, and the socket.
pub transition_to_disconnected : Bool → TcpSocket → Bool × TcpSocket
transition_to_disconnected emits t = (
  emits && is_live t.state,
  record t { state = disconnected; read_buffer = []; write_queue = [] },
)

-- `close` and `applyDisconnectedState(true)`.
pub apply_disconnected : TcpSocket → TcpSocket
unfolding transition_to_disconnected
apply_disconnected t =
    let (emits, u) = transition_to_disconnected true t in
    let v = record u { active = false; descriptor = none } in
    if emits then emit disconnected_signal v else v

pub fail_with : Failure → TcpSocket → TcpSocket
fail_with f t = emit (error_occurred f) (record t { state = broken })

-- The inner loop that takes consumed pieces off the queue.
pub drop_consumed : List (List ℕ) → List (List ℕ)
drop_consumed [] = []
drop_consumed (d ∷ ds) = if is_nil d then drop_consumed ds else d ∷ ds

abbrev pub pop_consumed : List ℕ → List (List ℕ) → List (List ℕ)
pop_consumed d ds = if is_nil d then ds else d ∷ ds

-- `send` has taken bytes of the front of the queue.
pub took : ℕ → List ℕ → List (List ℕ) → TcpSocket → TcpSocket
took n d ds t =
    emit (bytes_written n)
      (record t { write_queue = pop_consumed (drop n d) ds; sent = t.sent ++ take n d })

pub send_broken : TcpSocket → TcpSocket
unfolding apply_disconnected fail_with
send_broken t = apply_disconnected (fail_with send_failed t)

-- One call of `send` with the front of the queue: whether the loop goes on, and the socket.
pub send_once : Taken → List ℕ → List (List ℕ) → TcpSocket → Bool × TcpSocket
unfolding took apply_disconnected fail_with
send_once (takes n) d ds t =
    let w = min n (length d) in if w == 0 then (false, send_broken t) else (true, took w d ds t)
send_once would_block d ds t = (false, record t { write_queue = d ∷ ds })
send_once interrupted d ds t = (true, record t { write_queue = d ∷ ds })
send_once refused d ds t = (false, send_broken t)

-- The loop of `flushPendingWrites`, over the answers of `send`.
pub flush_loop : List Taken → TcpSocket → TcpSocket
unfolding drop_consumed send_once
flush_loop [] t = record t { write_queue = drop_consumed t.write_queue }
flush_loop (a ∷ answers) t = elim (drop_consumed t.write_queue) [
  | [] ↦ record t { write_queue = [] }
  | d ∷ ds ↦
      let (goes_on, u) = send_once a d ds t in
      let rest = flush_loop answers u in if goes_on then rest else u
]

abbrev pub is_open : Option ℕ → Bool
is_open none = false
is_open (some fd) = true

pub flush : List Taken → TcpSocket → TcpSocket
unfolding flush_loop
flush answers t = if is_open t.descriptor then flush_loop answers t else t

-- `write`: how many bytes it has accepted, and the socket.
pub write : List Taken → List ℕ → TcpSocket → ℕ × TcpSocket
unfolding flush update_interest
write answers bytes t = if is_nil bytes || not (is_live t.state) then (0, t) else (
  length bytes,
  update_interest (flush answers (record t { write_queue = t.write_queue ++ (bytes ∷ []) })),
)

pub read_all : TcpSocket → List ℕ × TcpSocket
read_all t = (t.read_buffer, record t { read_buffer = [] })

-- The loop of `handleReadable`; the flag says that bytes have come.
pub read_loop : Bool → List Received → TcpSocket → TcpSocket
unfolding apply_disconnected fail_with
read_loop appended [] t = if appended then emit ready_read t else t
read_loop appended (gives bytes ∷ answers) t =
    let rest = read_loop true answers (record t { read_buffer = t.read_buffer ++ bytes }) in
    if is_nil bytes then apply_disconnected t else rest
read_loop appended (at_end ∷ answers) t = apply_disconnected t
read_loop appended (no_more ∷ answers) t = if appended then emit ready_read t else t
read_loop appended (again ∷ answers) t = read_loop appended answers t
read_loop appended (failing ∷ answers) t = apply_disconnected (fail_with recv_failed t)

pub handle_readable : List Received → TcpSocket → TcpSocket
unfolding read_loop
handle_readable answers t = if is_open t.descriptor then read_loop false answers t else t

pub handle_writable : List Taken → TcpSocket → TcpSocket
unfolding flush update_interest
handle_writable answers t = update_interest (flush answers t)

pub apply_connected : List Taken → TcpSocket → TcpSocket
unfolding flush update_interest
apply_connected answers t =
    let u = record (update_interest (record t { state = connected })) { active = true } in
    update_interest (flush answers (emit connected_signal u))

-- What `epoll` reports, and `getsockopt(SO_ERROR)`: nothing where that fails.
pub record Events : Type 0 where
  pub hung_up : Bool
  pub readable : Bool
  pub writable : Bool
  pub socket_error : Option ℕ

abbrev pub no_error : Option ℕ → Bool
no_error none = false
no_error (some e) = e == 0

-- The end of a connection attempt that `EPOLLOUT` tells of: whether `handleEvents` goes on.
pub complete_connect : Events → List Taken → TcpSocket → Bool × TcpSocket
unfolding apply_connected apply_disconnected fail_with
complete_connect e answers t =
    if not (is_open t.descriptor)
    then (false, apply_disconnected (fail_with getsockopt_failed t))
    else elim e.socket_error [
      | none ↦ (false, apply_disconnected (fail_with getsockopt_failed t))
      | some n ↦
          if not (n == 0)
          then (false, apply_disconnected (fail_with completion_failed t))
          else (true, apply_connected answers t)
    ]

-- What `handleEvents` does with the bytes to read and the room to write.
pub transfer : Events → List Taken → List Received → TcpSocket → TcpSocket
unfolding handle_readable handle_writable
transfer e takens receiveds t =
    let u = if e.readable && is_connected t.state then handle_readable receiveds t else t in
    if e.writable && is_connected u.state then handle_writable takens u else u

-- `handleEvents`; the first answers of `send` are for the connection that is completed.
pub handle_events : Events → List Taken → List Taken → List Received → TcpSocket → TcpSocket
unfolding complete_connect transfer
handle_events e first takens receiveds t =
    if e.hung_up
    then (if is_connecting t.state && is_open t.descriptor && no_error e.socket_error
        then apply_connected first t
        else apply_disconnected t)
    else if is_connecting t.state && e.writable
    then (let (goes_on, u) = complete_connect e first t in
        if goes_on then transfer e takens receiveds u else u)
    else transfer e takens receiveds t

-- What becomes of one address of the host.
pub data Attempt : Type 0 where
  no_socket : Attempt
  no_mode at_once in_progress unreachable : ℕ → Attempt

-- The loop of `connectToHost` over the addresses.
pub attempts : List Attempt → List Taken → TcpSocket → TcpSocket
unfolding apply_connected apply_disconnected fail_with update_interest
attempts [] answers t = apply_disconnected (fail_with connect_failed t)
attempts (no_socket ∷ more) answers t = attempts more answers t
attempts (no_mode fd ∷ more) answers t = attempts more answers t
attempts (at_once fd ∷ more) answers t = apply_connected answers (record t { descriptor = some fd })
attempts (in_progress fd ∷ more) answers t =
    let rest = attempts more answers (record t { descriptor = none }) in
    if not t.blocking
    then record (update_interest (record t { descriptor = some fd; state = connecting })) {
      active = true;
    }
    else rest
attempts (unreachable fd ∷ more) answers t = attempts more answers (record t { descriptor = none })

-- `connectToHost`; nothing where the host is not resolved.
pub connect_to_host : Option (List Attempt) → List Taken → TcpSocket → TcpSocket
unfolding attempts apply_disconnected fail_with
connect_to_host candidates answers t =
    let closed = apply_disconnected t in
    elim candidates [
      | none ↦ fail_with resolve_failed closed
      | some all ↦ attempts all answers closed
    ]

-- `adoptConnectedDescriptor`; the flag says that its mode is set.
pub adopt : Option ℕ → Bool → TcpSocket → TcpSocket
unfolding fail_with update_interest
adopt none mode t = fail_with bad_descriptor t
adopt (some fd) mode t =
    if not mode
    then fail_with mode_failed t
    else record (update_interest (record t { descriptor = some fd; state = connected })) {
      active = true;
    }
