-- ===== src/Network/TcpSocket/Tests.antt =====
-- A socket that sends in pieces, and one whose peer leaves.
use simply_node_framework.Prelude.{List, [], false, refl, some, true, ◌∷◌, ◌≡◌}
use simply_node_framework.Prelude.Bytes.{codes}
use simply_node_framework.Network.TcpSocket.{
  TcpSocket, Events, adopt, apply_disconnected, at_end, bytes_written, disconnected_signal, gives,
  handle_events, interrupted, new_socket, read_all, takes, would_block, transition_to_disconnected,
  update_interest, write, flush, flush_loop, drop_consumed, send_once, took, transfer,
  complete_connect, handle_readable, read_loop, handle_writable,
}
use simply_node_framework.Network.TcpSocket.Sent.{Keeps}
use simply_node_framework.Network.TcpSocket.Runs.{Op, do_all, do_op, do_all-Keeps, seeing, writing}

-- Room to write and nothing to read.
abbrev has_room : Events
has_room = record { hung_up = false; readable = false; writable = true; socket_error = some 0 }

-- Something to read.
abbrev has_bytes : Events
has_bytes = record { hung_up = false; readable = true; writable = false; socket_error = some 0 }

-- Five bytes are accepted; two go at once, the others when there is room.
abbrev in_two_parts : List Op
in_two_parts =
    writing (takes 2 ∷ would_block ∷ []) (codes "hello")
    ∷ seeing has_room [] (interrupted ∷ takes 9 ∷ []) []
    ∷ []

abbrev peer : TcpSocket
peer = adopt (some 5) true (new_socket false)

do_all-Keeps_example : (let (accepted, t) = do_all in_two_parts peer in Keeps accepted t)
do_all-Keeps_example = do_all-Keeps 5 false in_two_parts

-- What is sent then, and which signals there are.
all_sent_test : (do_all in_two_parts peer).1.sent ≡ codes "hello"
unfolding do_all do_op write read_all handle_events transfer complete_connect handle_readable
    handle_writable read_loop flush flush_loop drop_consumed send_once took adopt update_interest
    apply_disconnected transition_to_disconnected
all_sent_test = refl

signals_test : (do_all in_two_parts peer).1.signals ≡ bytes_written 2 ∷ bytes_written 3 ∷ []
unfolding do_all do_op write read_all handle_events transfer complete_connect handle_readable
    handle_writable read_loop flush flush_loop drop_consumed send_once took adopt update_interest
    apply_disconnected transition_to_disconnected
signals_test = refl

-- Bytes that come with the end of the connection: no signal tells of them, and they are gone.
last_bytes_test :
    handle_events has_bytes [] [] (gives (codes "bye") ∷ at_end ∷ []) peer
    ≡ record (apply_disconnected peer) { signals = disconnected_signal ∷ [] }
unfolding do_all do_op write read_all handle_events transfer complete_connect handle_readable
    handle_writable read_loop flush flush_loop drop_consumed send_once took adopt update_interest
    apply_disconnected transition_to_disconnected
last_bytes_test = refl

last_read_test :
    (read_all (handle_events has_bytes [] [] (gives (codes "bye") ∷ at_end ∷ []) peer)).0 ≡ []
unfolding do_all do_op write read_all handle_events transfer complete_connect handle_readable
    handle_writable read_loop flush flush_loop drop_consumed send_once took adopt update_interest
    apply_disconnected transition_to_disconnected
last_read_test = refl
