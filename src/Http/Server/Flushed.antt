-- ===== src/Http/Server/Flushed.antt =====
-- When the server closes the socket of a response.
use simply_node_framework.Prelude.{
  ℕ, List, [], Bool-cases, Option, ap, arith, false, if◌then◌else◌, inl, inr, leb, none, refl, some,
  true, ◌&&◌, ◌++◌, ◌+◌, ◌<◌, ◌∙◌, ◌∷◌, ◌≡◌, ◌≤◌, append_assoc, length, sym,
}
use simply_node_framework.Http.Server.{
  Server, Action, SocketState, close_socket, on_bytes_written, put_socket, closed, deleted, send,
}
use simply_node_framework.Http.RequestParser.{Parser, enough}
use simply_node_framework.Http.Response.{Response, serialize}

-- The reports of one socket that some of its bytes are written, one after the other.
unfoldable pub written_all : ℕ → List ℕ → Server → Server × List Action
unfolding on_bytes_written
written_all socket [] s = (s, [])
written_all socket (n ∷ ns) s =
    let (t, first) = on_bytes_written socket n s in
    let (u, rest) = written_all socket ns t in (u, first ++ rest)

abbrev pub total : List ℕ → ℕ
total [] = 0
total (n ∷ ns) = n + total ns

abbrev with_sent : ℕ → SocketState → SocketState
with_sent n state = record state { total_sent = n }

put_socket_lem :
    (socket : ℕ) (state : Option SocketState) (s : Server)
    → (put_socket socket state s).socket_states socket ≡ state
put_socket_lem socket state s = ground arith

-- Fewer bytes than the response has.
written-open :
    (socket n : ℕ) (state : SocketState) (s : Server)
    → s.socket_states socket ≡ some state
    → state.total_sent + n < state.total_to_send
    → on_bytes_written socket n s
      ≡ (put_socket socket (some (with_sent (state.total_sent + n) state)) s, [])
unfolding on_bytes_written
written-open socket n state s e few =
    let short : leb state.total_to_send (state.total_sent + n) ≡ false = ground (arith, few) in
    ap
      (λ o. elim o as (λ x. Server × List Action) [
        | none ↦ (s, [])
        | some st ↦
            let kept = put_socket socket (some (with_sent (st.total_sent + n) st)) s in
            if st.pending_close && leb st.total_to_send (st.total_sent + n)
            then close_socket socket kept
            else (kept, [])
      ])
      e
    ∙ elim (Bool-cases state.pending_close) [
      | inl closing ↦ rw (closing, short) refl
      | inr staying ↦ rw staying refl
    ]

written-closing :
    (socket n : ℕ) (state : SocketState) (s : Server)
    → s.socket_states socket ≡ some state
    → state.pending_close ≡ true
    → state.total_to_send ≤ state.total_sent + n
    → on_bytes_written socket n s
      ≡ close_socket socket (put_socket socket (some (with_sent (state.total_sent + n) state)) s)
unfolding on_bytes_written
written-closing socket n state s e closing enough =
    let full : leb state.total_to_send (state.total_sent + n) ≡ true = ground (arith, enough) in
    ap
      (λ o. elim o as (λ x. Server × List Action) [
        | none ↦ (s, [])
        | some st ↦
            let kept = put_socket socket (some (with_sent (st.total_sent + n) st)) s in
            if st.pending_close && leb st.total_to_send (st.total_sent + n)
            then close_socket socket kept
            else (kept, [])
      ])
      e
    ∙ ap
        (λ b.
          if b
          then close_socket socket
              (put_socket socket (some (with_sent (state.total_sent + n) state)) s)
          else (put_socket socket (some (with_sent (state.total_sent + n) state)) s, []))
        (ap (λ b. b && leb state.total_to_send (state.total_sent + n)) closing ∙ full)

-- Reports that come to less than the response has change nothing but the count.
written_all-open :
    (socket : ℕ) (ns : List ℕ) (state : SocketState) (s : Server)
    → s.socket_states socket ≡ some state
    → state.total_sent + total ns < state.total_to_send
    → ((written_all socket ns s).1 ≡ [])
      × ((written_all socket ns s).0.socket_states socket
          ≡ some (with_sent (state.total_sent + total ns) state))
unfolding written_all
written_all-open socket [] state s e few =
    let same : state.total_sent + 0 ≡ state.total_sent = omega arith in
    (refl, e ∙ ap (λ n. some (with_sent n state)) (sym same))
written_all-open socket (n ∷ ns) state s e few =
    let sent = with_sent (state.total_sent + n) state in
    let t = put_socket socket (some sent) s in
    let first = written-open socket n state s e (omega (arith, few)) in
    let (quiet, counted) =
      written_all-open socket ns sent t (put_socket_lem socket (some sent) s)
        (omega (arith, few)) in
    let sum : state.total_sent + n + total ns ≡ state.total_sent + (n + total ns) = omega arith in
    (
      ap (λ r. r.1 ++ (written_all socket ns r.0).1) first ∙ quiet,
      ap (λ r. (written_all socket ns r.0).0.socket_states socket) first
          ∙ counted
          ∙ ap (λ k. some (with_sent k state)) sum,
    )

written_all-append :
    (socket : ℕ) (ns ms : List ℕ) (s : Server)
    → written_all socket (ns ++ ms) s ≡ (
        let (t, first) = written_all socket ns s in
        let (u, rest) = written_all socket ms t in (u, first ++ rest))
unfolding written_all
written_all-append socket [] ms s = refl
written_all-append socket (n ∷ ns) ms s =
    let (t, first) = on_bytes_written socket n s in
    let (u, middle) = written_all socket ns t in
    let (v, last) = written_all socket ms u in
    ap (λ r. (r.0, first ++ r.1)) (written_all-append socket ns ms t)
    ∙ ap (λ actions. (v, actions)) (sym (append_assoc first middle last))

-- A response that is sent keeps its socket open for as long as the bytes that are reported as written
-- come to less than the whole text of the response, and the report that makes up the rest closes the
-- socket, has it deleted, and the server forgets it.
pub send-written_all :
    (socket n : ℕ) (ns : List ℕ) (parser : Parser) (r : Response) (s : Server)
    → total ns < length (serialize r)
    → length (serialize r) ≤ total ns + n
    → (let t = (send socket parser r s).0 in
        ((written_all socket ns t).1 ≡ [])
        × ((written_all socket (ns ++ (n ∷ [])) t).1 ≡ closed socket ∷ deleted socket ∷ [])
        × ((written_all socket (ns ++ (n ∷ [])) t).0.socket_states socket ≡ none))
unfolding send written_all close_socket
send-written_all socket n ns parser r s few rest =
    let state : SocketState = record {
      parser = parser;
      pending_close = true;
      total_to_send = length (serialize r);
      total_sent = 0;
    } in
    let t = put_socket socket (some state) s in
    let (quiet, counted) =
      written_all-open socket ns state t (put_socket_lem socket (some state) s)
        (omega (arith, few)) in
    let u = (written_all socket ns t).0 in
    let last =
      written-closing socket n (with_sent (0 + total ns) state) u counted refl
        (omega (arith, rest)) in
    let both = written_all-append socket ns (n ∷ []) t in
    (
      quiet,
      ap (λ p. p.1) both
          ∙ ap (λ first. first ++ (written_all socket (n ∷ []) u).1) quiet
          ∙ ap (λ p. p.1 ++ []) last,
      ap (λ p. p.0.socket_states socket) both
          ∙ ap (λ p. p.0.socket_states socket) last
          ∙ put_socket_lem socket none
              (put_socket socket (some (with_sent (0 + total ns + n) state)) u),
    )
