-- ===== src/Servers/Select/Tests.antt =====
-- Tests of python/io_multiplexing/select_server.py, and the theorems at concrete connections.
use cocurrency.Common.{
  ℕ, ◌≡◌, ◌⊎◌, inl, inr, refl, true, false, Option, none, some, List, [], ◌∷◌, ◌==◌, Bool-cases, In,
  arith,
}
use cocurrency.Servers.{
  is_some, bytes, reset, recv_blocks, sends, send_blocks, upper_byte, state, Ready,
}
use cocurrency.Servers.Select.{
  SelectEchoServer, create, accept_client, close_client, receive, handle_read, transmit_from,
  handle_write, handle_readable, read_all, write_all, Selected, turn, cleanup, serve,
}
use cocurrency.Servers.Select.Echo.{IsEchoServer, serve-IsEchoServer, closed_stays_watched}
use cocurrency.Servers.Select.Cleanup.{cleanup-closes}

-- A client comes on descriptor 4.
abbrev arrival : Ready
arrival = record { fd = 3; accepts = some 4; recv = recv_blocks; send = send_blocks }

-- It sends `hi!`, of which two bytes are sent back at once.
abbrev traffic : Ready
traffic = record { fd = 4; accepts = none; recv = bytes (104 ∷ 105 ∷ 33 ∷ []); send = sends 2 }

abbrev selects : List (Option Selected)
selects =
    some (record { rlist = arrival ∷ []; wlist = [] })
    ∷ some (record { rlist = traffic ∷ []; wlist = traffic ∷ [] })
    ∷ []

abbrev served : SelectEchoServer
served = state (serve selects (create 3))

served_wire : served.net.wire 4 ≡ 72 ∷ 73 ∷ []
unfolding serve turn read_all write_all handle_readable handle_read handle_write receive
    transmit_from accept_client upper_byte
served_wire = refl

served_open : (is_some (served.fd_to_sock 4) ≡ true) × (served.send_bufs 4 ≡ some (33 ∷ []))
unfolding serve turn read_all write_all handle_readable handle_read handle_write receive
    transmit_from accept_client upper_byte
served_open = (refl, refl)

serve-IsEchoServer_example : IsEchoServer served
serve-IsEchoServer_example = serve-IsEchoServer 3 selects

closed_stays_watched_example :
    (handle_read 4 (bytes []) served ≡ handle_read 4 reset served)
    × (is_some ((state (handle_read 4 reset served)).fd_to_sock 4) ≡ false)
    × ((state (handle_read 4 reset served)).read_fds 4 ≡ true)
closed_stays_watched_example =
    closed_stays_watched 4 served (serve-IsEchoServer 3 selects) served_open.0

-- The server on descriptor 3 with a client on 4.
abbrev joined : SelectEchoServer
joined = accept_client (some 4) (create 3)

joined-listed : (j : ℕ) → is_some (joined.fd_to_sock j) ≡ true → (j ≡ 3) ⊎ In j (3 ∷ 4 ∷ [])
unfolding accept_client
joined-listed j there = elim (Bool-cases (4 == j)) [
  | inl four ↦ inr (inr (inl (ground arith)))
  | inr other ↦ inl (ground arith)
]

joined-cleaned : is_some ((cleanup (3 ∷ 4 ∷ []) joined).fd_to_sock 3) ≡ true
unfolding accept_client cleanup close_client
joined-cleaned = refl

cleanup-closes_example : 3 ≡ joined.server_fd
unfolding accept_client
cleanup-closes_example = cleanup-closes (3 ∷ 4 ∷ []) joined joined-listed 3 joined-cleaned
