-- ===== src/Servers/Poll/Tests.antt =====
-- Tests of python/io_multiplexing/poll_server.py, and the theorems at concrete connections.
use cocurrency.Common.{true, false, none, some, List, [], ◌∷◌}
use cocurrency.Servers.{bytes, recv_blocks, sends, send_blocks, state, Ready}
use cocurrency.Servers.Poll.{Event, PollEchoServer, start, serve}
use cocurrency.Servers.Poll.Change.{IsEchoServer}
use cocurrency.Servers.Poll.Echo.{serve-IsPollEcho}

-- A client comes on descriptor 4, and sends `hi`, which is sent back.
abbrev events : List (Event × Ready)
events =
    (
      record { broken_off = false; readable = true; writable = false },
      record { fd = 3; accepts = some 4; recv = recv_blocks; send = send_blocks },
    )
    ∷ (
      record { broken_off = false; readable = true; writable = false },
      record { fd = 4; accepts = none; recv = bytes (104 ∷ 105 ∷ []); send = send_blocks },
    )
    ∷ (
      record { broken_off = false; readable = false; writable = true },
      record { fd = 4; accepts = none; recv = recv_blocks; send = sends 2 },
    )
    ∷ []

abbrev served : PollEchoServer
served = state (serve events (start 3))

serve-IsPollEcho_example : IsEchoServer served
serve-IsPollEcho_example = serve-IsPollEcho 3 events
