-- ===== src/Servers/Epoll/Tests.antt =====
-- Tests of python/io_multiplexing/epoll_server.py, and the theorems at concrete connections.
use cocurrency.Common.{◌≡◌, refl, true, false, some, List, [], ◌∷◌}
use cocurrency.Servers.{bytes, send_blocks, upper_byte, state}
use cocurrency.Servers.Epoll.{
  edge, Event, Ready, EpollEchoServer, start, rearm, accept_one, accept_client, settle, flush_from,
  flush_send, read_et, exchange, handle_io, handle, serve,
}
use cocurrency.Servers.Epoll.Interest.{IsEchoServer}
use cocurrency.Servers.Epoll.Echo.{serve-IsEpollEcho}

-- A client comes on descriptor 4, and sends `hi` and then `!`, before the server reads.
abbrev events : List (Event × Ready)
events =
    (
      record { broken_off = false; readable = true; writable = false },
      record { fd = 3; accepts = 4 ∷ []; recvs = []; send = send_blocks },
    )
    ∷ (
      record { broken_off = false; readable = true; writable = false },
      record {
        fd = 4;
        accepts = [];
        recvs = bytes (104 ∷ 105 ∷ []) ∷ bytes (33 ∷ []) ∷ [];
        send = send_blocks;
      },
    )
    ∷ []

abbrev served : EpollEchoServer
served = state (serve events (start 3 edge true))

served_bufs : served.send_bufs 4 ≡ some (72 ∷ 73 ∷ 33 ∷ [])
unfolding serve handle handle_io exchange read_et flush_from flush_send rearm settle accept_client
    accept_one upper_byte
served_bufs = refl

serve-IsEpollEcho_example : IsEchoServer served
serve-IsEpollEcho_example = serve-IsEpollEcho 3 edge true events
