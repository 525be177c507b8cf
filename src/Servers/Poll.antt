-- ===== src/Servers/Poll.antt =====
-- python/io_multiplexing/poll_server.py: the echo server on `poll`, with the descriptors and events
-- that its poller has registered.
pub mod Change
pub mod Echo
mod Tests
use cocurrency.Common.{
  ℕ, zero, suc, Bool, true, false, Option, none, some, List, [], ◌∷◌, ◌++◌, ◌==◌, if◌then◌else◌,
}
use cocurrency.Servers.{
  Map, set, pop, get_or, is_some, Bytes, drop, take, upper, Recv, bytes, reset, recv_blocks, Send,
  sends, broken, send_blocks, Net, connect, hear, transmit, Ran, goes_on, raised, then_run, Ready,
}

-- Events to watch: POLLIN, or POLLIN and POLLOUT.
pub data Interest : Type 0 where
  pollin : Interest
  pollin_pollout : Interest

-- The events that `poll` reports.
pub record Event : Type 0 where
  -- POLLERR or POLLHUP
  pub broken_off : Bool
  -- POLLIN
  pub readable : Bool
  -- POLLOUT
  pub writable : Bool

pub record PollEchoServer : Type 0 where
  pub server_fd : ℕ
  pub poller : Map Interest
  pub send_bufs : Map Bytes
  pub recv_bufs : Map Bytes
  pub fd_to_sock : Map ℕ
  pub net : Net

-- After `__init__` and `start`.
abbrev pub start : ℕ → PollEchoServer
start fd = record {
  server_fd = fd;
  poller = set fd pollin (λ j. none);
  send_bufs = λ j. none;
  recv_bufs = λ j. none;
  fd_to_sock = set fd fd (λ j. none);
  net = record { heard = λ j. []; wire = λ j. [] };
}

-- `_poller.modify`, which raises if the descriptor is not registered.
abbrev pub modify : ℕ → Interest → PollEchoServer → Ran PollEchoServer
modify fd i s =
    if is_some (s.poller fd) then goes_on (record s { poller = set fd i s.poller }) else raised s

-- `_accept_client`
pub accept_client : Event → Option ℕ → PollEchoServer → PollEchoServer
accept_client e none s = s
accept_client e (some fd) s =
    if e.readable
    then record s {
      fd_to_sock = set fd fd s.fd_to_sock;
      recv_bufs = set fd [] s.recv_bufs;
      send_bufs = set fd [] s.send_bufs;
      poller = set fd pollin s.poller;
      net = connect fd s.net;
    }
    else s

-- `_close_client`
pub close_client : ℕ → PollEchoServer → PollEchoServer
close_client fd s = record s {
  fd_to_sock = pop fd s.fd_to_sock;
  poller = if is_some (s.fd_to_sock fd) then pop fd s.poller else s.poller;
  recv_bufs = pop fd s.recv_bufs;
  send_bufs = pop fd s.send_bufs;
}

-- `_handle_read` queues the bytes.
abbrev pub echo : ℕ → Bytes → PollEchoServer → PollEchoServer
echo fd bs s = record s {
  recv_bufs = set fd (get_or [] (s.recv_bufs fd) ++ bs) s.recv_bufs;
  send_bufs = set fd (get_or [] (s.send_bufs fd) ++ upper bs) s.send_bufs;
  net = hear fd bs s.net;
}

-- `_handle_read`
pub handle_read : ℕ → Recv → PollEchoServer → Ran PollEchoServer
handle_read fd (bytes []) s = goes_on (close_client fd s)
handle_read fd (bytes (b ∷ bs)) s = modify fd pollin_pollout (echo fd (b ∷ bs) s)
handle_read fd reset s = goes_on (close_client fd s)
handle_read fd recv_blocks s = raised s

-- The end of `_handle_write`, when what is left is queued.
pub settle : ℕ → Bytes → PollEchoServer → Ran PollEchoServer
settle fd [] s = modify fd pollin s
settle fd (b ∷ bs) s = goes_on s

-- The queue, and the wire, when the first bytes of the queue are sent.
abbrev pub send_some : ℕ → ℕ → Bytes → PollEchoServer → PollEchoServer
send_some fd n buf s = record s {
  send_bufs = set fd (drop n buf) s.send_bufs;
  net = transmit fd (take n buf) s.net;
}

pub transmit_from : ℕ → Bytes → Send → PollEchoServer → Ran PollEchoServer
transmit_from fd [] r s = modify fd pollin s
transmit_from fd (b ∷ bs) (sends zero) s = goes_on s
transmit_from fd (b ∷ bs) (sends (suc n)) s =
    settle fd (drop (suc n) (b ∷ bs)) (send_some fd (suc n) (b ∷ bs) s)
transmit_from fd (b ∷ bs) broken s = goes_on (close_client fd s)
transmit_from fd (b ∷ bs) send_blocks s = raised s

-- `_handle_write`
pub handle_write : ℕ → Send → PollEchoServer → Ran PollEchoServer
handle_write fd r s = transmit_from fd (get_or [] (s.send_bufs fd)) r s

-- What `_handle_io` does with an event that is no error.
pub exchange : Event → Ready → PollEchoServer → Ran PollEchoServer
exchange e r s =
    then_run (if e.readable then handle_read r.fd r.recv s else goes_on s)
      (λ t. if e.writable then handle_write r.fd r.send t else goes_on t)

-- `_handle_io`
pub handle_io : Event → Ready → PollEchoServer → Ran PollEchoServer
handle_io e r s =
    if is_some (s.fd_to_sock r.fd)
    then (if e.broken_off then goes_on (close_client r.fd s) else exchange e r s)
    else goes_on s

pub handle : Event → Ready → PollEchoServer → Ran PollEchoServer
handle e r s =
    if r.fd == s.server_fd then goes_on (accept_client e r.accepts s) else handle_io e r s

-- The events of the loop of `serve_forever`, one `poll` after the other, until a handler raises.
pub serve : List (Event × Ready) → PollEchoServer → Ran PollEchoServer
serve [] s = goes_on s
serve ((e, r) ∷ es) s = then_run (handle e r s) (serve es)

-- `_cleanup`, for the keys of `_fd_to_sock`.
abbrev close_all : ℕ → List ℕ → PollEchoServer → PollEchoServer
close_all server [] s = s
close_all server (fd ∷ fds) s = close_all server fds (if fd == server then s else close_client fd s)

pub cleanup : List ℕ → PollEchoServer → PollEchoServer
cleanup fds s =
    let t = close_all s.server_fd fds s in record t { poller = pop s.server_fd t.poller }
