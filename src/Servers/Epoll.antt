-- ===== src/Servers/Epoll.antt =====
-- python/io_multiplexing/epoll_server.py: the echo server on `epoll`, level-triggered or
-- edge-triggered, with what epoll has registered.
pub mod Interest
pub mod Exchange
pub mod Echo
mod Tests
use cocurrency.Common.{
  ℕ, zero, suc, ◌+◌, Bool, true, false, Option, none, some, List, [], ◌∷◌, ◌++◌, ◌==◌, length, ltb,
  if◌then◌else◌,
}
use cocurrency.Servers.{
  Map, set, pop, get_or, is_some, Bytes, drop, take, upper, Recv, bytes, reset, recv_blocks, Send,
  sends, broken, send_blocks, Net, connect, hear, transmit, Ran, goes_on, raised, then_run,
}

pub data TriggerMode : Type 0 where
  level : TriggerMode
  edge : TriggerMode

abbrev pub is_edge : TriggerMode → Bool
is_edge level = false
is_edge edge = true

-- What a descriptor is registered for, besides EPOLLIN: EPOLLOUT, EPOLLET and EPOLLONESHOT.
pub record Flags : Type 0 where
  pub out : Bool
  pub et : Bool
  pub oneshot : Bool

-- The events that `epoll.poll` reports.
pub record Event : Type 0 where
  -- EPOLLERR or EPOLLHUP
  pub broken_off : Bool
  -- EPOLLIN
  pub readable : Bool
  -- EPOLLOUT
  pub writable : Bool

-- A ready descriptor, and what the calls on it return: the descriptors that `accept` returns before
-- it raises BlockingIOError, and the results of `recv`, after which it raises that too.
pub record Ready : Type 0 where
  pub fd : ℕ
  pub accepts : List ℕ
  pub recvs : List Recv
  pub send : Send

pub record EpollEchoServer : Type 0 where
  pub server_fd : ℕ
  pub mode : TriggerMode
  pub use_oneshot : Bool
  pub epoll : Map Flags
  -- The descriptors that EPOLLONESHOT has disabled.
  pub disabled : ℕ → Bool
  pub send_bufs : Map Bytes
  pub fd_to_sock : Map ℕ
  pub net : Net

-- The flags that the server computes: EPOLLIN, or EPOLLIN and EPOLLOUT, with those of the mode.
abbrev pub flags : TriggerMode → Bool → Bool → Flags
flags mode use_oneshot out = record { out = out; et = is_edge mode; oneshot = use_oneshot }

-- After `__init__` and `start`.
abbrev pub start : ℕ → TriggerMode → Bool → EpollEchoServer
start fd mode use_oneshot = record {
  server_fd = fd;
  mode = mode;
  use_oneshot = use_oneshot;
  epoll = set fd (flags mode use_oneshot false) (λ j. none);
  disabled = λ j. false;
  send_bufs = λ j. none;
  fd_to_sock = set fd fd (λ j. none);
  net = record { heard = λ j. []; wire = λ j. [] };
}

-- `_rearm`: `modify` enables the descriptor again, and an OSError for one that is not registered is
-- passed over.
unfoldable pub rearm : ℕ → Bool → EpollEchoServer → EpollEchoServer
rearm fd out s =
    if is_some (s.epoll fd)
    then record s {
      epoll = set fd (flags s.mode s.use_oneshot out) s.epoll;
      disabled = λ j. if fd == j then false else s.disabled j;
    }
    else s

-- `_close_client`
unfoldable pub close_client : ℕ → EpollEchoServer → EpollEchoServer
close_client fd s = record s {
  fd_to_sock = pop fd s.fd_to_sock;
  epoll = if is_some (s.fd_to_sock fd) then pop fd s.epoll else s.epoll;
  send_bufs = pop fd s.send_bufs;
}

-- One connection of `_accept_client`.
unfoldable pub accept_one : ℕ → EpollEchoServer → EpollEchoServer
accept_one fd s = record s {
  fd_to_sock = set fd fd s.fd_to_sock;
  send_bufs = set fd [] s.send_bufs;
  epoll = set fd (flags s.mode s.use_oneshot false) s.epoll;
  disabled = λ j. if fd == j then false else s.disabled j;
  net = connect fd s.net;
}

abbrev pub accept_all : List ℕ → EpollEchoServer → EpollEchoServer
accept_all [] s = s
accept_all (fd ∷ fds) s = accept_all fds (accept_one fd s)

-- The end of `_accept_client`.
abbrev pub rearm_server : EpollEchoServer → EpollEchoServer
rearm_server s = if s.use_oneshot then rearm s.server_fd false s else s

-- `_accept_client`
unfoldable pub accept_client : Event → List ℕ → EpollEchoServer → EpollEchoServer
accept_client e fds s = if e.readable then rearm_server (accept_all fds s) else s

-- Queues received bytes.
abbrev pub echo : ℕ → Bytes → EpollEchoServer → EpollEchoServer
echo fd bs s = record s {
  send_bufs = set fd (get_or [] (s.send_bufs fd) ++ upper bs) s.send_bufs;
  net = hear fd bs s.net;
}

-- The queue, and the wire, when the first bytes of the queue are sent.
abbrev pub send_some : ℕ → ℕ → Bytes → EpollEchoServer → EpollEchoServer
send_some fd n buf s = record s {
  send_bufs = set fd (drop n buf) s.send_bufs;
  net = transmit fd (take n buf) s.net;
}

-- `_flush_send`, when what is left is queued.
unfoldable pub settle : ℕ → Bytes → EpollEchoServer → EpollEchoServer
settle fd [] s = rearm fd false s
settle fd (b ∷ bs) s = s

unfoldable pub flush_from : ℕ → Bytes → Send → EpollEchoServer → Ran EpollEchoServer
flush_from fd [] r s = goes_on (rearm fd false s)
flush_from fd (b ∷ bs) (sends zero) s = goes_on s
flush_from fd (b ∷ bs) (sends (suc n)) s =
    goes_on (settle fd (drop (suc n) (b ∷ bs)) (send_some fd (suc n) (b ∷ bs) s))
flush_from fd (b ∷ bs) broken s = goes_on (close_client fd s)
flush_from fd (b ∷ bs) send_blocks s = if is_edge s.mode then goes_on s else raised s

-- `_flush_send`
unfoldable pub flush_send : ℕ → Send → EpollEchoServer → Ran EpollEchoServer
flush_send fd r s = flush_from fd (get_or [] (s.send_bufs fd)) r s

-- The rest of a handler, after the input.
abbrev pub flush_if : Event → Ready → EpollEchoServer → Ran EpollEchoServer
flush_if e r s = if e.writable then flush_send r.fd r.send s else goes_on s

-- The EPOLLIN part of `_handle_io_lt`, which returns after a close, and then the rest.
unfoldable pub read_lt : Event → Ready → List Recv → EpollEchoServer → Ran EpollEchoServer
read_lt e r (bytes (b ∷ bs) ∷ rs) s = flush_if e r (rearm r.fd true (echo r.fd (b ∷ bs) s))
read_lt e r (bytes [] ∷ rs) s = goes_on (close_client r.fd s)
read_lt e r (reset ∷ rs) s = goes_on (close_client r.fd s)
read_lt e r (recv_blocks ∷ rs) s = raised s
read_lt e r [] s = raised s

-- The EPOLLIN part of `_handle_io_et`, with `total_read`, and then the rest.
unfoldable pub read_et : Event → Ready → ℕ → List Recv → EpollEchoServer → Ran EpollEchoServer
read_et e r total (bytes (b ∷ bs) ∷ rs) s =
    read_et e r (total + length (b ∷ bs)) rs (echo r.fd (b ∷ bs) s)
read_et e r total (bytes [] ∷ rs) s = goes_on (close_client r.fd s)
read_et e r total (reset ∷ rs) s = goes_on (close_client r.fd s)
read_et e r total (recv_blocks ∷ rs) s = flush_if e r (if ltb 0 total then rearm r.fd true s else s)
read_et e r total [] s = flush_if e r (if ltb 0 total then rearm r.fd true s else s)

unfoldable pub exchange : Event → Ready → EpollEchoServer → Ran EpollEchoServer
exchange e r s =
    if e.readable
    then (if is_edge s.mode then read_et e r 0 r.recvs s else read_lt e r r.recvs s)
    else flush_if e r s

-- `_handle_io_lt` and `_handle_io_et`
unfoldable pub handle_io : Event → Ready → EpollEchoServer → Ran EpollEchoServer
handle_io e r s =
    if is_some (s.fd_to_sock r.fd)
    then (if e.broken_off then goes_on (close_client r.fd s) else exchange e r s)
    else goes_on s

-- EPOLLONESHOT disables a descriptor when epoll reports it.
abbrev pub report : ℕ → EpollEchoServer → EpollEchoServer
report fd s = record s { disabled = λ j. if fd == j then s.use_oneshot else s.disabled j }

unfoldable pub handle : Event → Ready → EpollEchoServer → Ran EpollEchoServer
handle e r s =
    if r.fd == s.server_fd
    then goes_on (accept_client e r.accepts (report r.fd s))
    else handle_io e r (report r.fd s)

-- The events of the loop of `serve_forever`, one `poll` after the other, until a handler raises.
unfoldable pub serve : List (Event × Ready) → EpollEchoServer → Ran EpollEchoServer
serve [] s = goes_on s
serve ((e, r) ∷ es) s = then_run (handle e r s) (serve es)

-- `_cleanup`, for the keys of `_fd_to_sock`.
abbrev close_all : ℕ → List ℕ → EpollEchoServer → EpollEchoServer
close_all server [] s = s
close_all server (fd ∷ fds) s = close_all server fds (if fd == server then s else close_client fd s)

pub cleanup : List ℕ → EpollEchoServer → EpollEchoServer
cleanup fds s = let t = close_all s.server_fd fds s in record t { epoll = pop s.server_fd t.epoll }
