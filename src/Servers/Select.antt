-- ===== src/Servers/Select.antt =====
-- python/io_multiplexing/select_server.py: the echo server on `select`.
pub mod Echo
pub mod Cleanup
mod Tests
use cocurrency.Common.{
  ℕ, zero, suc, Bool, true, false, Option, none, some, List, [], ◌∷◌, ◌++◌, ◌==◌, if◌then◌else◌,
}
use cocurrency.Servers.{
  Map, set, pop, get_or, is_some, Bytes, drop, take, upper, Recv, bytes, reset, recv_blocks, Send,
  sends, broken, send_blocks, Net, connect, hear, transmit, Ran, goes_on, raised, then_run, Ready,
}

-- The server's fields, and the locals `fd_to_sock` and `read_fds` of its loop.
pub record SelectEchoServer : Type 0 where
  pub server_fd : ℕ
  pub fd_to_sock : Map ℕ
  pub read_fds : ℕ → Bool
  pub send_bufs : Map Bytes
  pub recv_bufs : Map Bytes
  pub net : Net

-- The state in which the loop begins.
abbrev pub create : ℕ → SelectEchoServer
create fd = record {
  server_fd = fd;
  fd_to_sock = set fd fd (λ j. none);
  read_fds = λ j. fd == j;
  send_bufs = λ j. none;
  recv_bufs = λ j. none;
  net = record { heard = λ j. []; wire = λ j. [] };
}

-- `_accept_client`
unfoldable pub accept_client : Option ℕ → SelectEchoServer → SelectEchoServer
accept_client none s = s
accept_client (some fd) s = record s {
  fd_to_sock = set fd fd s.fd_to_sock;
  read_fds = λ j. if fd == j then true else s.read_fds j;
  recv_bufs = set fd [] s.recv_bufs;
  send_bufs = set fd [] s.send_bufs;
  net = connect fd s.net;
}

-- `_close_client`; `given` says if `read_fds` is passed: else the set that it changes is a new one.
unfoldable pub close_client : ℕ → Bool → SelectEchoServer → SelectEchoServer
close_client fd given s = record s {
  fd_to_sock = pop fd s.fd_to_sock;
  read_fds = λ j. if given then (if fd == j then false else s.read_fds j) else s.read_fds j;
  recv_bufs = pop fd s.recv_bufs;
  send_bufs = pop fd s.send_bufs;
}

-- The end of `_handle_read`: the bytes are kept and queued, in upper case.
abbrev echo : ℕ → Bytes → SelectEchoServer → SelectEchoServer
echo fd bs s = record s {
  recv_bufs = set fd (get_or [] (s.recv_bufs fd) ++ bs) s.recv_bufs;
  send_bufs = set fd (get_or [] (s.send_bufs fd) ++ upper bs) s.send_bufs;
  net = hear fd bs s.net;
}

unfoldable pub receive : ℕ → Recv → SelectEchoServer → Ran SelectEchoServer
receive fd (bytes []) s = goes_on (close_client fd false s)
receive fd (bytes (b ∷ bs)) s = goes_on (echo fd (b ∷ bs) s)
receive fd reset s = goes_on (close_client fd false s)
receive fd recv_blocks s = raised s

-- `_handle_read`
unfoldable pub handle_read : ℕ → Recv → SelectEchoServer → Ran SelectEchoServer
handle_read fd r s = if is_some (s.fd_to_sock fd) then receive fd r s else goes_on s

unfoldable pub transmit_from : ℕ → Bytes → Send → SelectEchoServer → Ran SelectEchoServer
transmit_from fd [] r s = goes_on s
transmit_from fd (b ∷ bs) (sends zero) s = goes_on s
transmit_from fd (b ∷ bs) (sends (suc n)) s = goes_on (record s {
  send_bufs = set fd (drop (suc n) (b ∷ bs)) s.send_bufs;
  net = transmit fd (take (suc n) (b ∷ bs)) s.net;
})
transmit_from fd (b ∷ bs) broken s = goes_on (close_client fd true s)
transmit_from fd (b ∷ bs) send_blocks s = raised s

-- `_handle_write`
unfoldable pub handle_write : ℕ → Send → SelectEchoServer → Ran SelectEchoServer
handle_write fd r s =
    if is_some (s.fd_to_sock fd)
    then transmit_from fd (get_or [] (s.send_bufs fd)) r s
    else goes_on s

unfoldable pub handle_readable : Ready → SelectEchoServer → Ran SelectEchoServer
handle_readable r s =
    if r.fd == s.server_fd then goes_on (accept_client r.accepts s) else handle_read r.fd r.recv s

unfoldable pub read_all : List Ready → SelectEchoServer → Ran SelectEchoServer
read_all [] s = goes_on s
read_all (r ∷ rs) s = then_run (handle_readable r s) (read_all rs)

unfoldable pub write_all : List Ready → SelectEchoServer → Ran SelectEchoServer
write_all [] s = goes_on s
write_all (r ∷ rs) s = then_run (handle_write r.fd r.send s) (write_all rs)

-- What `select.select` returns, if it does not raise.
pub record Selected : Type 0 where
  pub rlist : List Ready
  pub wlist : List Ready

-- One pass of the loop.
unfoldable pub turn : Selected → SelectEchoServer → Ran SelectEchoServer
turn x s = then_run (read_all x.rlist s) (write_all x.wlist)

-- `_cleanup`, for the keys of `fd_to_sock`.
unfoldable pub cleanup : List ℕ → SelectEchoServer → SelectEchoServer
cleanup [] s = s
cleanup (fd ∷ fds) s = cleanup fds (if fd == s.server_fd then s else close_client fd true s)

-- The passes of the loop, until `select` raises (`none`) or a handler does.
unfoldable pub serve : List (Option Selected) → SelectEchoServer → Ran SelectEchoServer
serve [] s = goes_on s
serve (none ∷ xs) s = raised s
serve (some x ∷ xs) s = then_run (turn x s) (serve xs)
