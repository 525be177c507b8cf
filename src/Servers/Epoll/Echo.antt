-- ===== src/Servers/Epoll/Echo.antt =====
-- python/io_multiplexing/epoll_server.py: the bytes that a client gets back are those that it sent,
-- in upper case, and epoll watches for EPOLLOUT as long as bytes are queued; and what EPOLLONESHOT
-- does to a client whose answer is sent in parts.
use cocurrency.Common.{
  ℕ, inl, inr, Bool, true, false, List, [], ◌∷◌, if◌then◌else◌, Bool-cases, ◌==◌, arith,
}
use cocurrency.Servers.{is_some, sends, Ran, goes_on, raised, state, then_run}
use cocurrency.Servers.Epoll.{
  TriggerMode, Event, Ready, EpollEchoServer, start, rearm, close_client, accept_one, accept_all,
  rearm_server, accept_client, exchange, handle_io, report, handle, serve,
}
use cocurrency.Servers.Epoll.Interest.{
  IsEchoServer, start-IsEchoServer, IsEchoServer-IsAlmost, rearm-IsEchoServer,
  close_client-IsEchoServer,
}
use cocurrency.Servers.Epoll.Exchange.{if-IsEchoServer, exchange-IsEchoServer}

accept_one-IsEchoServer :
    (k : ℕ) (s : EpollEchoServer) → IsEchoServer s → IsEchoServer (accept_one k s)
unfolding accept_one
accept_one-IsEchoServer k s h j there = elim (Bool-cases (k == j)) [
  | inl same ↦ record { echoed = ground arith; watched = λ client. ground arith }
  | inr other ↦
      let old = h j (ground arith) in
      record {
        echoed = ground (arith, old.echoed);
        watched = λ client. ground (arith, old.watched client);
      }
]

accept_all-IsEchoServer :
    (fds : List ℕ) (s : EpollEchoServer) → IsEchoServer s → IsEchoServer (accept_all fds s)
accept_all-IsEchoServer [] s h = h
accept_all-IsEchoServer (fd ∷ fds) s h =
    accept_all-IsEchoServer fds (accept_one fd s) (accept_one-IsEchoServer fd s h)

pick-IsEchoServer :
    (b : Bool) (x y : EpollEchoServer)
    → IsEchoServer x
    → IsEchoServer y
    → IsEchoServer (if b then x else y)
pick-IsEchoServer true x y hx hy = hx
pick-IsEchoServer false x y hx hy = hy

rearm_server-IsEchoServer : (s : EpollEchoServer) → IsEchoServer s → IsEchoServer (rearm_server s)
rearm_server-IsEchoServer s h =
    pick-IsEchoServer s.use_oneshot (rearm s.server_fd false s) s
      (rearm-IsEchoServer s.server_fd false s (IsEchoServer-IsAlmost s.server_fd s h)
        (λ client present. absurd (ground (arith, client))))
      h

accept_client-IsEchoServer :
    (e : Event) (fds : List ℕ) (s : EpollEchoServer)
    → IsEchoServer s
    → IsEchoServer (accept_client e fds s)
unfolding accept_client
accept_client-IsEchoServer e fds s h =
    pick-IsEchoServer e.readable (rearm_server (accept_all fds s)) s
      (rearm_server-IsEchoServer (accept_all fds s) (accept_all-IsEchoServer fds s h)) h

report-IsEchoServer : (fd : ℕ) (s : EpollEchoServer) → IsEchoServer s → IsEchoServer (report fd s)
report-IsEchoServer fd s h j there =
    let old = h j there in record { echoed = old.echoed; watched = old.watched }

handle-IsEchoServer :
    (e : Event) (r : Ready) (s : EpollEchoServer)
    → IsEchoServer s
    → IsEchoServer (state (handle e r s))
unfolding handle handle_io
handle-IsEchoServer e r s h =
    let t = report r.fd s in
    let ht : IsEchoServer t = report-IsEchoServer r.fd s h in
    if-IsEchoServer (r.fd == s.server_fd) (goes_on (accept_client e r.accepts t)) (handle_io e r t)
      (accept_client-IsEchoServer e r.accepts t ht)
      (if-IsEchoServer (is_some (t.fd_to_sock r.fd))
        (if e.broken_off then goes_on (close_client r.fd t) else exchange e r t) (goes_on t)
        (if-IsEchoServer e.broken_off (goes_on (close_client r.fd t)) (exchange e r t)
          (close_client-IsEchoServer r.fd t (IsEchoServer-IsAlmost r.fd t ht))
          (exchange-IsEchoServer e r t ht))
        ht)

then_run-IsEchoServer :
    (x : Ran EpollEchoServer) (f : EpollEchoServer → Ran EpollEchoServer)
    → IsEchoServer (state x)
    → ((s : EpollEchoServer) → IsEchoServer s → IsEchoServer (state (f s)))
    → IsEchoServer (state (then_run x f))
then_run-IsEchoServer (goes_on s) f h step = step s h
then_run-IsEchoServer (raised s) f h step = h

loop-IsEchoServer :
    (es : List (Event × Ready)) (s : EpollEchoServer)
    → IsEchoServer s
    → IsEchoServer (state (serve es s))
unfolding serve
loop-IsEchoServer [] s h = h
loop-IsEchoServer ((e, r) ∷ es) s h =
    then_run-IsEchoServer (handle e r s) (serve es) (handle-IsEchoServer e r s h)
      (loop-IsEchoServer es)

-- In both modes, with and without EPOLLONESHOT, and whatever `epoll.poll`, `accept`, `recv` and `send`
-- return: for each connection that is open, what was sent and then what is queued is what was
-- received, in upper case; and each client is registered with the flags of the mode, and for EPOLLOUT
-- if, and only if, bytes are queued.
pub serve-IsEpollEcho :
    (fd : ℕ) (mode : TriggerMode) (use_oneshot : Bool) (es : List (Event × Ready))
    → IsEchoServer (state (serve es (start fd mode use_oneshot)))
serve-IsEpollEcho fd mode use_oneshot es =
    loop-IsEchoServer es (start fd mode use_oneshot) (start-IsEchoServer fd mode use_oneshot)

-- A descriptor can be written to, and nothing else.
abbrev pub writable_only : Event
writable_only = record { broken_off = false; readable = false; writable = true }

-- `send` takes so many bytes.
abbrev pub sending : ℕ → ℕ → Ready
sending fd n = record { fd = fd; accepts = []; recvs = []; send = sends n }
