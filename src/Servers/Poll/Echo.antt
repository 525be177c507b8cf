-- ===== src/Servers/Poll/Echo.antt =====
-- python/io_multiplexing/poll_server.py: the bytes that a client gets back are those that it sent, in
-- upper case, and the poller watches for POLLOUT as long as bytes are queued.
use cocurrency.Common.{
  ℕ, zero, suc, ◌≡◌, refl, ap, ◌∙◌, Bool, true, false, some, List, [], ◌∷◌, if◌then◌else◌, ◌==◌,
}
use cocurrency.Servers.{
  get_or, is_some, Bytes, drop, Recv, bytes, reset, recv_blocks, Send, sends, broken, send_blocks,
  Ran, goes_on, raised, state, then_run, Ready,
}
use cocurrency.Servers.Poll.{
  pollin, pollin_pollout, Event, PollEchoServer, start, accept_client, close_client, echo,
  handle_read, settle, send_some, transmit_from, handle_write, exchange, handle_io, handle, serve,
}
use cocurrency.Servers.Poll.Change.{
  interest, IsEchoServer, start-IsEchoServer, accept_client-IsEchoServer, close_client-IsEchoServer,
  IsAlmost, settled-IsEchoServer, modify-IsEchoServer, echo-IsAlmost, send_some-IsAlmost,
  quiet-IsAlmost,
}

settle-IsEchoServer :
    (k : ℕ) (left : Bytes) (s : PollEchoServer)
    → IsAlmost k (interest left) s
    → (is_some (s.fd_to_sock k) ≡ true → s.poller k ≡ some pollin_pollout)
    → IsEchoServer (state (settle k left s))
unfolding settle
settle-IsEchoServer k [] s almost set_before = modify-IsEchoServer k pollin s almost
settle-IsEchoServer k (b ∷ bs) s almost set_before =
    settled-IsEchoServer k pollin_pollout s almost set_before

transmit_from-IsEchoServer :
    (k : ℕ) (buf : Bytes) (r : Send) (s : PollEchoServer)
    → get_or [] (s.send_bufs k) ≡ buf
    → IsEchoServer s
    → IsEchoServer (state (transmit_from k buf r s))
unfolding transmit_from
transmit_from-IsEchoServer k [] r s queue h =
    modify-IsEchoServer k pollin s (quiet-IsAlmost k s queue h)
transmit_from-IsEchoServer k (b ∷ bs) (sends zero) s queue h = h
transmit_from-IsEchoServer k (b ∷ bs) (sends (suc n)) s queue h =
    settle-IsEchoServer k (drop (suc n) (b ∷ bs)) (send_some k (suc n) (b ∷ bs) s)
      (send_some-IsAlmost k (suc n) (b ∷ bs) s queue h)
      (λ present. (h k present).watched ∙ ap (λ l. some (interest l)) queue)
transmit_from-IsEchoServer k (b ∷ bs) broken s queue h = close_client-IsEchoServer k s h
transmit_from-IsEchoServer k (b ∷ bs) send_blocks s queue h = h

handle_write-IsEchoServer :
    (k : ℕ) (r : Send) (s : PollEchoServer)
    → IsEchoServer s
    → IsEchoServer (state (handle_write k r s))
unfolding handle_write
handle_write-IsEchoServer k r s h =
    transmit_from-IsEchoServer k (get_or [] (s.send_bufs k)) r s refl h

handle_read-IsEchoServer :
    (k : ℕ) (r : Recv) (s : PollEchoServer)
    → IsEchoServer s
    → IsEchoServer (state (handle_read k r s))
unfolding handle_read
handle_read-IsEchoServer k (bytes []) s h = close_client-IsEchoServer k s h
handle_read-IsEchoServer k (bytes (b ∷ bs)) s h =
    modify-IsEchoServer k pollin_pollout (echo k (b ∷ bs) s) (echo-IsAlmost k b bs s h)
handle_read-IsEchoServer k reset s h = close_client-IsEchoServer k s h
handle_read-IsEchoServer k recv_blocks s h = h

if-IsEchoServer :
    (b : Bool) (x y : Ran PollEchoServer)
    → IsEchoServer (state x)
    → IsEchoServer (state y)
    → IsEchoServer (state (if b then x else y))
if-IsEchoServer true x y hx hy = hx
if-IsEchoServer false x y hx hy = hy

then_run-IsEchoServer :
    (x : Ran PollEchoServer) (f : PollEchoServer → Ran PollEchoServer)
    → IsEchoServer (state x)
    → ((s : PollEchoServer) → IsEchoServer s → IsEchoServer (state (f s)))
    → IsEchoServer (state (then_run x f))
then_run-IsEchoServer (goes_on s) f h step = step s h
then_run-IsEchoServer (raised s) f h step = h

exchange-IsEchoServer :
    (e : Event) (r : Ready) (s : PollEchoServer)
    → IsEchoServer s
    → IsEchoServer (state (exchange e r s))
unfolding exchange
exchange-IsEchoServer e r s h =
    then_run-IsEchoServer (if e.readable then handle_read r.fd r.recv s else goes_on s)
      (λ t. if e.writable then handle_write r.fd r.send t else goes_on t)
      (if-IsEchoServer e.readable (handle_read r.fd r.recv s) (goes_on s)
        (handle_read-IsEchoServer r.fd r.recv s h) h)
      (λ t ht.
        if-IsEchoServer e.writable (handle_write r.fd r.send t) (goes_on t)
          (handle_write-IsEchoServer r.fd r.send t ht) ht)

handle-IsEchoServer :
    (e : Event) (r : Ready) (s : PollEchoServer)
    → IsEchoServer s
    → IsEchoServer (state (handle e r s))
unfolding handle handle_io
handle-IsEchoServer e r s h =
    if-IsEchoServer (r.fd == s.server_fd) (goes_on (accept_client e r.accepts s)) (handle_io e r s)
      (accept_client-IsEchoServer e r.accepts s h)
      (if-IsEchoServer (is_some (s.fd_to_sock r.fd))
        (if e.broken_off then goes_on (close_client r.fd s) else exchange e r s) (goes_on s)
        (if-IsEchoServer e.broken_off (goes_on (close_client r.fd s)) (exchange e r s)
          (close_client-IsEchoServer r.fd s h) (exchange-IsEchoServer e r s h))
        h)

loop-IsEchoServer :
    (es : List (Event × Ready)) (s : PollEchoServer)
    → IsEchoServer s
    → IsEchoServer (state (serve es s))
unfolding serve
loop-IsEchoServer [] s h = h
loop-IsEchoServer ((e, r) ∷ es) s h =
    then_run-IsEchoServer (handle e r s) (serve es) (handle-IsEchoServer e r s h)
      (loop-IsEchoServer es)

-- Whatever `poll`, `accept`, `recv` and `send` return: for each connection that is open, what was
-- sent and then what is queued is what was received, in upper case; `_recv_bufs` holds all that was
-- received; and the poller watches its descriptor for POLLIN, and for POLLOUT if, and only if, bytes
-- are queued.
pub serve-IsPollEcho :
    (fd : ℕ) (es : List (Event × Ready)) → IsEchoServer (state (serve es (start fd)))
serve-IsPollEcho fd es = loop-IsEchoServer es (start fd) (start-IsEchoServer fd)
