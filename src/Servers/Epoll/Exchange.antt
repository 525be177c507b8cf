-- ===== src/Servers/Epoll/Exchange.antt =====
-- python/io_multiplexing/epoll_server.py: what the handlers of input and output keep.
use mathlib.Core.Path.{subst}
use cocurrency.Common.{
  ℕ, zero, suc, ◌+◌, ◌<◌, ◌≡◌, refl, sym, ap, ◌∙◌, Bool, true, false, some, List, [], ◌∷◌, length,
  ltb, if◌then◌else◌, ◌==◌, arith,
}
use cocurrency.Servers.{
  get_or, is_some, Bytes, drop, Recv, bytes, reset, recv_blocks, Send, sends, broken, send_blocks,
  Ran, goes_on, raised, state,
}
use cocurrency.Servers.Epoll.{
  is_edge, flags, Event, Ready, EpollEchoServer, rearm, echo, send_some, settle, flush_from,
  flush_send, flush_if, read_lt, read_et, exchange,
}
use cocurrency.Servers.Epoll.Interest.{
  is_pending, is_pending-append, IsEchoServer, IsAlmost, IsEchoServer-IsAlmost,
  settled-IsEchoServer, rearm-IsEchoServer, close_client-IsEchoServer, echo-IsAlmost,
  send_some-IsAlmost,
}

settle-IsEchoServer :
    (k : ℕ) (left : Bytes) (s : EpollEchoServer)
    → get_or [] (s.send_bufs k) ≡ left
    → IsAlmost k s
    → ((k == s.server_fd) ≡ false
        → is_some (s.fd_to_sock k) ≡ true
        → s.epoll k ≡ some (flags s.mode s.use_oneshot true))
    → IsEchoServer (settle k left s)
unfolding settle
settle-IsEchoServer k [] s queue almost before =
    rearm-IsEchoServer k false s almost (λ client present. sym (ap is_pending queue))
settle-IsEchoServer k (b ∷ bs) s queue almost before =
    settled-IsEchoServer k true s almost (λ client present. sym (ap is_pending queue)) before

pub if-IsEchoServer :
    (b : Bool) (x y : Ran EpollEchoServer)
    → IsEchoServer (state x)
    → IsEchoServer (state y)
    → IsEchoServer (state (if b then x else y))
if-IsEchoServer true x y hx hy = hx
if-IsEchoServer false x y hx hy = hy

flush_from-IsEchoServer :
    (k : ℕ) (buf : Bytes) (r : Send) (s : EpollEchoServer)
    → get_or [] (s.send_bufs k) ≡ buf
    → IsEchoServer s
    → IsEchoServer (state (flush_from k buf r s))
unfolding flush_from
flush_from-IsEchoServer k [] r s queue h =
    rearm-IsEchoServer k false s (IsEchoServer-IsAlmost k s h)
      (λ client present. sym (ap is_pending queue))
flush_from-IsEchoServer k (b ∷ bs) (sends zero) s queue h = h
flush_from-IsEchoServer k (b ∷ bs) (sends (suc n)) s queue h =
    settle-IsEchoServer k (drop (suc n) (b ∷ bs)) (send_some k (suc n) (b ∷ bs) s) (ground arith)
      (send_some-IsAlmost k (suc n) (b ∷ bs) s queue (IsEchoServer-IsAlmost k s h))
      (λ client present.
        (h k present).watched client
        ∙ ap (λ l. some (flags s.mode s.use_oneshot (is_pending l))) queue)
flush_from-IsEchoServer k (b ∷ bs) broken s queue h =
    close_client-IsEchoServer k s (IsEchoServer-IsAlmost k s h)
flush_from-IsEchoServer k (b ∷ bs) send_blocks s queue h =
    if-IsEchoServer (is_edge s.mode) (goes_on s) (raised s) h h

flush_if-IsEchoServer :
    (e : Event) (r : Ready) (s : EpollEchoServer)
    → IsEchoServer s
    → IsEchoServer (state (flush_if e r s))
unfolding flush_send
flush_if-IsEchoServer e r s h =
    if-IsEchoServer e.writable (flush_send r.fd r.send s) (goes_on s)
      (flush_from-IsEchoServer r.fd (get_or [] (s.send_bufs r.fd)) r.send s refl h) h

-- After bytes have been queued, the descriptor is armed for EPOLLOUT.
rearm-echo-IsEchoServer :
    (k b : ℕ) (bs : Bytes) (s : EpollEchoServer)
    → IsEchoServer s
    → IsEchoServer (rearm k true (echo k (b ∷ bs) s))
rearm-echo-IsEchoServer k b bs s h =
    rearm-IsEchoServer k true (echo k (b ∷ bs) s)
      (echo-IsAlmost k (b ∷ bs) s (IsEchoServer-IsAlmost k s h))
      (λ client present. ground (arith, is_pending-append (get_or [] (s.send_bufs k)) bs b))

read_lt-IsEchoServer :
    (e : Event) (r : Ready) (rs : List Recv) (s : EpollEchoServer)
    → IsEchoServer s
    → IsEchoServer (state (read_lt e r rs s))
unfolding read_lt
read_lt-IsEchoServer e r (bytes (b ∷ bs) ∷ rs) s h =
    flush_if-IsEchoServer e r (rearm r.fd true (echo r.fd (b ∷ bs) s))
      (rearm-echo-IsEchoServer r.fd b bs s h)
read_lt-IsEchoServer e r (bytes [] ∷ rs) s h =
    close_client-IsEchoServer r.fd s (IsEchoServer-IsAlmost r.fd s h)
read_lt-IsEchoServer e r (reset ∷ rs) s h =
    close_client-IsEchoServer r.fd s (IsEchoServer-IsAlmost r.fd s h)
read_lt-IsEchoServer e r (recv_blocks ∷ rs) s h = h
read_lt-IsEchoServer e r [] s h = h

-- Where the loop of an edge-triggered read stands, when it has read so many bytes.
data IsReading (k : ℕ) (s : EpollEchoServer) : ℕ → Type 0 where
  nothing : IsEchoServer s → IsReading k s 0
  something :
      {total : ℕ}
      → 0 < total
      → IsAlmost k s
      → is_pending (get_or [] (s.send_bufs k)) ≡ true
      → IsReading k s total

IsReading-IsAlmost : (k total : ℕ) (s : EpollEchoServer) → IsReading k s total → IsAlmost k s
IsReading-IsAlmost k total s (nothing h) = IsEchoServer-IsAlmost k s h
IsReading-IsAlmost k total s (something pos almost pending) = almost

echo-IsReading :
    (k total b : ℕ) (bs : Bytes) (s : EpollEchoServer)
    → IsAlmost k s
    → IsReading k (echo k (b ∷ bs) s) (total + length (b ∷ bs))
echo-IsReading k total b bs s almost =
    something (omega arith) (echo-IsAlmost k (b ∷ bs) s almost)
      (ground (arith, is_pending-append (get_or [] (s.send_bufs k)) bs b))

stop-IsEchoServer :
    (k total : ℕ) (s : EpollEchoServer)
    → IsReading k s total
    → IsEchoServer (if ltb 0 total then rearm k true s else s)
stop-IsEchoServer k total s (nothing h) = h
stop-IsEchoServer k total s (something pos almost pending) =
    subst (λ b. IsEchoServer (if b then rearm k true s else s)) (sym (ltb_pos total pos))
      (rearm-IsEchoServer k true s almost (λ client present. sym pending))
  where
    ltb_pos : (n : ℕ) → 0 < n → ltb 0 n ≡ true
    ltb_pos n h = ground arith

read_et-IsEchoServer :
    (e : Event) (r : Ready) (total : ℕ) (rs : List Recv) (s : EpollEchoServer)
    → IsReading r.fd s total
    → IsEchoServer (state (read_et e r total rs s))
unfolding read_et
read_et-IsEchoServer e r total (bytes (b ∷ bs) ∷ rs) s h =
    read_et-IsEchoServer e r (total + length (b ∷ bs)) rs (echo r.fd (b ∷ bs) s)
      (echo-IsReading r.fd total b bs s (IsReading-IsAlmost r.fd total s h))
read_et-IsEchoServer e r total (bytes [] ∷ rs) s h =
    close_client-IsEchoServer r.fd s (IsReading-IsAlmost r.fd total s h)
read_et-IsEchoServer e r total (reset ∷ rs) s h =
    close_client-IsEchoServer r.fd s (IsReading-IsAlmost r.fd total s h)
read_et-IsEchoServer e r total (recv_blocks ∷ rs) s h =
    flush_if-IsEchoServer e r (if ltb 0 total then rearm r.fd true s else s)
      (stop-IsEchoServer r.fd total s h)
read_et-IsEchoServer e r total [] s h =
    flush_if-IsEchoServer e r (if ltb 0 total then rearm r.fd true s else s)
      (stop-IsEchoServer r.fd total s h)

pub exchange-IsEchoServer :
    (e : Event) (r : Ready) (s : EpollEchoServer)
    → IsEchoServer s
    → IsEchoServer (state (exchange e r s))
unfolding exchange
exchange-IsEchoServer e r s h =
    if-IsEchoServer e.readable
      (if is_edge s.mode then read_et e r 0 r.recvs s else read_lt e r r.recvs s) (flush_if e r s)
      (if-IsEchoServer (is_edge s.mode) (read_et e r 0 r.recvs s) (read_lt e r r.recvs s)
        (read_et-IsEchoServer e r 0 r.recvs s (nothing h)) (read_lt-IsEchoServer e r r.recvs s h))
      (flush_if-IsEchoServer e r s h)
