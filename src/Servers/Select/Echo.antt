-- ===== src/Servers/Select/Echo.antt =====
-- python/io_multiplexing/select_server.py: the bytes that a client gets back are those that it sent,
-- in upper case; and what a client that leaves does to the loop.
use mathlib.Core.Path.{subst}
use cocurrency.Common.{
  ℕ, zero, suc, ◌≡◌, inl, inr, refl, sym, ap, ◌∙◌, Bool, true, false, Option, none, some, List, [],
  ◌∷◌, ◌++◌, if◌then◌else◌, Bool-cases, ◌==◌, arith,
}
use cocurrency.Servers.{
  set, get_or, is_some, Bytes, drop, take, upper, Recv, bytes, reset, recv_blocks, Send, sends,
  broken, send_blocks, transmit, Ran, goes_on, raised, state, then_run, Ready,
}
use cocurrency.Servers.Wire.{queue_echoed, send_echoed}
use cocurrency.Servers.Select.{
  SelectEchoServer, create, accept_client, close_client, echo, receive, handle_read, transmit_from,
  handle_write, handle_readable, read_all, write_all, Selected, turn, serve,
}

-- What holds of each connection.
pub record IsEchoing (s : SelectEchoServer) (fd : ℕ) : Type 0 where
  -- What was sent, and then what is queued, is what was received, in upper case.
  pub echoed : s.net.wire fd ++ get_or [] (s.send_bufs fd) ≡ upper (s.net.heard fd)
  pub kept : get_or [] (s.recv_bufs fd) ≡ s.net.heard fd
  -- The loop asks for its input.
  pub watched : s.read_fds fd ≡ true

abbrev pub IsEchoServer : SelectEchoServer → Type 0
IsEchoServer s = (fd : ℕ) → is_some (s.fd_to_sock fd) ≡ true → IsEchoing s fd

create-IsEchoServer : (fd : ℕ) → IsEchoServer (create fd)
create-IsEchoServer k fd there = record { echoed = refl; kept = refl; watched = ground arith }

accept_client-IsEchoServer :
    (r : Option ℕ) (s : SelectEchoServer) → IsEchoServer s → IsEchoServer (accept_client r s)
unfolding accept_client
accept_client-IsEchoServer none s h fd there = h fd there
accept_client-IsEchoServer (some k) s h fd there = elim (Bool-cases (k == fd)) [
  | inl same ↦ record { echoed = ground arith; kept = ground arith; watched = ground arith }
  | inr other ↦
      let old = h fd (ground arith) in
      record {
        echoed = ground (arith, old.echoed);
        kept = ground (arith, old.kept);
        watched = ground (arith, old.watched);
      }
]

close_client-IsEchoServer :
    (k : ℕ) (given : Bool) (s : SelectEchoServer)
    → IsEchoServer s
    → IsEchoServer (close_client k given s)
unfolding close_client
close_client-IsEchoServer k given s h fd there =
    let old = h fd (ground arith) in
    record {
      echoed = ground (arith, old.echoed);
      kept = ground (arith, old.kept);
      watched = ground (arith, old.watched);
    }

echo-IsEchoServer :
    (k : ℕ) (bs : Bytes) (s : SelectEchoServer)
    → is_some (s.fd_to_sock k) ≡ true
    → IsEchoServer s
    → IsEchoServer (echo k bs s)
echo-IsEchoServer k bs s present h fd there = elim (Bool-cases (k == fd)) [
  | inl same ↦
      let e : k ≡ fd = ground arith in
      let old = h k present in
      let new =
        queue_echoed (s.net.wire k) (get_or [] (s.send_bufs k)) (s.net.heard k) bs old.echoed in
      record {
        echoed = ground (arith, new, e);
        kept = ground (arith, old.kept, e);
        watched = ground (arith, old.watched, e);
      }
  | inr other ↦
      let old = h fd there in
      record {
        echoed = ground (arith, old.echoed);
        kept = ground (arith, old.kept);
        watched = old.watched;
      }
]

receive-IsEchoServer :
    (k : ℕ) (r : Recv) (s : SelectEchoServer)
    → is_some (s.fd_to_sock k) ≡ true
    → IsEchoServer s
    → IsEchoServer (state (receive k r s))
unfolding receive
receive-IsEchoServer k (bytes []) s present h = close_client-IsEchoServer k false s h
receive-IsEchoServer k (bytes (b ∷ bs)) s present h = echo-IsEchoServer k (b ∷ bs) s present h
receive-IsEchoServer k reset s present h = close_client-IsEchoServer k false s h
receive-IsEchoServer k recv_blocks s present h = h

handle_read-IsEchoServer :
    (k : ℕ) (r : Recv) (s : SelectEchoServer)
    → IsEchoServer s
    → IsEchoServer (state (handle_read k r s))
unfolding handle_read
handle_read-IsEchoServer k r s h = elim (Bool-cases (is_some (s.fd_to_sock k))) [
  | inl present ↦
      subst (λ x. IsEchoServer (state x))
        (sym (ap (λ b. if b then receive k r s else goes_on s) present))
        (receive-IsEchoServer k r s present h)
  | inr absent ↦
      subst (λ x. IsEchoServer (state x))
        (sym (ap (λ b. if b then receive k r s else goes_on s) absent)) h
]

-- The state after `sock.send` of the first bytes of the queue.
abbrev send_some : ℕ → ℕ → Bytes → SelectEchoServer → SelectEchoServer
send_some k n buf s = record s {
  send_bufs = set k (drop n buf) s.send_bufs;
  net = transmit k (take n buf) s.net;
}

send_some-IsEchoServer :
    (k n : ℕ) (buf : Bytes) (s : SelectEchoServer)
    → get_or [] (s.send_bufs k) ≡ buf
    → is_some (s.fd_to_sock k) ≡ true
    → IsEchoServer s
    → IsEchoServer (send_some k n buf s)
send_some-IsEchoServer k n buf s queue present h fd there = elim (Bool-cases (k == fd)) [
  | inl same ↦
      let e : k ≡ fd = ground arith in
      let old = h k present in
      let new =
        send_echoed n (s.net.wire k) buf (s.net.heard k)
          (ap (λ l. s.net.wire k ++ l) (sym queue) ∙ old.echoed) in
      record {
        echoed = ground (arith, new, e);
        kept = ground (arith, old.kept, e);
        watched = ground (arith, old.watched, e);
      }
  | inr other ↦
      let old = h fd there in
      record { echoed = ground (arith, old.echoed); kept = old.kept; watched = old.watched }
]

transmit_from-IsEchoServer :
    (k : ℕ) (buf : Bytes) (r : Send) (s : SelectEchoServer)
    → get_or [] (s.send_bufs k) ≡ buf
    → is_some (s.fd_to_sock k) ≡ true
    → IsEchoServer s
    → IsEchoServer (state (transmit_from k buf r s))
unfolding transmit_from
transmit_from-IsEchoServer k [] r s is present h = h
transmit_from-IsEchoServer k (b ∷ bs) (sends zero) s is present h = h
transmit_from-IsEchoServer k (b ∷ bs) (sends (suc n)) s is present h =
    send_some-IsEchoServer k (suc n) (b ∷ bs) s is present h
transmit_from-IsEchoServer k (b ∷ bs) broken s is present h = close_client-IsEchoServer k true s h
transmit_from-IsEchoServer k (b ∷ bs) send_blocks s is present h = h

handle_write-IsEchoServer :
    (k : ℕ) (r : Send) (s : SelectEchoServer)
    → IsEchoServer s
    → IsEchoServer (state (handle_write k r s))
unfolding handle_write
handle_write-IsEchoServer k r s h = elim (Bool-cases (is_some (s.fd_to_sock k))) [
  | inl present ↦
      subst (λ x. IsEchoServer (state x))
        (sym (
          ap (λ b. if b then transmit_from k (get_or [] (s.send_bufs k)) r s else goes_on s)
            present))
        (transmit_from-IsEchoServer k (get_or [] (s.send_bufs k)) r s refl present h)
  | inr absent ↦
      subst (λ x. IsEchoServer (state x))
        (sym (
          ap (λ b. if b then transmit_from k (get_or [] (s.send_bufs k)) r s else goes_on s)
            absent))
        h
]

handle_readable-IsEchoServer :
    (r : Ready) (s : SelectEchoServer) → IsEchoServer s → IsEchoServer (state (handle_readable r s))
unfolding handle_readable
handle_readable-IsEchoServer r s h = elim (Bool-cases (r.fd == s.server_fd)) [
  | inl server ↦
      subst (λ x. IsEchoServer (state x))
        (sym (
          ap (λ b. if b then goes_on (accept_client r.accepts s) else handle_read r.fd r.recv s)
            server))
        (accept_client-IsEchoServer r.accepts s h)
  | inr client ↦
      subst (λ x. IsEchoServer (state x))
        (sym (
          ap (λ b. if b then goes_on (accept_client r.accepts s) else handle_read r.fd r.recv s)
            client))
        (handle_read-IsEchoServer r.fd r.recv s h)
]

then_run-IsEchoServer :
    (x : Ran SelectEchoServer) (f : SelectEchoServer → Ran SelectEchoServer)
    → IsEchoServer (state x)
    → ((s : SelectEchoServer) → IsEchoServer s → IsEchoServer (state (f s)))
    → IsEchoServer (state (then_run x f))
then_run-IsEchoServer (goes_on s) f h step = step s h
then_run-IsEchoServer (raised s) f h step = h

read_all-IsEchoServer :
    (rs : List Ready) (s : SelectEchoServer) → IsEchoServer s → IsEchoServer (state (read_all rs s))
unfolding read_all
read_all-IsEchoServer [] s h = h
read_all-IsEchoServer (r ∷ rs) s h =
    then_run-IsEchoServer (handle_readable r s) (read_all rs) (handle_readable-IsEchoServer r s h)
      (read_all-IsEchoServer rs)

write_all-IsEchoServer :
    (rs : List Ready) (s : SelectEchoServer)
    → IsEchoServer s
    → IsEchoServer (state (write_all rs s))
unfolding write_all
write_all-IsEchoServer [] s h = h
write_all-IsEchoServer (r ∷ rs) s h =
    then_run-IsEchoServer (handle_write r.fd r.send s) (write_all rs)
      (handle_write-IsEchoServer r.fd r.send s h) (write_all-IsEchoServer rs)

turn-IsEchoServer :
    (x : Selected) (s : SelectEchoServer) → IsEchoServer s → IsEchoServer (state (turn x s))
unfolding turn
turn-IsEchoServer x s h =
    then_run-IsEchoServer (read_all x.rlist s) (write_all x.wlist)
      (read_all-IsEchoServer x.rlist s h) (write_all-IsEchoServer x.wlist)

loop-IsEchoServer :
    (xs : List (Option Selected)) (s : SelectEchoServer)
    → IsEchoServer s
    → IsEchoServer (state (serve xs s))
unfolding serve
loop-IsEchoServer [] s h = h
loop-IsEchoServer (none ∷ xs) s h = h
loop-IsEchoServer (some x ∷ xs) s h =
    then_run-IsEchoServer (turn x s) (serve xs) (turn-IsEchoServer x s h) (loop-IsEchoServer xs)

-- Whatever `select`, `accept`, `recv` and `send` return: for each connection that is open, what was
-- sent and then what is queued is what was received, in upper case; `_recv_bufs` holds all that was
-- received; and the loop watches its descriptor.
pub serve-IsEchoServer :
    (fd : ℕ) (xs : List (Option Selected)) → IsEchoServer (state (serve xs (create fd)))
serve-IsEchoServer fd xs = loop-IsEchoServer xs (create fd) (create-IsEchoServer fd)

-- A client that leaves (an end of the stream, or a reset connection) is closed, but its descriptor
-- stays among those that the next `select` gets: `_handle_read` does not pass `read_fds` on.
pub closed_stays_watched :
    (fd : ℕ) (s : SelectEchoServer)
    → IsEchoServer s
    → is_some (s.fd_to_sock fd) ≡ true
    → (handle_read fd (bytes []) s ≡ handle_read fd reset s)
      × (is_some ((state (handle_read fd reset s)).fd_to_sock fd) ≡ false)
      × ((state (handle_read fd reset s)).read_fds fd ≡ true)
unfolding handle_read receive close_client
closed_stays_watched fd s h present =
    let old = h fd present in (refl, ground arith, ground (arith, old.watched))
