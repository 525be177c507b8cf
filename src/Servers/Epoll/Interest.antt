-- ===== src/Servers/Epoll/Interest.antt =====
-- python/io_multiplexing/epoll_server.py: what holds of each connection, and how a change at one
-- descriptor keeps it.
use mathlib.Core.Path.{subst}
use cocurrency.Common.{
  ℕ, ◌≡◌, inl, inr, refl, sym, ap, ◌∙◌, Bool, true, false, some, [], ◌∷◌, ◌++◌, if◌then◌else◌,
  Bool-cases, ◌==◌, arith,
}
use cocurrency.Servers.{set, get_or, is_some, Bytes, upper}
use cocurrency.Servers.Wire.{queue_echoed, send_echoed}
use cocurrency.Servers.Epoll.{
  TriggerMode, flags, EpollEchoServer, start, rearm, close_client, echo, send_some,
}

abbrev pub is_pending : Bytes → Bool
is_pending [] = false
is_pending (b ∷ bs) = true

pub is_pending-append : (queue bs : Bytes) (b : ℕ) → is_pending (queue ++ upper (b ∷ bs)) ≡ true
is_pending-append [] bs b = refl
is_pending-append (q ∷ qs) bs b = refl

-- What holds of each connection.
pub record IsEchoing (s : EpollEchoServer) (fd : ℕ) : Type 0 where
  -- What was sent, and then what is queued, is what was received, in upper case.
  pub echoed : s.net.wire fd ++ get_or [] (s.send_bufs fd) ≡ upper (s.net.heard fd)
  -- A client is registered with the flags of the mode, and for EPOLLOUT if, and only if, bytes are
  -- queued.
  pub watched :
      (fd == s.server_fd) ≡ false
      → s.epoll fd ≡ some (flags s.mode s.use_oneshot (is_pending (get_or [] (s.send_bufs fd))))

abbrev pub IsEchoServer : EpollEchoServer → Type 0
IsEchoServer s = (fd : ℕ) → is_some (s.fd_to_sock fd) ≡ true → IsEchoing s fd

pub start-IsEchoServer :
    (fd : ℕ) (mode : TriggerMode) (use_oneshot : Bool) → IsEchoServer (start fd mode use_oneshot)
start-IsEchoServer k mode use_oneshot fd there = record {
  echoed = refl;
  watched = λ client. ground arith;
}

-- All is well but at one descriptor, whose interest is not yet set.
pub record IsAlmost (k : ℕ) (s : EpollEchoServer) : Type 0 where
  pub apart : (j : ℕ) → (k == j) ≡ false → is_some (s.fd_to_sock j) ≡ true → IsEchoing s j
  pub echoed_here :
      is_some (s.fd_to_sock k) ≡ true
      → s.net.wire k ++ get_or [] (s.send_bufs k) ≡ upper (s.net.heard k)
  pub known_here :
      (k == s.server_fd) ≡ false → is_some (s.fd_to_sock k) ≡ true → is_some (s.epoll k) ≡ true

pub IsEchoServer-IsAlmost : (k : ℕ) (s : EpollEchoServer) → IsEchoServer s → IsAlmost k s
IsEchoServer-IsAlmost k s h = record {
  apart = λ j other there. h j there;
  echoed_here = λ present. (h k present).echoed;
  known_here = λ client present. ground (arith, (h k present).watched client);
}

at_key :
    (k j : ℕ) (s : EpollEchoServer)
    → (k == j) ≡ true
    → is_some (s.fd_to_sock j) ≡ true
    → is_some (s.fd_to_sock k) ≡ true
at_key k j s same there = ground arith

module _ (k : ℕ) (out : Bool) (s : EpollEchoServer) (almost : IsAlmost k s)
    (wanted : (k == s.server_fd) ≡ false
      → is_some (s.fd_to_sock k) ≡ true
      → out ≡ is_pending (get_or [] (s.send_bufs k))) where
  known-IsEchoServer : IsEchoServer (record s {
    epoll = set k (flags s.mode s.use_oneshot out) s.epoll;
    disabled = λ j. if k == j then false else s.disabled j;
  })
  known-IsEchoServer j there = elim (Bool-cases (k == j)) [
    | inl same ↦
        let e : k ≡ j = ground arith in
        let present = at_key k j s same there in
        record {
          echoed = ground (arith, almost.echoed_here present, e);
          watched = λ client. ground (arith, wanted (ground (arith, e)) present, e);
        }
    | inr other ↦
        let old = almost.apart j other there in
        record { echoed = old.echoed; watched = λ client. ground (arith, old.watched client) }
  ]

  pub settled-IsEchoServer :
      ((k == s.server_fd) ≡ false
        → is_some (s.fd_to_sock k) ≡ true
        → s.epoll k ≡ some (flags s.mode s.use_oneshot out))
      → IsEchoServer s
  settled-IsEchoServer set_before j there = elim (Bool-cases (k == j)) [
    | inl same ↦
        let e : k ≡ j = ground arith in
        let present = at_key k j s same there in
        record {
          echoed = ground (arith, almost.echoed_here present, e);
          watched = λ client.
              let here : (k == s.server_fd) ≡ false = ground (arith, e) in
              ground (arith, wanted here present, set_before here present, e);
        }
    | inr other ↦ almost.apart j other there
  ]

  unknown-IsEchoServer : is_some (s.epoll k) ≡ false → IsEchoServer s
  unknown-IsEchoServer unknown =
      settled-IsEchoServer
        (λ client present. absurd (cc (sym (almost.known_here client present) ∙ unknown)))

  pub rearm-IsEchoServer : IsEchoServer (rearm k out s)
  unfolding rearm
  rearm-IsEchoServer = elim (Bool-cases (is_some (s.epoll k))) [
    | inl known ↦
        subst
          (λ b. IsEchoServer (
            if b
            then record s {
              epoll = set k (flags s.mode s.use_oneshot out) s.epoll;
              disabled = λ j. if k == j then false else s.disabled j;
            }
            else s))
          (sym known) known-IsEchoServer
    | inr unknown ↦
        subst
          (λ b. IsEchoServer (
            if b
            then record s {
              epoll = set k (flags s.mode s.use_oneshot out) s.epoll;
              disabled = λ j. if k == j then false else s.disabled j;
            }
            else s))
          (sym unknown) (unknown-IsEchoServer unknown)
  ]

pub close_client-IsEchoServer :
    (k : ℕ) (s : EpollEchoServer) → IsAlmost k s → IsEchoServer (close_client k s)
unfolding close_client
close_client-IsEchoServer k s almost fd there = elim (Bool-cases (k == fd)) [
  | inl same ↦ absurd (ground arith)
  | inr other ↦
      let old = almost.apart fd other (ground arith) in
      record {
        echoed = ground (arith, old.echoed);
        watched = λ client. ground (arith, old.watched client);
      }
]

pub echo-IsAlmost :
    (k : ℕ) (bs : Bytes) (s : EpollEchoServer) → IsAlmost k s → IsAlmost k (echo k bs s)
echo-IsAlmost k bs s h = record {
  apart = λ j other there.
      let old = h.apart j other there in
      record {
        echoed = ground (arith, old.echoed);
        watched = λ client. ground (arith, old.watched client);
      };
  echoed_here = λ present.
      let new =
        queue_echoed (s.net.wire k) (get_or [] (s.send_bufs k)) (s.net.heard k) bs
          (h.echoed_here present) in
      ground (arith, new);
  known_here = λ client present. h.known_here client present;
}

pub send_some-IsAlmost :
    (k n : ℕ) (buf : Bytes) (s : EpollEchoServer)
    → get_or [] (s.send_bufs k) ≡ buf
    → IsAlmost k s
    → IsAlmost k (send_some k n buf s)
send_some-IsAlmost k n buf s queue h = record {
  apart = λ j other there.
      let old = h.apart j other there in
      record {
        echoed = ground (arith, old.echoed);
        watched = λ client. ground (arith, old.watched client);
      };
  echoed_here = λ present.
      let new =
        send_echoed n (s.net.wire k) buf (s.net.heard k)
          (ap (λ l. s.net.wire k ++ l) (sym queue) ∙ h.echoed_here present) in
      ground (arith, new);
  known_here = λ client present. h.known_here client present;
}
