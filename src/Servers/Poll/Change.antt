-- ===== src/Servers/Poll/Change.antt =====
-- python/io_multiplexing/poll_server.py: what holds of each connection, and how a change at one
-- descriptor keeps it.
use mathlib.Core.Path.{subst}
use cocurrency.Common.{
  ℕ, ◌≡◌, inl, inr, refl, sym, ap, ◌∙◌, true, false, Option, none, some, [], ◌∷◌, ◌++◌,
  if◌then◌else◌, Bool-cases, ◌==◌, arith,
}
use cocurrency.Servers.{set, get_or, is_some, Bytes, drop, upper, goes_on, raised, state}
use cocurrency.Servers.Wire.{queue_echoed, send_echoed}
use cocurrency.Servers.Poll.{
  Interest, pollin, pollin_pollout, Event, PollEchoServer, start, modify, accept_client,
  close_client, echo, send_some,
}

-- What to watch for, if these bytes are queued.
abbrev pub interest : Bytes → Interest
interest [] = pollin
interest (b ∷ bs) = pollin_pollout

interest-append : (queue bs : Bytes) (b : ℕ) → interest (queue ++ upper (b ∷ bs)) ≡ pollin_pollout
interest-append [] bs b = refl
interest-append (q ∷ qs) bs b = refl

-- What holds of each connection.
pub record IsEchoing (s : PollEchoServer) (fd : ℕ) : Type 0 where
  -- What was sent, and then what is queued, is what was received, in upper case.
  pub echoed : s.net.wire fd ++ get_or [] (s.send_bufs fd) ≡ upper (s.net.heard fd)
  pub kept : get_or [] (s.recv_bufs fd) ≡ s.net.heard fd
  -- The poller watches for POLLOUT if, and only if, bytes are queued.
  pub watched : s.poller fd ≡ some (interest (get_or [] (s.send_bufs fd)))

abbrev pub IsEchoServer : PollEchoServer → Type 0
IsEchoServer s = (fd : ℕ) → is_some (s.fd_to_sock fd) ≡ true → IsEchoing s fd

pub start-IsEchoServer : (fd : ℕ) → IsEchoServer (start fd)
start-IsEchoServer k fd there = record { echoed = refl; kept = refl; watched = ground arith }

pub accept_client-IsEchoServer :
    (e : Event) (r : Option ℕ) (s : PollEchoServer)
    → IsEchoServer s
    → IsEchoServer (accept_client e r s)
unfolding accept_client
accept_client-IsEchoServer e none s h j there = h j there
accept_client-IsEchoServer e (some k) s h j there = elim (Bool-cases e.readable) [
  | inl readable ↦ elim (Bool-cases (k == j)) [
    | inl same ↦
        rw readable (record { echoed = ground arith; kept = ground arith; watched = ground arith })
    | inr other ↦
        let old = h j (ground arith) in
        rw readable (record {
          echoed = ground (arith, old.echoed);
          kept = ground (arith, old.kept);
          watched = ground (arith, old.watched);
        })
  ]
  | inr not ↦ let present : is_some (s.fd_to_sock j) ≡ true = ground arith in rw not (h j present)
]

pub close_client-IsEchoServer :
    (k : ℕ) (s : PollEchoServer) → IsEchoServer s → IsEchoServer (close_client k s)
unfolding close_client
close_client-IsEchoServer k s h fd there =
    let old = h fd (ground arith) in
    record {
      echoed = ground (arith, old.echoed);
      kept = ground (arith, old.kept);
      watched = ground (arith, old.watched);
    }

-- All is well but at one descriptor, whose interest is not yet set.
pub record IsAlmost (k : ℕ) (i : Interest) (s : PollEchoServer) : Type 0 where
  apart : (j : ℕ) → (k == j) ≡ false → is_some (s.fd_to_sock j) ≡ true → IsEchoing s j
  echoed_here :
      is_some (s.fd_to_sock k) ≡ true
      → s.net.wire k ++ get_or [] (s.send_bufs k) ≡ upper (s.net.heard k)
  kept_here : is_some (s.fd_to_sock k) ≡ true → get_or [] (s.recv_bufs k) ≡ s.net.heard k
  known_here : is_some (s.fd_to_sock k) ≡ true → is_some (s.poller k) ≡ true
  wanted : is_some (s.fd_to_sock k) ≡ true → i ≡ interest (get_or [] (s.send_bufs k))

pub at_key :
    (k j : ℕ) (s : PollEchoServer)
    → (k == j) ≡ true
    → is_some (s.fd_to_sock j) ≡ true
    → is_some (s.fd_to_sock k) ≡ true
at_key k j s same there = ground arith

module _ (k : ℕ) (i : Interest) (s : PollEchoServer) (almost : IsAlmost k i s) where
  set_interest-IsEchoServer : IsEchoServer (record s { poller = set k i s.poller })
  set_interest-IsEchoServer j there = elim (Bool-cases (k == j)) [
    | inl same ↦
        let e : k ≡ j = ground arith in
        let present = at_key k j s same there in
        record {
          echoed = ground (arith, almost.echoed_here present, e);
          kept = ground (arith, almost.kept_here present, e);
          watched = ground (arith, almost.wanted present, e);
        }
    | inr other ↦
        let old = almost.apart j other there in
        record { echoed = old.echoed; kept = old.kept; watched = ground (arith, old.watched) }
  ]

  pub settled-IsEchoServer :
      (is_some (s.fd_to_sock k) ≡ true → s.poller k ≡ some i) → IsEchoServer s
  settled-IsEchoServer set_before j there = elim (Bool-cases (k == j)) [
    | inl same ↦
        let e : k ≡ j = ground arith in
        let present = at_key k j s same there in
        record {
          echoed = ground (arith, almost.echoed_here present, e);
          kept = ground (arith, almost.kept_here present, e);
          watched = ground (arith, almost.wanted present, set_before present, e);
        }
    | inr other ↦ almost.apart j other there
  ]

  pub unknown-IsEchoServer : is_some (s.poller k) ≡ false → IsEchoServer s
  unknown-IsEchoServer unknown j there = elim (Bool-cases (k == j)) [
    | inl same ↦
        let known = almost.known_here (at_key k j s same there) in absurd (cc (sym known ∙ unknown))
    | inr other ↦ almost.apart j other there
  ]

  pub modify-IsEchoServer : IsEchoServer (state (modify k i s))
  modify-IsEchoServer = elim (Bool-cases (is_some (s.poller k))) [
    | inl known ↦
        subst
          (λ b.
            IsEchoServer
              (state (if b then goes_on (record s { poller = set k i s.poller }) else raised s)))
          (sym known) set_interest-IsEchoServer
    | inr unknown ↦
        subst
          (λ b.
            IsEchoServer
              (state (if b then goes_on (record s { poller = set k i s.poller }) else raised s)))
          (sym unknown) (unknown-IsEchoServer unknown)
  ]

pub echo-IsAlmost :
    (k b : ℕ) (bs : Bytes) (s : PollEchoServer)
    → IsEchoServer s
    → IsAlmost k pollin_pollout (echo k (b ∷ bs) s)
echo-IsAlmost k b bs s h = record {
  apart = λ j other there.
      let old = h j there in
      record {
        echoed = ground (arith, old.echoed);
        kept = ground (arith, old.kept);
        watched = ground (arith, old.watched);
      };
  echoed_here = λ present.
      let new =
        queue_echoed (s.net.wire k) (get_or [] (s.send_bufs k)) (s.net.heard k) (b ∷ bs)
          (h k present).echoed in
      ground (arith, new);
  kept_here = λ present. ground (arith, (h k present).kept);
  known_here = λ present. ground (arith, (h k present).watched);
  wanted = λ present. ground (arith, interest-append (get_or [] (s.send_bufs k)) bs b);
}

pub send_some-IsAlmost :
    (k n : ℕ) (buf : Bytes) (s : PollEchoServer)
    → get_or [] (s.send_bufs k) ≡ buf
    → IsEchoServer s
    → IsAlmost k (interest (drop n buf)) (send_some k n buf s)
send_some-IsAlmost k n buf s queue h = record {
  apart = λ j other there.
      let old = h j there in
      record {
        echoed = ground (arith, old.echoed);
        kept = old.kept;
        watched = ground (arith, old.watched);
      };
  echoed_here = λ present.
      let new =
        send_echoed n (s.net.wire k) buf (s.net.heard k)
          (ap (λ l. s.net.wire k ++ l) (sym queue) ∙ (h k present).echoed) in
      ground (arith, new);
  kept_here = λ present. (h k present).kept;
  known_here = λ present. ground (arith, (h k present).watched);
  wanted = λ present. ground arith;
}

pub quiet-IsAlmost :
    (k : ℕ) (s : PollEchoServer)
    → get_or [] (s.send_bufs k) ≡ []
    → IsEchoServer s
    → IsAlmost k pollin s
quiet-IsAlmost k s quiet h = record {
  apart = λ j other there. h j there;
  echoed_here = λ present. (h k present).echoed;
  kept_here = λ present. (h k present).kept;
  known_here = λ present. ground (arith, (h k present).watched);
  wanted = λ present. sym (ap interest quiet);
}
