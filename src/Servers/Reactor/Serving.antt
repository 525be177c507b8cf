-- ===== src/Servers/Reactor/Serving.antt =====
-- python/io_multiplexing/nio_reactor_server.py: what holds of the handlers and of what is registered
-- for them, and that each method of a handler keeps it.
use cocurrency.Common.{
  ℕ, ◌≤◌, ◌<◌, ◌≡◌, inl, inr, refl, true, false, Option, none, some, [], ◌∷◌, ◌++◌, if◌then◌else◌,
  Bool-cases, ◌==◌, arith,
}
use cocurrency.Servers.{Map, set, pop, Bytes, drop, upper}
use cocurrency.Servers.Wire.{queue_echoed, send_echoed}
use cocurrency.Servers.Reactor.{
  Reactor, Callback, on_accept, on_read, on_write, unregister_all, NioReactorServer, set_handler,
  echo, send_some,
}
use cocurrency.Servers.Reactor.Register.{
  IsRegistered, register_write-IsRegistered, unregister_all-IsRegistered,
}

abbrev pub IsOpen : NioReactorServer → ℕ → Type 0
IsOpen s n = (s.handlers n).closed ≡ false

-- What is registered for the output of a handler with these bytes in its queue.
abbrev pub wanted : ℕ → Bytes → Option Callback
wanted n [] = none
wanted n (b ∷ bs) = some (on_write n)

wanted-append :
    (n : ℕ) (queue bs : Bytes) (b : ℕ) → wanted n (queue ++ upper (b ∷ bs)) ≡ some (on_write n)
wanted-append n [] bs b = refl
wanted-append n (q ∷ qs) bs b = refl

wanted-kind : (n : ℕ) (c : Callback) (queue : Bytes) → wanted n queue ≡ some c → c ≡ on_write n
wanted-kind n c [] e = cc
wanted-kind n c (b ∷ bs) e = cc

wanted-only : (n m : ℕ) (queue : Bytes) → wanted n queue ≡ some (on_write m) → m ≡ n
wanted-only n m [] e = cc
wanted-only n m (b ∷ bs) e = cc

-- With these callbacks for input and for output.
pub record IsServing (f g : Map Callback) (s : NioReactorServer) : Type 0 where
  pub registered : IsRegistered f g s.reactor
  pub made : (n : ℕ) → IsOpen s n → n < s.count
  pub accepting : f s.server_fd ≡ some on_accept
  -- What was sent, and then what is queued, is what was received, in upper case.
  pub echoed : (n : ℕ) → s.net.wire n ++ (s.handlers n).send_buf ≡ upper (s.net.heard n)
  pub fresh_net : (n : ℕ) → s.count ≤ n → (s.net.wire n ≡ []) × (s.net.heard n ≡ [])
  pub reads : (n : ℕ) → IsOpen s n → f (s.handlers n).fd ≡ some (on_read n)
  pub writes : (n : ℕ) → IsOpen s n → g (s.handlers n).fd ≡ wanted n (s.handlers n).send_buf
  -- No callback of a closed handler is registered.
  pub only_reads : (j n : ℕ) → f j ≡ some (on_read n) → IsOpen s n × ((s.handlers n).fd ≡ j)
  pub only_writes : (j n : ℕ) → g j ≡ some (on_write n) → IsOpen s n × ((s.handlers n).fd ≡ j)
  pub write_kind : (j : ℕ) (c : Callback) → g j ≡ some c → (n : ℕ) × (c ≡ on_write n)

-- `close` of an open handler.
module _ (n : ℕ) {f g : Map Callback} (s : NioReactorServer) (is : IsServing f g s)
    (opened : IsOpen s n) where
  abbrev pub closed_state : NioReactorServer
  closed_state = record (set_handler n (record (s.handlers n) { closed = true }) s) {
    reactor = unregister_all (s.handlers n).fd s.reactor;
  }

  other_fd :
      (m : ℕ) → IsOpen s m → (n == m) ≡ false → ((s.handlers n).fd == (s.handlers m).fd) ≡ false
  other_fd m there other = ground (arith, is.reads n opened, is.reads m there)

  pub closed-IsServing : IsServing (pop (s.handlers n).fd f) (pop (s.handlers n).fd g) closed_state
  closed-IsServing = record {
    registered = unregister_all-IsRegistered (s.handlers n).fd is.registered;
    made = λ m there. ground (arith, is.made m);
    accepting = ground (arith, is.accepting, is.reads n opened);
    echoed = λ m. ground (arith, is.echoed m);
    fresh_net = λ m e. ground (arith, is.fresh_net m e);
    reads = λ m there. ground (arith, is.reads m, other_fd m);
    writes = λ m there. ground (arith, is.writes m, other_fd m);
    only_reads = λ j m e. ground (arith, is.only_reads j m);
    only_writes = λ j m e. ground (arith, is.only_writes j m);
    write_kind = λ j c e. is.write_kind j c (ground arith);
  }

-- Bytes are queued for an open handler.
module _ (n b : ℕ) (bs : Bytes) {f g : Map Callback} (s : NioReactorServer) (is : IsServing f g s)
    (opened : IsOpen s n) where
  pub echo-IsServing : IsServing f (set (s.handlers n).fd (on_write n) g) (echo n (b ∷ bs) s)
  unfolding echo
  echo-IsServing =
      let apart = other_fd n s is opened in
      record {
        registered = register_write-IsRegistered (s.handlers n).fd is.registered (on_write n);
        made = λ m there. ground (arith, is.made m);
        accepting = is.accepting;
        echoed = λ m.
            let new =
              queue_echoed (s.net.wire n) (s.handlers n).send_buf (s.net.heard n) (b ∷ bs)
                (is.echoed n) in
            ground (arith, new, is.echoed m);
        fresh_net = λ m e. ground (arith, is.fresh_net m e, is.made n opened);
        reads = λ m there. ground (arith, is.reads m);
        writes = λ m there.
            ground (arith, wanted-append n (s.handlers n).send_buf bs b, is.writes m, apart m);
        only_reads = λ j m e. ground (arith, is.only_reads j m);
        only_writes = λ j m e. ground (arith, is.only_writes j m);
        write_kind = λ j c e. elim (Bool-cases ((s.handlers n).fd == j)) [
          | inl same ↦ (n, ground arith)
          | inr other ↦ is.write_kind j c (ground arith)
        ];
      }

-- The writers when a handler has these bytes left.
abbrev pub rewatch : ℕ → ℕ → Bytes → Map Callback → Map Callback
rewatch fd n left g = λ j. if fd == j then wanted n left else g j

-- The first bytes of a queue are sent.
module _ (n k : ℕ) {f g : Map Callback} (s : NioReactorServer) (is : IsServing f g s)
    (opened : IsOpen s n) (r : Reactor)
    (registered : IsRegistered f
      (rewatch (s.handlers n).fd n (drop k (s.handlers n).send_buf) g)
      r) where
  abbrev pub sent_state : NioReactorServer
  sent_state = record (send_some n k (s.handlers n).send_buf s) { reactor = r }

  pub sent-IsServing :
      IsServing f (rewatch (s.handlers n).fd n (drop k (s.handlers n).send_buf) g) sent_state
  sent-IsServing =
      let apart = other_fd n s is opened in
      let left = drop k (s.handlers n).send_buf in
      record {
        registered = registered;
        made = λ m there. ground (arith, is.made m);
        accepting = is.accepting;
        echoed = λ m.
            let new =
              send_echoed k (s.net.wire n) (s.handlers n).send_buf (s.net.heard n) (is.echoed n) in
            ground (arith, new, is.echoed m);
        fresh_net = λ m e. ground (arith, is.fresh_net m e, is.made n opened);
        reads = λ m there. ground (arith, is.reads m);
        writes = λ m there. ground (arith, is.writes m, apart m);
        only_reads = λ j m e. ground (arith, is.only_reads j m);
        only_writes = λ j m e. elim (Bool-cases ((s.handlers n).fd == j)) [
          | inl same ↦
              let only : m ≡ n = wanted-only n m left (ground arith) in ground (arith, only)
          | inr other ↦ ground (arith, is.only_writes j m)
        ];
        write_kind = λ j c e. elim (Bool-cases ((s.handlers n).fd == j)) [
          | inl same ↦ (n, wanted-kind n c left (ground arith))
          | inr other ↦ is.write_kind j c (ground arith)
        ];
      }
