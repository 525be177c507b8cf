-- ===== src/Servers/Reactor/Echo.antt =====
-- python/io_multiplexing/nio_reactor_server.py: the bytes that a client gets back are those that it
-- sent, in upper case, and the loop calls no handler that is closed.
use mathlib.Core.Path.{subst, fun_ext}
use cocurrency.Common.{
  ℕ, zero, suc, ◌≡◌, ◌≢◌, inl, inr, refl, sym, ap, ◌∙◌, true, Option, none, some, List, [], ◌∷◌,
  ◌++◌, Option-cases, of_branches, arith,
}
use cocurrency.Servers.{
  Map, set, pop, Bytes, drop, upper, Recv, bytes, reset, recv_blocks, Send, sends, broken,
  send_blocks,
}
use cocurrency.Servers.Reactor.{
  Reactor, Callback, on_accept, on_read, on_write, unregister_write, unregister_all,
  NioReactorServer, set_handler, create, begin, create_handler, accept_all, close, receive, read,
  settle, send_some, flush, write, Ready, call, Event, readable, writable, call_if, dispatch, run,
}
use cocurrency.Servers.Reactor.Register.{
  IsRegistered, register_read-IsRegistered, unregister_write-IsRegistered,
}
use cocurrency.Servers.Reactor.Serving.{
  IsOpen, IsServing, wanted, rewatch, closed-IsServing, echo-IsServing, sent-IsServing,
}

-- With some callbacks.
abbrev pub Serves : NioReactorServer → Type 0
Serves s = (f : Map Callback) × (g : Map Callback) × IsServing f g s

-- Only the reactor changes, and not what is registered.
quiet-IsServing :
    {f g : Map Callback} (s : NioReactorServer) (r : Reactor)
    → IsServing f g s
    → IsRegistered f g r
    → IsServing f g (record s { reactor = r })
quiet-IsServing s r is registered = record {
  registered = registered;
  made = is.made;
  accepting = is.accepting;
  echoed = is.echoed;
  fresh_net = is.fresh_net;
  reads = is.reads;
  writes = is.writes;
  only_reads = is.only_reads;
  only_writes = is.only_writes;
  write_kind = is.write_kind;
}

close-Serves : (n : ℕ) (s : NioReactorServer) → Serves s → Serves (close n s)
unfolding close
close-Serves n s (f, g, is) =
    of_branches Serves (s.handlers n).closed s
      (record (set_handler n (record (s.handlers n) { closed = true }) s) {
        reactor = unregister_all (s.handlers n).fd s.reactor;
      })
      (λ shut. (f, g, is))
      (λ opened. (pop (s.handlers n).fd f, pop (s.handlers n).fd g, closed-IsServing n s is opened))

receive-Serves :
    (n : ℕ) (r : Recv) (s : NioReactorServer) → IsOpen s n → Serves s → Serves (receive n r s)
unfolding receive
receive-Serves n (bytes []) s opened h = close-Serves n s h
receive-Serves n (bytes (b ∷ bs)) s opened (f, g, is) =
    (f, set (s.handlers n).fd (on_write n) g, echo-IsServing n b bs s is opened)
receive-Serves n reset s opened h = close-Serves n s h
receive-Serves n recv_blocks s opened h = h

read-Serves : (n : ℕ) (r : Recv) (s : NioReactorServer) → Serves s → Serves (read n r s)
unfolding read
read-Serves n r s h =
    of_branches Serves (s.handlers n).closed s (receive n r s) (λ shut. h)
      (λ opened. receive-Serves n r s opened h)

-- The same callbacks, given otherwise.
IsRegistered-cong :
    {f g g' : Map Callback} {r : Reactor}
    → ((j : ℕ) → g j ≡ g' j)
    → IsRegistered f g r
    → IsRegistered f g' r
IsRegistered-cong {f} {r = r} same is = subst (λ m. IsRegistered f m r) (fun_ext same) is

-- After bytes of the queue have been sent, what is left decides whether the output is watched.
module _ (n k : ℕ) {f g : Map Callback} (s : NioReactorServer) (is : IsServing f g s)
    (opened : IsOpen s n) (queued : wanted n (s.handlers n).send_buf ≡ some (on_write n)) where
  unwatched :
      drop k (s.handlers n).send_buf ≡ []
      → (j : ℕ)
      → pop (s.handlers n).fd g j ≡ rewatch (s.handlers n).fd n (drop k (s.handlers n).send_buf) g j
  unwatched e j = ground (arith, ap (wanted n) e)

  still_watched :
      wanted n (drop k (s.handlers n).send_buf) ≡ some (on_write n)
      → (j : ℕ) → g j ≡ rewatch (s.handlers n).fd n (drop k (s.handlers n).send_buf) g j
  still_watched e j = ground (arith, is.writes n opened)

  same_fd : ((send_some n k (s.handlers n).send_buf s).handlers n).fd ≡ (s.handlers n).fd
  same_fd = ground arith

  settle-Serves :
      (left : Bytes)
      → drop k (s.handlers n).send_buf ≡ left
      → Serves (settle n left (send_some n k (s.handlers n).send_buf s))
  unfolding settle
  settle-Serves [] e =
      subst
        (λ fd. Serves (record (send_some n k (s.handlers n).send_buf s) {
          reactor = unregister_write fd s.reactor;
        }))
        (sym same_fd)
        (
          f,
          rewatch (s.handlers n).fd n (drop k (s.handlers n).send_buf) g,
          sent-IsServing n k s is opened (unregister_write (s.handlers n).fd s.reactor) (
              IsRegistered-cong (unwatched e)
                (unregister_write-IsRegistered (s.handlers n).fd is.registered)),
        )
  settle-Serves (b ∷ bs) e = (
    f,
    rewatch (s.handlers n).fd n (drop k (s.handlers n).send_buf) g,
    sent-IsServing n k s is opened s.reactor
        (IsRegistered-cong (still_watched (ap (wanted n) e)) is.registered),
  )

flush-Serves :
    (n : ℕ) (buf : Bytes) (r : Send) (s : NioReactorServer)
    → (s.handlers n).send_buf ≡ buf
    → IsOpen s n
    → Serves s
    → Serves (flush n buf r s)
unfolding flush settle
flush-Serves n [] r s queue opened (f, g, is) = (
  f,
  g,
  quiet-IsServing s (unregister_write (s.handlers n).fd s.reactor) is (
      IsRegistered-cong (λ j. ground (arith, is.writes n opened, ap (wanted n) queue))
        (unregister_write-IsRegistered (s.handlers n).fd is.registered)),
)
flush-Serves n (b ∷ bs) (sends zero) s queue opened h = h
flush-Serves n (b ∷ bs) (sends (suc k)) s queue opened (f, g, is) =
    subst (λ buf. Serves (settle n (drop (suc k) buf) (send_some n (suc k) buf s))) queue
      (settle-Serves n (suc k) s is opened (ap (wanted n) queue)
        (drop (suc k) (s.handlers n).send_buf) refl)
flush-Serves n (b ∷ bs) broken s queue opened h = close-Serves n s h
flush-Serves n (b ∷ bs) send_blocks s queue opened h = h

pub write-Serves : (n : ℕ) (r : Send) (s : NioReactorServer) → Serves s → Serves (write n r s)
unfolding write
write-Serves n r s h =
    of_branches Serves (s.handlers n).closed s (flush n (s.handlers n).send_buf r s) (λ shut. h)
      (λ opened. flush-Serves n (s.handlers n).send_buf r s refl opened h)

-- What the operating system promises of a descriptor that `accept` returns: none has it that is open.
abbrev pub IsFresh : NioReactorServer → ℕ → Type 0
IsFresh s fd = (fd ≢ s.server_fd) × ((n : ℕ) → IsOpen s n → (s.handlers n).fd ≢ fd)

fresh_writer :
    (fd : ℕ) {f g : Map Callback} (s : NioReactorServer)
    → IsFresh s fd
    → IsServing f g s
    → g fd ≡ none
fresh_writer fd {f} {g} s fresh is = elim (Option-cases (g fd)) [
  | inl e ↦ e
  | inr (c, e) ↦
      let (n, kind) = is.write_kind fd c e in
      let (opened, same) = is.only_writes fd n (e ∙ ap (λ x. some x) kind) in
      absurd (fresh.1 n opened same)
]

create_handler-Serves :
    (fd : ℕ) (s : NioReactorServer) → IsFresh s fd → Serves s → Serves (create_handler fd s)
unfolding create_handler
create_handler-Serves fd s fresh (f, g, is) = (
  set fd (on_read s.count) f,
  g,
  record {
    registered = register_read-IsRegistered fd is.registered (on_read s.count);
    made = λ m there. ground (arith, is.made m);
    accepting = ground (arith, is.accepting, fresh.0);
    echoed = λ m. ground (arith, is.echoed m, is.fresh_net m);
    fresh_net = λ m le. is.fresh_net m (omega arith);
    reads = λ m there. ground (arith, is.reads m, fresh.1 m);
    writes = λ m there. ground (arith, is.writes m, fresh_writer fd s fresh is);
    only_reads = λ j m e. ground (arith, is.only_reads j m, is.made m);
    only_writes = λ j m e. ground (arith, is.only_writes j m, is.made m);
    write_kind = is.write_kind;
  },
)

-- The descriptors that `accept` returns in a call of `on_accept`.
abbrev pub AreFresh : List ℕ → NioReactorServer → Type 0
AreFresh [] s = Unit
AreFresh (fd ∷ fds) s = IsFresh s fd × AreFresh fds (create_handler fd s)

accept_all-Serves :
    (fds : List ℕ) (s : NioReactorServer) → AreFresh fds s → Serves s → Serves (accept_all fds s)
unfolding accept_all
accept_all-Serves [] s fresh h = h
accept_all-Serves (fd ∷ fds) s fresh h =
    accept_all-Serves fds (create_handler fd s) fresh.1 (create_handler-Serves fd s fresh.0 h)

-- The callback gets such descriptors, if it accepts.
abbrev pub AcceptsFresh : Option Callback → Ready → NioReactorServer → Type 0
AcceptsFresh (some on_accept) x s = AreFresh x.accepts s
AcceptsFresh c x s = Unit

abbrev pub EventFresh : Event → NioReactorServer → Type 0
EventFresh (readable fd x) s = AcceptsFresh (s.reactor.loop.readers fd) x s
EventFresh (writable fd x) s = AcceptsFresh (s.reactor.loop.writers fd) x s

-- Throughout a run.
abbrev pub RunFresh : List Event → NioReactorServer → Type 0
RunFresh [] s = Unit
RunFresh (e ∷ es) s = EventFresh e s × RunFresh es (dispatch e s)

call_if-Serves :
    (c : Option Callback) (x : Ready) (s : NioReactorServer)
    → AcceptsFresh c x s
    → Serves s
    → Serves (call_if c x s)
unfolding call
call_if-Serves none x s fresh h = h
call_if-Serves (some on_accept) x s fresh h = accept_all-Serves x.accepts s fresh h
call_if-Serves (some (on_read n)) x s fresh h = read-Serves n x.recv s h
call_if-Serves (some (on_write n)) x s fresh h = write-Serves n x.send s h

pub dispatch-Serves :
    (e : Event) (s : NioReactorServer) → EventFresh e s → Serves s → Serves (dispatch e s)
unfolding dispatch
dispatch-Serves (readable fd x) s fresh h = call_if-Serves (s.reactor.loop.readers fd) x s fresh h
dispatch-Serves (writable fd x) s fresh h = call_if-Serves (s.reactor.loop.writers fd) x s fresh h

pub run-Serves :
    (es : List Event) (s : NioReactorServer) → RunFresh es s → Serves s → Serves (run es s)
unfolding run
run-Serves [] s fresh h = h
run-Serves (e ∷ es) s fresh h = run-Serves es (dispatch e s) fresh.1 (dispatch-Serves e s fresh.0 h)

pub begin-Serves : (fd : ℕ) → Serves (begin (create fd))
unfolding begin
begin-Serves fd = (
  set fd on_accept (λ j. none),
  λ j. none,
  record {
    registered = register_read-IsRegistered fd start on_accept;
    made = λ n there. absurd (cc there);
    accepting = ground arith;
    echoed = λ n. refl;
    fresh_net = λ n le. (refl, refl);
    reads = λ n there. absurd (cc there);
    writes = λ n there. absurd (cc there);
    only_reads = λ j n e. absurd (ground (arith, e));
    only_writes = λ j n e. absurd (cc e);
    write_kind = λ j c e. absurd (cc e);
  },
)
  where
    start : IsRegistered (λ j. none) (λ j. none) (record (create fd).reactor { attached = true })
    start = record {
      attached = refl;
      reads = λ j. refl;
      writes = λ j. refl;
      read_handles = λ j. refl;
      write_handles = λ j. refl;
    }

-- What a client, and the loop, can see of a server.
pub record IsReactorEcho (s : NioReactorServer) : Type 0 where
  pub echoed : (n : ℕ) → s.net.wire n ++ (s.handlers n).send_buf ≡ upper (s.net.heard n)
  pub reads : (n : ℕ) → IsOpen s n → s.reactor.loop.readers (s.handlers n).fd ≡ some (on_read n)
  pub writes :
      (n : ℕ)
      → IsOpen s n
      → s.reactor.loop.writers (s.handlers n).fd ≡ wanted n (s.handlers n).send_buf
  pub only_reads : (j n : ℕ) → s.reactor.loop.readers j ≡ some (on_read n) → IsOpen s n
  pub only_writes : (j n : ℕ) → s.reactor.loop.writers j ≡ some (on_write n) → IsOpen s n
  pub accepting : s.reactor.loop.readers s.server_fd ≡ some on_accept

pub Serves-IsReactorEcho : (s : NioReactorServer) → Serves s → IsReactorEcho s
Serves-IsReactorEcho s (f, g, is) =
    let r = is.registered in
    record {
      echoed = is.echoed;
      reads = λ n there. r.reads (s.handlers n).fd ∙ is.reads n there;
      writes = λ n there. r.writes (s.handlers n).fd ∙ is.writes n there;
      only_reads = λ j n e. (is.only_reads j n (sym (r.reads j) ∙ e)).0;
      only_writes = λ j n e. (is.only_writes j n (sym (r.writes j) ∙ e)).0;
      accepting = r.reads s.server_fd ∙ is.accepting;
    }

-- Whatever `recv` and `send` return, and in whatever order descriptors get ready, if `accept` never
-- returns a descriptor that is open: for each connection, closed ones included, what was sent and then
-- what is queued is what was received, in upper case; the loop calls the reader of each open handler,
-- and its writer if, and only if, bytes are queued; it has no callback of a closed handler; and it goes
-- on accepting.
pub run-IsReactorEcho :
    (fd : ℕ) (es : List Event)
    → RunFresh es (begin (create fd))
    → IsReactorEcho (run es (begin (create fd)))
run-IsReactorEcho fd es fresh =
    Serves-IsReactorEcho (run es (begin (create fd)))
      (run-Serves es (begin (create fd)) fresh (begin-Serves fd))
