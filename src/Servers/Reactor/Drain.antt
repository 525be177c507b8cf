-- ===== src/Servers/Reactor/Drain.antt =====
-- python/io_multiplexing/nio_reactor_server.py: a client whose connection takes bytes gets its whole
-- answer.
use mathlib.Core.Path.{subst}
use cocurrency.Common.{
  ℕ, zero, suc, ◌-◌, ◌≤◌, ◌≡◌, refl, sym, ap, ◌∙◌, List, [], ◌∷◌, ◌++◌, length, if◌then◌else◌,
  arith,
}
use mathlib.Core.List.{append-nil}
use cocurrency.Servers.{Bytes, drop, upper, recv_blocks, sends}
use cocurrency.Servers.Reactor.{
  NioReactorServer, create, begin, settle, send_some, flush, write, Ready, call, Event, writable,
  call_if, dispatch, run,
}
use cocurrency.Servers.Reactor.Serving.{IsOpen, wanted}
use cocurrency.Servers.Reactor.Echo.{Serves, RunFresh, run-Serves, begin-Serves, write-Serves}

-- What a write does to its handler.
record Wrote (n k : ℕ) (s t : NioReactorServer) : Type 0 where
  same_fd : (t.handlers n).fd ≡ (s.handlers n).fd
  opened : IsOpen t n
  left : (t.handlers n).send_buf ≡ drop (suc k) (s.handlers n).send_buf
  same_heard : t.net.heard n ≡ s.net.heard n

settle-handlers :
    (n : ℕ) (left : Bytes) (s : NioReactorServer) → (settle n left s).handlers ≡ s.handlers
unfolding settle
settle-handlers n [] s = refl
settle-handlers n (b ∷ bs) s = refl

settle-net : (n : ℕ) (left : Bytes) (s : NioReactorServer) → (settle n left s).net ≡ s.net
unfolding settle
settle-net n [] s = refl
settle-net n (b ∷ bs) s = refl

flush-Wrote :
    (n k : ℕ) (buf : Bytes) (s : NioReactorServer)
    → IsOpen s n
    → (s.handlers n).send_buf ≡ buf
    → Wrote n k s (flush n buf (sends (suc k)) s)
unfolding flush settle
flush-Wrote n k [] s opened queue = record {
  same_fd = refl;
  opened = opened;
  left = ground (arith, queue);
  same_heard = refl;
}
flush-Wrote n k (b ∷ bs) s opened queue =
    let t = send_some n (suc k) (b ∷ bs) s in
    let left = drop (suc k) (b ∷ bs) in
    record {
      same_fd = ground (arith, settle-handlers n left t);
      opened = ground (arith, settle-handlers n left t);
      left = ground (arith, settle-handlers n left t, queue);
      same_heard = ground (arith, settle-net n left t);
    }

write-Wrote :
    (n k : ℕ) (s : NioReactorServer) → IsOpen s n → Wrote n k s (write n (sends (suc k)) s)
unfolding write
write-Wrote n k s opened =
    subst (λ b. Wrote n k s (if b then s else flush n (s.handlers n).send_buf (sends (suc k)) s))
      (sym opened) (flush-Wrote n k (s.handlers n).send_buf s opened refl)

-- The descriptor of a handler can be written to, again and again, and takes a byte or more each time.
abbrev pub writable_all : ℕ → List ℕ → List Event
writable_all fd [] = []
writable_all fd (k ∷ ks) =
    writable fd (record { accepts = []; recv = recv_blocks; send = sends (suc k) })
    ∷ writable_all fd ks

-- A turn of the loop sends from the queue, if it is not empty.
write_turn :
    (n k : ℕ) (s : NioReactorServer) (x : Ready)
    → Serves s
    → IsOpen s n
    → x.send ≡ sends (suc k)
    → Wrote n k s (dispatch (writable (s.handlers n).fd x) s)
      × Serves (dispatch (writable (s.handlers n).fd x) s)
unfolding dispatch call
write_turn n k s x (f, g, is) opened e =
    let registered = is.registered.writes (s.handlers n).fd ∙ is.writes n opened in
    subst (λ c. Wrote n k s (call_if c x s) × Serves (call_if c x s)) (sym registered)
      (called (s.handlers n).send_buf refl)
  where
    called :
        (buf : Bytes)
        → (s.handlers n).send_buf ≡ buf
        → Wrote n k s (call_if (wanted n buf) x s) × Serves (call_if (wanted n buf) x s)
    called [] queue = (
      record { same_fd = refl; opened = opened; left = ground (arith, queue); same_heard = refl },
      (f, g, is),
    )
    called (b ∷ bs) queue = (
      subst (λ r. Wrote n k s (write n r s)) (sym e) (write-Wrote n k s opened),
      write-Serves n x.send s (f, g, is),
    )

length-drop : (k : ℕ) (bs : Bytes) → length (drop (suc k) bs) ≤ length bs - 1
length-drop k [] = omega arith
length-drop zero (b ∷ bs) = omega arith
length-drop (suc k) (b ∷ bs) = omega (arith, length-drop k bs)

drain :
    (n : ℕ) (ks : List ℕ) (s : NioReactorServer)
    → Serves s
    → IsOpen s n
    → length (s.handlers n).send_buf ≤ length ks
    → (run (writable_all (s.handlers n).fd ks) s).net.wire n ≡ upper (s.net.heard n)
unfolding run
drain n [] s (f, g, is) opened enough =
    sym (append-nil (s.net.wire n))
    ∙ ap (λ l. s.net.wire n ++ l) (sym (no_bytes (s.handlers n).send_buf enough))
    ∙ is.echoed n
  where
    no_bytes : (bs : Bytes) → length bs ≤ 0 → bs ≡ []
    no_bytes [] le = refl
    no_bytes (b ∷ bs) le = absurd (omega arith)
drain n (k ∷ ks) s h opened enough =
    let x : Ready = record { accepts = []; recv = recv_blocks; send = sends (suc k) } in
    let t = dispatch (writable (s.handlers n).fd x) s in
    let (wrote, serves) = write_turn n k s x h opened refl in
    let rest =
      drain n ks t serves wrote.opened
        (omega (arith, ap (length {A = ℕ}) wrote.left, length-drop k (s.handlers n).send_buf)) in
    subst (λ fd. (run (writable_all fd ks) t).net.wire n ≡ upper (t.net.heard n)) wrote.same_fd rest
    ∙ ap upper wrote.same_heard

-- After any run of a server, an open connection that can be written to as often as it has bytes
-- queued, or more often, whatever number of bytes it takes each time, has got its whole answer: all
-- that it sent, in upper case.
pub run-drained :
    (fd n : ℕ) (es : List Event) (ks : List ℕ)
    → RunFresh es (begin (create fd))
    → IsOpen (run es (begin (create fd))) n
    → length ((run es (begin (create fd))).handlers n).send_buf ≤ length ks
    → (run
          (writable_all ((run es (begin (create fd))).handlers n).fd ks)
          (run es (begin (create fd)))).net.wire
        n
      ≡ upper ((run es (begin (create fd))).net.heard n)
run-drained fd n es ks fresh opened enough =
    drain n ks (run es (begin (create fd)))
      (run-Serves es (begin (create fd)) fresh (begin-Serves fd)) opened enough
