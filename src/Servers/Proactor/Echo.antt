-- ===== src/Servers/Proactor/Echo.antt =====
-- python/io_multiplexing/proactor_server.py: both variants give each client what it sent, in upper
-- case, whatever happens on other connections.
use mathlib.Core.List.{append-nil, append_assoc}
use cocurrency.Common.{
  ℕ, suc, ◌≤◌, ◌<◌, ◌≡◌, ◌≢◌, inl, inr, refl, sym, ap, ◌∙◌, Bool, true, false, ◌||◌, some, List, [],
  ◌∷◌, ◌++◌, if◌then◌else◌, Bool-cases, ◌==◌, of_branches, arith,
}
use cocurrency.Servers.{Bytes, upper, upper-append}
use cocurrency.Servers.Proactor.{
  Writer, open_writer, leave, EchoProtocol, Callback, connection_made, data_received, eof_received,
  lost, call, Protocols, run_callbacks, Phase, awaiting_read, awaiting_drain, awaiting_close,
  finished, Client, Completion, read_done, drained, connection_error, close_done, resume,
  ProactorCoroutineServer, create, Event, connects, completes, act, run,
}

-- The bytes of a callback.
abbrev pub received : Callback → Bytes
received (data_received bs) = bs
received x = []

-- What a connection has received in a run.
abbrev pub received_by : ℕ → List (ℕ × Callback) → Bytes
received_by c [] = []
received_by c ((j, x) ∷ xs) = if j == c then received x ++ received_by c xs else received_by c xs

abbrev is_eof : Callback → Bool
is_eof eof_received = true
is_eof x = false

-- Whether the client has ended its stream.
abbrev pub ended_by : ℕ → List (ℕ × Callback) → Bool
ended_by c [] = false
ended_by c ((j, x) ∷ xs) = if j == c then is_eof x || ended_by c xs else ended_by c xs

-- asyncio calls `connection_made` once for each protocol.
abbrev IsOther : Callback → Type 0
IsOther connection_made = ⊥
IsOther x = Unit

abbrev pub MadeOnce : ℕ → List (ℕ × Callback) → Type 0
MadeOnce c [] = Unit
MadeOnce c ((j, x) ∷ xs) = (j ≡ c → IsOther x) × MadeOnce c xs

call_lem :
    (x : Callback) (w : Writer)
    → IsOther x
    → call x (record { transport = some w }) ≡ record {
      transport =
          some
            (record { written = w.written ++ upper (received x); closed = is_eof x || w.closed });
    }
unfolding call
call_lem connection_made w other = absurd other
call_lem (data_received bs) w other = refl
call_lem eof_received w other =
    ap (λ l. record { transport = some (record { written = l; closed = true }) })
      (sym (append-nil w.written))
call_lem lost w other =
    ap (λ l. record { transport = some (record { written = l; closed = w.closed }) })
      (sym (append-nil w.written))

or_swap : (a b c : Bool) → (b || (a || c)) ≡ ((a || b) || c)
or_swap true true c = refl
or_swap true false c = refl
or_swap false true c = refl
or_swap false false c = refl

written_on :
    (w : Writer) (bs rest : Bytes)
    → (w.written ++ upper bs) ++ upper rest ≡ w.written ++ upper (bs ++ rest)
written_on w bs rest =
    append_assoc w.written (upper bs) (upper rest)
    ∙ ap (λ l. w.written ++ l) (sym (upper-append bs rest))

protocol_eq :
    (l l' : Bytes) (b b' : Bool)
    → l ≡ l'
    → b ≡ b'
    → record { transport = some (record { written = l; closed = b }) } ≡ (
        let p : EchoProtocol = record { transport = some (record { written = l'; closed = b' }) } in
        p)
protocol_eq l l' b b' e f = cc

callbacks-echo :
    (c : ℕ) (xs : List (ℕ × Callback)) (ps : Protocols) (w : Writer)
    → ps c ≡ record { transport = some w }
    → MadeOnce c xs
    → run_callbacks xs ps c ≡ record {
      transport = some (record {
        written = w.written ++ upper (received_by c xs);
        closed = ended_by c xs || w.closed;
      });
    }
unfolding run_callbacks
callbacks-echo c [] ps w e once =
    e
    ∙ ap (λ l. record { transport = some (record { written = l; closed = w.closed }) })
        (sym (append-nil w.written))
callbacks-echo c ((j, x) ∷ xs) ps w e once = elim (Bool-cases (j == c)) [
  | inl same ↦
      let w' : Writer = record {
        written = w.written ++ upper (received x);
        closed = is_eof x || w.closed;
      } in
      let ps' : Protocols = λ i. if j == i then call x (ps i) else ps i in
      let e' : ps' c ≡ record { transport = some w' } =
        ap (λ b. if b then call x (ps c) else ps c) same
        ∙ ap (call x) e
        ∙ call_lem x w (once.0 (ground arith)) in
      rw same (
        callbacks-echo c xs ps' w' e' once.1
        ∙ protocol_eq _ _ _ _ (written_on w (received x) (received_by c xs))
            (or_swap (is_eof x) (ended_by c xs) w.closed))
  | inr other ↦
      let ps' : Protocols = λ i. if j == i then call x (ps i) else ps i in
      let e' : ps' c ≡ record { transport = some w } =
        ap (λ b. if b then call x (ps c) else ps c) other ∙ e in
      rw other (callbacks-echo c xs ps' w e' once.1)
]

-- In any order of the callbacks of all connections: a connection that has been made gets all that it
-- has sent, in upper case, whatever happens on the others, and its transport is closed if, and only
-- if, it has ended its stream.
pub run_callbacks-echo :
    (c : ℕ) (xs : List (ℕ × Callback)) (ps : Protocols)
    → MadeOnce c xs
    → run_callbacks ((c, connection_made) ∷ xs) ps c ≡ record {
      transport =
          some (record { written = upper (received_by c xs); closed = ended_by c xs || false });
    }
unfolding run_callbacks call
run_callbacks-echo c xs ps once =
    callbacks-echo c xs (λ i. if c == i then call connection_made (ps i) else ps i) open_writer
      (ap (λ b. if b then call connection_made (ps c) else ps c) (same_key c)) once
  where
    same_key : (k : ℕ) → (k == k) ≡ true
    same_key k = ground arith

-- A coroutine in this phase is past its `try`.
abbrev pub is_past : Phase → Bool
is_past awaiting_read = false
is_past awaiting_drain = false
is_past awaiting_close = true
is_past finished = true

-- What holds of coroutine number `n` when so many clients have connected.
pub record IsEchoClient (count n : ℕ) (c : Client) : Type 0 where
  pub numbered : c.client_id ≡ n
  pub echoed : c.writer.written ≡ upper c.heard
  -- Its writer is closed if, and only if, it is past its `try`.
  pub ended : 0 < n → n ≤ count → c.writer.closed ≡ is_past c.phase
  pub unbegun : count < n → c.phase ≡ finished

leave-IsEchoClient :
    (count n : ℕ) (c : Client)
    → c.phase ≢ finished
    → IsEchoClient count n c
    → IsEchoClient count n (leave c)
leave-IsEchoClient count n c on is = record {
  numbered = is.numbered;
  echoed = is.echoed;
  ended = λ pos le. refl;
  unbegun = λ lt. absurd (on (is.unbegun lt));
}

resume-IsEchoClient :
    (count n : ℕ) (p : Phase) (x : Completion) (c : Client)
    → c.phase ≡ p
    → IsEchoClient count n c
    → IsEchoClient count n (resume p x c)
unfolding resume
resume-IsEchoClient count n awaiting_read (read_done []) c at is =
    leave-IsEchoClient count n c (cc) is
resume-IsEchoClient count n awaiting_read (read_done (b ∷ bs)) c at is = record {
  numbered = is.numbered;
  echoed = ap (λ l. l ++ upper (b ∷ bs)) is.echoed ∙ sym (upper-append c.heard (b ∷ bs));
  ended = λ pos le. is.ended pos le ∙ ap is_past at;
  unbegun = λ lt. absurd (cc (is.unbegun lt));
}
resume-IsEchoClient count n awaiting_read connection_error c at is =
    leave-IsEchoClient count n c (cc) is
resume-IsEchoClient count n awaiting_read drained c at is = is
resume-IsEchoClient count n awaiting_read close_done c at is = is
resume-IsEchoClient count n awaiting_drain drained c at is = record {
  numbered = is.numbered;
  echoed = is.echoed;
  ended = λ pos le. is.ended pos le ∙ ap is_past at;
  unbegun = λ lt. absurd (cc (is.unbegun lt));
}
resume-IsEchoClient count n awaiting_drain connection_error c at is =
    leave-IsEchoClient count n c (cc) is
resume-IsEchoClient count n awaiting_drain (read_done bs) c at is = is
resume-IsEchoClient count n awaiting_drain close_done c at is = is
resume-IsEchoClient count n awaiting_close close_done c at is = record {
  numbered = is.numbered;
  echoed = is.echoed;
  ended = λ pos le. is.ended pos le ∙ ap is_past at;
  unbegun = λ lt. refl;
}
resume-IsEchoClient count n awaiting_close (read_done bs) c at is = is
resume-IsEchoClient count n awaiting_close drained c at is = is
resume-IsEchoClient count n awaiting_close connection_error c at is = record {
  numbered = is.numbered;
  echoed = is.echoed;
  ended = λ pos le. is.ended pos le ∙ ap is_past at;
  unbegun = λ lt. refl;
}
resume-IsEchoClient count n finished x c at is = is

abbrev pub IsEchoServer : ProactorCoroutineServer → Type 0
IsEchoServer s = (n : ℕ) → IsEchoClient s.client_count n (s.clients n)

act-IsEchoServer :
    (e : Event) (s : ProactorCoroutineServer) → IsEchoServer s → IsEchoServer (act e s)
unfolding act
act-IsEchoServer connects s h n =
    let count : ℕ = suc s.client_count in
    of_branches (IsEchoClient count n) (count == n)
      (record { client_id = count; writer = open_writer; heard = []; phase = awaiting_read })
      (s.clients n)
      (λ same. record {
        numbered = ground arith;
        echoed = refl;
        ended = λ pos le. refl;
        unbegun = λ lt. absurd (ground arith);
      })
      (λ other. record {
        numbered = (h n).numbered;
        echoed = (h n).echoed;
        ended = λ pos le. (h n).ended pos (ground arith);
        unbegun = λ lt. (h n).unbegun (omega arith);
      })
act-IsEchoServer (completes k x) s h n =
    of_branches (IsEchoClient s.client_count n) (k == n)
      (resume (s.clients n).phase x (s.clients n)) (s.clients n)
      (λ same. resume-IsEchoClient s.client_count n (s.clients n).phase x (s.clients n) refl (h n))
      (λ other. h n)

loop-IsEchoServer :
    (es : List Event) (s : ProactorCoroutineServer) → IsEchoServer s → IsEchoServer (run es s)
unfolding run
loop-IsEchoServer [] s h = h
loop-IsEchoServer (e ∷ es) s h = loop-IsEchoServer es (act e s) (act-IsEchoServer e s h)

-- However clients connect, and whatever their awaited calls come to: coroutine number n serves the
-- n-th client; what it has written is what its reads have returned, in upper case; and its writer is
-- closed if, and only if, it is past its `try`, by an end of the stream or by an error.
pub run-IsProactorEcho : (es : List Event) → IsEchoServer (run es create)
run-IsProactorEcho es = loop-IsEchoServer es create (λ n. record {
  numbered = refl;
  echoed = refl;
  ended = λ pos le. absurd (omega arith);
  unbegun = λ lt. refl;
})
