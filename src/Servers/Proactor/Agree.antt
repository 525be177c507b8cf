-- ===== src/Servers/Proactor/Agree.antt =====
-- python/io_multiplexing/proactor_server.py: the callbacks and the coroutines write the same.
use mathlib.Core.Path.{subst}
use mathlib.Core.List.{append-nil, append_assoc}
use cocurrency.Common.{
  ℕ, ◌≡◌, refl, sym, ap, ◌∙◌, Bool, true, false, ◌||◌, some, List, [], ◌∷◌, ◌++◌, if◌then◌else◌,
  ◌==◌, arith,
}
use cocurrency.Servers.{Bytes, upper, upper-append}
use cocurrency.Servers.Proactor.{
  Writer, EchoProtocol, Callback, connection_made, data_received, protocols, run_callbacks,
  awaiting_read, Client, Completion, read_done, drained, resume, ProactorCoroutineServer, create,
  Event, connects, completes, act, run,
}
use cocurrency.Servers.Proactor.Echo.{received_by, ended_by, MadeOnce, run_callbacks-echo}

-- A client that sends these chunks, none of them empty: as callbacks, and as completions.
abbrev pub chunk_callbacks : ℕ → List (ℕ × Bytes) → List (ℕ × Callback)
chunk_callbacks c [] = []
chunk_callbacks c ((b, bs) ∷ ds) = (c, data_received (b ∷ bs)) ∷ chunk_callbacks c ds

abbrev pub chunk_completions : ℕ → List (ℕ × Bytes) → List Event
chunk_completions k [] = []
chunk_completions k ((b, bs) ∷ ds) =
    completes k (read_done (b ∷ bs)) ∷ completes k drained ∷ chunk_completions k ds

joined : List (ℕ × Bytes) → Bytes
joined [] = []
joined ((b, bs) ∷ ds) = (b ∷ bs) ++ joined ds

same_key : (k : ℕ) → (k == k) ≡ true
same_key k = ground arith

chunk-MadeOnce : (c : ℕ) (ds : List (ℕ × Bytes)) → MadeOnce c (chunk_callbacks c ds)
chunk-MadeOnce c [] = tt
chunk-MadeOnce c ((b, bs) ∷ ds) = ((λ e. tt), chunk-MadeOnce c ds)

received_by-chunk :
    (c : ℕ) (ds : List (ℕ × Bytes)) → received_by c (chunk_callbacks c ds) ≡ joined ds
unfolding joined
received_by-chunk c [] = refl
received_by-chunk c ((b, bs) ∷ ds) =
    rw (same_key c) (ap (λ l. (b ∷ bs) ++ l) (received_by-chunk c ds))

ended_by-chunk : (c : ℕ) (ds : List (ℕ × Bytes)) → ended_by c (chunk_callbacks c ds) ≡ false
ended_by-chunk c [] = refl
ended_by-chunk c ((b, bs) ∷ ds) = rw (same_key c) (ended_by-chunk c ds)

-- A coroutine that waits for a read, with these bytes written.
record IsWaiting (l : Bytes) (c : Client) : Type 0 where
  phase : c.phase ≡ awaiting_read
  written : c.writer.written ≡ l
  open_still : c.writer.closed ≡ false

exchange-IsWaiting :
    (l : Bytes) (b : ℕ) (bs : Bytes) (c : Client)
    → IsWaiting l c
    → (let d = resume c.phase (read_done (b ∷ bs)) c in
        IsWaiting (l ++ upper (b ∷ bs)) (resume d.phase drained d))
unfolding resume
exchange-IsWaiting l b bs c is = rw is.phase (record {
  phase = refl;
  written = ap (λ x. x ++ upper (b ∷ bs)) is.written;
  open_still = is.open_still;
})

act-completes :
    (k : ℕ) (x : Completion) (s : ProactorCoroutineServer)
    → (act (completes k x) s).clients k ≡ resume (s.clients k).phase x (s.clients k)
unfolding act
act-completes k x s =
    ap (λ b. if b then resume (s.clients k).phase x (s.clients k) else s.clients k) (same_key k)

act-exchange :
    (k b : ℕ) (bs l : Bytes) (s : ProactorCoroutineServer)
    → IsWaiting l (s.clients k)
    → IsWaiting
        (l ++ upper (b ∷ bs))
        ((act (completes k drained) (act (completes k (read_done (b ∷ bs))) s)).clients k)
act-exchange k b bs l s is =
    let s' = act (completes k (read_done (b ∷ bs))) s in
    subst (IsWaiting (l ++ upper (b ∷ bs)))
      (sym (
        act-completes k drained s'
        ∙ ap (λ (d : Client). resume d.phase drained d) (act-completes k (read_done (b ∷ bs)) s)))
      (exchange-IsWaiting l b bs (s.clients k) is)

run-IsWaiting :
    (k : ℕ) (ds : List (ℕ × Bytes)) (l : Bytes) (s : ProactorCoroutineServer)
    → IsWaiting l (s.clients k)
    → IsWaiting (l ++ upper (joined ds)) ((run (chunk_completions k ds) s).clients k)
unfolding run joined
run-IsWaiting k [] l s is = record {
  phase = is.phase;
  written = is.written ∙ sym (append-nil l);
  open_still = is.open_still;
}
run-IsWaiting k ((b, bs) ∷ ds) l s is =
    subst (λ x. IsWaiting x ((run (chunk_completions k ((b, bs) ∷ ds)) s).clients k))
      (append_assoc l (upper (b ∷ bs)) (upper (joined ds))
        ∙ ap (λ x. l ++ x) (sym (upper-append (b ∷ bs) (joined ds))))
      (run-IsWaiting k ds (l ++ upper (b ∷ bs))
        (act (completes k drained) (act (completes k (read_done (b ∷ bs))) s))
        (act-exchange k b bs l s is))

writer_eq :
    (l l' : Bytes) (b b' : Bool)
    → l ≡ l'
    → b ≡ b'
    → some (let w : Writer = record { written = l; closed = b } in w)
      ≡ some (let w : Writer = record { written = l'; closed = b' } in w)
writer_eq l l' b b' e f = cc

-- For the same chunks of bytes, none of them empty, the protocol's transport and the coroutine's
-- writer end in the same state.
pub variants_agree :
    (c : ℕ) (ds : List (ℕ × Bytes))
    → (run_callbacks ((c, connection_made) ∷ chunk_callbacks c ds) protocols c).transport
      ≡ some ((run (connects ∷ chunk_completions 1 ds) create).clients 1).writer
unfolding run act
variants_agree c ds =
    let is =
      run-IsWaiting 1 ds [] (act connects create)
        (record { phase = refl; written = refl; open_still = refl }) in
    ap (λ (p : EchoProtocol). p.transport)
      (run_callbacks-echo c (chunk_callbacks c ds) protocols (chunk-MadeOnce c ds))
    ∙ writer_eq _ _ _ _ (ap upper (received_by-chunk c ds) ∙ sym is.written)
        (ap (λ b. b || false) (ended_by-chunk c ds) ∙ sym is.open_still)
