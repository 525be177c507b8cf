-- ===== src/Buffer/Progress.antt =====
-- python/shared_memory_lock/thread_producer_consumer.py: producers and consumers that match do not
-- block each other.
use mathlib.Core.List.{append-nil}
use cocurrency.Common.{
  ℕ, zero, suc, ◌<◌, ◌≡◌, ◌⊎◌, inl, inr, refl, ap, ◌∙◌, List, [], ◌∷◌, ◌++◌, length, Option-cases,
  In, arith,
}
use cocurrency.Buffer.{
  BoundedBuffer, Call, put, get, Reply, waits, get_from, attempt, System, pick, settle, turn, run,
  start,
}
use cocurrency.Buffer.Replies.{puts, gets, stored_items, got_items}
use cocurrency.Buffer.Live.{
  IsLive, attempt-Attempted, run-IsLive, start-IsLive, waited, did_put, did_get,
}

-- All waiting calls get, if the buffer is empty.
only_gets :
    (b : BoundedBuffer) (cs : List Call)
    → 0 < b.maxsize
    → length b.buf ≡ 0
    → ((c : Call) → In c cs → (attempt c b).0 ≡ waits)
    → puts cs ≡ 0
unfolding attempt
only_gets b [] pos empty still = refl
only_gets b (put item ∷ cs) pos empty still = absurd (ground (arith, still (put item) (inl refl)))
only_gets b (get ∷ cs) pos empty still =
    omega (arith, only_gets b cs pos empty (λ c i. still c (inr i)))

-- No waiting call gets, if the buffer is not empty.
only_puts :
    (b : BoundedBuffer) (cs : List Call)
    → 0 < length b.buf
    → ((c : Call) → In c cs → (attempt c b).0 ≡ waits)
    → gets cs ≡ 0
unfolding attempt get_from
only_puts b [] full still = refl
only_puts b (put item ∷ cs) full still = omega (arith, only_puts b cs full (λ c i. still c (inr i)))
only_puts b (get ∷ cs) full still = absurd (grind (arith, still get (inl refl)))

no_calls : (cs : List Call) → puts cs ≡ 0 → gets cs ≡ 0 → cs ≡ []
no_calls [] p g = refl
no_calls (put item ∷ cs) p g = absurd (omega arith)
no_calls (get ∷ cs) p g = absurd (omega arith)

settle-maxsize :
    (c : Call) (rest : List Call) (s : System)
    → (settle c rest s (attempt c s.buffer)).buffer.maxsize ≡ s.buffer.maxsize
settle-maxsize c rest s = elim (attempt-Attempted c s.buffer) [
  | waited e ↦ ap (λ (x : Reply × BoundedBuffer). (settle c rest s x).buffer.maxsize) e
  | did_put item is_put room e ↦
      ap (λ (x : Reply × BoundedBuffer). (settle c rest s x).buffer.maxsize) e
  | did_get item others is_get front e ↦
      ap (λ (x : Reply × BoundedBuffer). (settle c rest s x).buffer.maxsize) e
]

turn-maxsize : (i : ℕ) (s : System) → (turn i s).buffer.maxsize ≡ s.buffer.maxsize
unfolding turn
turn-maxsize i s = elim (Option-cases (pick i s.ready)) [
  | inl out ↦ rw (out, turn) refl
  | inr ((c, rest), found) ↦ rw (found, turn) (settle-maxsize c rest s)
]

run-maxsize : (is : List ℕ) (s : System) → (run is s).buffer.maxsize ≡ s.buffer.maxsize
unfolding run
run-maxsize [] s = refl
run-maxsize (i ∷ is) s = run-maxsize is (turn i s) ∙ turn-maxsize i s

empty_buffer : (buf : List ℕ) → length buf ≡ 0 → buf ≡ []
empty_buffer [] e = refl
empty_buffer (x ∷ xs) e = absurd (omega arith)

-- A live state in which no thread can run has no waiting thread, and an empty buffer.
idle_done :
    (s : System)
    → IsLive s
    → 0 < s.buffer.maxsize
    → s.ready ≡ []
    → (s.waiting ≡ []) × (s.buffer.buf ≡ [])
idle_done s live pos idle =
    let p0 : puts s.ready ≡ 0 = ap puts idle in
    let g0 : gets s.ready ≡ 0 = ap gets idle in
    elim (zero_or_pos (length s.buffer.buf)) [
      | inl empty ↦
          let p1 = only_gets s.buffer s.waiting pos empty live.still in
          (no_calls s.waiting p1 (omega (arith, live.balanced)), empty_buffer s.buffer.buf empty)
      | inr full ↦
          let g1 = only_puts s.buffer s.waiting full live.still in
          absurd (omega (arith, live.balanced))
    ]
  where
    zero_or_pos : (n : ℕ) → (n ≡ 0) ⊎ (0 < n)
    zero_or_pos zero = inl refl
    zero_or_pos (suc n) = inr (omega arith)

-- Producers and consumers with as many puts as gets never block each other: with a buffer of size 1
-- or more, whatever the order in which they get the lock, when no thread can run then none waits, and
-- the buffer is empty: all items that were stored have been handed out, in their order.
pub balanced_finish :
    (maxsize : ℕ) (calls : List Call) (is : List ℕ)
    → 0 < maxsize
    → puts calls ≡ gets calls
    → (run is (start maxsize calls)).ready ≡ []
    → ((run is (start maxsize calls)).waiting ≡ [])
      × (stored_items (run is (start maxsize calls)).replies
          ≡ got_items (run is (start maxsize calls)).replies)
balanced_finish maxsize calls is pos even idle =
    let live = run-IsLive is (start maxsize calls) (start-IsLive maxsize calls even) in
    let kept = run-maxsize is (start maxsize calls) in
    let (none_wait, empty) =
      idle_done (run is (start maxsize calls)) live (omega (arith, kept)) idle in
    (
      none_wait,
      live.fifo
          ∙ ap (λ l. got_items (run is (start maxsize calls)).replies ++ l) empty
          ∙ append-nil (got_items (run is (start maxsize calls)).replies),
    )
