-- ===== src/Buffer/Live.antt =====
-- python/shared_memory_lock/thread_producer_consumer.py: what holds between the turns of the threads.
use mathlib.Core.Path.{subst}
use mathlib.Core.List.{append_assoc}
use cocurrency.Common.{
  ℕ, ◌+◌, ◌≤◌, ◌<◌, ◌≡◌, inl, inr, refl, sym, ap, ◌∙◌, List, [], ◌∷◌, ◌++◌, length, length-append,
  leb, Bool-cases, Option-cases, In, of_In-append, arith,
}
use cocurrency.Buffer.{
  BoundedBuffer, Call, put, get, Reply, stored, got, waits, get_from, attempt, System, pick, settle,
  turn, run, start,
}
use cocurrency.Buffer.Replies.{
  put_count, get_count, puts, gets, puts-append, gets-append, pick-counts, stored_items, got_items,
  stored_items-snoc, stored_items-snoc_got, got_items-snoc, got_items-snoc_stored,
}

-- What holds between turns.
pub record IsLive (s : System) : Type 0 where
  -- A waiting call still has to wait: no wakeup was lost.
  pub still : (c : Call) → In c s.waiting → (attempt c s.buffer).0 ≡ waits
  -- The puts to come and the items in the buffer are as many as the gets to come.
  pub balanced : puts s.ready + puts s.waiting + length s.buffer.buf ≡ gets s.ready + gets s.waiting
  pub fits : length s.buffer.buf ≤ s.buffer.maxsize
  -- What was stored is what was handed out and then what the buffer holds.
  pub fifo : stored_items s.replies ≡ got_items s.replies ++ s.buffer.buf

-- What an attempt comes to.
pub data Attempted (c : Call) (b : BoundedBuffer) : Type 0 where
  waited : attempt c b ≡ (waits, b) → Attempted c b
  did_put :
      (item : ℕ)
      → c ≡ put item
      → length b.buf < b.maxsize
      → attempt c b ≡ (stored item, record b { buf = b.buf ++ item ∷ [] })
      → Attempted c b
  did_get :
      (item : ℕ) (rest : List ℕ)
      → c ≡ get
      → b.buf ≡ item ∷ rest
      → attempt c b ≡ (got item, record b { buf = rest })
      → Attempted c b

pub attempt-Attempted : (c : Call) (b : BoundedBuffer) → Attempted c b
unfolding attempt get_from
attempt-Attempted (put item) b = elim (Bool-cases (leb b.maxsize (length b.buf))) [
  | inl full ↦ waited (rw full)
  | inr room ↦ did_put item refl (ground arith) (rw room)
]
attempt-Attempted get b = get_from-Attempted b.buf b refl
  where
    get_from-Attempted : (buf : List ℕ) (b' : BoundedBuffer) → b'.buf ≡ buf → Attempted get b'
    get_from-Attempted [] b' e = waited (ap (λ l. get_from l b') e)
    get_from-Attempted (item ∷ rest) b' e = did_get item rest refl e (ap (λ l. get_from l b') e)

module _ (s : System) (live : IsLive s) (c : Call) (rest : List Call)
    (p : puts s.ready ≡ put_count c + puts rest) (g : gets s.ready ≡ get_count c + gets rest) where
  waited-IsLive :
      attempt c s.buffer ≡ (waits, s.buffer) → IsLive (settle c rest s (waits, s.buffer))
  waited-IsLive e = record {
    still = λ d i. elim (of_In-append d s.waiting (c ∷ []) i) [
      | inl old ↦ live.still d old
      | inr (inl new) ↦
          subst (λ x. (attempt x s.buffer).0 ≡ waits) (sym new)
            (ap (λ (x : Reply × BoundedBuffer). x.0) e)
      | inr (inr impossible) ↦ absurd impossible
    ];
    balanced = omega (
      arith,
      p,
      g,
      live.balanced,
      puts-append s.waiting (c ∷ []),
      gets-append s.waiting (c ∷ []),
    );
    fits = live.fits;
    fifo = live.fifo;
  }

  put-IsLive :
      (item : ℕ)
      → c ≡ put item
      → length s.buffer.buf < s.buffer.maxsize
      → IsLive (settle c rest s (stored item, record s.buffer { buf = s.buffer.buf ++ item ∷ [] }))
  put-IsLive item is_put room = record {
    still = λ d i. absurd i;
    balanced = omega (
      arith,
      p,
      g,
      live.balanced,
      puts-append rest s.waiting,
      gets-append rest s.waiting,
      length-append s.buffer.buf (item ∷ []),
      ap put_count is_put,
      ap get_count is_put,
    );
    fits = omega (arith, length-append s.buffer.buf (item ∷ []));
    fifo =
        stored_items-snoc s.replies item
        ∙ ap (λ l. l ++ item ∷ []) live.fifo
        ∙ append_assoc (got_items s.replies) s.buffer.buf (item ∷ [])
        ∙ ap (λ l. l ++ (s.buffer.buf ++ item ∷ [])) (sym (got_items-snoc_stored s.replies item));
  }

  get-IsLive :
      (item : ℕ) (others : List ℕ)
      → c ≡ get
      → s.buffer.buf ≡ item ∷ others
      → IsLive (settle c rest s (got item, record s.buffer { buf = others }))
  get-IsLive item others is_get front = record {
    still = λ d i. absurd i;
    balanced = omega (
      arith,
      p,
      g,
      live.balanced,
      puts-append rest s.waiting,
      gets-append rest s.waiting,
      ap (length {A = ℕ}) front,
      ap put_count is_get,
      ap get_count is_get,
    );
    fits = omega (arith, live.fits, ap (length {A = ℕ}) front);
    fifo =
        stored_items-snoc_got s.replies item
        ∙ live.fifo
        ∙ ap (λ l. got_items s.replies ++ l) front
        ∙ sym (append_assoc (got_items s.replies) (item ∷ []) others)
        ∙ ap (λ l. l ++ others) (sym (got_items-snoc s.replies item));
  }

  settle-IsLive : IsLive (settle c rest s (attempt c s.buffer))
  settle-IsLive = elim (attempt-Attempted c s.buffer) [
    | waited e ↦ subst (λ x. IsLive (settle c rest s x)) (sym e) (waited-IsLive e)
    | did_put item is_put room e ↦
        subst (λ x. IsLive (settle c rest s x)) (sym e) (put-IsLive item is_put room)
    | did_get item others is_get front e ↦
        subst (λ x. IsLive (settle c rest s x)) (sym e) (get-IsLive item others is_get front)
  ]

turn-IsLive : (i : ℕ) (s : System) → IsLive s → IsLive (turn i s)
unfolding turn
turn-IsLive i s live = elim (Option-cases (pick i s.ready)) [
  | inl out ↦ rw (out, turn) live
  | inr ((c, rest), found) ↦
      let (p, g) = pick-counts i s.ready c rest found in
      rw (found, turn) (settle-IsLive s live c rest p g)
]

-- In whatever order the threads get the lock: no call waits that could go on, the buffer keeps its
-- bound, the items come out in the order in which they went in, and the puts to come with the items
-- in the buffer match the gets to come, if all that is so at the start.
pub run-IsLive : (is : List ℕ) (s : System) → IsLive s → IsLive (run is s)
unfolding run
run-IsLive [] s live = live
run-IsLive (i ∷ is) s live = run-IsLive is (turn i s) (turn-IsLive i s live)

pub start-IsLive :
    (maxsize : ℕ) (calls : List Call) → puts calls ≡ gets calls → IsLive (start maxsize calls)
start-IsLive maxsize calls even = record {
  still = λ c i. absurd i;
  balanced = omega arith;
  fits = omega arith;
  fifo = refl;
}
