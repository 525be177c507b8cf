-- ===== src/Buffer/Threads/Refines.antt =====
-- python/shared_memory_lock/thread_producer_consumer.py: threads that wait for `notify_all` do what
-- threads would do that test again and again.
use mathlib.Core.Path.{subst}
use cocurrency.Common.{
  ℕ, zero, suc, ◌≡◌, inl, inr, refl, sym, ap, ◌∙◌, true, false, some, List, [], ◌∷◌, ◌++◌,
  get_elem?, if◌then◌else◌, Option-cases, get_elem?-map-some, get_elem?-map-none, some_inj,
  of_branches,
}
use cocurrency.Buffer.{BoundedBuffer, put, get, stored, waits, get_from, attempt}
use cocurrency.Buffer.Threads.{
  Producer, Consumer, Threads, put_turn, get_turn, Thread, producer, consumer, produce_turn,
  consume_turn, take_turn, take_turns, make_producers, make_consumers, start_threads,
}
use cocurrency.Buffer.Threads.Busy.{
  Busy, busy_put, busy_get, busy_produce, busy_consume, busy_turn, busy_turns, items_of, left_of,
  erase,
}
use cocurrency.Buffer.Threads.Sleeps.{
  is_full, IsRoused, put_waits, get_waits, after_put-erase, after_put-IsRoused, after_get-erase,
  after_get-IsRoused,
}

put_turn-lem :
    (i : ℕ) (p : Producer) (items : List ℕ) (s : Threads)
    → get_elem? s.producers i ≡ some p
    → p.items ≡ items
    → IsRoused s
    → IsRoused (put_turn i items s)
      × (erase (put_turn i items s) ≡ busy_produce i (some items) (erase s))
put_turn-lem i p [] s at e is = (is, refl)
put_turn-lem i p (item ∷ items) s at e is = (
  after_put-IsRoused i item items (attempt (put item) s.buffer) s (put_waits item s.buffer) is,
  after_put-erase i item items p (attempt (put item) s.buffer) s at e,
)

get_turn-lem :
    (i left : ℕ) (c : Consumer) (s : Threads)
    → get_elem? s.consumers i ≡ some c
    → c.left ≡ left
    → IsRoused s
    → IsRoused (get_turn i left s)
      × (erase (get_turn i left s) ≡ busy_consume i (some left) (erase s))
get_turn-lem i zero c s at e is = (is, refl)
get_turn-lem i (suc left) c s at e is = (
  after_get-IsRoused i left (attempt get s.buffer) s (get_waits s.buffer.buf s.buffer refl) is,
  after_get-erase i left c (attempt get s.buffer) s at e,
)

-- A thread that sleeps would only go on waiting.
busy_produce-full :
    (i : ℕ) (items : List ℕ) (s : Busy)
    → is_full s.buffer ≡ true
    → busy_produce i (some items) s ≡ s
unfolding attempt
busy_produce-full i [] s full = refl
busy_produce-full i (item ∷ items) s full =
    ap
      (λ b.
        busy_put i items
          (if b then (waits, s.buffer) else (
            stored item,
            (let c : BoundedBuffer = record s.buffer { buf = s.buffer.buf ++ item ∷ [] } in c),
          ))
          s)
      full

busy_consume-empty : (i left : ℕ) (s : Busy) → s.buffer.buf ≡ [] → busy_consume i (some left) s ≡ s
unfolding attempt get_from
busy_consume-empty i zero s empty = refl
busy_consume-empty i (suc left) s empty =
    ap (λ buf. busy_get i left (get_from buf s.buffer) s) empty

produce_turn-lem :
    (i : ℕ) (p : Producer) (s : Threads)
    → get_elem? s.producers i ≡ some p
    → IsRoused s
    → IsRoused (produce_turn i (some p) s)
      × (erase (produce_turn i (some p) s) ≡ busy_produce i (some p.items) (erase s))
produce_turn-lem i p s at is =
    of_branches (λ t. IsRoused t × (erase t ≡ busy_produce i (some p.items) (erase s))) p.asleep s
      (put_turn i p.items s)
      (λ asleep. (is, sym (busy_produce-full i p.items (erase s) (is.full i p at asleep))))
      (λ awake. put_turn-lem i p p.items s at refl is)

consume_turn-lem :
    (i : ℕ) (c : Consumer) (s : Threads)
    → get_elem? s.consumers i ≡ some c
    → IsRoused s
    → IsRoused (consume_turn i (some c) s)
      × (erase (consume_turn i (some c) s) ≡ busy_consume i (some c.left) (erase s))
consume_turn-lem i c s at is =
    of_branches (λ t. IsRoused t × (erase t ≡ busy_consume i (some c.left) (erase s))) c.asleep s
      (get_turn i c.left s)
      (λ asleep. (is, sym (busy_consume-empty i c.left (erase s) (is.empty i c at asleep))))
      (λ awake. get_turn-lem i c.left c s at refl is)

take_turn-lem :
    (t : Thread) (s : Threads)
    → IsRoused s
    → IsRoused (take_turn t s) × (erase (take_turn t s) ≡ busy_turn t (erase s))
unfolding take_turn busy_turn
take_turn-lem (producer i) s is = elim (Option-cases (get_elem? s.producers i)) [
  | inl out ↦
      subst
        (λ o.
          IsRoused (produce_turn i o s)
          × (erase (produce_turn i o s) ≡ busy_turn (producer i) (erase s)))
        (sym out)
        (
          is,
          sym (
              ap (λ o. busy_produce i o (erase s)) (get_elem?-map-none items_of s.producers i out)),
        )
  | inr (p, at) ↦
      let (next, same) = produce_turn-lem i p s at is in
      subst
        (λ o.
          IsRoused (produce_turn i o s)
          × (erase (produce_turn i o s) ≡ busy_turn (producer i) (erase s)))
        (sym at)
        (
          next,
          same
              ∙ sym (
                  ap (λ o. busy_produce i o (erase s))
                    (get_elem?-map-some items_of s.producers i p at)),
        )
]
take_turn-lem (consumer i) s is = elim (Option-cases (get_elem? s.consumers i)) [
  | inl out ↦
      subst
        (λ o.
          IsRoused (consume_turn i o s)
          × (erase (consume_turn i o s) ≡ busy_turn (consumer i) (erase s)))
        (sym out)
        (
          is,
          sym (ap (λ o. busy_consume i o (erase s)) (get_elem?-map-none left_of s.consumers i out)),
        )
  | inr (c, at) ↦
      let (next, same) = consume_turn-lem i c s at is in
      subst
        (λ o.
          IsRoused (consume_turn i o s)
          × (erase (consume_turn i o s) ≡ busy_turn (consumer i) (erase s)))
        (sym at)
        (
          next,
          same
              ∙ sym (
                  ap (λ o. busy_consume i o (erase s))
                    (get_elem?-map-some left_of s.consumers i c at)),
        )
]

take_turns-erase :
    (ts : List Thread) (s : Threads)
    → IsRoused s
    → erase (take_turns ts s) ≡ busy_turns ts (erase s)
unfolding take_turns busy_turns
take_turns-erase [] s is = refl
take_turns-erase (t ∷ ts) s is =
    let (next, same) = take_turn-lem t s is in
    take_turns-erase ts (take_turn t s) next ∙ ap (busy_turns ts) same

start-full :
    (items : List (List ℕ)) (i : ℕ) (p : Producer)
    → get_elem? (make_producers items) i ≡ some p
    → p.asleep ≡ false
start-full [] i p e = absurd cc
start-full (x ∷ xs) zero p e = ap (λ (q : Producer). q.asleep) (sym (some_inj e))
start-full (x ∷ xs) (suc i) p e = start-full xs i p e

start-empty :
    (counts : List ℕ) (i : ℕ) (c : Consumer)
    → get_elem? (make_consumers counts) i ≡ some c
    → c.asleep ≡ false
start-empty [] i c e = absurd cc
start-empty (n ∷ ns) zero c e = ap (λ (d : Consumer). d.asleep) (sym (some_inj e))
start-empty (n ∷ ns) (suc i) c e = start-empty ns i c e

-- Threads that wait on the condition variable, woken by `notify_all`, refine threads that test again
-- at every turn: from the start, in any order of the turns, the buffer, the results and what each
-- thread has still to do are the same.
pub take_turns-refines :
    (maxsize : ℕ) (items : List (List ℕ)) (counts : List ℕ) (ts : List Thread)
    → erase (take_turns ts (start_threads maxsize items counts))
      ≡ busy_turns ts (erase (start_threads maxsize items counts))
unfolding start_threads
take_turns-refines maxsize items counts ts =
    take_turns-erase ts (start_threads maxsize items counts) (record {
      full = λ i p at asleep. absurd (cc (sym asleep ∙ start-full items i p at));
      empty = λ i c at asleep. absurd (cc (sym asleep ∙ start-empty counts i c at));
    })
