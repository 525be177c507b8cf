-- ===== src/Buffer/Threads/Busy.antt =====
-- python/shared_memory_lock/thread_producer_consumer.py: the threads if they did not wait on the condition, but
-- tested again at every turn.
use cocurrency.Common.{ℕ, zero, suc, Option, none, some, List, [], ◌∷◌, ◌++◌, map, get_elem?, set}
use cocurrency.Buffer.{BoundedBuffer, put, get, Reply, stored, got, waits, attempt}
use cocurrency.Buffer.Threads.{Producer, Consumer, Threads, Thread, producer, consumer}

-- The threads without their sleep.
pub record Busy : Type 0 where
  pub buffer : BoundedBuffer
  pub producers : List (List ℕ)
  pub consumers : List ℕ
  pub results : List ℕ

abbrev pub busy_put : ℕ → List ℕ → Reply × BoundedBuffer → Busy → Busy
busy_put i items (stored x, b) s = record s { buffer = b; producers = set s.producers i items }
busy_put i items (got x, b) s = s
busy_put i items (waits, b) s = s

abbrev pub busy_get : ℕ → ℕ → Reply × BoundedBuffer → Busy → Busy
busy_get i left (got x, b) s = record s {
  buffer = b;
  results = s.results ++ x ∷ [];
  consumers = set s.consumers i left;
}
busy_get i left (stored x, b) s = s
busy_get i left (waits, b) s = s

abbrev pub busy_produce : ℕ → Option (List ℕ) → Busy → Busy
busy_produce i none s = s
busy_produce i (some []) s = s
busy_produce i (some (item ∷ items)) s = busy_put i items (attempt (put item) s.buffer) s

abbrev pub busy_consume : ℕ → Option ℕ → Busy → Busy
busy_consume i none s = s
busy_consume i (some zero) s = s
busy_consume i (some (suc left)) s = busy_get i left (attempt get s.buffer) s

unfoldable pub busy_turn : Thread → Busy → Busy
busy_turn (producer i) s = busy_produce i (get_elem? s.producers i) s
busy_turn (consumer i) s = busy_consume i (get_elem? s.consumers i) s

unfoldable pub busy_turns : List Thread → Busy → Busy
busy_turns [] s = s
busy_turns (t ∷ ts) s = busy_turns ts (busy_turn t s)

abbrev pub items_of : Producer → List ℕ
items_of p = p.items

abbrev pub left_of : Consumer → ℕ
left_of c = c.left

abbrev pub erase : Threads → Busy
erase s = record {
  buffer = s.buffer;
  producers = map items_of s.producers;
  consumers = map left_of s.consumers;
  results = s.results;
}
