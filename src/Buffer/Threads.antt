-- ===== src/Buffer/Threads.antt =====
-- python/shared_memory_lock/thread_producer_consumer.py: the threads `producer` and `consumer`. A turn is
-- what a thread does with the lock; one that waits on the condition has none until a put or a get of
-- another calls `notify_all`. The append to `results`, after a consumer has given the lock back, counts
-- to its turn: `results` is in the order of the gets. The sleeping is left out.
pub mod Busy
pub mod Sleeps
pub mod Refines
pub mod Work
pub mod Finish
mod Tests
use cocurrency.Common.{
  ℕ, zero, suc, Bool, true, false, Option, none, some, List, [], ◌∷◌, ◌++◌, map, get_elem?, set,
  if◌then◌else◌,
}
use cocurrency.Buffer.{BoundedBuffer, Call, put, get, Reply, stored, got, waits, attempt}

-- `producer`: the items that it has still to put, and whether it is in `self._cond.wait()`.
pub record Producer : Type 0 where
  pub items : List ℕ
  pub asleep : Bool

-- `consumer`: how many items it has still to get.
pub record Consumer : Type 0 where
  pub left : ℕ
  pub asleep : Bool

pub record Threads : Type 0 where
  pub buffer : BoundedBuffer
  pub producers : List Producer
  pub consumers : List Consumer
  pub results : List ℕ

-- `self._cond.notify_all()`
abbrev pub wake_producer : Producer → Producer
wake_producer p = record p { asleep = false }

abbrev pub wake_consumer : Consumer → Consumer
wake_consumer c = record c { asleep = false }

abbrev pub notify_all : Threads → Threads
notify_all s = record s {
  producers = map wake_producer s.producers;
  consumers = map wake_consumer s.consumers;
}

-- After the body of `put`, with the items that come after this one.
abbrev pub after_put : ℕ → ℕ → List ℕ → Reply × BoundedBuffer → Threads → Threads
after_put i item items (stored x, b) s = notify_all (record s {
  buffer = b;
  producers = set s.producers i (record { items = items; asleep = false });
})
after_put i item items (got x, b) s = s
after_put i item items (waits, b) s = record s {
  producers = set s.producers i (record { items = item ∷ items; asleep = true });
}

-- After the body of `get`, with how many items come after this one.
abbrev pub after_get : ℕ → ℕ → Reply × BoundedBuffer → Threads → Threads
after_get i left (got x, b) s = notify_all (record s {
  buffer = b;
  results = s.results ++ x ∷ [];
  consumers = set s.consumers i (record { left = left; asleep = false });
})
after_get i left (stored x, b) s = s
after_get i left (waits, b) s = record s {
  consumers = set s.consumers i (record { left = suc left; asleep = true });
}

abbrev pub put_turn : ℕ → List ℕ → Threads → Threads
put_turn i [] s = s
put_turn i (item ∷ items) s = after_put i item items (attempt (put item) s.buffer) s

abbrev pub get_turn : ℕ → ℕ → Threads → Threads
get_turn i zero s = s
get_turn i (suc left) s = after_get i left (attempt get s.buffer) s

pub data Thread : Type 0 where
  producer : ℕ → Thread
  consumer : ℕ → Thread

abbrev pub produce_turn : ℕ → Option Producer → Threads → Threads
produce_turn i none s = s
produce_turn i (some p) s = if p.asleep then s else put_turn i p.items s

abbrev pub consume_turn : ℕ → Option Consumer → Threads → Threads
consume_turn i none s = s
consume_turn i (some c) s = if c.asleep then s else get_turn i c.left s

-- The thread gets the lock.
unfoldable pub take_turn : Thread → Threads → Threads
take_turn (producer i) s = produce_turn i (get_elem? s.producers i) s
take_turn (consumer i) s = consume_turn i (get_elem? s.consumers i) s

unfoldable pub take_turns : List Thread → Threads → Threads
take_turns [] s = s
take_turns (t ∷ ts) s = take_turns ts (take_turn t s)

abbrev pub make_producers : List (List ℕ) → List Producer
make_producers [] = []
make_producers (items ∷ others) = record { items = items; asleep = false } ∷ make_producers others

abbrev pub make_consumers : List ℕ → List Consumer
make_consumers [] = []
make_consumers (count ∷ others) = record { left = count; asleep = false } ∷ make_consumers others

-- The threads that `demo_producer_consumer` starts.
unfoldable pub start_threads : ℕ → List (List ℕ) → List ℕ → Threads
start_threads maxsize items counts = record {
  buffer = record { maxsize = maxsize; buf = [] };
  producers = make_producers items;
  consumers = make_consumers counts;
  results = [];
}
