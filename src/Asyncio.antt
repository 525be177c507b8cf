-- ===== src/Asyncio.antt =====
-- python/stackless_coroutine/asyncio_producer_consumer.py: producers and consumers on an
-- `asyncio.Queue`, and the workers. The event loop runs one task at a time, from one `await` to the
-- next; which task is next is open, since the tasks sleep for random times, and another one may come
-- first also where `get` or `put` returns at once. What is printed is left out.
pub mod Conserved
pub mod Begin
pub mod Waiting
pub mod Gathers
mod Tests
use cocurrency.Common.{
  ℕ, zero, suc, ◌-◌, Bool, true, false, ◌&&◌, Option, none, some, List, [], ◌∷◌, ◌++◌, length,
  get_elem?, set, range_from, ltb, leb, ◌==◌, if◌then◌else◌,
}

-- What is left of the `for` loop of `producer`.
pub record Producer : Type 0 where
  pub items : List ℕ

pub data Place : Type 0 where
  -- In `await queue.get()`, or done if nothing is left to get.
  gets : Place
  -- In `await asyncio.sleep(...)`, with the item that it got.
  sleeps : ℕ → Place
  -- `queue.task_done()` has raised ValueError.
  failed : Place

-- `consumer`, with how often it will still call `queue.get()`.
pub record Consumer : Type 0 where
  pub left : ℕ
  pub place : Place

pub record Loop : Type 0 where
  -- The `asyncio.Queue`: `maxsize` 0 is no bound, and `unfinished` is what `task_done` counts down.
  pub maxsize : ℕ
  pub queue : List ℕ
  pub unfinished : ℕ
  pub results : List ℕ
  pub producers : List Producer
  pub consumers : List Consumer

abbrev pub is_full : Loop → Bool
is_full s = ltb 0 s.maxsize && leb s.maxsize (length s.queue)

-- `await queue.put(item)`: the producer waits while the queue is full.
abbrev pub produce : ℕ → List ℕ → Loop → Loop
produce i [] s = s
produce i (item ∷ items) s = if is_full s then s else record s {
  queue = s.queue ++ item ∷ [];
  unfinished = suc s.unfinished;
  producers = set s.producers i (record { items = items });
}

-- `item = await queue.get()` and `results.append(item)`: the consumer waits while the queue is empty.
abbrev pub get : ℕ → ℕ → List ℕ → Loop → Loop
get i zero queue s = s
get i (suc left) [] s = s
get i (suc left) (item ∷ queue) s = record s {
  queue = queue;
  results = s.results ++ item ∷ [];
  consumers = set s.consumers i (record { left = left; place = sleeps item });
}

-- `queue.task_done()`, and on to the next item.
abbrev pub task_done : ℕ → ℕ → ℕ → Loop → Loop
task_done i left zero s = record s {
  consumers = set s.consumers i (record { left = left; place = failed });
}
task_done i left (suc unfinished) s = record s {
  unfinished = unfinished;
  consumers = set s.consumers i (record { left = left; place = gets });
}

abbrev pub consume : ℕ → ℕ → Place → Loop → Loop
consume i left gets s = get i left s.queue s
consume i left (sleeps item) s = task_done i left s.unfinished s
consume i left failed s = s

pub data Task : Type 0 where
  producer : ℕ → Task
  consumer : ℕ → Task

-- The loop lets a task go on.
unfoldable pub step : Task → Loop → Loop
step (producer i) s = elim (get_elem? s.producers i) [ none ↦ s | some p ↦ produce i p.items s ]
step (consumer i) s = elim (get_elem? s.consumers i) [
  | none ↦ s
  | some c ↦ consume i c.left c.place s
]

unfoldable pub run : List Task → Loop → Loop
run [] s = s
run (t ∷ ts) s = run ts (step t s)

-- `asyncio.gather` returns when every task has.
abbrev pub have_produced : List Producer → Bool
have_produced [] = true
have_produced (p ∷ ps) = (length p.items == 0) && have_produced ps

abbrev is_done : ℕ → Place → Bool
is_done left gets = left == 0
is_done left other = false

abbrev pub have_consumed : List Consumer → Bool
have_consumed [] = true
have_consumed (c ∷ cs) = is_done c.left c.place && have_consumed cs

abbrev pub is_gathered : Loop → Bool
is_gathered s = have_produced s.producers && have_consumed s.consumers

-- The coroutines that `producer_consumer_demo` makes, for lists of items and counts.
abbrev pub make_producers : List (List ℕ) → List Producer
make_producers [] = []
make_producers (items ∷ others) = record { items = items } ∷ make_producers others

abbrev pub make_consumers : List ℕ → List Consumer
make_consumers [] = []
make_consumers (count ∷ others) = record { left = count; place = gets } ∷ make_consumers others

unfoldable pub begin : ℕ → List (List ℕ) → List ℕ → Loop
begin maxsize items counts = record {
  maxsize = maxsize;
  queue = [];
  unfinished = 0;
  results = [];
  producers = make_producers items;
  consumers = make_consumers counts;
}

-- `worker_coroutine`: the body of its loop for each `i`.
abbrev work_steps : List ℕ → List ℕ → List ℕ
work_steps [] results = results
work_steps (i ∷ is) results = work_steps is (results ++ i ∷ [])

unfoldable pub worker_coroutine : ℕ → List ℕ
worker_coroutine count = work_steps (range_from 0 count) []
