-- ===== src/Buffer.antt =====
-- python/shared_memory_lock/thread_producer_consumer.py: a bounded buffer under a condition variable.
-- A thread that has the lock passes its `while` test once: it does its call, and wakes all waiting
-- threads by `notify_all`, or it waits. A woken thread tests again.
pub mod Replies
pub mod Live
pub mod Progress
pub mod Threads
mod Tests
use cocurrency.Common.{
  ℕ, zero, suc, Bool, Option, none, some, List, [], ◌∷◌, ◌++◌, length, leb, if◌then◌else◌,
}

pub record BoundedBuffer : Type 0 where
  pub maxsize : ℕ
  pub buf : List ℕ

pub data Call : Type 0 where
  put : ℕ → Call
  get : Call

pub data Reply : Type 0 where
  stored : ℕ → Reply
  got : ℕ → Reply
  waits : Reply

unfoldable pub get_from : List ℕ → BoundedBuffer → Reply × BoundedBuffer
get_from [] b = (waits, b)
get_from (item ∷ rest) b = (got item, record b { buf = rest })

-- The body of `put` and `get`, up to the first `wait` or the end.
unfoldable pub attempt : Call → BoundedBuffer → Reply × BoundedBuffer
unfolding get_from
attempt (put item) b =
    if leb b.maxsize (length b.buf)
    then (waits, b)
    else (stored item, record b { buf = b.buf ++ item ∷ [] })
attempt get b = get_from b.buf b

-- The threads that can run, those that wait on the condition, and the replies so far.
pub record System : Type 0 where
  pub buffer : BoundedBuffer
  pub ready : List Call
  pub waiting : List Call
  pub replies : List Reply

-- The thread at a place, and the others.
abbrev pub pick : ℕ → List Call → Option (Call × List Call)
pick i [] = none
pick zero (c ∷ cs) = some (c, cs)
pick (suc i) (c ∷ cs) = elim (pick i cs) [ none ↦ none | some (d, ds) ↦ some (d, c ∷ ds) ]

abbrev settle : Call → List Call → System → Reply × BoundedBuffer → System
settle c rest s (waits, b) = record s { ready = rest; waiting = s.waiting ++ c ∷ [] }
settle c rest s (r, b) = record {
  buffer = b;
  ready = rest ++ s.waiting;
  waiting = [];
  replies = s.replies ++ r ∷ [];
}

-- The ready thread at a place gets the lock.
unfoldable pub turn : ℕ → System → System
unfolding attempt
turn i s = elim (pick i s.ready) [
  | none ↦ s
  | some (c, rest) ↦ settle c rest s (attempt c s.buffer)
]

unfoldable pub run : List ℕ → System → System
run [] s = s
run (i ∷ is) s = run is (turn i s)

-- The threads of a program, before any has run.
abbrev pub start : ℕ → List Call → System
start maxsize calls = record {
  buffer = record { maxsize = maxsize; buf = [] };
  ready = calls;
  waiting = [];
  replies = [];
}
