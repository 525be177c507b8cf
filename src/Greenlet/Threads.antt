-- ===== src/Greenlet/Threads.antt =====
-- python/stackful_coroutine/greenlet_demo.py: the fallback, a thread for each coroutine, with
-- `ThreadBasedCoro` and `ThreadScheduler`. The threads and the scheduler move in any order. A
-- coroutine is a number; its code is its lines. After each line but the last it puts `suspended` and
-- waits to be resumed; after the last it puts `done`, or raises.
pub mod Lost
pub mod Hang
mod Tests
use cocurrency.Common.{
  ℕ, zero, suc, ◌-◌, Bool, true, false, List, [], ◌∷◌, ◌++◌, ◌==◌, if◌then◌else◌,
}

pub data Message : Type 0 where
  suspended : Message
  done : Message
  error : Message

-- Where the thread is.
pub data Place : Type 0 where
  unstarted : Place
  before_line : Place
  before_suspended : Place
  waits_for_resume : Place
  at_end : Place
  -- The target has returned.
  returned : Place
  before_dead : Place
  ended : Place

pub record ThreadBasedCoro : Type 0 where
  pub target : List ℕ
  pub raises : Bool
  pub place : Place
  pub sched_q : List Message
  -- How many `args` are in the queue.
  pub resume_q : ℕ
  pub is_alive : Bool

-- Where `ThreadScheduler.run` is.
pub data RunPlace : Type 0 where
  starts : List ℕ → RunPlace
  -- In `switch` of a coroutine, with the others that are still to start.
  before_put : ℕ → List ℕ → RunPlace
  waits_for_message : ℕ → List ℕ → RunPlace
  -- In the loop of `join`.
  joins : List ℕ → RunPlace
  -- RuntimeError: a thread was started twice.
  runtime_error : RunPlace

pub record ThreadScheduler : Type 0 where
  pub ready : List ℕ
  pub place : RunPlace
  pub coros : ℕ → ThreadBasedCoro
  pub printed : List (ℕ × ℕ)

-- `ThreadBasedCoro.__init__`
unfoldable pub create_coro : List ℕ → Bool → ThreadBasedCoro
create_coro target raises = record {
  target = target;
  raises = raises;
  place = unstarted;
  sched_q = [];
  resume_q = 0;
  is_alive = true;
}

-- `ThreadBasedCoro.kill`
unfoldable pub kill : ThreadBasedCoro → ThreadBasedCoro
kill x = record x { is_alive = false }

-- `ThreadScheduler.add`
unfoldable pub add : ℕ → ThreadScheduler → ThreadScheduler
add c s = record s { ready = s.ready ++ c ∷ [] }

abbrev pub set_coro : ℕ → ThreadBasedCoro → ThreadScheduler → ThreadScheduler
set_coro c x s = record s { coros = λ j. if c == j then x else s.coros j }

-- The code prints a line, if there is one.
abbrev pub print_line : ℕ → List ℕ → ThreadScheduler → ThreadScheduler
print_line c [] s = set_coro c (record (s.coros c) { place = at_end }) s
print_line c (l ∷ []) s =
    record (set_coro c (record (s.coros c) { target = []; place = at_end }) s) {
      printed = s.printed ++ (c, l) ∷ [];
    }
print_line c (l ∷ m ∷ ls) s =
    record (set_coro c (record (s.coros c) { target = m ∷ ls; place = before_suspended }) s) {
      printed = s.printed ++ (c, l) ∷ [];
    }

abbrev pub put_message : Message → Place → ThreadBasedCoro → ThreadBasedCoro
put_message m after x = record x { sched_q = x.sched_q ++ m ∷ []; place = after }

-- `coro._resume_q.get()` in the thread, which waits while the queue is empty.
abbrev pub get_args : ℕ → ThreadBasedCoro → ThreadBasedCoro
get_args zero x = x
get_args (suc n) x = record x { resume_q = n; place = before_line }

-- A move of a thread: `_run` and the target.
abbrev pub move_thread : ℕ → Place → ThreadScheduler → ThreadScheduler
move_thread c unstarted s = s
move_thread c before_line s = print_line c (s.coros c).target s
move_thread c before_suspended s = set_coro c (put_message suspended waits_for_resume (s.coros c)) s
move_thread c waits_for_resume s = set_coro c (get_args (s.coros c).resume_q (s.coros c)) s
move_thread c at_end s =
    if (s.coros c).raises
    then set_coro c (put_message error before_dead (s.coros c)) s
    else set_coro c (put_message done returned (s.coros c)) s
move_thread c returned s = set_coro c (put_message done before_dead (s.coros c)) s
move_thread c before_dead s = set_coro c (record (s.coros c) { is_alive = false; place = ended }) s
move_thread c ended s = s

-- `self._thread.start()`, at the beginning of `ThreadBasedCoro.start`.
abbrev pub start : ℕ → List ℕ → Place → ThreadScheduler → ThreadScheduler
start c cs unstarted s = record (set_coro c (record (s.coros c) { place = before_line }) s) {
  place = before_put c cs;
}
start c cs other s = record s { place = runtime_error }

-- `self._resume_q.put(args)` of `ThreadBasedCoro.switch`.
abbrev pub put_args : ℕ → List ℕ → ThreadScheduler → ThreadScheduler
put_args c cs s =
    record (set_coro c (record (s.coros c) { resume_q = suc (s.coros c).resume_q }) s) {
      place = waits_for_message c cs;
    }

-- `self._sched_q.get()`, which waits while the queue is empty.
abbrev pub get_message : ℕ → List ℕ → List Message → ThreadScheduler → ThreadScheduler
get_message c cs [] s = s
get_message c cs (m ∷ ms) s = record (set_coro c (record (s.coros c) { sched_q = ms }) s) {
  place = starts cs;
}

-- `coro._thread.join()`, which waits for the thread to end.
abbrev pub join : List ℕ → Place → ThreadScheduler → ThreadScheduler
join cs ended s = record s { place = joins cs }
join cs other s = s

-- A move of `ThreadScheduler.run`.
abbrev pub move_run : RunPlace → ThreadScheduler → ThreadScheduler
move_run (starts []) s = record s { place = joins s.ready }
move_run (starts (c ∷ cs)) s = start c cs (s.coros c).place s
move_run (before_put c cs) s = put_args c cs s
move_run (waits_for_message c cs) s = get_message c cs (s.coros c).sched_q s
move_run (joins []) s = s
move_run (joins (c ∷ cs)) s = join cs (s.coros c).place s
move_run runtime_error s = s

pub data Mover : Type 0 where
  scheduler : Mover
  thread : ℕ → Mover

unfoldable pub move : Mover → ThreadScheduler → ThreadScheduler
move scheduler s = move_run s.place s
move (thread c) s = move_thread c (s.coros c).place s

-- The moves that the operating system chose, one after the other.
unfoldable pub moves : List Mover → ThreadScheduler → ThreadScheduler
moves [] s = s
moves (m ∷ ms) s = moves ms (move m s)

-- `ThreadScheduler.run` begins.
unfoldable pub begin : List ℕ → (ℕ → ThreadBasedCoro) → ThreadScheduler
begin ready coros = record { ready = ready; place = starts ready; coros = coros; printed = [] }
