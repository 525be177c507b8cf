-- ===== src/Greenlet.antt =====
-- python/stackful_coroutine/greenlet_demo.py: the round-robin scheduler over greenlets. A coroutine is
-- a number; the code of a greenlet is its pieces, each of which prints a line: all but the last
-- switch back to the parent greenlet at their end, and the last sets `is_alive` to False.
pub mod Traces
pub mod Turns
pub mod Ends
pub mod Fair
pub mod Threads
mod Tests
use cocurrency.Common.{
  ℕ, zero, suc, Bool, true, false, Option, none, some, List, [], ◌∷◌, ◌++◌, ◌==◌, if◌then◌else◌,
}

pub record Piece : Type 0 where
  pub line : ℕ
  -- The piece calls `sched._ready.append(sched._ready.pop(0))`.
  pub rotates : Bool

-- `GreenletStyleCoroutine`; `gr` is the greenlet with what is left of its code.
pub record Coroutine : Type 0 where
  pub target : List Piece
  pub gr : Option (List Piece)
  pub is_alive : Bool

pub record Scheduler : Type 0 where
  pub ready : List ℕ
  pub current : Option ℕ
  pub coros : ℕ → Coroutine
  -- What the coroutines have printed: who, and which line.
  pub printed : List (ℕ × ℕ)
  -- The coroutines that the scheduler's own lines name, `[Scheduler] switching to ...`.
  pub announced : List ℕ

-- A call returns, or IndexError leaves it.
pub data Ran : Type 0 where
  goes_on : Scheduler → Ran
  index_error : Scheduler → Ran

abbrev pub set_coro : ℕ → Coroutine → Scheduler → Scheduler
set_coro c x s = record s { coros = λ j. if c == j then x else s.coros j }

-- `GreenletStyleCoroutine.__init__`
abbrev pub create : List Piece → Coroutine
create target = record { target = target; gr = none; is_alive = true }

-- `GreenletStyleCoroutine.kill`
abbrev pub kill : Coroutine → Coroutine
kill x = record x { is_alive = false }

abbrev pub print_line : ℕ → Piece → Scheduler → Scheduler
print_line c p s = record s { printed = s.printed ++ (c, p.line) ∷ [] }

-- `sched._ready.append(sched._ready.pop(0))`
abbrev pub rotate_ready : List ℕ → Scheduler → Ran
rotate_ready [] s = index_error s
rotate_ready (c ∷ cs) s = goes_on (record s { ready = cs ++ c ∷ [] })

abbrev pub rotate : Piece → Scheduler → Ran
rotate p s = if p.rotates then rotate_ready s.ready s else goes_on s

-- The end of a piece that has so much code after it.
abbrev pub stop : ℕ → List Piece → Scheduler → Scheduler
stop c [] s = set_coro c (record (s.coros c) { gr = some []; is_alive = false }) s
stop c (p ∷ ps) s = set_coro c (record (s.coros c) { gr = some (p ∷ ps) }) s

abbrev pub stop_after : ℕ → List Piece → Ran → Ran
stop_after c ps (goes_on s) = goes_on (stop c ps s)
stop_after c ps (index_error s) = index_error s

-- `greenlet.switch()`: a greenlet that has ended returns at once.
unfoldable pub resume : ℕ → List Piece → Scheduler → Ran
resume c [] s = goes_on s
resume c (p ∷ ps) s = stop_after c ps (rotate p (print_line c p s))

abbrev pub code_of : Coroutine → List Piece
code_of x = elim x.gr [ none ↦ x.target | some ps ↦ ps ]

-- `GreenletStyleCoroutine.switch`, with or without the greenlet library.
unfoldable pub switch : Bool → ℕ → Scheduler → Ran
switch has_greenlet c s = if has_greenlet then resume c (code_of (s.coros c)) s else goes_on s

-- `Scheduler.add`
abbrev pub add : ℕ → Scheduler → Scheduler
add c s = record s { ready = s.ready ++ c ∷ [] }

-- What follows the switch in `Scheduler.run`.
abbrev pub requeue : ℕ → Ran → Ran
requeue c (goes_on s) = goes_on (if (s.coros c).is_alive then add c s else s)
requeue c (index_error s) = index_error s

-- `Scheduler.__init__`
abbrev pub create_scheduler : (ℕ → Coroutine) → Scheduler
create_scheduler coros = record {
  ready = [];
  current = none;
  coros = coros;
  printed = [];
  announced = [];
}

-- `self._current = coro`
abbrev pub choose : ℕ → Scheduler → Scheduler
choose c s = record s { current = some c }

-- The same, and `print(f"  [Scheduler] switching to {coro.name}")`.
abbrev pub announce : ℕ → Scheduler → Scheduler
announce c s = record s { current = some c; announced = s.announced ++ c ∷ [] }

-- A pass of the loop, with the coroutine that is taken from the ready queue.
unfoldable pub pass : Bool → ℕ → Scheduler → Ran
pass has_greenlet c s =
    if (s.coros c).is_alive
    then requeue c (switch has_greenlet c (announce c s))
    else goes_on (choose c s)

pub data Result : Type 0 where
  finished : Scheduler → Result
  failed : Scheduler → Result
  -- The passes were not enough.
  running : Scheduler → Result

-- `Scheduler.run`, by so many passes at most.
unfoldable pub run_ready : ℕ → Bool → List ℕ → Scheduler → Result
run_ready fuel has_greenlet [] s = finished s
run_ready zero has_greenlet (c ∷ cs) s = running s
run_ready (suc fuel) has_greenlet (c ∷ cs) s =
    elim (pass has_greenlet c (record s { ready = cs })) [
      | goes_on t ↦ run_ready fuel has_greenlet t.ready t
      | index_error t ↦ failed t
    ]

unfoldable pub run : ℕ → Bool → Scheduler → Result
run fuel has_greenlet s = run_ready fuel has_greenlet s.ready s
