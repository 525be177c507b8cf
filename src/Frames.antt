-- ===== src/Frames.antt =====
-- python/stackless_coroutine/stackless_vs_stackful.py: a chain of generators, and the same recursion
-- on an explicit stack of frames. A line of output is a constructor with the numbers that the text
-- shows; a frame's `sub_result`, which nothing reads, is left out.
pub mod Runs
mod Tests
use cocurrency.Common.{
  ℕ, zero, suc, ◌+◌, Bool, true, false, Option, none, some, List, [], ◌∷◌, ◌++◌,
}

-- "leaf at depth={depth}", "enter n={n} depth={depth}", "exit n={n} depth={depth}"
pub data Line : Type 0 where
  leaf_at : (depth : ℕ) → Line
  enter_at : (n depth : ℕ) → Line
  exit_at : (n depth : ℕ) → Line

-- What `stackless_chain(n, depth)` yields.
pub stackless_chain : ℕ → ℕ → List Line
stackless_chain zero depth = leaf_at depth ∷ []
stackless_chain (suc n) depth =
    enter_at (suc n) depth ∷ (stackless_chain n (depth + 1) ++ exit_at (suc n) depth ∷ [])

pub run_stackless : ℕ → List Line
run_stackless max_n = stackless_chain max_n 0

pub data Phase : Type 0 where
  enter after_child exit : Phase

pub record Frame : Type 0 where
  pub n : ℕ
  pub depth : ℕ
  pub phase : Phase

-- The top of the stack, `self.stack[-1]`, stands first.
pub record StackfulCoroutine : Type 0 where
  pub stack : List Frame
  pub results : List Line
  pub is_done : Bool

-- `StackfulCoroutine(n)`
abbrev pub create : ℕ → StackfulCoroutine
create n = record {
  stack = record { n = n; depth = 0; phase = enter } ∷ [];
  results = [];
  is_done = false;
}

-- `step` at a frame: what becomes of the top of the stack, and the lines that are added.
abbrev step_enter : ℕ → ℕ → List Frame × List Line
step_enter zero depth =
    (record { n = 0; depth = depth; phase = exit } ∷ [], enter_at 0 depth ∷ leaf_at depth ∷ [])
step_enter (suc n) depth = (
  record { n = n; depth = depth + 1; phase = enter }
      ∷ record { n = suc n; depth = depth; phase = after_child }
      ∷ [],
  enter_at (suc n) depth ∷ [],
)

abbrev step_frame : Phase → ℕ → ℕ → List Frame × List Line
step_frame enter n depth = step_enter n depth
step_frame after_child n depth = (record { n = n; depth = depth; phase = exit } ∷ [], [])
step_frame exit n depth = ([], exit_at n depth ∷ [])

abbrev step_stack : List Frame → List Line → Bool → StackfulCoroutine × Bool
step_stack [] results is_done = (record { stack = []; results = results; is_done = true }, false)
step_stack (frame ∷ below) results is_done =
    let (top, lines) = step_frame frame.phase frame.n frame.depth in
    (record { stack = top ++ below; results = results ++ lines; is_done = is_done }, true)

-- The new state, and whether the coroutine is still running.
pub step : StackfulCoroutine → StackfulCoroutine × Bool
step c = step_stack c.stack c.results c.is_done

-- `while not coro.done: coro.step()`, with fuel; `none` if the fuel runs out.
pub run_loop : ℕ → StackfulCoroutine → Option StackfulCoroutine
run_loop zero c = none
run_loop (suc fuel) c =
    let rest = run_loop fuel (step c).0 in elim c.is_done [ true ↦ some c | false ↦ rest ]

pub run_stackful : ℕ → ℕ → Option (List Line)
run_stackful fuel n = elim (run_loop fuel (create n)) [ none ↦ none | some c ↦ some c.results ]
