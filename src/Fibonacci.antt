-- ===== src/Fibonacci.antt =====
-- python/stackless_coroutine/yield_fibonacci.py: Fibonacci numbers by generators.
-- A generator that stops is the list of what it yields; one that does not is its state, the two
-- local variables, with what it does when it is resumed.
pub mod Terms
mod Tests
use cocurrency.Common.{ℕ, zero, suc, ◌+◌, Option, none, some, List, [], ◌∷◌}

-- The local variables `a` and `b`.
pub record Locals : Type 0 where
  pub a : ℕ
  pub b : ℕ

-- `a, b = 0, 1`
abbrev pub initial : Locals
initial = record { a = 0; b = 1 }

-- `a, b = b, a + b`
abbrev pub advance : Locals → Locals
advance s = record { a = s.b; b = s.a + s.b }

-- The loop `for _ in range(n)`.
fibonacci_loop : ℕ → Locals → List ℕ
fibonacci_loop zero s = []
fibonacci_loop (suc n) s = s.a ∷ fibonacci_loop n (advance s)

pub fibonacci_yield : ℕ → List ℕ
unfolding fibonacci_loop
fibonacci_yield n = fibonacci_loop n initial

-- The first `count` values of `fibonacci_yield_infinite`, which never stops.
infinite_loop : ℕ → Locals → List ℕ
infinite_loop zero s = []
infinite_loop (suc count) s = s.a ∷ infinite_loop count (advance s)

pub fibonacci_yield_infinite : ℕ → List ℕ
unfolding infinite_loop
fibonacci_yield_infinite count = infinite_loop count initial

-- `fibonacci_with_send()`: not started yet, or stopped at its `yield` with these variables.
pub data Coroutine : Type 0 where
  created : Coroutine
  suspended : Locals → Coroutine

abbrev pub received : Locals → Option (ℕ × ℕ) → Locals
received s none = advance s
received s (some (x, y)) = record { a = x; b = y }

-- `send(value)`, with `next` as `send(None)`; `none` is the TypeError of a value that is sent to a
-- generator which has not started.
pub send : Coroutine → Option (ℕ × ℕ) → Option (ℕ × Coroutine)
send created none = some (initial.a, suspended initial)
send created (some p) = none
send (suspended s) value = let s' = received s value in some (s'.a, suspended s')

-- The values that the coroutine yields to a row of sends.
pub send_all : Coroutine → List (Option (ℕ × ℕ)) → Option (List ℕ)
send_all c [] = some []
send_all c (v ∷ vs) = elim (send c v) [
  | none ↦ none
  | some (y, c') ↦ elim (send_all c' vs) [ none ↦ none | some ys ↦ some (y ∷ ys) ]
]

-- The inner generator `_pair_gen(m)`, to which `fibonacci_yield_from` delegates.
pair_gen : ℕ → Locals → List (ℕ × ℕ)
pair_gen zero s = []
pair_gen (suc m) s = (s.a, s.b) ∷ pair_gen m (advance s)

pub fibonacci_yield_from : ℕ → List (ℕ × ℕ)
unfolding pair_gen
fibonacci_yield_from n = pair_gen n initial
