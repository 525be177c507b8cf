-- ===== src/Fibonacci/Terms.antt =====
-- python/stackless_coroutine/yield_fibonacci.py: the generators yield the numbers of `fib_direct`.
use mathlib.Core.Path.{subst}
use cocurrency.Common.{
  ℕ, zero, suc, ◌+◌, ◌*◌, ◌≡◌, refl, sym, none, some, ◌∷◌, map, replicate, range_from, arith,
}
use cocurrency.Continuation.{fib_direct}
use cocurrency.Fibonacci.{
  Locals, advance, fibonacci_loop, fibonacci_yield, infinite_loop, fibonacci_yield_infinite,
  suspended, send, send_all, pair_gen, fibonacci_yield_from,
}

-- The variables after `i` rounds.
abbrev after : ℕ → Locals
after i = record { a = fib_direct i; b = fib_direct (suc i) }

advance-after : (i : ℕ) → advance (after i) ≡ after (suc i)
unfolding fib_direct
advance-after i = ground arith

loop-terms : (n i : ℕ) → fibonacci_loop n (after i) ≡ map fib_direct (range_from i n)
unfolding fibonacci_loop
loop-terms zero i = refl
loop-terms (suc n) i = rw (advance-after i, loop-terms n (suc i))

infinite_loop-terms : (n i : ℕ) → infinite_loop n (after i) ≡ map fib_direct (range_from i n)
unfolding infinite_loop
infinite_loop-terms zero i = refl
infinite_loop-terms (suc n) i = rw (advance-after i, infinite_loop-terms n (suc i))

abbrev pub fib_pair : ℕ → ℕ × ℕ
fib_pair i = (fib_direct i, fib_direct (suc i))

pair_gen-terms : (n i : ℕ) → pair_gen n (after i) ≡ map fib_pair (range_from i n)
unfolding pair_gen
pair_gen-terms zero i = refl
pair_gen-terms (suc n) i = rw (advance-after i, pair_gen-terms n (suc i))

-- The first `n` values of the three generators are the first `n` Fibonacci numbers of the recursive
-- definition; `fibonacci_yield_from` pairs each with the next one.
pub generators-fib_direct :
    (n : ℕ)
    → (fibonacci_yield n ≡ map fib_direct (range_from 0 n))
      × (fibonacci_yield_infinite n ≡ map fib_direct (range_from 0 n))
      × (fibonacci_yield_from n ≡ map fib_pair (range_from 0 n))
unfolding fibonacci_yield fibonacci_yield_infinite fibonacci_yield_from fib_direct
generators-fib_direct n = (loop-terms n 0, infinite_loop-terms n 0, pair_gen-terms n 0)

-- The sequence that starts with `x` and `y`, by Fibonacci numbers.
abbrev pub term : ℕ → ℕ → ℕ → ℕ
term x y zero = x
term x y (suc k) = x * fib_direct k + y * fib_direct (suc k)

-- The variables `k` rounds after `x` and `y`.
abbrev at_term : ℕ → ℕ → ℕ → Locals
at_term x y k = record { a = term x y k; b = term x y (suc k) }

advance-at_term : (x y k : ℕ) → advance (at_term x y k) ≡ at_term x y (suc k)
unfolding fib_direct
advance-at_term x y zero = ground arith
advance-at_term x y (suc k) = grind arith

first : (x y : ℕ) → record { a = x; b = y } ≡ at_term x y 0
unfolding fib_direct
first x y = ground arith

send_all-replicate :
    (k x y i : ℕ)
    → send_all (suspended (at_term x y i)) (replicate k none)
      ≡ some (map (term x y) (range_from (suc i) k))
unfolding send_all send
send_all-replicate zero x y i = refl
send_all-replicate (suc k) x y i = rw (advance-at_term x y i, send_all-replicate k x y (suc i))

-- However the coroutine came to its `yield`, sending it a pair restarts the sequence from that pair:
-- the answer to that send and to `k` more without a value are the first `k + 1` numbers of the
-- Fibonacci-like sequence that starts with the pair.
pub send_all-pair :
    (s : Locals) (x y k : ℕ)
    → send_all (suspended s) (some (x, y) ∷ replicate k none)
      ≡ some (map (term x y) (range_from 0 (suc k)))
unfolding send_all send fib_direct
send_all-pair s x y k =
    let others : send_all (suspended (record { a = x; b = y })) (replicate k none)
        ≡ some (map (term x y) (range_from 1 k)) =
      subst
        (λ l. send_all (suspended l) (replicate k none) ≡ some (map (term x y) (range_from 1 k)))
        (sym (first x y)) (send_all-replicate k x y 0) in
    rw (others, send_all)
