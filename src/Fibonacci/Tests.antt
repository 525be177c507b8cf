-- ===== src/Fibonacci/Tests.antt =====
-- Tests of python/stackless_coroutine/yield_fibonacci.py, and the theorems at concrete inputs.
use cocurrency.Common.{◌≡◌, refl, none, some, [], ◌∷◌, map, replicate, range_from}
use cocurrency.Continuation.{fib_direct}
use cocurrency.Fibonacci.{
  initial, fibonacci_yield, fibonacci_yield_infinite, fibonacci_yield_from, created, suspended,
  send, send_all,
}
use cocurrency.Fibonacci.Terms.{fib_pair, generators-fib_direct, term, send_all-pair}

-- A value that is sent to a generator which has not started is a TypeError.
send_early : send created (some (10, 20)) ≡ none
unfolding send
send_early = refl

send_reset :
    send_all created (none ∷ none ∷ some (10, 20) ∷ none ∷ none ∷ [])
    ≡ some (0 ∷ 1 ∷ 10 ∷ 20 ∷ 30 ∷ [])
unfolding send_all send
send_reset = refl

generators-fib_direct_example :
    (fibonacci_yield 10 ≡ map fib_direct (range_from 0 10))
    × (fibonacci_yield_infinite 10 ≡ map fib_direct (range_from 0 10))
    × (fibonacci_yield_from 10 ≡ map fib_pair (range_from 0 10))
generators-fib_direct_example = generators-fib_direct 10

send_all-pair_example :
    send_all (suspended initial) (some (10, 20) ∷ replicate 3 none)
    ≡ some (map (term 10 20) (range_from 0 4))
send_all-pair_example = send_all-pair initial 10 20 3
