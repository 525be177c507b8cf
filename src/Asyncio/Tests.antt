-- ===== src/Asyncio/Tests.antt =====
-- python/stackless_coroutine/asyncio_producer_consumer.py on concrete items.
use cocurrency.Common.{
  ℕ, zero, suc, ◌<◌, ◌≡◌, refl, inl, inr, true, List, [], ◌∷◌, replicate, In, arith,
}
use cocurrency.Asyncio.{Task, producer, consumer, step, run, is_gathered, begin, worker_coroutine}
use cocurrency.Common.Sums.{count}
use cocurrency.Asyncio.Begin.{count_all}
use cocurrency.Asyncio.Gathers.{HasTurns, AreRounds, moves_of, run-gathers}

worker_results : (worker_coroutine 4 ≡ 0 ∷ 1 ∷ 2 ∷ 3 ∷ []) × (worker_coroutine 3 ≡ 0 ∷ 1 ∷ 2 ∷ [])
unfolding worker_coroutine
worker_results = (refl, refl)

abbrev items : List (List ℕ)
items = (1 ∷ 2 ∷ []) ∷ (101 ∷ []) ∷ []

-- The consumers come first.
abbrev round : List Task
round = consumer 0 ∷ consumer 1 ∷ producer 0 ∷ producer 1 ∷ []

abbrev rounds : List (List Task)
rounds = replicate 9 round

round-HasTurns : HasTurns 2 2 round
round-HasTurns = (producers, consumers)
  where
    producers : (i : ℕ) → i < 2 → In (producer i) round
    producers zero h = inr (inr (inl refl))
    producers (suc zero) h = inr (inr (inr (inl refl)))
    producers (suc (suc i)) h = absurd (omega (arith, h))

    consumers : (i : ℕ) → i < 2 → In (consumer i) round
    consumers zero h = inl refl
    consumers (suc zero) h = inr (inl refl)
    consumers (suc (suc i)) h = absurd (omega (arith, h))

replicate-AreRounds : (n : ℕ) → AreRounds 2 2 (replicate n round)
replicate-AreRounds zero = tt
replicate-AreRounds (suc n) = (round-HasTurns, replicate-AreRounds n)

-- On a queue for one item.
results_of_rounds : (run (moves_of rounds) (begin 1 items (2 ∷ 1 ∷ []))).results ≡ 1 ∷ 2 ∷ 101 ∷ []
unfolding run step begin
results_of_rounds = refl

run-gathers_example :
    (is_gathered (run (moves_of rounds) (begin 1 items (2 ∷ 1 ∷ []))) ≡ true)
    × ((x : ℕ)
        → count x (run (moves_of rounds) (begin 1 items (2 ∷ 1 ∷ []))).results ≡ count_all x items)
    × ((run (moves_of rounds) (begin 1 items (2 ∷ 1 ∷ []))).unfinished ≡ 0)
run-gathers_example =
    run-gathers 1 items (2 ∷ 1 ∷ []) refl rounds (replicate-AreRounds 9) (omega arith)
