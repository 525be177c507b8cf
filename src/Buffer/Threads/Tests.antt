-- ===== src/Buffer/Threads/Tests.antt =====
-- python/shared_memory_lock/thread_producer_consumer.py: producers and consumers on a small buffer.
use cocurrency.Common.{
  ℕ, zero, suc, ◌<◌, ◌≡◌, refl, inl, inr, true, List, [], ◌∷◌, map, length, replicate, In, arith,
}
use cocurrency.Common.Sums.{total, count}
use cocurrency.Buffer.{attempt, get_from}
use cocurrency.Buffer.Threads.{
  Consumer, Thread, producer, consumer, take_turn, take_turns, start_threads,
}
use cocurrency.Buffer.Threads.Busy.{busy_turns, erase}
use cocurrency.Buffer.Threads.Work.{to_get}
use cocurrency.Buffer.Threads.Refines.{take_turns-refines}
use cocurrency.Buffer.Threads.Finish.{HasTurns, AreRounds, turns_of, count_all, take_turns-finish}

abbrev items : List (List ℕ)
items = (1 ∷ 2 ∷ []) ∷ (101 ∷ []) ∷ []

abbrev counts : List ℕ
counts = 2 ∷ 1 ∷ []

-- The consumers come first, and wait.
abbrev round : List Thread
round = consumer 0 ∷ consumer 1 ∷ producer 0 ∷ producer 1 ∷ []

consumers_sleep :
    map
      (λ (c : Consumer). c.asleep)
      (take_turns (consumer 0 ∷ consumer 1 ∷ []) (start_threads 1 items counts)).consumers
    ≡ true ∷ true ∷ []
unfolding take_turns take_turn start_threads attempt get_from
consumers_sleep = refl

results_of_rounds :
    (take_turns (turns_of (replicate 6 round)) (start_threads 1 items counts)).results
    ≡ 1 ∷ 2 ∷ 101 ∷ []
unfolding take_turns take_turn start_threads attempt get_from
results_of_rounds = refl

take_turns-refines_example :
    erase (take_turns round (start_threads 1 items counts))
    ≡ busy_turns round (erase (start_threads 1 items counts))
take_turns-refines_example = take_turns-refines 1 items counts round

round-HasTurns : HasTurns 2 2 round
round-HasTurns = (producers, consumers)
  where
    producers : (i : ℕ) → i < 2 → In (producer i) round
    producers zero h = inr (inr (inl refl))
    producers (suc zero) h = inr (inr (inr (inl refl)))
    producers (suc (suc i)) h = absurd (omega (arith, h))

    consumers : (i : ℕ) → i < 2 → In (consumer i) round
    consumers zero h = inl refl
    consumers (suc zero) h = inr (inl refl)
    consumers (suc (suc i)) h = absurd (omega (arith, h))

replicate-AreRounds : (n : ℕ) → AreRounds 2 2 (replicate n round)
replicate-AreRounds zero = tt
replicate-AreRounds (suc n) = (round-HasTurns, replicate-AreRounds n)

take_turns-finish_example :
    (total
        (length {A = ℕ})
        (erase (take_turns (turns_of (replicate 6 round)) (start_threads 1 items counts))).producers
      ≡ 0)
    × (total to_get
          (erase
            (take_turns (turns_of (replicate 6 round)) (start_threads 1 items counts))).consumers
        ≡ 0)
    × (length (take_turns (turns_of (replicate 6 round)) (start_threads 1 items counts)).buffer.buf
        ≡ 0)
    × ((x : ℕ)
        → count x (take_turns (turns_of (replicate 6 round)) (start_threads 1 items counts)).results
          ≡ count_all x items)
take_turns-finish_example =
    take_turns-finish 1 items counts (omega arith) refl (replicate 6 round) (replicate-AreRounds 6)
      (omega arith)
