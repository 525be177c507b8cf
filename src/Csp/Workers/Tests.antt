-- ===== src/Csp/Workers/Tests.antt =====
-- python/csp/channel_demo.py: the threads of the demo.
use cocurrency.Common.{
  ℕ, zero, suc, ◌<◌, ◌≤◌, ◌≡◌, refl, inl, inr, true, List, [], ◌∷◌, ◌++◌, replicate, arith,
}
use cocurrency.Csp.{call, put_item, get_item}
use cocurrency.Csp.Workers.{System, Worker, sender, receiver, turn, run_workers, one_pair}
use cocurrency.Csp.Workers.Pair.{AreRounds, turns_of, run_workers-delivers}
use cocurrency.Csp.Workers.Ends.{turns_of_sender, turns_of_receiver, run_workers-end}

-- The receiver comes first.
abbrev rounds : List (List Worker)
rounds = replicate 6 (receiver 0 ∷ sender 0 ∷ [])

replicate-AreRounds : (n : ℕ) → AreRounds (replicate n (receiver 0 ∷ sender 0 ∷ []))
replicate-AreRounds zero = tt
replicate-AreRounds (suc n) = (inr (inl refl), inl refl, replicate-AreRounds n)

run_workers-delivers_example :
    ((run_workers (turns_of rounds) (one_pair 1 (1 ∷ 2 ∷ 3 ∷ []) 3)).results ≡ 1 ∷ 2 ∷ 3 ∷ [])
    × ((run_workers (turns_of rounds) (one_pair 1 (1 ∷ 2 ∷ 3 ∷ []) 3)).senders 0 ≡ [])
    × ((run_workers (turns_of rounds) (one_pair 1 (1 ∷ 2 ∷ 3 ∷ []) 3)).receivers 0 ≡ 0)
run_workers-delivers_example =
    run_workers-delivers 1 (1 ∷ 2 ∷ 3 ∷ []) rounds (replicate-AreRounds 6) (omega arith)

-- Two receivers want five items each, of a closed channel with one.
abbrev closed_system : System
closed_system = record {
  channel = record { maxsize = 3; buf = 7 ∷ []; closed = true };
  senders = λ j. 10 ∷ 20 ∷ [];
  receivers = λ j. 5;
  results = [];
}

abbrev turns : List Worker
turns = sender 0 ∷ receiver 1 ∷ receiver 0 ∷ receiver 1 ∷ []

-- Receiver 1 takes the item, and ends at its next turn.
turns_run :
    ((run_workers turns closed_system).results ≡ 7 ∷ [])
    × ((run_workers turns closed_system).receivers 1 ≡ 0)
unfolding run_workers turn call put_item get_item
turns_run = (refl, refl)

run_workers-end_example :
    ((i : ℕ) → 0 < turns_of_sender i turns → (run_workers turns closed_system).senders i ≡ [])
    × ((i : ℕ)
        → closed_system.receivers i ≤ turns_of_receiver i turns
        → (run_workers turns closed_system).receivers i ≡ 0)
    × ((run_workers turns closed_system).results ++ (run_workers turns closed_system).channel.buf
        ≡ closed_system.results ++ closed_system.channel.buf)
run_workers-end_example = run_workers-end turns closed_system refl
