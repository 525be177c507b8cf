-- ===== src/Asyncio/Gathers.antt =====
-- python/stackless_coroutine/asyncio_producer_consumer.py: `asyncio.gather` over the producers and the
-- consumers returns, with every item once.
use mathlib.Core.Path.{subst}
use cocurrency.Common.{
  get_elem?-lt, ℕ, suc, ◌*◌, ◌≤◌, ◌<◌, ◌≡◌, inl, inr, refl, sym, ap, ◌∙◌, true, ◌&&◌, List, [], ◌∷◌,
  ◌++◌, length, In, arith,
}
use cocurrency.Asyncio.{
  Producer, Loop, Task, producer, consumer, step, run, have_consumed, is_gathered, make_producers,
  make_consumers, begin,
}
use cocurrency.Common.Sums.{total, count}
use cocurrency.Asyncio.Conserved.{to_put, count_items, work, IsSound, Waits}
use cocurrency.Asyncio.Begin.{
  count_all, total_length, sum, make_producers-length, make_consumers-sum, make_consumers-awake,
  begin-IsSound,
}
use cocurrency.Asyncio.Waiting.{
  have_produced-zero, have_consumed-zero, run-AreKept, run-lem, waiting-work,
}

-- A round: every task has a move.
abbrev pub HasTurns : ℕ → ℕ → List Task → Type 0
HasTurns producers consumers ts =
    ((i : ℕ) → i < producers → In (producer i) ts) × ((i : ℕ) → i < consumers → In (consumer i) ts)

abbrev pub AreRounds : ℕ → ℕ → List (List Task) → Type 0
AreRounds producers consumers [] = Unit
AreRounds producers consumers (ts ∷ rounds) =
    HasTurns producers consumers ts × AreRounds producers consumers rounds

abbrev pub moves_of : List (List Task) → List Task
moves_of [] = []
moves_of (ts ∷ rounds) = ts ++ moves_of rounds

run-append : (ts us : List Task) (s : Loop) → run (ts ++ us) s ≡ run us (run ts s)
unfolding run
run-append [] us s = refl
run-append (t ∷ ts) us s = run-append ts us (step t s)

-- All that there are wait, if each of them has had a turn and waits.
all-Waits :
    (ts : List Task) (s : Loop)
    → HasTurns (length s.producers) (length s.consumers) ts
    → ((t : Task) → In t ts → Waits t s)
    → (t : Task) → Waits t s
all-Waits ts s turns waits (producer i) =
    λ p at. waits (producer i) (turns.0 i (get_elem?-lt s.producers i p at)) p at
all-Waits ts s turns waits (consumer i) =
    λ c at. waits (consumer i) (turns.1 i (get_elem?-lt s.consumers i c at)) c at

rounds-lem :
    (all : ℕ → ℕ) (m n : ℕ) (rounds : List (List Task)) (s : Loop)
    → IsSound all s
    → length s.producers ≡ m
    → length s.consumers ≡ n
    → AreRounds m n rounds
    → work s ≤ length rounds
    → IsSound all (run (moves_of rounds) s) × (work (run (moves_of rounds) s) ≡ 0)
unfolding run
rounds-lem all m n [] s sound ms ns are enough = (sound, omega (arith, enough))
rounds-lem all m n (ts ∷ rounds) s sound ms ns (turns, are) enough =
    let (next, moved) = run-lem all ts s sound in
    let (p, c) = run-AreKept ts s in
    let fewer : work (run ts s) ≤ length rounds = elim moved [
      | inl (waits, same) ↦
          let turns' =
            subst (λ n. HasTurns (length s.producers) n ts) (sym ns)
              (subst (λ m. HasTurns m n ts) (sym ms) turns) in
          let done = waiting-work all s.queue s refl sound (all-Waits ts s turns' waits) in
          omega (arith, done, ap work same)
      | inr less ↦ omega (arith, less, enough)
    ] in
    let rest = rounds-lem all m n rounds (run ts s) next (p ∙ ms) (c ∙ ns) are fewer in
    subst (λ t. IsSound all t × (work t ≡ 0)) (sym (run-append ts (moves_of rounds) s)) rest

length-make_producers : (items : List (List ℕ)) → length (make_producers items) ≡ length items
length-make_producers [] = refl
length-make_producers (x ∷ xs) = ap suc (length-make_producers xs)

length-make_consumers : (counts : List ℕ) → length (make_consumers counts) ≡ length counts
length-make_consumers [] = refl
length-make_consumers (n ∷ ns) = ap suc (length-make_consumers ns)

queue-empty :
    (all : ℕ → ℕ) (queue : List ℕ) (s : Loop)
    → s.queue ≡ queue
    → IsSound all s
    → work s ≡ 0
    → queue ≡ []
queue-empty all [] s e sound done = refl
queue-empty all (x ∷ xs) s e sound done =
    absurd (omega (arith, sound.balanced, done, ap (length {A = ℕ}) e))

-- Producers and consumers are made for lists of items and for counts that add up, on a queue of any
-- `maxsize`. Whatever the order of their moves, once every task has had a turn in each of three
-- times as many rounds as there are items, `gather` returns; each number is among the results as
-- often as among the items, and `task_done` has been called for every item.
pub run-gathers :
    (maxsize : ℕ) (items : List (List ℕ)) (counts : List ℕ)
    → total_length items ≡ sum counts
    → (rounds : List (List Task)) → AreRounds (length items) (length counts) rounds
    → 3 * total_length items ≤ length rounds
    → (is_gathered (run (moves_of rounds) (begin maxsize items counts)) ≡ true)
      × ((x : ℕ)
          → count x (run (moves_of rounds) (begin maxsize items counts)).results
            ≡ count_all x items)
      × ((run (moves_of rounds) (begin maxsize items counts)).unfinished ≡ 0)
unfolding begin
run-gathers maxsize items counts same rounds are enough =
    let first : Loop = begin maxsize items counts in
    let start_work : work first ≡ 3 * total_length items = omega (
      arith,
      make_producers-length items,
      make_consumers-sum counts,
      (make_consumers-awake counts).0,
      same,
    ) in
    let (sound, done) =
      rounds-lem (λ x. count_all x items) (length items) (length counts) rounds first
        (begin-IsSound maxsize items counts same) (length-make_producers items)
        (length-make_consumers counts) are (omega (arith, enough, start_work)) in
    let last : Loop = run (moves_of rounds) first in
    let puts = have_produced-zero last.producers (omega (arith, done)) in
    let takes =
      have_consumed-zero last.consumers (omega (arith, done)) (omega (arith, done))
        sound.no_failure in
    let empty : last.queue ≡ [] =
      queue-empty (λ x. count_all x items) last.queue last refl sound done in
    (
      ap (λ b. b && have_consumed last.consumers) puts ∙ takes,
      (λ x. omega (
        arith,
        sound.conserved x,
        ap (count x) empty,
        no_items x last.producers (omega (arith, done)),
      )),
      omega (arith, sound.counted, done, ap (length {A = ℕ}) empty),
    )
  where
    no_items : (x : ℕ) (ps : List Producer) → total to_put ps ≡ 0 → total (count_items x) ps ≡ 0
    no_items x [] e = refl
    no_items x (p ∷ ps) e =
        omega (arith, no_items x ps (omega (arith, e)), none_of x p.items (omega (arith, e)))
      where
        none_of : (x : ℕ) (items : List ℕ) → length items ≡ 0 → count x items ≡ 0
        none_of x [] e = refl
        none_of x (y ∷ ys) e = absurd (omega (arith, e))
