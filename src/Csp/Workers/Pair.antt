-- ===== src/Csp/Workers/Pair.antt =====
-- python/csp/channel_demo.py: one sender and one receiver on a channel.
use mathlib.Core.Path.{subst}
use mathlib.Core.List.{append-nil}
use cocurrency.Common.{
  ℕ, ◌*◌, ◌≤◌, ◌≡◌, refl, sym, ap, ◌∙◌, inl, inr, false, List, [], ◌∷◌, ◌++◌, length, ◌==◌,
  if◌then◌else◌, In, arith,
}
use cocurrency.Csp.Workers.{System, Worker, sender, receiver, turn, run_workers, one_pair}
use cocurrency.Csp.Workers.Turns.{IsPair, work, length-zero, run_workers-RunsTo, waiting-work}

-- Rounds in which both threads have a turn.
abbrev pub AreRounds : List (List Worker) → Type 0
AreRounds [] = Unit
AreRounds (ws ∷ rounds) = In (sender 0) ws × In (receiver 0) ws × AreRounds rounds

abbrev pub turns_of : List (List Worker) → List Worker
turns_of [] = []
turns_of (ws ∷ rounds) = ws ++ turns_of rounds

run_workers-append :
    (ws vs : List Worker) (s : System)
    → run_workers (ws ++ vs) s ≡ run_workers vs (run_workers ws s)
unfolding run_workers
run_workers-append [] vs s = refl
run_workers-append (w ∷ ws) vs s = run_workers-append ws vs (turn w s)

rounds-done :
    (all : List ℕ) (rounds : List (List Worker)) (s : System)
    → IsPair all s
    → AreRounds rounds
    → work s ≤ length rounds
    → IsPair all (run_workers (turns_of rounds) s) × (work (run_workers (turns_of rounds) s) ≡ 0)
unfolding run_workers
rounds-done all [] s is are enough = (is, omega (arith, enough))
rounds-done all (ws ∷ rounds) s is (sends, receives, are) enough =
    let first = run_workers-RunsTo all ws s is in
    let fewer : work (run_workers ws s) ≤ length rounds = elim first.progress [
      | inl (here, same) ↦
          let done = waiting-work s (here (sender 0) sends) (here (receiver 0) receives) in
          omega (arith, done, ap work same)
      | inr less ↦ omega (arith, less, enough)
    ] in
    let rest = rounds-done all rounds (run_workers ws s) first.is_pair are fewer in
    subst (λ t. IsPair all t × (work t ≡ 0)) (sym (run_workers-append ws (turns_of rounds) s)) rest

-- One sender, and one receiver for as many items as it sends, on a channel of any maxsize: once both
-- have had a turn in each of twice as many rounds as there are items, both have ended, and the
-- results are the items, in their order.
pub run_workers-delivers :
    (maxsize : ℕ) (items : List ℕ) (rounds : List (List Worker))
    → AreRounds rounds
    → 2 * length items ≤ length rounds
    → ((run_workers (turns_of rounds) (one_pair maxsize items (length items))).results ≡ items)
      × ((run_workers (turns_of rounds) (one_pair maxsize items (length items))).senders 0 ≡ [])
      × ((run_workers (turns_of rounds) (one_pair maxsize items (length items))).receivers 0 ≡ 0)
run_workers-delivers maxsize items rounds are enough =
    let first : System = one_pair maxsize items (length items) in
    let (is, done) =
      rounds-done items rounds first
        (record {
          opened = refl;
          kept = refl;
          balanced = omega arith;
          no_other_sender = λ i ne.
              let other : (0 == i) ≡ false = ground arith in
              ap (λ b. if b then items else []) other;
          no_other_receiver = λ i ne.
              let other : (0 == i) ≡ false = ground arith in
              ap (λ b. if b then length items else 0) other;
        })
        are (omega (arith, enough)) in
    let last : System = run_workers (turns_of rounds) first in
    let sent_all = length-zero (last.senders 0) (omega (arith, done)) in
    let empty = length-zero last.channel.buf (omega (arith, done)) in
    (
      sym (append-nil last.results)
          ∙ ap (λ more. last.results ++ more)
              (sym (ap (λ buf. buf ++ last.senders 0) empty ∙ sent_all))
          ∙ is.kept,
      sent_all,
      omega (arith, is.balanced, done),
    )
