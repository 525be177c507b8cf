-- ===== src/Greenlet/Tests.antt =====
-- python/stackful_coroutine/greenlet_demo.py on concrete coroutines: those of the demo are 0 (A), 1 (B)
-- and 2 (C).
use cocurrency.Common.{
  ℕ, suc, ◌≡◌, ◌≤◌, refl, inl, inr, Bool, true, false, List, [], ◌∷◌, In, if◌then◌else◌, ◌==◌,
  arith,
}
use cocurrency.Greenlet.{
  Piece, Coroutine, Scheduler, create, create_scheduler, add, resume, switch, pass, Result,
  finished, failed, running, run_ready, run, code_of,
}
use cocurrency.Greenlet.Traces.{lines_of, lines}
use cocurrency.Greenlet.Turns.{AreWilling, turns}
use cocurrency.Greenlet.Ends.{run-prints_all, run-no_greenlet}
use cocurrency.Greenlet.Fair.{run-fair}

abbrev piece : Bool → ℕ → Piece
piece rotates line = record { line = line; rotates = rotates }

abbrev a_wrapper : List Piece
a_wrapper = piece true 1 ∷ piece true 2 ∷ piece false 3 ∷ []

abbrev b_wrapper : List Piece
b_wrapper = piece false 1 ∷ piece false 2 ∷ piece false 3 ∷ piece false 4 ∷ []

abbrev c_wrapper : List Piece
c_wrapper = piece false 1 ∷ piece false 2 ∷ piece false 3 ∷ []

abbrev coros : ℕ → Coroutine
coros i = if i == 0 then create a_wrapper else if i == 1 then create b_wrapper else create c_wrapper

-- `_demo_greenlet_real`
abbrev demo : Scheduler
demo = add 2 (add 1 (add 0 (create_scheduler coros)))

abbrev printed_of : Result → List (ℕ × ℕ)
printed_of (finished s) = s.printed
printed_of (failed s) = []
printed_of (running s) = []

-- A gives way to C, and is before B and C in the next round.
demo_prints :
    printed_of (run 10 true demo)
    ≡ (0, 1) ∷ (2, 1) ∷ (1, 1) ∷ (0, 2) ∷ (1, 2) ∷ (2, 2) ∷ (0, 3) ∷ (1, 3) ∷ (2, 3) ∷ (1, 4) ∷ []
unfolding run run_ready pass switch resume
demo_prints = refl

-- B and C only.
abbrev two : Scheduler
two = add 2 (add 1 (create_scheduler coros))

two-AreWilling : AreWilling two.coros two.ready
two-AreWilling = (
  record { alive = refl; has_code = omega arith; plain = (refl, (refl, (refl, (refl, tt)))) },
  (λ h. elim h [ inl e ↦ absurd (omega (arith, e)) | inr n ↦ n ]),
  (
    record { alive = refl; has_code = omega arith; plain = (refl, (refl, (refl, tt))) },
    (λ h. h),
    tt,
  ),
)

run-prints_all_example :
    (t : Scheduler) × (run 7 true two ≡ finished t)
    × ((c : ℕ) → In c two.ready → lines_of c t.printed ≡ lines (code_of (two.coros c)))
run-prints_all_example = run-prints_all 7 two refl two-AreWilling (omega arith)

abbrev state_of : Result → Scheduler
state_of (finished s) = s
state_of (failed s) = s
state_of (running s) = s

-- B has had a second turn, and C has not yet.
three_passes : run 3 true two ≡ running (state_of (run 3 true two))
unfolding run run_ready pass switch resume
three_passes = refl

run-fair_example : turns 1 (state_of (run 3 true two)) ≤ suc (turns 2 (state_of (run 3 true two)))
unfolding run run_ready pass switch resume
run-fair_example =
    run-fair 3 two (state_of (run 3 true two)) refl two-AreWilling three_passes 1 2 (inr (inl refl))
      (inl refl)

run-no_greenlet_example :
    (t : Scheduler) × (run 100 false demo ≡ running t) × (t.printed ≡ demo.printed) × In 0 t.ready
run-no_greenlet_example = run-no_greenlet 100 0 demo (inl refl) refl
