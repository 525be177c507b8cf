-- ===== src/Frames/Runs.antt =====
-- python/stackless_coroutine/stackless_vs_stackful.py: what the stack machine writes, and how that
-- differs from what the generators yield.
use mathlib.Core.List.{append-nil, append_assoc}
use cocurrency.Common.{
  ℕ, zero, suc, ◌+◌, ◌-◌, ◌*◌, ◌≤◌, ◌≡◌, ◌≢◌, refl, ap, ◌∙◌, Bool, true, false, none, some,
  if◌then◌else◌, List, [], ◌∷◌, ◌++◌, length, length-append, arith,
}
use cocurrency.Frames.{
  Line, leaf_at, enter_at, exit_at, stackless_chain, run_stackless, enter, after_child, Frame,
  StackfulCoroutine, step, run_loop, run_stackful,
}

-- What the machine writes for a frame and those above it: an entry and an exit for the leaf too.
abbrev pub stackful_chain : ℕ → ℕ → List Line
stackful_chain zero depth = enter_at 0 depth ∷ leaf_at depth ∷ exit_at 0 depth ∷ []
stackful_chain (suc n) depth =
    enter_at (suc n) depth ∷ (stackful_chain n (depth + 1) ++ exit_at (suc n) depth ∷ [])

-- The steps that the machine takes for a frame.
abbrev pub steps : ℕ → ℕ
steps n = 3 * n + 2

abbrev machine : List Frame → List Line → StackfulCoroutine
machine stack results = record { stack = stack; results = results; is_done = false }

abbrev entering : ℕ → ℕ → Frame
entering n depth = record { n = n; depth = depth; phase = enter }

-- Running a frame to its end: its lines are added and it is popped.
run_frame :
    (n depth fuel : ℕ) (below : List Frame) (results : List Line)
    → run_loop (steps n + fuel) (machine (entering n depth ∷ below) results)
      ≡ run_loop fuel (machine below (results ++ stackful_chain n depth))
unfolding run_loop step
run_frame zero depth fuel below results =
    let two : steps 0 + fuel ≡ suc (suc fuel) = omega arith in
    rw two (
      ap (λ r. run_loop fuel (machine below r))
        (append_assoc results (enter_at 0 depth ∷ leaf_at depth ∷ []) (exit_at 0 depth ∷ [])))
run_frame (suc n) depth fuel below results =
    let more : steps (suc n) + fuel ≡ suc (steps n + suc (suc fuel)) = omega arith in
    let waiting : Frame = record { n = suc n; depth = depth; phase = after_child } in
    rw more (
      run_frame n (depth + 1) (suc (suc fuel)) (waiting ∷ below)
        (results ++ enter_at (suc n) depth ∷ [])
      ∙ ap (λ r. run_loop fuel (machine below r)) (simp (append-nil, append_assoc)))

-- The machine ends after `3 n + 3` steps, for which fuel `3 n + 4` is enough, with an entry and an
-- exit for each level of the recursion and for the leaf, and the leaf in the middle.
pub run_stackful-stackful_chain :
    (n fuel : ℕ) → 3 * n + 4 ≤ fuel → run_stackful fuel n ≡ some (stackful_chain n 0)
unfolding run_stackful run_loop step
run_stackful-stackful_chain n fuel h =
    let extra : ℕ = fuel - (3 * n + 4) in
    let parts : fuel ≡ steps n + suc (suc extra) = omega arith in
    rw parts (
      ap (λ o. elim o [ none ↦ none | some c ↦ some c.results ])
        (run_frame n 0 (suc (suc extra)) [] []))

-- An entry or an exit of the leaf, which the generators do not yield.
abbrev pub is_leaf_frame : Line → Bool
is_leaf_frame (leaf_at d) = false
is_leaf_frame (enter_at zero d) = true
is_leaf_frame (enter_at (suc n) d) = false
is_leaf_frame (exit_at zero d) = true
is_leaf_frame (exit_at (suc n) d) = false

abbrev pub without_leaf_frame : List Line → List Line
without_leaf_frame [] = []
without_leaf_frame (l ∷ ls) =
    let rest = without_leaf_frame ls in if is_leaf_frame l then rest else l ∷ rest

without_leaf_frame-append :
    (xs ys : List Line)
    → without_leaf_frame (xs ++ ys) ≡ without_leaf_frame xs ++ without_leaf_frame ys
without_leaf_frame-append [] ys = refl
without_leaf_frame-append (x ∷ xs) ys = ground (arith, without_leaf_frame-append xs ys)

without-stackful_chain :
    (n depth : ℕ) → without_leaf_frame (stackful_chain n depth) ≡ stackless_chain n depth
unfolding stackless_chain
without-stackful_chain zero depth = refl
without-stackful_chain (suc n) depth =
    ap (λ r. enter_at (suc n) depth ∷ r)
      (without_leaf_frame-append (stackful_chain n (depth + 1)) (exit_at (suc n) depth ∷ [])
        ∙ ap (λ r. r ++ exit_at (suc n) depth ∷ []) (without-stackful_chain n (depth + 1)))

length-stackful_chain : (n depth : ℕ) → length (stackful_chain n depth) ≡ 2 * n + 3
length-stackful_chain zero depth = refl
length-stackful_chain (suc n) depth = omega (
  arith,
  length-append (stackful_chain n (depth + 1)) (exit_at (suc n) depth ∷ []),
  length-stackful_chain n (depth + 1),
)

length-stackless_chain : (n depth : ℕ) → length (stackless_chain n depth) ≡ 2 * n + 1
unfolding stackless_chain
length-stackless_chain zero depth = refl
length-stackless_chain (suc n) depth = omega (
  arith,
  length-append (stackless_chain n (depth + 1)) (exit_at (suc n) depth ∷ []),
  length-stackless_chain n (depth + 1),
)

-- The two runs differ for every `n`: with fuel `3 n + 4` or more the machine writes two lines more
-- than the generators yield. Without the entry and the exit of the leaf they are the same.
pub runs_differ :
    (n fuel : ℕ)
    → 3 * n + 4 ≤ fuel
    → (lines : List Line) × (run_stackful fuel n ≡ some lines)
      × (lines ≢ run_stackless n)
      × (length lines ≡ length (run_stackless n) + 2)
      × (without_leaf_frame lines ≡ run_stackless n)
unfolding run_stackless
runs_differ n fuel h = (
  stackful_chain n 0,
  run_stackful-stackful_chain n fuel h,
  λ same.
      omega
        (arith, ap (length {A = Line}) same, length-stackful_chain n 0, length-stackless_chain n 0),
  omega (arith, length-stackful_chain n 0, length-stackless_chain n 0),
  without-stackful_chain n 0,
)
