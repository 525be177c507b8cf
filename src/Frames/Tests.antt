-- ===== src/Frames/Tests.antt =====
-- Tests of python/stackless_coroutine/stackless_vs_stackful.py, and the theorems at concrete inputs.
use cocurrency.Common.{◌+◌, ◌≡◌, ◌≢◌, refl, some, List, [], ◌∷◌, length, arith}
use cocurrency.Frames.{
  Line, leaf_at, enter_at, exit_at, stackless_chain, run_stackless, step, run_loop, run_stackful,
}
use cocurrency.Frames.Runs.{
  stackful_chain, run_stackful-stackful_chain, without_leaf_frame, runs_differ,
}

-- The two runs of the first test, `n = 0`.
stackless_0 : run_stackless 0 ≡ leaf_at 0 ∷ []
unfolding run_stackless stackless_chain
stackless_0 = refl

stackful_0 : run_stackful 4 0 ≡ some (enter_at 0 0 ∷ leaf_at 0 ∷ exit_at 0 0 ∷ [])
unfolding run_stackful run_loop step
stackful_0 = refl

run_stackful-stackful_chain_example : run_stackful 20 3 ≡ some (stackful_chain 3 0)
run_stackful-stackful_chain_example = run_stackful-stackful_chain 3 20 (omega arith)

runs_differ_example :
    (lines : List Line) × (run_stackful 20 3 ≡ some lines)
    × (lines ≢ run_stackless 3)
    × (length lines ≡ length (run_stackless 3) + 2)
    × (without_leaf_frame lines ≡ run_stackless 3)
runs_differ_example = runs_differ 3 20 (omega arith)
