-- ===== src/Continuation/Tests.antt =====
-- Tests of python/continuation_cps/continuation_cps.py, and the theorems about it at concrete inputs.
use cocurrency.Common.{ℕ, ◌+◌, ◌*◌, ◌≡◌, refl, List, [], ◌∷◌}
use cocurrency.Common.Int.{ℤ, pos, negsuc}
use cocurrency.Continuation.{
  fib_direct, fib_cps, fact_direct, fact_cps, done, trampoline, rounds, fact_cps_trampoline,
  fib_cps_trampoline, Node, null, node, tree_walk_cps,
}
use cocurrency.Continuation.Cps.{
  fib_cps-fib_direct, fact_cps-fact_direct, trampoline-fact, trampoline-fib, in_order,
  tree_walk_cps-in_order,
}
use cocurrency.Continuation.CallCc.{
  returned, pure, ◌>>=◌, call_cc, invoke, search_even, first_even, call_cc-invoke,
  call_cc-invoke_outer, search_even-first_even,
}

fib_10 : fib_direct 10 ≡ 55
unfolding fib_direct
fib_10 = refl

-- The tree of the demo.
abbrev tree : Node ℕ
tree =
    node 1 (node 2 (node 4 null null) (node 5 null null))
      (node 3 (node 6 null null) (node 7 null null))

tree_in_order : tree_walk_cps tree (λ vals. vals) ≡ 4 ∷ 2 ∷ 5 ∷ 1 ∷ 6 ∷ 3 ∷ 7 ∷ []
unfolding tree_walk_cps
tree_in_order = refl

fib_cps-fib_direct_example : fib_cps 9 (λ x. x + 1) ≡ fib_direct 9 + 1
fib_cps-fib_direct_example = fib_cps-fib_direct 9 (λ x. x + 1)

fact_cps-fact_direct_example : fact_cps 6 (λ x. x + 1) ≡ fact_direct 6 + 1
fact_cps-fact_direct_example = fact_cps-fact_direct 6 (λ x. x + 1)

trampoline-fact_example :
    (trampoline (fact_cps_trampoline 5 done) ≡ trampoline (done (fact_direct 5)))
    × (rounds (fact_cps_trampoline 5 done) ≡ 5 + rounds (done (fact_direct 5)))
trampoline-fact_example = trampoline-fact 5 done

trampoline-fib_example :
    (trampoline (fib_cps_trampoline 7 done) ≡ trampoline (done (fib_direct 7)))
    × (rounds (fib_cps_trampoline 7 done) + 2 ≡ 2 * fib_direct 8 + rounds (done (fib_direct 7)))
trampoline-fib_example = trampoline-fib 7 done

tree_walk_cps-in_order_example : tree_walk_cps tree (λ vals. 0 ∷ vals) ≡ 0 ∷ in_order tree
tree_walk_cps-in_order_example = tree_walk_cps-in_order tree (λ vals. 0 ∷ vals)

call_cc-invoke_example : call_cc (λ k. invoke k 5 >>= λ v. pure (v + 1)) 0 ≡ (returned 5, 1)
call_cc-invoke_example = call_cc-invoke 5 (λ v. pure (v + 1)) 0

call_cc-invoke_outer_example :
    call_cc
      (λ outer. call_cc (λ inner. invoke outer 5 >>= λ v. pure (v + 1)) >>= λ v. pure (v * 2))
      0
    ≡ (returned 5, 2)
call_cc-invoke_outer_example = call_cc-invoke_outer 5 (λ v. pure (v + 1)) (λ v. pure (v * 2)) 0

abbrev nums : List ℤ
nums = pos 1 ∷ negsuc 2 ∷ pos 8 ∷ pos 9 ∷ []

search_even-first_even_example : search_even nums 0 ≡ (returned (first_even nums), 1)
search_even-first_even_example = search_even-first_even nums 0
