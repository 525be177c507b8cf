-- ===== src/Continuation/Cps.antt =====
-- python/continuation_cps/continuation_cps.py: continuation-passing style, with and without the
-- trampoline, against direct style; the walk of a tree.
use mathlib.Core.List.{append_assoc}
use cocurrency.Common.{ℕ, zero, suc, ◌+◌, ◌*◌, ◌≡◌, refl, ap, ◌∙◌, List, [], ◌∷◌, ◌++◌, arith}
use cocurrency.Continuation.{
  fib_direct, fib_cps, fact_direct, fact_cps, Bouncy, bounce, trampoline, rounds,
  fact_cps_trampoline, fib_cps_trampoline, Node, null, node, tree_walk_cps,
}

-- `fib_cps` passes the Fibonacci number of direct style to its continuation, and returns what that
-- returns, for every continuation.
pub fib_cps-fib_direct {ℓ} :
    {R : Type ℓ} (n : ℕ) (cont : ℕ → R) → fib_cps n cont ≡ cont (fib_direct n)
unfolding fib_cps fib_direct
fib_cps-fib_direct zero cont = refl
fib_cps-fib_direct (suc zero) cont = refl
fib_cps-fib_direct (suc (suc n)) cont =
    fib_cps-fib_direct (suc n) (λ a. fib_cps n (λ b. cont (a + b)))
    ∙ fib_cps-fib_direct n (λ b. cont (fib_direct (suc n) + b))

-- `fact_cps` passes the factorial of direct style to its continuation, and returns what that
-- returns, for every continuation.
pub fact_cps-fact_direct {ℓ} :
    {R : Type ℓ} (n : ℕ) (cont : ℕ → R) → fact_cps n cont ≡ cont (fact_direct n)
unfolding fact_cps fact_direct
fact_cps-fact_direct zero cont = refl
fact_cps-fact_direct (suc n) cont = fact_cps-fact_direct n (λ res. cont (suc n * res))

-- The trampoline runs `fact_cps_trampoline` to what the continuation gives for the factorial, in
-- `n` rounds more than the continuation's own.
pub trampoline-fact {ℓ} :
    {A : Type ℓ} (n : ℕ) (cont : ℕ → Bouncy A)
    → (trampoline (fact_cps_trampoline n cont) ≡ trampoline (cont (fact_direct n)))
      × (rounds (fact_cps_trampoline n cont) ≡ n + rounds (cont (fact_direct n)))
unfolding fact_cps_trampoline fact_direct trampoline rounds
trampoline-fact zero cont = (refl, omega arith)
trampoline-fact (suc n) cont =
    let (value, count) = trampoline-fact n (λ res. cont (suc n * res)) in
    (value, omega (arith, count))

-- The trampoline runs `fib_cps_trampoline` to what the continuation gives for the Fibonacci number.
-- Its rounds, but for the continuation's own, are two less than twice the next Fibonacci number.
pub trampoline-fib {ℓ} :
    {A : Type ℓ} (n : ℕ) (cont : ℕ → Bouncy A)
    → (trampoline (fib_cps_trampoline n cont) ≡ trampoline (cont (fib_direct n)))
      × (rounds (fib_cps_trampoline n cont) + 2
          ≡ 2 * fib_direct (suc n) + rounds (cont (fib_direct n)))
unfolding fib_cps_trampoline fib_direct trampoline rounds
trampoline-fib zero cont = (refl, omega arith)
trampoline-fib (suc zero) cont = (refl, omega arith)
trampoline-fib (suc (suc n)) cont =
    let (va, ca) =
      trampoline-fib (suc n) (λ a. bounce (λ _. fib_cps_trampoline n (λ b. cont (a + b)))) in
    let (vb, cb) = trampoline-fib n (λ b. cont (fib_direct (suc n) + b)) in
    (va ∙ vb, omega (arith, ca, cb))

-- The values of a tree in order: those on the left, its own, those on the right.
abbrev pub in_order : {A : Type 0} → Node A → List A
in_order null = []
in_order (node value left right) = in_order left ++ value ∷ in_order right

-- The walk passes the values in order to its continuation.
pub tree_walk_cps-in_order :
    {A R : Type 0} (t : Node A) (cont : List A → R) → tree_walk_cps t cont ≡ cont (in_order t)
unfolding tree_walk_cps
tree_walk_cps-in_order null cont = refl
tree_walk_cps-in_order (node value left right) cont =
    tree_walk_cps-in_order left (λ left_vals.
      tree_walk_cps right (λ right_vals. cont ((left_vals ++ value ∷ []) ++ right_vals)))
    ∙ tree_walk_cps-in_order right
        (λ right_vals. cont ((in_order left ++ value ∷ []) ++ right_vals))
    ∙ ap cont (append_assoc (in_order left) (value ∷ []) (in_order right))
