-- ===== src/Continuation.antt =====
-- python/continuation_cps/continuation_cps.py: functions in direct style and in continuation-passing
-- style, the trampoline, and the walk of a tree. A continuation is a function. Arguments are
-- natural numbers: the source recurs on a negative argument of `fact_*` until the stack overflows.
pub mod Cps
pub mod CallCc
mod Tests
use cocurrency.Common.{ℕ, zero, suc, ◌+◌, ◌*◌, List, [], ◌∷◌, ◌++◌}

unfoldable pub fib_direct : ℕ → ℕ
fib_direct zero = 0
fib_direct (suc zero) = 1
fib_direct (suc (suc n)) = fib_direct (suc n) + fib_direct n

pub fib_cps {ℓ} : {R : Type ℓ} → ℕ → (ℕ → R) → R
fib_cps zero cont = cont 0
fib_cps (suc zero) cont = cont 1
fib_cps (suc (suc n)) cont = fib_cps (suc n) (λ a. fib_cps n (λ b. cont (a + b)))

pub fact_direct : ℕ → ℕ
fact_direct zero = 1
fact_direct (suc n) = suc n * fact_direct n

pub fact_cps {ℓ} : {R : Type ℓ} → ℕ → (ℕ → R) → R
fact_cps zero cont = cont 1
fact_cps (suc n) cont = fact_cps n (λ res. cont (suc n * res))

-- The classes `Bounce`, with its thunk, and `Done`, with its value.
pub data Bouncy {ℓ} (A : Type ℓ) : Type ℓ where
  bounce : (Unit {0} → Bouncy A) → Bouncy A
  done : A → Bouncy A

-- The loop calls thunks until it meets a `Done`.
pub trampoline {ℓ} : {A : Type ℓ} → Bouncy A → A
trampoline (bounce thunk) = trampoline (thunk tt)
trampoline (done value) = value

-- How many rounds that loop makes.
pub rounds {ℓ} : {A : Type ℓ} → Bouncy A → ℕ
rounds (bounce thunk) = suc (rounds (thunk tt))
rounds (done value) = 0

pub fact_cps_trampoline {ℓ} : {A : Type ℓ} → ℕ → (ℕ → Bouncy A) → Bouncy A
fact_cps_trampoline zero cont = cont 1
fact_cps_trampoline (suc n) cont = bounce (λ _. fact_cps_trampoline n (λ res. cont (suc n * res)))

pub fib_cps_trampoline {ℓ} : {A : Type ℓ} → ℕ → (ℕ → Bouncy A) → Bouncy A
fib_cps_trampoline zero cont = cont 0
fib_cps_trampoline (suc zero) cont = cont 1
fib_cps_trampoline (suc (suc n)) cont =
    bounce (λ _.
      fib_cps_trampoline (suc n) (λ a. bounce (λ _. fib_cps_trampoline n (λ b. cont (a + b)))))

-- `Node | None`
pub data Node (A : Type 0) : Type 0 where
  null : Node A
  node : A → Node A → Node A → Node A

pub tree_walk_cps : {A R : Type 0} → Node A → (List A → R) → R
tree_walk_cps null cont = cont []
tree_walk_cps (node value left right) cont = tree_walk_cps left (λ left_vals.
    tree_walk_cps right (λ right_vals. cont ((left_vals ++ value ∷ []) ++ right_vals)))
