-- ===== src/Common/Sums.antt =====
-- Sums over a list, and how often a number occurs in one.
use Prim.Native.Nat.{ℕ, zero, suc, ◌+◌}
use mathlib.Core.Path.{◌≡◌, refl, ap}
use mathlib.Core.Option.{some}
use mathlib.Core.List.{List, [], ◌∷◌, ◌++◌}
use native.Mathlib.Omega.{arith}
use cocurrency.Common.Tests.{◌==◌, if◌then◌else◌}
use cocurrency.Common.Lists.{get_elem?, set}
use cocurrency.Common.Chain.{some_inj}

module _ {A : Type 0} (f : A → ℕ) where
  abbrev pub total : List A → ℕ
  total [] = 0
  total (x ∷ xs) = f x + total xs

  -- The sum after one of them changes.
  pub total-set :
      (xs : List A) (i : ℕ) (x y : A)
      → get_elem? xs i ≡ some x
      → total (set xs i y) + f x ≡ total xs + f y
  total-set [] i x y e = absurd cc
  total-set (z ∷ zs) zero x y e = omega (arith, ap f (some_inj e))
  total-set (z ∷ zs) (suc i) x y e = omega (arith, total-set zs i x y e)

  pub total-zero :
      (xs : List A) → ((i : ℕ) (x : A) → get_elem? xs i ≡ some x → f x ≡ 0) → total xs ≡ 0
  total-zero [] all = refl
  total-zero (x ∷ xs) all = omega (arith, all 0 x refl, total-zero xs (λ i. all (suc i)))

-- How often a number is in a list.
abbrev pub count : ℕ → List ℕ → ℕ
count x [] = 0
count x (y ∷ ys) = (if y == x then 1 else 0) + count x ys

pub count-append : (x : ℕ) (xs ys : List ℕ) → count x (xs ++ ys) ≡ count x xs + count x ys
count-append x [] ys = omega arith
count-append x (z ∷ zs) ys = omega (arith, count-append x zs ys)
