-- ===== src/Continuation/CallCc.antt =====
-- python/continuation_cps/continuation_cps.py: `call_cc`, a jump by an exception.
-- Each call of `call_cc` makes a new class `Jump`: here, a new number.
use mathlib.Core.Path.{subst, ap₂}
use mathlib.Core.List.{append-nil, append_assoc}
use cocurrency.Common.{
  ℕ, zero, suc, ◌+◌, ◌%◌, ◌<◌, ◌≡◌, Bool, false, none, some, List, [], ◌∷◌, ◌++◌, ◌==◌,
  if◌then◌else◌, length, length-append, get_elem?, get_elem?-append, leb, Bool-cases, inl, inr,
  arith,
}
use cocurrency.Common.Int.{ℤ, negsuc, neg_part, pos_part}

-- How a call ends: it returns, or raises the `Jump` of the class with this number.
pub data Outcome (A : Type 0) : Type 0 where
  returned : A → Outcome A
  jumped : ℕ → A → Outcome A

-- A computation with answers in `A`: it takes and gives the number of the next class.
abbrev pub Comp : Type 0 → Type 0
Comp A = ℕ → Outcome A × ℕ

abbrev pub pure : {A : Type 0} → A → Comp A
pure a n = (returned a, n)

abbrev and_then : {A : Type 0} → Outcome A × ℕ → (A → Comp A) → Outcome A × ℕ
and_then (returned a, n) f = f a n
and_then (jumped t a, n) f = (jumped t a, n)

infixl 5 ◌>>=◌
abbrev pub ◌>>=◌ : {A : Type 0} → Comp A → (A → Comp A) → Comp A
◌>>=◌ m f n = and_then (m n) f

-- The class `Continuation` holds one function.
pub record Continuation (A : Type 0) : Type 0 where
  pub fn : A → Comp A

pub invoke : {A : Type 0} → Continuation A → A → Comp A
invoke k value = k.fn value

-- `except Jump as j: return j.value`, for the class `own`; other exceptions pass.
abbrev catch_jump : {A : Type 0} → ℕ → Outcome A × ℕ → Outcome A × ℕ
catch_jump own (returned a, n) = (returned a, n)
catch_jump own (jumped t a, n) = if t == own then (returned a, n) else (jumped t a, n)

-- `cc(value)`: raise the `Jump` of this call.
abbrev raise_jump : {A : Type 0} → ℕ → A → Comp A
raise_jump own value n = (jumped own value, n)

pub call_cc : {A : Type 0} → (Continuation A → Comp A) → Comp A
call_cc f own = catch_jump own (f (record { fn = raise_jump own }) (suc own))

-- `n % 2 == 0` on integers.
abbrev pub is_even : ℤ → Bool
is_even n = (pos_part n + neg_part n) % 2 == 0

-- `_search_impl(nums, idx, exit_cont)` of `call_cc_example`; the first number is fuel.
search_impl : ℕ → List ℤ → ℕ → Continuation ℤ → Comp ℤ
search_impl zero nums idx exit_cont = pure (negsuc 0)
search_impl (suc fuel) nums idx exit_cont =
    let rest = search_impl fuel nums (idx + 1) exit_cont in
    if leb (length nums) idx then pure (negsuc 0) else elim (get_elem? nums idx) [
      | none ↦ pure (negsuc 0)
      | some n ↦ if is_even n then invoke exit_cont n else rest
    ]

pub search_even : List ℤ → Comp ℤ
search_even nums = call_cc (λ exit_cont. search_impl (length nums + 1) nums 0 exit_cont)

-- Invoking the continuation of a `call_cc` is its return with that value: what follows the call of
-- `invoke` inside is not run.
pub call_cc-invoke :
    {A : Type 0} (value : A) (after : A → Comp A) (n : ℕ)
    → (call_cc (λ k. invoke k value >>= after) n ≡ (returned value, suc n))
unfolding call_cc invoke
call_cc-invoke value after n = ground arith

-- Inside a second `call_cc`, invoking the outer continuation leaves both: the inner one does not
-- catch it, and what follows the inner one is not run.
pub call_cc-invoke_outer :
    {A : Type 0} (value : A) (inside after : A → Comp A) (n : ℕ)
    → call_cc (λ outer. call_cc (λ inner. invoke outer value >>= inside) >>= after) n
      ≡ (returned value, suc (suc n))
unfolding call_cc invoke
call_cc-invoke_outer value inside after n = ground arith

-- What the search is to give: the first even number, or -1.
abbrev pub first_even : List ℤ → ℤ
first_even [] = negsuc 0
first_even (n ∷ nums) = if is_even n then n else first_even nums

not_past :
    (before : List ℤ) (x : ℤ) (rest : List ℤ)
    → leb (length (before ++ x ∷ rest)) (length before) ≡ false
not_past before x rest = ground (arith, length-append before (x ∷ rest))

search_impl_lem :
    (fuel own : ℕ) (before rest : List ℤ) (n : ℕ)
    → length rest < fuel
    → catch_jump own
        (search_impl fuel (before ++ rest) (length before) (record { fn = raise_jump own }) n)
      ≡ (returned (first_even rest), n)
unfolding search_impl invoke
search_impl_lem zero own before rest n h = absurd (omega arith)
search_impl_lem (suc fuel) own before [] n h = rw append-nil (ground (arith))
search_impl_lem (suc fuel) own before (x ∷ rest) n h =
    rw (not_past before x rest, get_elem?-append before x rest)
      (elim (Bool-cases (is_even x)) [
        | inl even ↦ rw even (ground arith)
        | inr odd ↦ rw odd (
            subst (λ r. catch_jump own r ≡ (returned (first_even rest), n))
              (ap₂ (λ nums idx. search_impl fuel nums idx (record { fn = raise_jump own }) n)
                (append_assoc before (x ∷ []) rest) (length-append before (x ∷ [])))
              (search_impl_lem fuel own (before ++ x ∷ []) rest n (omega arith)))
      ])

-- The search gives the first even number of the list, or -1 if there is none, and no jump leaves it.
pub search_even-first_even :
    (nums : List ℤ) (n : ℕ) → search_even nums n ≡ (returned (first_even nums), suc n)
unfolding search_even call_cc
search_even-first_even nums n = search_impl_lem (length nums + 1) n [] nums (suc n) (omega arith)
