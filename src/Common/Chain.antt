-- ===== src/Common/Chain.antt =====
-- Chains of steps that may fail, as `do` blocks over `Option`; and a `for` loop over such steps.
use mathlib.Core.Path.{◌≡◌, refl}
use mathlib.Core.Option.{Option, none, some}
use mathlib.Core.List.{List, [], ◌∷◌}

infixl 5 ◌>>=◌ ◌>>◌
abbrev pub ◌>>=◌ {ℓ κ} : {A : Type ℓ} {B : Type κ} → Option A → (A → Option B) → Option B
none >>= f = none
some a >>= f = f a

abbrev pub ◌>>◌ {κ} : {B : Type κ} → Option (Unit {0}) → Option B → Option B
m >> k = m >>= λ _. k

pub >>=_assoc {ℓ κ μ} :
    {A : Type ℓ} {B : Type κ} {C : Type μ} (m : Option A) (f : A → Option B) (g : B → Option C)
    → ((m >>= f) >>= g) ≡ (m >>= λ a. f a >>= g)
>>=_assoc none f g = refl
>>=_assoc (some a) f g = refl

-- `for x in xs: s = body(x, s)`, stopped by the first failure.
abbrev pub for_each {ℓ κ} : {A : Type ℓ} {S : Type κ} → (A → S → Option S) → List A → S → Option S
for_each body [] s = some s
for_each body (x ∷ xs) s = body x s >>= for_each body xs

-- A loop whose body follows another one's through `embed` ends where that one does.
module _ {ℓ κ μ} {A : Type ℓ} {S : Type κ} {T : Type μ} (embed : S → T) (f : A → S → Option S)
    (g : A → T → Option T)
    (follows : (x : A) (s : S) → g x (embed s) ≡ (f x s >>= λ s'. some (embed s'))) where
  pub for_each-follows :
      (xs : List A) (s : S) → for_each g xs (embed s) ≡ (for_each f xs s >>= λ s'. some (embed s'))
  for_each-follows [] s = refl
  for_each-follows (x ∷ xs) s = rw (follows x s) (after (for_each-follows xs) (f x s))
    where
      after :
          ((t : S) → for_each g xs (embed t) ≡ (for_each f xs t >>= λ s'. some (embed s')))
          → (m : Option S)
          → ((m >>= λ s'. some (embed s')) >>= for_each g xs)
            ≡ ((m >>= for_each f xs) >>= λ s'. some (embed s'))
      after ih none = refl
      after ih (some s') = ih s'

pub >>=_cong {ℓ κ} :
    {A : Type ℓ} {B : Type κ} (m : Option A) {f g : A → Option B}
    → ((a : A) → f a ≡ g a)
    → (m >>= f) ≡ (m >>= g)
>>=_cong none h = refl
>>=_cong (some a) h = h a

pub >>=-pure {ℓ} : {A : Type ℓ} (m : Option A) → (m >>= λ a. some a) ≡ m
>>=-pure none = refl
>>=-pure (some a) = refl

-- What a chain that succeeds, or fails, went through.
pub >>=-eq-some {ℓ κ} :
    {A : Type ℓ} {B : Type κ} (m : Option A) (f : A → Option B) {b : B}
    → (m >>= f) ≡ some b
    → (a : A) × (m ≡ some a) × (f a ≡ some b)
>>=-eq-some none f h = cc
>>=-eq-some (some a) f h = (a, refl, h)

pub some_inj {ℓ} : {A : Type ℓ} {a b : A} → some a ≡ some b → a ≡ b
some_inj h = cc
