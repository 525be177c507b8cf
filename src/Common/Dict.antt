-- ===== src/Common/Dict.antt =====
-- Dicts with numbers for keys, as lists of their items in the order of insertion.
use Prim.Native.Nat.{ℕ}
use mathlib.Core.Path.{◌≡◌, refl}
use mathlib.Core.Option.{Option, none, some}
use mathlib.Core.List.{List, [], ◌∷◌}
use native.Mathlib.Omega.{arith}
use cocurrency.Common.Tests.{◌==◌, if◌then◌else◌}

-- The items of a dict.
abbrev pub Dict {ℓ} : (V : Type ℓ) → Type ℓ
Dict V = List (ℕ × V)

module _ {ℓ} {V : Type ℓ} where
  -- `d[k] = v`: a key keeps its place, a new one comes last.
  abbrev pub insert : ℕ → V → Dict V → Dict V
  insert k v ((j, w) ∷ d) = if j == k then (k, v) ∷ d else (j, w) ∷ insert k v d
  insert k v [] = (k, v) ∷ []

  -- `d.pop(k, None)`
  abbrev pub erase : ℕ → Dict V → Dict V
  erase k ((j, w) ∷ d) = if j == k then d else (j, w) ∷ erase k d
  erase k [] = []

  -- `d.get(k)`
  abbrev pub lookup : ℕ → Dict V → Option V
  lookup k ((j, v) ∷ d) = if j == k then some v else lookup k d
  lookup k [] = none

  -- No key stands twice, as in every dict.
  abbrev pub IsDict : Dict V → Type ℓ
  IsDict [] = Unit
  IsDict ((k, v) ∷ d) = (lookup k d ≡ none) × IsDict d

  pub lookup-insert :
      (k j : ℕ) (v : V) (d : Dict V)
      → lookup j (insert k v d) ≡ (if k == j then some v else lookup j d)
  lookup-insert k j v [] = refl
  lookup-insert k j v ((i, w) ∷ d) = ground (arith, lookup-insert k j v d)

  pub insert-IsDict : (k : ℕ) (v : V) (d : Dict V) → IsDict d → IsDict (insert k v d)
  insert-IsDict k v [] h = (refl, tt)
  insert-IsDict k v ((i, w) ∷ d) h = ground (arith, insert-IsDict k v d, lookup-insert k i v d)

  pub lookup-erase :
      (k j : ℕ) (d : Dict V)
      → IsDict d
      → lookup j (erase k d) ≡ (if k == j then none else lookup j d)
  lookup-erase k j [] h = ground arith
  lookup-erase k j ((i, w) ∷ d) h = ground (arith, lookup-erase k j d)

  pub erase-IsDict : (k : ℕ) (d : Dict V) → IsDict d → IsDict (erase k d)
  erase-IsDict k [] h = tt
  erase-IsDict k ((i, w) ∷ d) h = ground (arith, erase-IsDict k d, lookup-erase k i d)
