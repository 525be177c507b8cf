-- ===== src/T9.antt =====
-- python/t9_combinations.py: the letter combinations of a T9 keypad, in five versions.
-- Texts are lists of character codes; `none` is the `KeyError` of `KEY_MAP[digit]`.
pub mod Agree
pub mod Spelling
mod Tests
use mathlib.Core.List.{foldl, reverse}
use cocurrency.Common.{
  ℕ, zero, suc, ◌+◌, Option, none, some, List, [], ◌∷◌, ◌++◌, ◌==◌, if◌then◌else◌, length,
  get_elem?, ◌>>=◌, for_each,
}

-- A character's code, and a text.
abbrev pub Letter : Type 0
Letter = ℕ

abbrev pub Word : Type 0
Word = List Letter

pub key_map : Letter → Option Word
key_map d =
    if d == b'2'
    then some (b'a' ∷ b'b' ∷ b'c' ∷ [])
    else if d == b'3'
    then some (b'd' ∷ b'e' ∷ b'f' ∷ [])
    else if d == b'4'
    then some (b'g' ∷ b'h' ∷ b'i' ∷ [])
    else if d == b'5'
    then some (b'j' ∷ b'k' ∷ b'l' ∷ [])
    else if d == b'6'
    then some (b'm' ∷ b'n' ∷ b'o' ∷ [])
    else if d == b'7'
    then some (b'p' ∷ b'q' ∷ b'r' ∷ b's' ∷ [])
    else if d == b'8'
    then some (b't' ∷ b'u' ∷ b'v' ∷ [])
    else if d == b'9'
    then some (b'w' ∷ b'x' ∷ b'y' ∷ b'z' ∷ [])
    else none

-- 1. `_combine` of `letter_combinations_recursive`: `results` is extended in a loop.
pub combine : Word → Word → Option (List Word)
combine prefix [] = some (prefix ∷ [])
combine prefix (d ∷ remaining) = do
  letters ← key_map d
  for_each (λ l results. combine (prefix ++ l ∷ []) remaining >>= λ r. some (results ++ r)) letters
      []

pub letter_combinations_recursive : Word → Option (List Word)
letter_combinations_recursive [] = some []
letter_combinations_recursive (d ∷ ds) = combine [] (d ∷ ds)

-- 2. The mutable lists of `letter_combinations_backtrack`.
pub record Dfs : Type 0 where
  pub path : Word
  pub results : List Word

-- `path.pop()`
abbrev pub drop_last : Word → Word
drop_last [] = []
drop_last (x ∷ []) = []
drop_last (x ∷ y ∷ ys) = x ∷ drop_last (y ∷ ys)

-- `backtrack(path, idx)`; the first number is fuel, of which `length digits - idx + 1` is used.
pub backtrack : ℕ → Word → ℕ → Dfs → Option Dfs
backtrack zero digits idx s = none
backtrack (suc fuel) digits idx s =
    let descend : Option Dfs = (do
      d ← get_elem? digits idx
      letters ← key_map d
      for_each
          (λ l t. backtrack fuel digits (idx + 1) (record t { path = t.path ++ l ∷ [] }) >>= λ u.
            some (record u { path = drop_last u.path }))
          letters s) in
    if idx == length digits then some (record s { results = s.results ++ s.path ∷ [] }) else descend

pub letter_combinations_backtrack : Word → Option (List Word)
letter_combinations_backtrack [] = some []
letter_combinations_backtrack (d ∷ ds) =
    backtrack (length (d ∷ ds) + 1) (d ∷ ds) 0 (record { path = []; results = [] }) >>= λ s.
    some s.results

-- 3. A generator: what it does when it is asked for its next value.
pub data Gen : Type 0 where
  stops : Gen
  raises : Gen
  yields : Word → Gen → Gen

-- `yield from g`, then `h`
abbrev pub yield_from : Gen → Gen → Gen
yield_from stops h = h
yield_from raises h = raises
yield_from (yields w g) h = yields w (yield_from g h)

abbrev pub gen_each : (Letter → Gen) → Word → Gen
gen_each body [] = stops
gen_each body (l ∷ ls) = yield_from (body l) (gen_each body ls)

pub gen : Word → Word → Gen
gen prefix [] = yields prefix stops
gen prefix (d ∷ remaining) = elim (key_map d) [
  | none ↦ raises
  | some letters ↦ gen_each (λ l. gen (prefix ++ l ∷ []) remaining) letters
]

-- `list(g)`
abbrev pub list_of : Gen → Option (List Word)
list_of stops = some []
list_of raises = none
list_of (yields w g) = list_of g >>= λ ws. some (w ∷ ws)

pub letter_combinations_generator : Word → Option (List Word)
letter_combinations_generator [] = some []
letter_combinations_generator (d ∷ ds) = list_of (gen [] (d ∷ ds))

-- 4. A continuation acts on the lists that its closure holds: `S` is the state of those.
-- Each level adds its own `all_results` to that state, and its children's continuation extends it.
pub cps : {S : Type 0} → Word → Word → (List Word → S → Option S) → S → Option S
cps prefix [] cont s = cont (prefix ∷ []) s
cps {S} prefix (d ∷ remaining) cont s = do
  letters ← key_map d
  (s', all_results) ←
      for_each
        (λ l.
          cps {S = S × List Word} (prefix ++ l ∷ []) remaining
            (λ combs t. some (t.0, t.1 ++ combs)))
        letters (s, [])
  cont all_results s'

pub letter_combinations_cps : Word → Option (List Word)
letter_combinations_cps [] = some []
letter_combinations_cps (d ∷ ds) = cps [] (d ∷ ds) (λ combs results. some (results ++ combs)) []

-- 5. A continuation takes a prefix, and acts on `results`.
abbrev pub Cont : Type 0
Cont = Word → List Word → Option (List Word)

abbrev pub final_cont : Cont
final_cont combination results = some (results ++ combination ∷ [])

abbrev pub level_cont : Letter → Cont → Cont
level_cont d next_cont prefix results = do
  letters ← key_map d
  for_each (λ l. next_cont (prefix ++ l ∷ [])) letters results

-- `for digit in reversed(digits): cont = make_level(digit, cont)`
pub chain : Word → Cont
chain digits = foldl (λ cont digit. level_cont digit cont) final_cont (reverse digits)

pub letter_combinations_cps_chain : Word → Option (List Word)
letter_combinations_cps_chain [] = some []
letter_combinations_cps_chain (d ∷ ds) = chain (d ∷ ds) [] []
