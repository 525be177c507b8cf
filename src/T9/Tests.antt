-- ===== src/T9/Tests.antt =====
-- Tests of python/t9_combinations.py, and the theorems about it at concrete digits.
use cocurrency.Common.{◌≡◌, ◌≢◌, ◌↔◌, refl, none, some, List, [], ◌∷◌, length, ◌>>=◌, In}
use cocurrency.T9.{
  Word, key_map, combine, letter_combinations_recursive, letter_combinations_backtrack,
  letter_combinations_generator, letter_combinations_cps, letter_combinations_cps_chain,
}
use cocurrency.T9.Agree.{versions_agree}
use cocurrency.T9.Spelling.{Spells, combinations, recursive-Spells, length-recursive}

abbrev digits_23 : Word
digits_23 = b'2' ∷ b'3' ∷ []

abbrev words_23 : List Word
words_23 =
    (b'a' ∷ b'd' ∷ [])
    ∷ (b'a' ∷ b'e' ∷ [])
    ∷ (b'a' ∷ b'f' ∷ [])
    ∷ (b'b' ∷ b'd' ∷ [])
    ∷ (b'b' ∷ b'e' ∷ [])
    ∷ (b'b' ∷ b'f' ∷ [])
    ∷ (b'c' ∷ b'd' ∷ [])
    ∷ (b'c' ∷ b'e' ∷ [])
    ∷ (b'c' ∷ b'f' ∷ [])
    ∷ []

recursive_23 : letter_combinations_recursive digits_23 ≡ some words_23
unfolding letter_combinations_recursive combine key_map
recursive_23 = refl

-- The key `1` has no letters.
recursive_1 : letter_combinations_recursive (b'2' ∷ b'1' ∷ []) ≡ none
unfolding letter_combinations_recursive combine key_map
recursive_1 = refl

versions_agree_example :
    (letter_combinations_backtrack digits_23 ≡ letter_combinations_recursive digits_23)
    × (letter_combinations_generator digits_23 ≡ letter_combinations_recursive digits_23)
    × (letter_combinations_cps digits_23 ≡ letter_combinations_recursive digits_23)
    × (letter_combinations_cps_chain digits_23 ≡ letter_combinations_recursive digits_23)
versions_agree_example = versions_agree digits_23

recursive-Spells_example :
    In (b'b' ∷ b'f' ∷ []) words_23 ↔ (digits_23 ≢ []) × Spells digits_23 (b'b' ∷ b'f' ∷ [])
recursive-Spells_example = recursive-Spells digits_23 words_23 recursive_23 (b'b' ∷ b'f' ∷ [])

length-recursive_example :
    (letter_combinations_recursive digits_23 >>= λ ws. some (length ws)) ≡ combinations digits_23
length-recursive_example = length-recursive b'2' (b'3' ∷ [])
