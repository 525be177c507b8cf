-- ===== src/T9/Spelling.antt =====
-- python/t9_combinations.py: which words the digits spell, and how many there are.
use mathlib.Core.List.{append-nil, append_assoc, map-append}
use mathlib.Core.Path.{subst}
use cocurrency.Common.{
  ℕ, ◌*◌, ◌≡◌, ◌≢◌, ◌↔◌, inl, inr, refl, sym, ap, ◌∙◌, Option, none, some, List, [], ◌∷◌, ◌++◌, map,
  length, length-append, length-map, ◌>>=◌, >>=_assoc, >>=_cong, >>=-pure, >>=-eq-some, some_inj,
  for_each, In, of_In-append, In-append_left, In-append_right, In-map, of_In-map, arith,
}
use cocurrency.T9.{Letter, Word, key_map, combine, letter_combinations_recursive}

-- The word has one letter for each digit, of the digit's key.
abbrev pub Spells : Word → Word → Type 0
Spells [] [] = Unit
Spells [] (c ∷ w) = ⊥
Spells (d ∷ ds) [] = ⊥
Spells (d ∷ ds) (c ∷ w) =
    ((letters : Word) × (key_map d ≡ some letters) × In c letters) × Spells ds w

-- The number of words: the product of the numbers of letters.
abbrev pub combinations : Word → Option ℕ
combinations [] = some 1
combinations (d ∷ ds) = key_map d >>= λ letters. combinations ds >>= λ n. some (length letters * n)

-- Each letter before each word.
abbrev prepend_each : Word → List Word → List Word
prepend_each [] ws = []
prepend_each (l ∷ ls) ws = map (λ w. l ∷ w) ws ++ prepend_each ls ws

-- The words of the digits by plain recursion, with no prefix and no loop.
abbrev words : Word → Option (List Word)
words [] = some ([] ∷ [])
words (d ∷ ds) = key_map d >>= λ letters. words ds >>= λ ws. some (prepend_each letters ws)

key_map-ne-nil : (d : Letter) → key_map d ≢ some []
unfolding key_map
key_map-ne-nil d = ground arith

map-snoc :
    (p : Word) (l : Letter) (ws : List Word)
    → map (λ w. (p ++ l ∷ []) ++ w) ws ≡ map (λ w. p ++ w) (map (λ w. l ∷ w) ws)
map-snoc p l [] = refl
map-snoc p l (w ∷ ws) = simp (append_assoc, map-snoc p l ws)

-- The loop in `combine` over words `ws` of the other digits.
collect_words :
    (p : Word) (ws acc : List Word) (ls : Word)
    → for_each
        (λ l results. some (map (λ w. (p ++ l ∷ []) ++ w) ws) >>= λ r. some (results ++ r))
        ls
        acc
      ≡ some (acc ++ map (λ w. p ++ w) (prepend_each ls ws))
collect_words p ws acc [] = ap some (sym (append-nil acc))
collect_words p ws acc (l ∷ ls) =
    collect_words p ws (acc ++ map (λ w. (p ++ l ∷ []) ++ w) ws) ls
    ∙ ap some (simp (map-snoc p l ws) (simp (map-append, append_assoc)))

-- One digit more: the loop fails with the other digits, since a key has a letter.
collect_join :
    (p : Word) (m : Option Word) (rest : Option (List Word))
    → m ≢ some []
    → (m >>= λ letters.
        for_each
          (λ l results.
            (rest >>= λ ws. some (map (λ w. (p ++ l ∷ []) ++ w) ws)) >>= λ r. some (results ++ r))
          letters
          [])
      ≡ ((m >>= λ letters. rest >>= λ ws. some (prepend_each letters ws)) >>= λ ws.
          some (map (λ w. p ++ w) ws))
collect_join p none rest ne = refl
collect_join p (some []) rest ne = absurd (ne refl)
collect_join p (some (l ∷ ls)) none ne = refl
collect_join p (some (l ∷ ls)) (some ws) ne = collect_words p ws [] (l ∷ ls)

combine-words : (p ds : Word) → combine p ds ≡ (words ds >>= λ ws. some (map (λ w. p ++ w) ws))
unfolding combine
combine-words p [] = ap (λ w. some (w ∷ [])) (sym (append-nil p))
combine-words p (d ∷ ds) =
    (λ i. key_map d >>= λ letters.
    for_each (λ l results. combine-words (p ++ l ∷ []) ds i >>= λ r. some (results ++ r)) letters
      [])
    ∙ collect_join p (key_map d) (words ds) (key_map-ne-nil d)

map-nil-append : (ws : List Word) → map (λ w. [] ++ w) ws ≡ ws
map-nil-append [] = refl
map-nil-append (w ∷ ws) = ap (λ r. w ∷ r) (map-nil-append ws)

recursive-words : (d : Letter) (ds : Word) → letter_combinations_recursive (d ∷ ds) ≡ words (d ∷ ds)
unfolding letter_combinations_recursive
recursive-words d ds =
    combine-words [] (d ∷ ds)
    ∙ >>=_cong (words (d ∷ ds)) (λ ws. ap some (map-nil-append ws))
    ∙ >>=-pure (words (d ∷ ds))

of_In-prepend_each :
    (w : Word) (ls : Word) (ws : List Word)
    → In w (prepend_each ls ws)
    → (l : Letter) × (v : Word) × In l ls × In v ws × (w ≡ l ∷ v)
of_In-prepend_each w [] ws h = absurd h
of_In-prepend_each w (l ∷ ls) ws h =
    elim (of_In-append w (map (λ v. l ∷ v) ws) (prepend_each ls ws) h) [
      | inl here ↦ let (v, i, e) = of_In-map (λ v. l ∷ v) w ws here in (l, v, inl refl, i, e)
      | inr there ↦ let (c, v, i, j, e) = of_In-prepend_each w ls ws there in (c, v, inr i, j, e)
    ]

In-prepend_each :
    (l : Letter) (v : Word) (ls : Word) (ws : List Word)
    → In l ls
    → In v ws
    → In (l ∷ v) (prepend_each ls ws)
In-prepend_each l v [] ws i j = absurd i
In-prepend_each l v (c ∷ ls) ws (inl e) j =
    In-append_left (l ∷ v) (map (λ u. c ∷ u) ws) (prepend_each ls ws)
      (rw e (In-map (λ u. c ∷ u) v ws j))
In-prepend_each l v (c ∷ ls) ws (inr i) j =
    In-append_right (l ∷ v) (map (λ u. c ∷ u) ws) (prepend_each ls ws)
      (In-prepend_each l v ls ws i j)

words-Spells : (ds : Word) (ws : List Word) (w : Word) → words ds ≡ some ws → In w ws → Spells ds w
words-Spells [] ws w e i = elim (subst (λ l. In w l) (sym (some_inj e)) i) [
  | inl is_empty ↦ subst (λ u. Spells [] u) (sym is_empty) tt
  | inr impossible ↦ absurd impossible
]
words-Spells (d ∷ ds) ws w e i =
    let (letters, key, e') = >>=-eq-some (key_map d) _ e in
    let (vs, others, joined) = >>=-eq-some (words ds) (λ us. some (prepend_each letters us)) e' in
    let (l, v, il, iv, is_joined) =
      of_In-prepend_each w letters vs (subst (λ u. In w u) (sym (some_inj joined)) i) in
    subst (λ u. Spells (d ∷ ds) u) (sym is_joined)
      ((letters, key, il), words-Spells ds vs v others iv)

Spells-words : (ds : Word) (ws : List Word) (w : Word) → words ds ≡ some ws → Spells ds w → In w ws
Spells-words [] ws [] e s = subst (λ l. In [] l) (some_inj e) (inl refl)
Spells-words [] ws (c ∷ w) e s = absurd s
Spells-words (d ∷ ds) ws [] e s = absurd s
Spells-words (d ∷ ds) ws (c ∷ w) e ((letters, key, ic), s) =
    let (letters', key', e') = >>=-eq-some (key_map d) _ e in
    let (vs, others, joined) = >>=-eq-some (words ds) (λ us. some (prepend_each letters' us)) e' in
    let same : letters ≡ letters' = some_inj (sym key ∙ key') in
    subst (λ u. In (c ∷ w) u) (some_inj joined)
      (In-prepend_each c w letters' vs (subst (λ u. In c u) same ic)
        (Spells-words ds vs w others s))

-- If no KeyError comes, a word is in the result if, and only if, there is a digit at all and the word
-- has one letter for each digit, of that digit's key and in the digits' order. Of the empty text
-- the result is empty.
pub recursive-Spells :
    (digits : Word) (ws : List Word)
    → letter_combinations_recursive digits ≡ some ws
    → (w : Word) → In w ws ↔ (digits ≢ []) × Spells digits w
unfolding letter_combinations_recursive
recursive-Spells [] ws e w =
    ((λ i. absurd (subst (In w) (sym (some_inj e)) i)), λ (some_digit, s). absurd (some_digit refl))
recursive-Spells (d ∷ ds) ws e w =
    let e' = sym (recursive-words d ds) ∙ e in
    (
      (λ i. ((λ none_left. absurd cc), words-Spells (d ∷ ds) ws w e' i)),
      λ (some_digit, s). Spells-words (d ∷ ds) ws w e' s,
    )

length-prepend_each :
    (ls : Word) (ws : List Word) → length (prepend_each ls ws) ≡ length ls * length ws
length-prepend_each [] ws = omega arith
length-prepend_each (l ∷ ls) ws = omega (
  arith,
  length-append (map (λ w. l ∷ w) ws) (prepend_each ls ws),
  length-map ws (λ w. l ∷ w),
  length-prepend_each ls ws,
)

length-words : (ds : Word) → (words ds >>= λ ws. some (length ws)) ≡ combinations ds
length-words [] = refl
length-words (d ∷ ds) =
    >>=_assoc (key_map d) _ _
    ∙ >>=_cong (key_map d) (λ letters.
      >>=_assoc (words ds) _ _
      ∙ >>=_cong (words ds) (λ ws. ap some (length-prepend_each letters ws))
      ∙ sym (>>=_assoc (words ds) (λ ws. some (length ws)) (λ n. some (length letters * n)))
      ∙ ap (λ m. m >>= λ n. some (length letters * n)) (length-words ds))

-- With a digit at least, there are as many words as the product of the numbers of letters on the
-- digits' keys, and a KeyError exactly where that product meets a digit with no key.
pub length-recursive :
    (d : Letter) (ds : Word)
    → (letter_combinations_recursive (d ∷ ds) >>= λ ws. some (length ws)) ≡ combinations (d ∷ ds)
length-recursive d ds =
    ap (λ m. m >>= λ ws. some (length ws)) (recursive-words d ds) ∙ length-words (d ∷ ds)
