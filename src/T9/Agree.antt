-- ===== src/T9/Agree.antt =====
-- python/t9_combinations.py: the five versions give one result, a KeyError included.
use mathlib.Core.Path.{ap₂}
use mathlib.Core.List.{append-nil, append_assoc, reverse-cons, foldl-append}
use cocurrency.Common.{
  ℕ, zero, suc, ◌+◌, ◌≤◌, ◌≡◌, refl, sym, ap, ◌∙◌, Option, none, some, List, [], ◌∷◌, ◌++◌, ◌==◌,
  false, length, length-append, get_elem?-append, ◌>>=◌, >>=_cong, >>=_assoc, >>=-pure, for_each,
  for_each-follows, arith,
}
use cocurrency.T9.{
  Letter, Word, key_map, combine, letter_combinations_recursive, Dfs, drop_last, backtrack,
  letter_combinations_backtrack, Gen, stops, raises, yields, yield_from, gen_each, gen, list_of,
  letter_combinations_generator, cps, letter_combinations_cps, level_cont, chain,
  letter_combinations_cps_chain,
}

-- The body of the loop in `combine`.
abbrev collects : (Letter → Option (List Word)) → Letter → List Word → Option (List Word)
collects f l results = f l >>= λ r. some (results ++ r)

abbrev for_each_from : (Letter → Option (List Word)) → Word → Option (List Word)
for_each_from f letters = for_each (collects f) letters []

-- A loop that adds each letter's words to a list inside a larger state.
module _ {S : Type 0} (embed : List Word → S) (f : Letter → Option (List Word))
    (g : Letter → S → Option S)
    (adds : (l : Letter) (acc : List Word)
      → g l (embed acc) ≡ (f l >>= λ r. some (embed (acc ++ r)))) where
  for_each-collects :
      (letters : Word)
      → for_each g letters (embed []) ≡ (for_each (collects f) letters [] >>= λ r. some (embed r))
  for_each-collects letters =
      for_each-follows embed (collects f) g
        (λ l acc. adds l acc ∙ sym (>>=_assoc (f l) (λ r. some (acc ++ r)) (λ r. some (embed r))))
        letters []

cps_lem :
    {S : Type 0} (prefix remaining : Word) (cont : List Word → S → Option S) (s : S)
    → cps prefix remaining cont s ≡ (combine prefix remaining >>= λ r. cont r s)
unfolding cps combine
cps_lem prefix [] cont s = refl
cps_lem {S} prefix (d ∷ remaining) cont s =
    >>=_cong (key_map d) (λ letters.
      ap (λ m. m >>= λ t. cont t.1 t.0)
        (for_each-collects {S = S × List Word} (λ acc. (s, acc))
          (λ l. combine (prefix ++ l ∷ []) remaining)
          (λ l.
            cps {S = S × List Word} (prefix ++ l ∷ []) remaining
              (λ combs t. some (t.0, t.1 ++ combs)))
          (λ l acc.
            cps_lem {S = S × List Word} (prefix ++ l ∷ []) remaining
              (λ combs t. some (t.0, t.1 ++ combs)) (s, acc))
          letters)
      ∙ >>=_assoc (for_each (collects (λ l. combine (prefix ++ l ∷ []) remaining)) letters [])
          (λ r. some (s, r)) (λ t. cont t.1 t.0))
    ∙ sym (
        >>=_assoc (key_map d) (for_each_from (λ l. combine (prefix ++ l ∷ []) remaining))
          (λ r. cont r s))

-- Each level of the chain adds the words of the digits that are left to `results`.
chain-cons : (d : Letter) (ds : Word) → chain (d ∷ ds) ≡ level_cont d (chain ds)
unfolding chain
chain-cons d ds = rw (reverse-cons, foldl-append)

chain_lem :
    (digits prefix : Word) (results : List Word)
    → chain digits prefix results ≡ (combine prefix digits >>= λ r. some (results ++ r))
unfolding combine
chain_lem [] prefix results = unfold chain in refl
chain_lem (d ∷ ds) prefix results =
    ap (λ c. c prefix results) (chain-cons d ds)
    ∙ (>>=_cong (key_map d) (λ letters.
          ap (for_each (λ l. chain ds (prefix ++ l ∷ [])) letters) (sym (append-nil results))
          ∙ for_each-collects (λ acc. results ++ acc) (λ l. combine (prefix ++ l ∷ []) ds)
              (λ l. chain ds (prefix ++ l ∷ []))
              (λ l acc.
                chain_lem ds (prefix ++ l ∷ []) (results ++ acc)
                ∙ >>=_cong (combine (prefix ++ l ∷ []) ds)
                    (λ r. ap some (append_assoc results acc r)))
              letters)
        ∙ sym (
            >>=_assoc (key_map d) (for_each_from (λ l. combine (prefix ++ l ∷ []) ds))
              (λ r. some (results ++ r))))

-- `path.pop()` undoes `path.append(letter)`.
drop_last-append : (path : Word) (l : Letter) → drop_last (path ++ l ∷ []) ≡ path
drop_last-append [] l = refl
drop_last-append (x ∷ []) l = refl
drop_last-append (x ∷ y ∷ ys) l = ap (λ p. x ∷ p) (drop_last-append (y ∷ ys) l)

length-snoc : (before : Word) (d : Letter) → length (before ++ d ∷ []) ≡ length before + 1
length-snoc before d = length-append before (d ∷ [])

inside :
    (before : Word) (d : Letter) (after : Word)
    → (length before == length (before ++ d ∷ after)) ≡ false
inside before d after = ground (arith, length-append before (d ∷ after))

abbrev with_results : Word → List Word → Dfs
with_results path results = record { path = path; results = results }

-- With the digits before `idx` in `before`, the search adds the words of the other digits, and
-- leaves the path as it found it.
backtrack_lem :
    (fuel : ℕ) (before remaining : Word) (s : Dfs)
    → length remaining + 1 ≤ fuel
    → backtrack fuel (before ++ remaining) (length before) s
      ≡ (combine s.path remaining >>= λ r. some (record s { results = s.results ++ r }))
unfolding backtrack combine
backtrack_lem zero before remaining s h = absurd (omega arith)
backtrack_lem (suc fuel) before [] s h = rw append-nil (ground arith)
backtrack_lem (suc fuel) before (d ∷ remaining) s h =
    rw (inside before d remaining, get_elem?-append before d remaining)
      (>>=_cong (key_map d) (λ letters.
          ap (for_each _ letters) (ap (with_results s.path) (sym (append-nil s.results)))
          ∙ for_each-collects (λ acc. with_results s.path (s.results ++ acc))
              (λ l. combine (s.path ++ l ∷ []) remaining)
              (λ l t.
                backtrack fuel (before ++ d ∷ remaining) (length before + 1)
                  (with_results (t.path ++ l ∷ []) t.results)
                >>= λ u. some (with_results (drop_last u.path) u.results))
              (λ l acc.
                ap (λ m. m >>= λ u. some (with_results (drop_last u.path) u.results))
                  (ap₂
                      (λ ds i.
                        backtrack fuel ds i (with_results (s.path ++ l ∷ []) (s.results ++ acc)))
                      (sym (append_assoc before (d ∷ []) remaining)) (sym (length-snoc before d))
                    ∙ backtrack_lem fuel (before ++ d ∷ []) remaining
                        (with_results (s.path ++ l ∷ []) (s.results ++ acc)) (omega arith))
                ∙ >>=_assoc (combine (s.path ++ l ∷ []) remaining) _ _
                ∙ >>=_cong (combine (s.path ++ l ∷ []) remaining) (λ r.
                  ap₂ (λ p rs. some (with_results p rs)) (drop_last-append s.path l)
                    (append_assoc s.results acc r)))
              letters)
        ∙ sym (
            >>=_assoc (key_map d) (for_each_from (λ l. combine (s.path ++ l ∷ []) remaining))
              (λ r. some (with_results s.path (s.results ++ r)))))

list_of-yield_from :
    (g h : Gen) → list_of (yield_from g h) ≡ (list_of g >>= λ r. list_of h >>= λ rs. some (r ++ rs))
list_of-yield_from stops h = ground arith
list_of-yield_from raises h = refl
list_of-yield_from (yields w g) h = rw (list_of-yield_from g h) (ground arith)

list_of-gen_each :
    (body : Letter → Gen) (f : Letter → Option (List Word))
    → ((l : Letter) → list_of (body l) ≡ f l)
    → (letters : Word) (acc : List Word)
    → (list_of (gen_each body letters) >>= λ r. some (acc ++ r)) ≡ for_each (collects f) letters acc
list_of-gen_each body f h [] acc = ap some (append-nil acc)
list_of-gen_each body f h (l ∷ ls) acc =
    ap (λ m. m >>= λ r. some (acc ++ r)) (list_of-yield_from (body l) (gen_each body ls))
    ∙ rw (h l) (after (f l) (list_of-gen_each body f h ls))
  where
    after :
        (m : Option (List Word))
        → ((acc' : List Word)
            → (list_of (gen_each body ls) >>= λ r. some (acc' ++ r))
              ≡ for_each (collects f) ls acc')
        → ((m >>= λ r. list_of (gen_each body ls) >>= λ rs. some (r ++ rs)) >>= λ r.
            some (acc ++ r))
          ≡ ((m >>= λ r. some (acc ++ r)) >>= for_each (collects f) ls)
    after none ih = refl
    after (some r) ih =
        >>=_assoc (list_of (gen_each body ls)) _ _
        ∙ >>=_cong (list_of (gen_each body ls)) (λ rs. ap some (sym (append_assoc acc r rs)))
        ∙ ih (acc ++ r)

gen_lem : (prefix remaining : Word) → list_of (gen prefix remaining) ≡ combine prefix remaining
unfolding gen combine
gen_lem prefix [] = refl
gen_lem prefix (d ∷ remaining) = after (key_map d) (λ l. gen_lem (prefix ++ l ∷ []) remaining)
  where
    after :
        (m : Option Word)
        → ((l : Letter)
            → list_of (gen (prefix ++ l ∷ []) remaining) ≡ combine (prefix ++ l ∷ []) remaining)
        → list_of (elim m [
          | none ↦ raises
          | some letters ↦ gen_each (λ l. gen (prefix ++ l ∷ []) remaining) letters
        ])
          ≡ (m >>= for_each_from (λ l. combine (prefix ++ l ∷ []) remaining))
    after none ih = refl
    after (some letters) ih =
        sym (>>=-pure (list_of (gen_each (λ l. gen (prefix ++ l ∷ []) remaining) letters)))
        ∙ list_of-gen_each _ (λ l. combine (prefix ++ l ∷ []) remaining) ih letters []

-- Every version gives what the recursive one gives, for every text: the same words in the same
-- order, and a KeyError for the same digits.
pub versions_agree :
    (digits : Word)
    → (letter_combinations_backtrack digits ≡ letter_combinations_recursive digits)
      × (letter_combinations_generator digits ≡ letter_combinations_recursive digits)
      × (letter_combinations_cps digits ≡ letter_combinations_recursive digits)
      × (letter_combinations_cps_chain digits ≡ letter_combinations_recursive digits)
unfolding letter_combinations_recursive letter_combinations_backtrack letter_combinations_generator
    letter_combinations_cps letter_combinations_cps_chain
versions_agree [] = (refl, refl, refl, refl)
versions_agree (d ∷ ds) = (
  ap (λ m. m >>= λ s. some s.results)
        (backtrack_lem (length (d ∷ ds) + 1) [] (d ∷ ds) (with_results [] []) (omega arith))
      ∙ >>=_assoc (combine [] (d ∷ ds)) _ _
      ∙ >>=-pure (combine [] (d ∷ ds)),
  gen_lem [] (d ∷ ds),
  cps_lem [] (d ∷ ds) (λ combs results. some (results ++ combs)) []
      ∙ >>=-pure (combine [] (d ∷ ds)),
  chain_lem (d ∷ ds) [] [] ∙ >>=-pure (combine [] (d ∷ ds)),
)
