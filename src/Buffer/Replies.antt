-- ===== src/Buffer/Replies.antt =====
-- python/shared_memory_lock/thread_producer_consumer.py: the puts and gets among calls, and the items
-- among replies.
use cocurrency.Common.{
  ℕ, zero, suc, ◌+◌, ◌≡◌, inl, inr, refl, ap, some, List, [], ◌∷◌, ◌++◌, Option-cases, some_inj,
  arith,
}
use cocurrency.Buffer.{Call, put, get, Reply, stored, got, waits, pick}

abbrev pub put_count : Call → ℕ
put_count (put item) = 1
put_count get = 0

abbrev pub get_count : Call → ℕ
get_count (put item) = 0
get_count get = 1

-- How many calls of a list put, and get.
abbrev pub puts : List Call → ℕ
puts [] = 0
puts (c ∷ cs) = put_count c + puts cs

abbrev pub gets : List Call → ℕ
gets [] = 0
gets (c ∷ cs) = get_count c + gets cs

pub puts-append : (xs ys : List Call) → puts (xs ++ ys) ≡ puts xs + puts ys
puts-append [] ys = omega arith
puts-append (c ∷ xs) ys = omega (arith, puts-append xs ys)

pub gets-append : (xs ys : List Call) → gets (xs ++ ys) ≡ gets xs + gets ys
gets-append [] ys = omega arith
gets-append (c ∷ xs) ys = omega (arith, gets-append xs ys)

pub pick-counts :
    (i : ℕ) (cs : List Call) (c : Call) (rest : List Call)
    → pick i cs ≡ some (c, rest)
    → (puts cs ≡ put_count c + puts rest) × (gets cs ≡ get_count c + gets rest)
pick-counts i [] c rest e = cc
pick-counts zero (d ∷ cs) c rest e =
    let same : (d, cs) ≡ (c, rest) = some_inj e in
    (
      ap (λ (x : Call × List Call). put_count x.0 + puts x.1) same,
      ap (λ (x : Call × List Call). get_count x.0 + gets x.1) same,
    )
pick-counts (suc i) (d ∷ cs) c rest e = elim (Option-cases (pick i cs)) [
  | inl out ↦ absurd (cc (rw out at e))
  | inr ((c', rest'), found) ↦
      let (p, g) = pick-counts i cs c' rest' found in
      let same : (c', d ∷ rest') ≡ (c, rest) = some_inj (rw found at e) in
      (
        omega (arith, p, ap (λ (x : Call × List Call). put_count x.0 + puts x.1) same),
        omega (arith, g, ap (λ (x : Call × List Call). get_count x.0 + gets x.1) same),
      )
]

-- The items stored, and handed out, by the replies.
abbrev pub stored_items : List Reply → List ℕ
stored_items [] = []
stored_items (stored item ∷ rs) = item ∷ stored_items rs
stored_items (_ ∷ rs) = stored_items rs

abbrev pub got_items : List Reply → List ℕ
got_items [] = []
got_items (got item ∷ rs) = item ∷ got_items rs
got_items (_ ∷ rs) = got_items rs

pub stored_items-snoc :
    (rs : List Reply) (item : ℕ)
    → stored_items (rs ++ stored item ∷ []) ≡ stored_items rs ++ item ∷ []
stored_items-snoc [] item = refl
stored_items-snoc (stored x ∷ rs) item = ap (λ l. x ∷ l) (stored_items-snoc rs item)
stored_items-snoc (got x ∷ rs) item = stored_items-snoc rs item
stored_items-snoc (waits ∷ rs) item = stored_items-snoc rs item

pub stored_items-snoc_got :
    (rs : List Reply) (item : ℕ) → stored_items (rs ++ got item ∷ []) ≡ stored_items rs
stored_items-snoc_got [] item = refl
stored_items-snoc_got (stored x ∷ rs) item = ap (λ l. x ∷ l) (stored_items-snoc_got rs item)
stored_items-snoc_got (got x ∷ rs) item = stored_items-snoc_got rs item
stored_items-snoc_got (waits ∷ rs) item = stored_items-snoc_got rs item

pub got_items-snoc :
    (rs : List Reply) (item : ℕ) → got_items (rs ++ got item ∷ []) ≡ got_items rs ++ item ∷ []
got_items-snoc [] item = refl
got_items-snoc (got x ∷ rs) item = ap (λ l. x ∷ l) (got_items-snoc rs item)
got_items-snoc (stored x ∷ rs) item = got_items-snoc rs item
got_items-snoc (waits ∷ rs) item = got_items-snoc rs item

pub got_items-snoc_stored :
    (rs : List Reply) (item : ℕ) → got_items (rs ++ stored item ∷ []) ≡ got_items rs
got_items-snoc_stored [] item = refl
got_items-snoc_stored (got x ∷ rs) item = ap (λ l. x ∷ l) (got_items-snoc_stored rs item)
got_items-snoc_stored (stored x ∷ rs) item = got_items-snoc_stored rs item
got_items-snoc_stored (waits ∷ rs) item = got_items-snoc_stored rs item
