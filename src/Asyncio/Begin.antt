-- ===== src/Asyncio/Begin.antt =====
-- python/stackless_coroutine/asyncio_producer_consumer.py: what holds before any task has moved.
use cocurrency.Common.{ℕ, ◌+◌, ◌≡◌, refl, List, [], ◌∷◌, length, arith}
use cocurrency.Asyncio.{make_producers, make_consumers, begin}
use cocurrency.Common.Sums.{total, count}
use cocurrency.Asyncio.Conserved.{to_put, to_get, is_asleep, has_failed, count_items, IsSound}

-- What is to be produced and consumed at the beginning.
abbrev pub count_all : ℕ → List (List ℕ) → ℕ
count_all x [] = 0
count_all x (items ∷ others) = count x items + count_all x others

abbrev pub total_length : List (List ℕ) → ℕ
total_length [] = 0
total_length (items ∷ others) = length items + total_length others

abbrev pub sum : List ℕ → ℕ
sum [] = 0
sum (n ∷ ns) = n + sum ns

make_producers-count :
    (x : ℕ) (items : List (List ℕ))
    → total (count_items x) (make_producers items) ≡ count_all x items
make_producers-count x [] = refl
make_producers-count x (items ∷ others) = omega (arith, make_producers-count x others)

pub make_producers-length :
    (items : List (List ℕ)) → total to_put (make_producers items) ≡ total_length items
make_producers-length [] = refl
make_producers-length (items ∷ others) = omega (arith, make_producers-length others)

pub make_consumers-sum : (counts : List ℕ) → total to_get (make_consumers counts) ≡ sum counts
make_consumers-sum [] = refl
make_consumers-sum (n ∷ ns) = omega (arith, make_consumers-sum ns)

pub make_consumers-awake :
    (counts : List ℕ)
    → (total is_asleep (make_consumers counts) ≡ 0) × (total has_failed (make_consumers counts) ≡ 0)
make_consumers-awake [] = (refl, refl)
make_consumers-awake (n ∷ ns) =
    let (awake, well) = make_consumers-awake ns in (omega (arith, awake), omega (arith, well))

pub begin-IsSound :
    (maxsize : ℕ) (items : List (List ℕ)) (counts : List ℕ)
    → total_length items ≡ sum counts
    → IsSound (λ x. count_all x items) (begin maxsize items counts)
unfolding begin
begin-IsSound maxsize items counts same = record {
  conserved = λ x. omega (arith, make_producers-count x items);
  counted = omega (arith, (make_consumers-awake counts).0);
  no_failure = (make_consumers-awake counts).1;
  balanced = omega (arith, make_producers-length items, make_consumers-sum counts, same);
}
