-- ===== src/Asyncio/Waiting.antt =====
-- python/stackless_coroutine/asyncio_producer_consumer.py: the tasks that wait, and those that have
-- returned.
use mathlib.Core.Path.{subst}
use cocurrency.Common.{
  ℕ, zero, suc, ◌<◌, ◌≡◌, ◌⊎◌, inl, inr, refl, sym, ap, ◌∙◌, true, false, none, some, List, [], ◌∷◌,
  ◌++◌, length, get_elem?, In, set, length-set, of_branches, some_inj, Option, Option-cases, arith,
}
use cocurrency.Asyncio.{
  Producer, Place, gets, sleeps, failed, Consumer, Loop, is_full, Task, producer, consumer, step,
  run, produce, consume, get, task_done, have_produced, is_done, have_consumed,
}
use cocurrency.Common.Sums.{total, total-zero}
use cocurrency.Asyncio.Conserved.{
  to_put, to_get, is_asleep, has_failed, work, IsSound, WaitsToPut, WaitsToGet, Waits, step-lem,
}

-- With no work left, all tasks have returned.
pub have_produced-zero : (ps : List Producer) → total to_put ps ≡ 0 → have_produced ps ≡ true
have_produced-zero [] e = refl
have_produced-zero (p ∷ ps) e =
    let rest = have_produced-zero ps (omega (arith, e)) in
    let none_left : length p.items ≡ 0 = omega (arith, e) in ground (arith, rest, none_left)

is_done-zero :
    (left : ℕ) (place : Place)
    → left ≡ 0
    → is_asleep (record { left = left; place = place }) ≡ 0
    → has_failed (record { left = left; place = place }) ≡ 0
    → is_done left place ≡ true
is_done-zero left gets e f g = ground (arith, e)
is_done-zero left (sleeps item) e f g = absurd (omega (arith, f))
is_done-zero left failed e f g = absurd (omega (arith, g))

pub have_consumed-zero :
    (cs : List Consumer)
    → total to_get cs ≡ 0
    → total is_asleep cs ≡ 0
    → total has_failed cs ≡ 0
    → have_consumed cs ≡ true
have_consumed-zero [] e f g = refl
have_consumed-zero (c ∷ cs) e f g =
    let rest = have_consumed-zero cs (omega (arith, e)) (omega (arith, f)) (omega (arith, g)) in
    let here =
      is_done-zero c.left c.place (omega (arith, e)) (omega (arith, f)) (omega (arith, g)) in
    ground (arith, rest, here)

-- How many tasks there are stays the same.
abbrev pub AreKept : Loop → Loop → Type 0
AreKept s t = (length t.producers ≡ length s.producers) × (length t.consumers ≡ length s.consumers)

produce-AreKept : (i : ℕ) (items : List ℕ) (s : Loop) → AreKept s (produce i items s)
produce-AreKept i [] s = (refl, refl)
produce-AreKept i (item ∷ items) s =
    of_branches (AreKept s) (is_full s) s
      (record s {
        queue = s.queue ++ item ∷ [];
        unfinished = suc s.unfinished;
        producers = set s.producers i (record { items = items });
      })
      (λ full. (refl, refl)) (λ room. (length-set s.producers i (record { items = items }), refl))

get-AreKept : (i left : ℕ) (queue : List ℕ) (s : Loop) → AreKept s (get i left queue s)
get-AreKept i zero queue s = (refl, refl)
get-AreKept i (suc left) [] s = (refl, refl)
get-AreKept i (suc left) (item ∷ queue) s =
    (refl, length-set s.consumers i (record { left = left; place = sleeps item }))

task_done-AreKept : (i left unfinished : ℕ) (s : Loop) → AreKept s (task_done i left unfinished s)
task_done-AreKept i left zero s =
    (refl, length-set s.consumers i (record { left = left; place = failed }))
task_done-AreKept i left (suc n) s =
    (refl, length-set s.consumers i (record { left = left; place = gets }))

consume-AreKept : (i left : ℕ) (place : Place) (s : Loop) → AreKept s (consume i left place s)
consume-AreKept i left gets s = get-AreKept i left s.queue s
consume-AreKept i left (sleeps item) s = task_done-AreKept i left s.unfinished s
consume-AreKept i left failed s = (refl, refl)

step-AreKept : (t : Task) (s : Loop) → AreKept s (step t s)
unfolding step
step-AreKept (producer i) s = elim (Option-cases (get_elem? s.producers i)) [
  | inl out ↦ subst (λ o. AreKept s (put o)) (sym out) (refl, refl)
  | inr (p, at) ↦ subst (λ o. AreKept s (put o)) (sym at) (produce-AreKept i p.items s)
]
  where
    put : Option Producer → Loop
    put o = elim o [ none ↦ s | some p ↦ produce i p.items s ]
step-AreKept (consumer i) s = elim (Option-cases (get_elem? s.consumers i)) [
  | inl out ↦ subst (λ o. AreKept s (took o)) (sym out) (refl, refl)
  | inr (c, at) ↦ subst (λ o. AreKept s (took o)) (sym at) (consume-AreKept i c.left c.place s)
]
  where
    took : Option Consumer → Loop
    took o = elim o [ none ↦ s | some c ↦ consume i c.left c.place s ]

pub run-AreKept : (ts : List Task) (s : Loop) → AreKept s (run ts s)
unfolding run
run-AreKept [] s = (refl, refl)
run-AreKept (t ∷ ts) s =
    let (here, there) = step-AreKept t s in
    let (p, c) = run-AreKept ts (step t s) in (p ∙ here, c ∙ there)

-- After some moves, all those tasks wait and nothing has changed, or there is less to do.
pub run-lem :
    (all : ℕ → ℕ) (ts : List Task) (s : Loop)
    → IsSound all s
    → IsSound all (run ts s)
      × ((((t : Task) → In t ts → Waits t s) × (run ts s ≡ s)) ⊎ (work (run ts s) < work s))
unfolding run
run-lem all [] s sound = (sound, inl ((λ t i. absurd i), refl))
run-lem all (t ∷ ts) s sound =
    let (next, moved) = step-lem all t s sound in
    let (last, rest) = run-lem all ts (step t s) next in
    (
      last,
      elim moved [
        | inr fewer ↦ inr (elim rest [
          | inl (waits, same) ↦ omega (arith, fewer, ap work same)
          | inr less ↦ omega (arith, fewer, less)
        ])
        | inl (waits, same) ↦ elim rest [
          | inl (others, stays) ↦ inl (
            (λ u i. elim i [
              | inl e ↦ subst (λ u. Waits u s) (sym e) waits
              | inr later ↦ subst (Waits u) same (others u later)
            ]),
            stays ∙ same,
          )
          | inr less ↦ inr (omega (arith, less, ap work same))
        ]
      ],
    )

-- While all tasks wait, there is no work left.
to_put-zero :
    (items : List ℕ) (s : Loop) → is_full s ≡ false → WaitsToPut items s → length items ≡ 0
to_put-zero [] s room waits = refl
to_put-zero (item ∷ items) s room waits = absurd cc

to_get-zero :
    (item : ℕ) (queue : List ℕ) (left : ℕ) (place : Place) (s : Loop)
    → s.queue ≡ item ∷ queue
    → WaitsToGet left place s
    → has_failed (record { left = left; place = place }) ≡ 0
    → left ≡ 0
to_get-zero item queue left gets s e (inl none_left) well = none_left
to_get-zero item queue left gets s e (inr empty) well = absurd cc
to_get-zero item queue left (sleeps x) s e waits well = absurd waits
to_get-zero item queue left failed s e waits well = absurd (omega (arith, well))

is_asleep-zero :
    (left : ℕ) (place : Place) (s : Loop)
    → WaitsToGet left place s
    → is_asleep (record { left = left; place = place }) ≡ 0
is_asleep-zero left gets s waits = refl
is_asleep-zero left (sleeps item) s waits = absurd waits
is_asleep-zero left failed s waits = refl

no_failure-at :
    (cs : List Consumer) (i : ℕ) (c : Consumer)
    → total has_failed cs ≡ 0
    → get_elem? cs i ≡ some c
    → has_failed c ≡ 0
no_failure-at [] i c e at = absurd cc
no_failure-at (d ∷ ds) zero c e at = omega (arith, e, ap has_failed (some_inj at))
no_failure-at (d ∷ ds) (suc i) c e at = no_failure-at ds i c (omega (arith, e)) at

pub waiting-work :
    (all : ℕ → ℕ) (queue : List ℕ) (s : Loop)
    → s.queue ≡ queue
    → IsSound all s
    → ((t : Task) → Waits t s)
    → work s ≡ 0
waiting-work all [] s e sound waits =
    let room : is_full s ≡ false = ground (arith, ap (length {A = ℕ}) e) in
    let puts : total to_put s.producers ≡ 0 =
      total-zero to_put s.producers
        (λ i p at. to_put-zero p.items s room (waits (producer i) p at)) in
    let awake : total is_asleep s.consumers ≡ 0 =
      total-zero is_asleep s.consumers
        (λ i c at. is_asleep-zero c.left c.place s (waits (consumer i) c at)) in
    omega (arith, puts, awake, sound.balanced, ap (length {A = ℕ}) e)
waiting-work all (item ∷ queue) s e sound waits =
    let none_left : total to_get s.consumers ≡ 0 = total-zero to_get s.consumers (λ i c at.
      to_get-zero item queue c.left c.place s e (waits (consumer i) c at)
        (no_failure-at s.consumers i c sound.no_failure at)) in
    absurd (omega (arith, none_left, sound.balanced, ap (length {A = ℕ}) e))
