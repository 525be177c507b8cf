-- ===== src/Asyncio/Conserved.antt =====
-- python/stackless_coroutine/asyncio_producer_consumer.py: what holds between any two moves of the
-- tasks.
use mathlib.Core.Path.{subst}
use cocurrency.Common.{
  ℕ, zero, suc, ◌+◌, ◌*◌, ◌≡◌, ◌⊎◌, inl, inr, refl, sym, ap, ◌∙◌, true, Option, none, some, List,
  [], ◌∷◌, ◌++◌, length, length-append, get_elem?, set, Bool-cases, Option-cases, if◌then◌else◌,
  some_inj, arith,
}
use cocurrency.Asyncio.{
  Producer, Place, gets, sleeps, failed, Consumer, Loop, is_full, produce, get, task_done, consume,
  Task, producer, consumer, step,
}
use cocurrency.Common.Sums.{total, total-set, count, count-append}

-- What a task has still to do.
abbrev pub to_put : Producer → ℕ
to_put p = length p.items

abbrev pub to_get : Consumer → ℕ
to_get c = c.left

abbrev is_asleep_in : Place → ℕ
is_asleep_in gets = 0
is_asleep_in (sleeps item) = 1
is_asleep_in failed = 0

abbrev has_failed_in : Place → ℕ
has_failed_in gets = 0
has_failed_in (sleeps item) = 0
has_failed_in failed = 1

abbrev pub is_asleep : Consumer → ℕ
is_asleep c = is_asleep_in c.place

abbrev pub has_failed : Consumer → ℕ
has_failed c = has_failed_in c.place

abbrev pub count_items : ℕ → Producer → ℕ
count_items x p = count x p.items

-- The moves that are left.
abbrev pub work : Loop → ℕ
work s = total to_put s.producers + 2 * total to_get s.consumers + total is_asleep s.consumers

-- How often an item is a result, in the queue, or still to be produced.
abbrev pub copies : ℕ → Loop → ℕ
copies x s = count x s.results + count x s.queue + total (count_items x) s.producers

pub record IsSound (all : ℕ → ℕ) (s : Loop) : Type 0 where
  pub conserved : (x : ℕ) → copies x s ≡ all x
  pub counted : s.unfinished ≡ length s.queue + total is_asleep s.consumers
  pub no_failure : total has_failed s.consumers ≡ 0
  pub balanced : total to_put s.producers + length s.queue ≡ total to_get s.consumers

-- A task that cannot go on.
abbrev pub WaitsToPut : List ℕ → Loop → Type 0
WaitsToPut [] s = Unit
WaitsToPut (item ∷ items) s = is_full s ≡ true

abbrev pub WaitsToGet : ℕ → Place → Loop → Type 0
WaitsToGet left gets s = (left ≡ 0) ⊎ (s.queue ≡ [])
WaitsToGet left (sleeps item) s = ⊥
WaitsToGet left failed s = Unit

-- What a move comes to: the task waits, or there is one move less to do.
abbrev Moves : Type 0 → Loop → Loop → Type 0
Moves W s t = (W × (t ≡ s)) ⊎ (suc (work t) ≡ work s)

produce-lem :
    (all : ℕ → ℕ) (i : ℕ) (p : Producer) (items : List ℕ) (s : Loop)
    → get_elem? s.producers i ≡ some p
    → p.items ≡ items
    → IsSound all s
    → IsSound all (produce i items s) × Moves (WaitsToPut items s) s (produce i items s)
produce-lem all i p [] s at e sound = (sound, inl (tt, refl))
produce-lem all i p (item ∷ items) s at e sound = elim (Bool-cases (is_full s)) [
  | inl full ↦
      subst
        (λ b. IsSound all (if b then s else t) × Moves (is_full s ≡ true) s (if b then s else t))
        (sym full) (sound, inl (full, refl))
  | inr room ↦
      subst
        (λ b. IsSound all (if b then s else t) × Moves (is_full s ≡ true) s (if b then s else t))
        (sym room) (put, inr fewer)
]
  where
    q : Producer
    q = record { items = items }

    t : Loop
    t = record s {
      queue = s.queue ++ item ∷ [];
      unfinished = suc s.unfinished;
      producers = set s.producers i q;
    }

    one_less : total to_put s.producers ≡ suc (total to_put t.producers)
    one_less = omega (arith, total-set to_put s.producers i p q at, ap (length {A = ℕ}) e)

    longer : length t.queue ≡ suc (length s.queue)
    longer = omega (arith, length-append s.queue (item ∷ []))

    fewer : suc (work t) ≡ work s
    fewer = omega (arith, one_less)

    put : IsSound all t
    put = record {
      conserved = λ x. omega (
        arith,
        sound.conserved x,
        count-append x s.queue (item ∷ []),
        total-set (count_items x) s.producers i p q at,
        ap (count x) e,
      );
      counted = omega (arith, sound.counted, longer);
      no_failure = sound.no_failure;
      balanced = omega (arith, sound.balanced, longer, one_less);
    }

get-lem :
    (all : ℕ → ℕ) (i left : ℕ) (queue : List ℕ) (c : Consumer) (s : Loop)
    → get_elem? s.consumers i ≡ some c
    → c.left ≡ left
    → c.place ≡ gets
    → s.queue ≡ queue
    → IsSound all s
    → IsSound all (get i left queue s) × Moves ((left ≡ 0) ⊎ (queue ≡ [])) s (get i left queue s)
get-lem all i zero queue c s at e here q sound = (sound, inl (inl refl, refl))
get-lem all i (suc left) [] c s at e here q sound = (sound, inl (inr refl, refl))
get-lem all i (suc left) (item ∷ queue) c s at e here q sound = (taken, inr fewer)
  where
    d : Consumer
    d = record { left = left; place = sleeps item }

    t : Loop
    t = record s {
      queue = queue;
      results = s.results ++ item ∷ [];
      consumers = set s.consumers i d;
    }

    one_less : total to_get s.consumers ≡ suc (total to_get t.consumers)
    one_less = omega (arith, total-set to_get s.consumers i c d at, e)

    one_more : total is_asleep t.consumers ≡ suc (total is_asleep s.consumers)
    one_more = omega (arith, total-set is_asleep s.consumers i c d at, ap is_asleep_in here)

    shorter : length s.queue ≡ suc (length queue)
    shorter = ap (length {A = ℕ}) q

    fewer : suc (work t) ≡ work s
    fewer = omega (arith, one_less, one_more)

    taken : IsSound all t
    taken = record {
      conserved = λ x.
          omega (arith, sound.conserved x, count-append x s.results (item ∷ []), ap (count x) q);
      counted = omega (arith, sound.counted, one_more, shorter);
      no_failure = omega (
        arith,
        sound.no_failure,
        total-set has_failed s.consumers i c d at,
        ap has_failed_in here,
      );
      balanced = omega (arith, sound.balanced, one_less, shorter);
    }

task_done-lem :
    (all : ℕ → ℕ) (i item unfinished : ℕ) (c : Consumer) (s : Loop)
    → get_elem? s.consumers i ≡ some c
    → c.place ≡ sleeps item
    → s.unfinished ≡ unfinished
    → IsSound all s
    → IsSound all (task_done i c.left unfinished s) × Moves ⊥ s (task_done i c.left unfinished s)
task_done-lem all i item zero c s at here e sound = absurd (
    omega (
      arith,
      sound.counted,
      e,
      total-set is_asleep s.consumers i c (record { left = c.left; place = gets }) at,
      ap is_asleep_in here,
    ))
task_done-lem all i item (suc unfinished) c s at here e sound = (ended, inr fewer)
  where
    d : Consumer
    d = record { left = c.left; place = gets }

    t : Loop
    t = record s { unfinished = unfinished; consumers = set s.consumers i d }

    same : total to_get t.consumers ≡ total to_get s.consumers
    same = omega (arith, total-set to_get s.consumers i c d at)

    one_less : total is_asleep s.consumers ≡ suc (total is_asleep t.consumers)
    one_less = omega (arith, total-set is_asleep s.consumers i c d at, ap is_asleep_in here)

    fewer : suc (work t) ≡ work s
    fewer = omega (arith, same, one_less)

    ended : IsSound all t
    ended = record {
      conserved = sound.conserved;
      counted = omega (arith, sound.counted, one_less, e);
      no_failure = omega (
        arith,
        sound.no_failure,
        total-set has_failed s.consumers i c d at,
        ap has_failed_in here,
      );
      balanced = omega (arith, sound.balanced, same);
    }

consume-lem :
    (all : ℕ → ℕ) (i : ℕ) (place : Place) (c : Consumer) (s : Loop)
    → get_elem? s.consumers i ≡ some c
    → c.place ≡ place
    → IsSound all s
    → IsSound all (consume i c.left place s)
      × Moves (WaitsToGet c.left place s) s (consume i c.left place s)
consume-lem all i gets c s at here sound = get-lem all i c.left s.queue c s at refl here refl sound
consume-lem all i (sleeps item) c s at here sound =
    task_done-lem all i item s.unfinished c s at here refl sound
consume-lem all i failed c s at here sound = (sound, inl (tt, refl))

-- A task that cannot go on, or that there is none of.
abbrev pub Waits : Task → Loop → Type 0
Waits (producer i) s = (p : Producer) → get_elem? s.producers i ≡ some p → WaitsToPut p.items s
Waits (consumer i) s =
    (c : Consumer) → get_elem? s.consumers i ≡ some c → WaitsToGet c.left c.place s

pub step-lem :
    (all : ℕ → ℕ) (t : Task) (s : Loop)
    → IsSound all s
    → IsSound all (step t s) × ((Waits t s × (step t s ≡ s)) ⊎ (suc (work (step t s)) ≡ work s))
unfolding step
step-lem all (producer i) s sound = elim (Option-cases (get_elem? s.producers i)) [
  | inl out ↦
      subst
        (λ o.
          IsSound all (put o)
          × ((Waits (producer i) s × (put o ≡ s)) ⊎ (suc (work (put o)) ≡ work s)))
        (sym out) (sound, inl ((λ p e. absurd cc), refl))
  | inr (p, at) ↦
      let (next, moves) = produce-lem all i p p.items s at refl sound in
      subst
        (λ o.
          IsSound all (put o)
          × ((Waits (producer i) s × (put o ≡ s)) ⊎ (suc (work (put o)) ≡ work s)))
        (sym at)
        (
          next,
          elim moves [
            | inl (waits, same) ↦
                inl ((λ q e. subst (λ r. WaitsToPut r.items s) (some_inj (sym at ∙ e)) waits), same)
            | inr fewer ↦ inr fewer
          ],
        )
]
  where
    put : Option Producer → Loop
    put o = elim o [ none ↦ s | some p ↦ produce i p.items s ]
step-lem all (consumer i) s sound = elim (Option-cases (get_elem? s.consumers i)) [
  | inl out ↦
      subst
        (λ o.
          IsSound all (took o)
          × ((Waits (consumer i) s × (took o ≡ s)) ⊎ (suc (work (took o)) ≡ work s)))
        (sym out) (sound, inl ((λ c e. absurd cc), refl))
  | inr (c, at) ↦
      let (next, moves) = consume-lem all i c.place c s at refl sound in
      subst
        (λ o.
          IsSound all (took o)
          × ((Waits (consumer i) s × (took o ≡ s)) ⊎ (suc (work (took o)) ≡ work s)))
        (sym at)
        (
          next,
          elim moves [
            | inl (waits, same) ↦ inl (
              (λ d e. subst (λ r. WaitsToGet r.left r.place s) (some_inj (sym at ∙ e)) waits),
              same,
            )
            | inr fewer ↦ inr fewer
          ],
        )
]
  where
    took : Option Consumer → Loop
    took o = elim o [ none ↦ s | some c ↦ consume i c.left c.place s ]
