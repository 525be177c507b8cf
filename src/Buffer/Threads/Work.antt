-- ===== src/Buffer/Threads/Work.antt =====
-- python/shared_memory_lock/thread_producer_consumer.py: what a turn does to the work that is left.
use mathlib.Core.Path.{subst}
use cocurrency.Common.{
  ℕ, zero, suc, ◌+◌, ◌*◌, ◌<◌, ◌≡◌, ◌⊎◌, inl, inr, refl, sym, ap, ◌∙◌, true, some, List, [], ◌∷◌,
  ◌++◌, length, length-append, get_elem?, set, length-set, if◌then◌else◌, Bool-cases, Option-cases,
  some_inj, arith,
}
use cocurrency.Common.Sums.{total, total-set, count, count-append}
use cocurrency.Buffer.{BoundedBuffer, stored, waits, get_from, attempt}
use cocurrency.Buffer.Threads.{Thread, producer, consumer}
use cocurrency.Buffer.Threads.Busy.{Busy, busy_put, busy_get, busy_produce, busy_consume, busy_turn}
use cocurrency.Buffer.Threads.Sleeps.{is_full}

abbrev pub to_get : ℕ → ℕ
to_get left = left

-- The calls that are left, but for the puts that have been done and not their gets.
abbrev pub work : Busy → ℕ
work s = 2 * total (length {A = ℕ}) s.producers + length s.buffer.buf

-- How often an item is a result, in the buffer, or still to be put.
abbrev pub copies : ℕ → Busy → ℕ
copies x s = count x s.results + count x s.buffer.buf + total (count x) s.producers

pub record IsSound (all : ℕ → ℕ) (s : Busy) : Type 0 where
  pub room : 0 < s.buffer.maxsize
  pub conserved : (x : ℕ) → copies x s ≡ all x
  pub balanced : total (length {A = ℕ}) s.producers + length s.buffer.buf ≡ total to_get s.consumers

-- A thread that cannot go on.
abbrev pub WaitsToPut : List ℕ → Busy → Type 0
WaitsToPut [] s = Unit
WaitsToPut (item ∷ items) s = is_full s.buffer ≡ true

abbrev pub Waits : Thread → Busy → Type 0
Waits (producer i) s = (items : List ℕ) → get_elem? s.producers i ≡ some items → WaitsToPut items s
Waits (consumer i) s =
    (left : ℕ) → get_elem? s.consumers i ≡ some left → (left ≡ 0) ⊎ (s.buffer.buf ≡ [])

-- The threads stay as many.
abbrev pub AreKept : Busy → Busy → Type 0
AreKept s t = (length t.producers ≡ length s.producers) × (length t.consumers ≡ length s.consumers)

-- What a turn comes to: the thread waits, or there is less work.
pub record Turns (W : Type 0) (all : ℕ → ℕ) (s t : Busy) : Type 0 where
  pub is_sound : IsSound all t
  pub are_kept : AreKept s t
  pub progress : (W × (t ≡ s)) ⊎ (work t < work s)

stays : (W : Type 0) (all : ℕ → ℕ) (s : Busy) → W → IsSound all s → Turns W all s s
stays W all s w sound = record {
  is_sound = sound;
  are_kept = (refl, refl);
  progress = inl (w, refl);
}

waits_as : {W V : Type 0} {all : ℕ → ℕ} {s t : Busy} → Turns W all s t → (W → V) → Turns V all s t
waits_as turns f = record {
  is_sound = turns.is_sound;
  are_kept = turns.are_kept;
  progress = elim turns.progress [ inl (w, same) ↦ inl (f w, same) | inr less ↦ inr less ];
}

produce-Turns :
    (all : ℕ → ℕ) (i : ℕ) (items : List ℕ) (s : Busy)
    → get_elem? s.producers i ≡ some items
    → IsSound all s
    → Turns (WaitsToPut items s) all s (busy_produce i (some items) s)
unfolding attempt
produce-Turns all i [] s at sound = stays Unit all s tt sound
produce-Turns all i (item ∷ items) s at sound = elim (Bool-cases (is_full s.buffer)) [
  | inl full ↦
      subst
        (λ b.
          Turns (is_full s.buffer ≡ true) all s
            (busy_put i items (if b then (waits, s.buffer) else (stored item, c)) s))
        (sym full) (stays (is_full s.buffer ≡ true) all s full sound)
  | inr room ↦
      subst
        (λ b.
          Turns (is_full s.buffer ≡ true) all s
            (busy_put i items (if b then (waits, s.buffer) else (stored item, c)) s))
        (sym room) puts
]
  where
    c : BoundedBuffer
    c = record s.buffer { buf = s.buffer.buf ++ item ∷ [] }

    t : Busy
    t = record s { buffer = c; producers = set s.producers i items }

    longer : length c.buf ≡ suc (length s.buffer.buf)
    longer = omega (arith, length-append s.buffer.buf (item ∷ []))

    one_less : total (length {A = ℕ}) s.producers ≡ suc (total (length {A = ℕ}) t.producers)
    one_less = omega (arith, total-set (length {A = ℕ}) s.producers i (item ∷ items) items at)

    puts : Turns (is_full s.buffer ≡ true) all s t
    puts = record {
      is_sound = record {
        room = sound.room;
        conserved = λ x. omega (
          arith,
          sound.conserved x,
          count-append x s.buffer.buf (item ∷ []),
          total-set (count x) s.producers i (item ∷ items) items at,
        );
        balanced = omega (arith, sound.balanced, longer, one_less);
      };
      are_kept = (length-set s.producers i items, refl);
      progress = inr (omega (arith, longer, one_less));
    }

consume-Turns :
    (all : ℕ → ℕ) (i left : ℕ) (buf : List ℕ) (s : Busy)
    → get_elem? s.consumers i ≡ some left
    → s.buffer.buf ≡ buf
    → IsSound all s
    → Turns ((left ≡ 0) ⊎ (s.buffer.buf ≡ [])) all s (busy_consume i (some left) s)
unfolding attempt get_from
consume-Turns all i zero buf s at e sound = stays _ all s (inl refl) sound
consume-Turns all i (suc left) [] s at e sound =
    subst
      (λ buf.
        Turns ((suc left ≡ 0) ⊎ (s.buffer.buf ≡ [])) all s
          (busy_get i left (get_from buf s.buffer) s))
      (sym e) (stays _ all s (inr e) sound)
consume-Turns all i (suc left) (x ∷ xs) s at e sound =
    subst
      (λ buf.
        Turns ((suc left ≡ 0) ⊎ (s.buffer.buf ≡ [])) all s
          (busy_get i left (get_from buf s.buffer) s))
      (sym e) gets
  where
    t : Busy
    t = record s {
      buffer = record s.buffer { buf = xs };
      results = s.results ++ x ∷ [];
      consumers = set s.consumers i left;
    }

    shorter : length s.buffer.buf ≡ suc (length xs)
    shorter = ap (length {A = ℕ}) e

    one_less : total to_get s.consumers ≡ suc (total to_get t.consumers)
    one_less = omega (arith, total-set to_get s.consumers i (suc left) left at)

    gets : Turns ((suc left ≡ 0) ⊎ (s.buffer.buf ≡ [])) all s t
    gets = record {
      is_sound = record {
        room = sound.room;
        conserved = λ y.
            omega (arith, sound.conserved y, count-append y s.results (x ∷ []), ap (count y) e);
        balanced = omega (arith, sound.balanced, shorter, one_less);
      };
      are_kept = (refl, length-set s.consumers i left);
      progress = inr (omega (arith, shorter));
    }

pub busy_turn-Turns :
    (all : ℕ → ℕ) (w : Thread) (s : Busy) → IsSound all s → Turns (Waits w s) all s (busy_turn w s)
unfolding busy_turn
busy_turn-Turns all (producer i) s sound = elim (Option-cases (get_elem? s.producers i)) [
  | inl out ↦
      subst (λ o. Turns (Waits (producer i) s) all s (busy_produce i o s)) (sym out)
        (stays _ all s (λ items at. absurd cc) sound)
  | inr (items, at) ↦
      subst (λ o. Turns (Waits (producer i) s) all s (busy_produce i o s)) (sym at)
        (waits_as (produce-Turns all i items s at sound)
          (λ w others e. subst (λ items. WaitsToPut items s) (some_inj (sym at ∙ e)) w))
]
busy_turn-Turns all (consumer i) s sound = elim (Option-cases (get_elem? s.consumers i)) [
  | inl out ↦
      subst (λ o. Turns (Waits (consumer i) s) all s (busy_consume i o s)) (sym out)
        (stays _ all s (λ left at. absurd cc) sound)
  | inr (left, at) ↦
      subst (λ o. Turns (Waits (consumer i) s) all s (busy_consume i o s)) (sym at)
        (waits_as (consume-Turns all i left s.buffer.buf s at refl sound)
          (λ w other e. subst (λ left. (left ≡ 0) ⊎ (s.buffer.buf ≡ [])) (some_inj (sym at ∙ e)) w))
]
