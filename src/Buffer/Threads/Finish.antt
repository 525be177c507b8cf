-- ===== src/Buffer/Threads/Finish.antt =====
-- python/shared_memory_lock/thread_producer_consumer.py: the producers and the consumers all end.
use mathlib.Core.Path.{subst}
use cocurrency.Common.{
  get_elem?-lt, ℕ, ◌*◌, ◌≤◌, ◌<◌, ◌≡◌, ◌⊎◌, inl, inr, refl, sym, ap, ◌∙◌, false, List, [], ◌∷◌,
  ◌++◌, map, length, In, arith,
}
use cocurrency.Common.Sums.{total, total-zero, count}
use cocurrency.Buffer.Threads.{
  Thread, producer, consumer, take_turns, make_producers, make_consumers, start_threads,
}
use cocurrency.Buffer.Threads.Busy.{Busy, busy_turn, busy_turns, items_of, left_of, erase}
use cocurrency.Buffer.Threads.Sleeps.{is_full}
use cocurrency.Buffer.Threads.Work.{
  to_get, work, IsSound, WaitsToPut, Waits, Turns, busy_turn-Turns,
}
use cocurrency.Buffer.Threads.Refines.{take_turns-refines}

-- After some turns, those threads wait and nothing has changed, or there is less work.
busy_turns-Turns :
    (all : ℕ → ℕ) (ts : List Thread) (s : Busy)
    → IsSound all s
    → Turns ((t : Thread) → In t ts → Waits t s) all s (busy_turns ts s)
unfolding busy_turns
busy_turns-Turns all [] s sound = record {
  is_sound = sound;
  are_kept = (refl, refl);
  progress = inl ((λ t i. absurd i), refl);
}
busy_turns-Turns all (t ∷ ts) s sound =
    let first = busy_turn-Turns all t s sound in
    let rest = busy_turns-Turns all ts (busy_turn t s) first.is_sound in
    record {
      is_sound = rest.is_sound;
      are_kept = (rest.are_kept.0 ∙ first.are_kept.0, rest.are_kept.1 ∙ first.are_kept.1);
      progress = elim first.progress [
        | inr less ↦ inr (elim rest.progress [
          | inl (others, same) ↦ omega (arith, less, ap work same)
          | inr more ↦ omega (arith, less, more)
        ])
        | inl (here, same) ↦ elim rest.progress [
          | inl (others, stays) ↦ inl (
            (λ u i. elim i [
              | inl e ↦ subst (λ u. Waits u s) (sym e) here
              | inr later ↦ subst (Waits u) same (others u later)
            ]),
            stays ∙ same,
          )
          | inr more ↦ inr (omega (arith, more, ap work same))
        ]
      ];
    }

put-zero :
    (items : List ℕ) (s : Busy) → is_full s.buffer ≡ false → WaitsToPut items s → length items ≡ 0
put-zero [] s room w = refl
put-zero (item ∷ items) s room w = absurd (cc (sym room ∙ w))

get-zero :
    (left x : ℕ) (xs : List ℕ) (s : Busy)
    → s.buffer.buf ≡ x ∷ xs
    → (left ≡ 0) ⊎ (s.buffer.buf ≡ [])
    → left ≡ 0
get-zero left x xs s e (inl none_left) = none_left
get-zero left x xs s e (inr empty) = absurd (cc (sym e ∙ empty))

-- While all threads wait, there is no work left.
waiting-work :
    (all : ℕ → ℕ) (buf : List ℕ) (s : Busy)
    → s.buffer.buf ≡ buf
    → IsSound all s
    → ((t : Thread) → Waits t s)
    → work s ≡ 0
waiting-work all [] s e sound all_wait =
    let room : is_full s.buffer ≡ false = ground (arith, ap (length {A = ℕ}) e, sound.room) in
    let puts : total (length {A = ℕ}) s.producers ≡ 0 =
      total-zero (length {A = ℕ}) s.producers
        (λ i items at. put-zero items s room (all_wait (producer i) items at)) in
    omega (arith, puts, ap (length {A = ℕ}) e)
waiting-work all (x ∷ xs) s e sound all_wait =
    let none_left : total to_get s.consumers ≡ 0 =
      total-zero to_get s.consumers
        (λ i left at. get-zero left x xs s e (all_wait (consumer i) left at)) in
    absurd (omega (arith, none_left, sound.balanced, ap (length {A = ℕ}) e))

-- A round: every thread has a turn.
abbrev pub HasTurns : ℕ → ℕ → List Thread → Type 0
HasTurns producers consumers ts =
    ((i : ℕ) → i < producers → In (producer i) ts) × ((i : ℕ) → i < consumers → In (consumer i) ts)

abbrev pub AreRounds : ℕ → ℕ → List (List Thread) → Type 0
AreRounds producers consumers [] = Unit
AreRounds producers consumers (ts ∷ rounds) =
    HasTurns producers consumers ts × AreRounds producers consumers rounds

abbrev pub turns_of : List (List Thread) → List Thread
turns_of [] = []
turns_of (ts ∷ rounds) = ts ++ turns_of rounds

busy_turns-append :
    (ts us : List Thread) (s : Busy) → busy_turns (ts ++ us) s ≡ busy_turns us (busy_turns ts s)
unfolding busy_turns
busy_turns-append [] us s = refl
busy_turns-append (t ∷ ts) us s = busy_turns-append ts us (busy_turn t s)

each-Waits :
    (ts : List Thread) (s : Busy)
    → HasTurns (length s.producers) (length s.consumers) ts
    → ((t : Thread) → In t ts → Waits t s)
    → (t : Thread) → Waits t s
each-Waits ts s turns here (producer i) =
    λ items at. here (producer i) (turns.0 i (get_elem?-lt s.producers i items at)) items at
each-Waits ts s turns here (consumer i) =
    λ left at. here (consumer i) (turns.1 i (get_elem?-lt s.consumers i left at)) left at

rounds-lem :
    (all : ℕ → ℕ) (m n : ℕ) (rounds : List (List Thread)) (s : Busy)
    → IsSound all s
    → length s.producers ≡ m
    → length s.consumers ≡ n
    → AreRounds m n rounds
    → work s ≤ length rounds
    → IsSound all (busy_turns (turns_of rounds) s) × (work (busy_turns (turns_of rounds) s) ≡ 0)
unfolding busy_turns
rounds-lem all m n [] s sound ms ns are enough = (sound, omega (arith, enough))
rounds-lem all m n (ts ∷ rounds) s sound ms ns (turns, are) enough =
    let first = busy_turns-Turns all ts s sound in
    let fewer : work (busy_turns ts s) ≤ length rounds = elim first.progress [
      | inl (here, same) ↦
          let turns' =
            subst (λ n. HasTurns (length s.producers) n ts) (sym ns)
              (subst (λ m. HasTurns m n ts) (sym ms) turns) in
          let done = waiting-work all s.buffer.buf s refl sound (each-Waits ts s turns' here) in
          omega (arith, done, ap work same)
      | inr less ↦ omega (arith, less, enough)
    ] in
    let rest =
      rounds-lem all m n rounds (busy_turns ts s) first.is_sound (first.are_kept.0 ∙ ms)
        (first.are_kept.1 ∙ ns) are fewer in
    subst (λ t. IsSound all t × (work t ≡ 0)) (sym (busy_turns-append ts (turns_of rounds) s)) rest

-- What is to be put and got at the beginning.
abbrev pub count_all : ℕ → List (List ℕ) → ℕ
count_all x items = total (count x) items

map-items_of : (items : List (List ℕ)) → map items_of (make_producers items) ≡ items
map-items_of [] = refl
map-items_of (x ∷ xs) = ap (λ ys. x ∷ ys) (map-items_of xs)

map-left_of : (counts : List ℕ) → map left_of (make_consumers counts) ≡ counts
map-left_of [] = refl
map-left_of (n ∷ ns) = ap (λ ms. n ∷ ms) (map-left_of ns)

-- Producers for lists of items and consumers for counts that add up, on a buffer of size 1 or more:
-- whatever the order of their turns, once every thread has had a turn in each of twice as many rounds
-- as there are items, all have ended, the buffer is empty, and each number is among the results as often
-- as among the items.
pub take_turns-finish :
    (maxsize : ℕ) (items : List (List ℕ)) (counts : List ℕ)
    → 0 < maxsize
    → total (length {A = ℕ}) items ≡ total to_get counts
    → (rounds : List (List Thread)) → AreRounds (length items) (length counts) rounds
    → 2 * total (length {A = ℕ}) items ≤ length rounds
    → (total
          (length {A = ℕ})
          (erase (take_turns (turns_of rounds) (start_threads maxsize items counts))).producers
        ≡ 0)
      × (total to_get
            (erase (take_turns (turns_of rounds) (start_threads maxsize items counts))).consumers
          ≡ 0)
      × (length (take_turns (turns_of rounds) (start_threads maxsize items counts)).buffer.buf ≡ 0)
      × ((x : ℕ)
          → count x (take_turns (turns_of rounds) (start_threads maxsize items counts)).results
            ≡ count_all x items)
unfolding start_threads
take_turns-finish maxsize items counts pos same rounds are enough =
    let first : Busy = erase (start_threads maxsize items counts) in
    let puts : total (length {A = ℕ}) first.producers ≡ total (length {A = ℕ}) items =
      ap (total (length {A = ℕ})) (map-items_of items) in
    let takes : total to_get first.consumers ≡ total to_get counts =
      ap (total to_get) (map-left_of counts) in
    let (sound, done) =
      rounds-lem (λ x. count_all x items) (length items) (length counts) rounds first
        (record {
          room = pos;
          conserved = λ x. omega (arith, ap (total (count x)) (map-items_of items));
          balanced = omega (arith, puts, takes, same);
        })
        (ap (length {A = List ℕ}) (map-items_of items)) (ap (length {A = ℕ}) (map-left_of counts))
        are (omega (arith, enough, puts)) in
    let last : Busy = busy_turns (turns_of rounds) first in
    let ended : (total (length {A = ℕ}) last.producers ≡ 0)
        × (total to_get last.consumers ≡ 0)
        × (length last.buffer.buf ≡ 0)
        × ((x : ℕ) → count x last.results ≡ count_all x items) =
      (
        omega (arith, done),
        omega (arith, done, sound.balanced),
        omega (arith, done),
        λ x. omega (
          arith,
          sound.conserved x,
          none_counted x last.buffer.buf (omega (arith, done)),
          no_items x last.producers (omega (arith, done)),
        ),
      ) in
    subst
      (λ (t : Busy).
        (total (length {A = ℕ}) t.producers ≡ 0)
        × (total to_get t.consumers ≡ 0)
        × (length t.buffer.buf ≡ 0)
        × ((x : ℕ) → count x t.results ≡ count_all x items))
      (sym (take_turns-refines maxsize items counts (turns_of rounds))) ended
  where
    none_counted : (x : ℕ) (xs : List ℕ) → length xs ≡ 0 → count x xs ≡ 0
    none_counted x [] e = refl
    none_counted x (y ∷ ys) e = absurd (omega (arith, e))

    no_items : (x : ℕ) (ps : List (List ℕ)) → total (length {A = ℕ}) ps ≡ 0 → total (count x) ps ≡ 0
    no_items x [] e = refl
    no_items x (p ∷ ps) e =
        omega (arith, no_items x ps (omega (arith, e)), none_counted x p (omega (arith, e)))
