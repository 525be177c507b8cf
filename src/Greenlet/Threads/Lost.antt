-- ===== src/Greenlet/Threads/Lost.antt =====
-- python/stackful_coroutine/greenlet_demo.py: a coroutine that `ThreadScheduler` does not resume often
-- enough, while threads move.
use mathlib.Core.Path.{subst}
use cocurrency.Common.{
  ℕ, zero, suc, ◌+◌, ◌<◌, ◌≡◌, ◌≢◌, refl, sym, ap, ◌∙◌, false, List, [], ◌∷◌, length, if◌then◌else◌,
  ◌==◌, In, of_branches, arith,
}
use cocurrency.Greenlet.Threads.{
  suspended, done, error, Place, unstarted, before_line, before_suspended, waits_for_resume, at_end,
  returned, before_dead, ended, ThreadBasedCoro, RunPlace, starts, before_put, waits_for_message,
  joins, runtime_error, ThreadScheduler, set_coro, print_line, put_message, get_args, move_thread,
}

-- How often a coroutine is in the list.
abbrev pub count : ℕ → List ℕ → ℕ
count c [] = 0
count c (d ∷ ds) = if d == c then suc (count c ds) else count c ds

-- How often the scheduler is still going to resume it.
abbrev pub resumes : ℕ → RunPlace → ℕ
resumes c (starts ds) = count c ds
resumes c (before_put d ds) = count c (d ∷ ds)
resumes c (waits_for_message d ds) = count c ds
resumes c (joins ds) = 0
resumes c runtime_error = 0

-- Whether it can print a line before it is resumed; it never got to the end of its code.
abbrev pub Prints : ℕ → Place → Type 0
Prints n unstarted = n ≡ 1
Prints n before_line = n ≡ 1
Prints n before_suspended = n ≡ 0
Prints n waits_for_resume = n ≡ 0
Prints n at_end = ⊥
Prints n returned = ⊥
Prints n before_dead = ⊥
Prints n ended = ⊥

abbrev pub IsJoined : ℕ → RunPlace → Type 0
IsJoined c (joins ds) = In c ds
IsJoined c other = Unit

-- A coroutine that will not be resumed often enough to print its code.
pub record IsLost (c : ℕ) (ready : List ℕ) (p : RunPlace) (x : ThreadBasedCoro) : Type 0 where
  pub is_ready : In c ready
  pub is_joined : IsJoined c p
  pub prints : ℕ
  pub is_prints : Prints prints x.place
  pub short : prints + resumes c p + x.resume_q < length x.target

-- The coroutine itself changes, or another one.
pub set_coro-IsLost :
    (c d : ℕ) (p : RunPlace) (x : ThreadBasedCoro) (s : ThreadScheduler)
    → (d ≡ c → IsLost c s.ready p x)
    → (d ≢ c → IsLost c s.ready p (s.coros c))
    → IsLost c s.ready p ((set_coro d x s).coros c)
set_coro-IsLost c d p x s here there =
    of_branches (IsLost c s.ready p) (d == c) x (s.coros c) (λ e. here (ground arith))
      (λ e. there (λ e'. ground arith))

-- The place of the coroutine that moves.
pub place_at :
    (c d : ℕ) (p : Place) (s : ThreadScheduler)
    → (s.coros d).place ≡ p
    → d ≡ c
    → (s.coros c).place ≡ p
place_at c d p s e same = ap (λ j. (s.coros j).place) (sym same) ∙ e

-- It goes on to another place, with its code and what it was resumed as before.
pub goes_to :
    (c : ℕ) (ready : List ℕ) (p : RunPlace) (from_place : Place) (x y : ThreadBasedCoro)
    → x.place ≡ from_place
    → ((n : ℕ) → Prints n from_place → Prints n y.place)
    → y.target ≡ x.target
    → y.resume_q ≡ x.resume_q
    → IsLost c ready p x
    → IsLost c ready p y
goes_to c ready p from_place x y e next target resume_q lost = record {
  is_ready = lost.is_ready;
  is_joined = lost.is_joined;
  prints = lost.prints;
  is_prints = next lost.prints (subst (Prints lost.prints) e lost.is_prints);
  short = omega (arith, lost.short, ap (length {A = ℕ}) target, resume_q);
}

-- No coroutine that is lost is where its code has ended.
pub not-IsLost :
    (c : ℕ) (ready : List ℕ) (p : RunPlace) (place : Place) (x : ThreadBasedCoro)
    → x.place ≡ place
    → ((n : ℕ) → ¬ Prints n place)
    → ¬ IsLost c ready p x
not-IsLost c ready p place x e never lost =
    never lost.prints (subst (Prints lost.prints) e lost.is_prints)

prints_line :
    (c : ℕ) (ready : List ℕ) (p : RunPlace) (l m : ℕ) (ls : List ℕ) (x : ThreadBasedCoro)
    → x.place ≡ before_line
    → x.target ≡ l ∷ m ∷ ls
    → IsLost c ready p x
    → IsLost c ready p (record x { target = m ∷ ls; place = before_suspended })
prints_line c ready p l m ls x e target lost =
    let one : lost.prints ≡ 1 = subst (Prints lost.prints) e lost.is_prints in
    record {
      is_ready = lost.is_ready;
      is_joined = lost.is_joined;
      prints = 0;
      is_prints = refl;
      short = omega (arith, lost.short, one, ap (length {A = ℕ}) target);
    }

-- It has more than one line left.
more_lines :
    (c : ℕ) (ready : List ℕ) (p : RunPlace) (x : ThreadBasedCoro)
    → x.place ≡ before_line
    → IsLost c ready p x
    → 1 < length x.target
more_lines c ready p x e lost =
    let one : lost.prints ≡ 1 = subst (Prints lost.prints) e lost.is_prints in
    omega (arith, lost.short, one)

print_line-IsLost :
    (c d : ℕ) (target : List ℕ) (s : ThreadScheduler)
    → (s.coros d).place ≡ before_line
    → (s.coros d).target ≡ target
    → IsLost c s.ready s.place (s.coros c)
    → IsLost c
        (print_line d target s).ready
        (print_line d target s).place
        ((print_line d target s).coros c)
print_line-IsLost c d [] s e target lost =
    set_coro-IsLost c d s.place (record (s.coros d) { place = at_end }) s
      (λ same. absurd (
        omega (
          arith,
          more_lines c s.ready s.place (s.coros c) (place_at c d before_line s e same) lost,
          ap (λ j. length (s.coros j).target) same,
          ap (length {A = ℕ}) target,
        )))
      (λ other. lost)
print_line-IsLost c d (l ∷ []) s e target lost =
    set_coro-IsLost c d s.place (record (s.coros d) { target = []; place = at_end }) s
      (λ same. absurd (
        omega (
          arith,
          more_lines c s.ready s.place (s.coros c) (place_at c d before_line s e same) lost,
          ap (λ j. length (s.coros j).target) same,
          ap (length {A = ℕ}) target,
        )))
      (λ other. lost)
print_line-IsLost c d (l ∷ m ∷ ls) s e target lost =
    set_coro-IsLost c d s.place (record (s.coros d) { target = m ∷ ls; place = before_suspended }) s
      (λ same.
        prints_line c s.ready s.place l m ls (s.coros d) e target
          (subst (λ j. IsLost c s.ready s.place (s.coros j)) (sym same) lost))
      (λ other. lost)

get_args-IsLost :
    (c : ℕ) (ready : List ℕ) (p : RunPlace) (n : ℕ) (x : ThreadBasedCoro)
    → x.place ≡ waits_for_resume
    → x.resume_q ≡ n
    → IsLost c ready p x
    → IsLost c ready p (get_args n x)
get_args-IsLost c ready p zero x e args lost = lost
get_args-IsLost c ready p (suc n) x e args lost =
    let none_yet : lost.prints ≡ 0 = subst (Prints lost.prints) e lost.is_prints in
    record {
      is_ready = lost.is_ready;
      is_joined = lost.is_joined;
      prints = 1;
      is_prints = refl;
      short = omega (arith, lost.short, none_yet, args);
    }

-- A lost coroutine stays lost when a thread moves.
pub move_thread-IsLost :
    (c d : ℕ) (place : Place) (s : ThreadScheduler)
    → (s.coros d).place ≡ place
    → IsLost c s.ready s.place (s.coros c)
    → IsLost c
        (move_thread d place s).ready
        (move_thread d place s).place
        ((move_thread d place s).coros c)
move_thread-IsLost c d unstarted s e lost = lost
move_thread-IsLost c d before_line s e lost = print_line-IsLost c d (s.coros d).target s e refl lost
move_thread-IsLost c d before_suspended s e lost =
    set_coro-IsLost c d s.place (put_message suspended waits_for_resume (s.coros d)) s
      (λ same.
        goes_to c s.ready s.place before_suspended (s.coros d)
          (put_message suspended waits_for_resume (s.coros d)) e (λ n h. h) refl refl
          (subst (λ j. IsLost c s.ready s.place (s.coros j)) (sym same) lost))
      (λ other. lost)
move_thread-IsLost c d waits_for_resume s e lost =
    set_coro-IsLost c d s.place (get_args (s.coros d).resume_q (s.coros d)) s
      (λ same.
        get_args-IsLost c s.ready s.place (s.coros d).resume_q (s.coros d) e refl
          (subst (λ j. IsLost c s.ready s.place (s.coros j)) (sym same) lost))
      (λ other. lost)
move_thread-IsLost c d at_end s e lost =
    of_branches (λ t. IsLost c t.ready t.place (t.coros c)) (s.coros d).raises
      (set_coro d (put_message error before_dead (s.coros d)) s)
      (set_coro d (put_message done returned (s.coros d)) s)
      (λ fails. at_end_goes (put_message error before_dead (s.coros d)))
      (λ ends. at_end_goes (put_message done returned (s.coros d)))
  where
    at_end_goes : (x : ThreadBasedCoro) → IsLost c s.ready s.place ((set_coro d x s).coros c)
    at_end_goes x =
        set_coro-IsLost c d s.place x s
          (λ same. absurd (
            not-IsLost c s.ready s.place at_end (s.coros c) (place_at c d at_end s e same)
              (λ n h. h) lost))
          (λ other. lost)
move_thread-IsLost c d returned s e lost =
    set_coro-IsLost c d s.place (put_message done before_dead (s.coros d)) s
      (λ same. absurd (
        not-IsLost c s.ready s.place returned (s.coros c) (place_at c d returned s e same)
          (λ n h. h) lost))
      (λ other. lost)
move_thread-IsLost c d before_dead s e lost =
    set_coro-IsLost c d s.place (record (s.coros d) { is_alive = false; place = ended }) s
      (λ same. absurd (
        not-IsLost c s.ready s.place before_dead (s.coros c) (place_at c d before_dead s e same)
          (λ n h. h) lost))
      (λ other. lost)
move_thread-IsLost c d ended s e lost = lost
