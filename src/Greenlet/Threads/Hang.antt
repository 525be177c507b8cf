-- ===== src/Greenlet/Threads/Hang.antt =====
-- python/stackful_coroutine/greenlet_demo.py: `ThreadScheduler.run` resumes each coroutine once, and
-- then waits for its end.
use mathlib.Core.Path.{subst}
use cocurrency.Common.{
  ℕ, suc, ◌≤◌, ◌<◌, ◌≡◌, ◌≢◌, inl, inr, refl, sym, List, [], ◌∷◌, length, In, arith,
}
use cocurrency.Greenlet.Threads.{
  Message, Place, unstarted, before_line, before_suspended, waits_for_resume, at_end, returned,
  before_dead, ended, ThreadBasedCoro, RunPlace, starts, before_put, waits_for_message, joins,
  runtime_error, ThreadScheduler, start, put_args, get_message, join, move_run, Mover, scheduler,
  thread, move, moves, begin,
}
use cocurrency.Greenlet.Threads.Lost.{
  count, resumes, Prints, IsJoined, IsLost, set_coro-IsLost, place_at, goes_to, not-IsLost,
  move_thread-IsLost,
}

-- The scheduler goes on to another place.
run_goes :
    (c : ℕ) (ready : List ℕ) (p q : RunPlace) (x : ThreadBasedCoro)
    → IsJoined c q
    → resumes c q ≤ resumes c p
    → IsLost c ready p x
    → IsLost c ready q x
run_goes c ready p q x joined fewer lost = record {
  is_ready = lost.is_ready;
  is_joined = joined;
  prints = lost.prints;
  is_prints = lost.is_prints;
  short = omega (arith, lost.short, fewer);
}

start-IsLost :
    (c d : ℕ) (ds : List ℕ) (place : Place) (s : ThreadScheduler)
    → (s.coros d).place ≡ place
    → IsLost c s.ready (starts (d ∷ ds)) (s.coros c)
    → IsLost c (start d ds place s).ready (start d ds place s).place ((start d ds place s).coros c)
start-IsLost c d ds unstarted s e lost =
    let next =
      run_goes c s.ready (starts (d ∷ ds)) (before_put d ds) (s.coros c) tt (omega arith) lost in
    set_coro-IsLost c d (before_put d ds) (record (s.coros d) { place = before_line }) s
      (λ same.
        goes_to c s.ready (before_put d ds) unstarted (s.coros d)
          (record (s.coros d) { place = before_line }) e (λ n h. h) refl refl
          (subst (λ j. IsLost c s.ready (before_put d ds) (s.coros j)) (sym same) next))
      (λ other. next)
start-IsLost c d ds before_line s e lost =
    run_goes c s.ready (starts (d ∷ ds)) runtime_error (s.coros c) tt (omega arith) lost
start-IsLost c d ds before_suspended s e lost =
    run_goes c s.ready (starts (d ∷ ds)) runtime_error (s.coros c) tt (omega arith) lost
start-IsLost c d ds waits_for_resume s e lost =
    run_goes c s.ready (starts (d ∷ ds)) runtime_error (s.coros c) tt (omega arith) lost
start-IsLost c d ds at_end s e lost =
    run_goes c s.ready (starts (d ∷ ds)) runtime_error (s.coros c) tt (omega arith) lost
start-IsLost c d ds returned s e lost =
    run_goes c s.ready (starts (d ∷ ds)) runtime_error (s.coros c) tt (omega arith) lost
start-IsLost c d ds before_dead s e lost =
    run_goes c s.ready (starts (d ∷ ds)) runtime_error (s.coros c) tt (omega arith) lost
start-IsLost c d ds ended s e lost =
    run_goes c s.ready (starts (d ∷ ds)) runtime_error (s.coros c) tt (omega arith) lost

put_args-IsLost :
    (c d : ℕ) (ds : List ℕ) (s : ThreadScheduler)
    → IsLost c s.ready (before_put d ds) (s.coros c)
    → IsLost c s.ready (waits_for_message d ds) ((put_args d ds s).coros c)
put_args-IsLost c d ds s lost =
    set_coro-IsLost c d (waits_for_message d ds)
      (record (s.coros d) { resume_q = suc (s.coros d).resume_q }) s
      (λ same.
        put (subst (λ j. IsLost c s.ready (before_put d ds) (s.coros j)) (sym same) lost) same)
      (λ other.
        run_goes c s.ready (before_put d ds) (waits_for_message d ds) (s.coros c) tt (ground arith)
          lost)
  where
    put :
        IsLost c s.ready (before_put d ds) (s.coros d)
        → d ≡ c
        → IsLost c s.ready
            (waits_for_message d ds)
            (record (s.coros d) { resume_q = suc (s.coros d).resume_q })
    put here same =
        let more : count c (d ∷ ds) ≡ suc (count c ds) = ground (arith, same) in
        record {
          is_ready = here.is_ready;
          is_joined = tt;
          prints = here.prints;
          is_prints = here.is_prints;
          short = omega (arith, here.short, more);
        }

get_message-IsLost :
    (c d : ℕ) (ds : List ℕ) (ms : List Message) (s : ThreadScheduler)
    → s.place ≡ waits_for_message d ds
    → IsLost c s.ready s.place (s.coros c)
    → IsLost c
        (get_message d ds ms s).ready
        (get_message d ds ms s).place
        ((get_message d ds ms s).coros c)
get_message-IsLost c d ds [] s e lost = lost
get_message-IsLost c d ds (m ∷ ms) s e lost =
    let next =
      run_goes c s.ready (waits_for_message d ds) (starts ds) (s.coros c) tt (omega arith)
        (subst (λ p. IsLost c s.ready p (s.coros c)) e lost) in
    set_coro-IsLost c d (starts ds) (record (s.coros d) { sched_q = ms }) s
      (λ same.
        goes_to c s.ready (starts ds) (s.coros d).place (s.coros d)
          (record (s.coros d) { sched_q = ms }) refl (λ n h. h) refl refl
          (subst (λ j. IsLost c s.ready (starts ds) (s.coros j)) (sym same) next))
      (λ other. next)

join-IsLost :
    (c d : ℕ) (ds : List ℕ) (place : Place) (s : ThreadScheduler)
    → (s.coros d).place ≡ place
    → s.place ≡ joins (d ∷ ds)
    → IsLost c s.ready s.place (s.coros c)
    → IsLost c (join ds place s).ready (join ds place s).place ((join ds place s).coros c)
join-IsLost c d ds ended s e at lost =
    let at_join = subst (λ p. IsLost c s.ready p (s.coros c)) at lost in
    run_goes c s.ready (joins (d ∷ ds)) (joins ds) (s.coros c)
      (elim at_join.is_joined [
        | inl same ↦ absurd (
            not-IsLost c s.ready s.place ended (s.coros c) (place_at c d ended s e (sym same))
              (λ n h. h) lost)
        | inr later ↦ later
      ])
      (omega arith) at_join
join-IsLost c d ds unstarted s e at lost = lost
join-IsLost c d ds before_line s e at lost = lost
join-IsLost c d ds before_suspended s e at lost = lost
join-IsLost c d ds waits_for_resume s e at lost = lost
join-IsLost c d ds at_end s e at lost = lost
join-IsLost c d ds returned s e at lost = lost
join-IsLost c d ds before_dead s e at lost = lost

-- And when the scheduler moves.
move_run-IsLost :
    (c : ℕ) (p : RunPlace) (s : ThreadScheduler)
    → s.place ≡ p
    → IsLost c s.ready s.place (s.coros c)
    → IsLost c (move_run p s).ready (move_run p s).place ((move_run p s).coros c)
move_run-IsLost c (starts []) s e lost =
    run_goes c s.ready (starts []) (joins s.ready) (s.coros c) lost.is_ready (omega arith)
      (subst (λ p. IsLost c s.ready p (s.coros c)) e lost)
move_run-IsLost c (starts (d ∷ ds)) s e lost =
    start-IsLost c d ds (s.coros d).place s refl
      (subst (λ p. IsLost c s.ready p (s.coros c)) e lost)
move_run-IsLost c (before_put d ds) s e lost =
    put_args-IsLost c d ds s (subst (λ p. IsLost c s.ready p (s.coros c)) e lost)
move_run-IsLost c (waits_for_message d ds) s e lost =
    get_message-IsLost c d ds (s.coros d).sched_q s e lost
move_run-IsLost c (joins []) s e lost = lost
move_run-IsLost c (joins (d ∷ ds)) s e lost = join-IsLost c d ds (s.coros d).place s refl e lost
move_run-IsLost c runtime_error s e lost = lost

moves-IsLost :
    (c : ℕ) (ms : List Mover) (s : ThreadScheduler)
    → IsLost c s.ready s.place (s.coros c)
    → IsLost c (moves ms s).ready (moves ms s).place ((moves ms s).coros c)
unfolding moves move
moves-IsLost c [] s lost = lost
moves-IsLost c (scheduler ∷ ms) s lost =
    moves-IsLost c ms (move scheduler s) (move_run-IsLost c s.place s refl lost)
moves-IsLost c (thread d ∷ ms) s lost =
    moves-IsLost c ms (move (thread d) s) (move_thread-IsLost c d (s.coros d).place s refl lost)

-- A coroutine is ready, its code has at least two lines more than it is ready times, and no thread
-- has been started. However the threads and the scheduler move, `run` does not return, and the
-- coroutine does not come to the end of its code: it is never resumed after its start.
pub moves-hang :
    (c : ℕ) (ready : List ℕ) (coros : ℕ → ThreadBasedCoro)
    → In c ready
    → (coros c).place ≡ unstarted
    → (coros c).resume_q ≡ 0
    → suc (count c ready) < length (coros c).target
    → (ms : List Mover)
    → ((moves ms (begin ready coros)).place ≢ joins [])
      × (0 < length ((moves ms (begin ready coros)).coros c).target)
unfolding begin
moves-hang c ready coros i unstarted_yet empty long ms =
    let lost = moves-IsLost c ms (begin ready coros) (record {
      is_ready = i;
      is_joined = tt;
      prints = 1;
      is_prints = subst (Prints 1) (sym unstarted_yet) refl;
      short = omega (arith, long, empty);
    }) in
    ((λ e. subst (IsJoined c) e lost.is_joined), omega (arith, lost.short))
