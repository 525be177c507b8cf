-- ===== src/Greenlet/Threads/Tests.antt =====
-- python/stackful_coroutine/greenlet_demo.py: the fallback on the coroutines of the demo.
use cocurrency.Common.{
  ℕ, ◌≡◌, ◌≢◌, ◌<◌, refl, inl, false, List, [], ◌∷◌, ◌++◌, length, if◌then◌else◌, ◌==◌, arith,
}
use cocurrency.Greenlet.Threads.{
  ThreadBasedCoro, joins, Mover, scheduler, thread, move, moves, begin, create_coro,
}
use cocurrency.Greenlet.Threads.Hang.{moves-hang}

-- `_demo_greenlet_fallback`
abbrev coros : ℕ → ThreadBasedCoro
coros i =
    if i == 1 then create_coro (1 ∷ 2 ∷ 3 ∷ 4 ∷ []) false else create_coro (1 ∷ 2 ∷ 3 ∷ []) false

-- Each thread moves as far as it can, between the moves of the scheduler.
abbrev round : List Mover
round =
    scheduler
    ∷ scheduler
    ∷ thread 0
    ∷ thread 0
    ∷ thread 0
    ∷ thread 1
    ∷ thread 1
    ∷ thread 1
    ∷ thread 2
    ∷ thread 2
    ∷ thread 2
    ∷ []

-- The demo prints two lines of each coroutine, and waits for A to end.
demo_waits :
    (moves
      (round ++ round ++ round ++ round ++ round ++ round)
      (begin (0 ∷ 1 ∷ 2 ∷ []) coros)).place
    ≡ joins (0 ∷ 1 ∷ 2 ∷ [])
unfolding moves move begin create_coro
demo_waits = refl

-- Of a coroutine with two lines, the end is seen.
short_ends :
    (moves
      (round ++ round ++ round ++ round)
      (begin (0 ∷ []) (λ i. create_coro (1 ∷ 2 ∷ []) false))).place
    ≡ joins []
unfolding moves move begin create_coro
short_ends = refl

moves-hang_example :
    ((moves (round ++ round) (begin (0 ∷ 1 ∷ 2 ∷ []) coros)).place ≢ joins [])
    × (0 < length ((moves (round ++ round) (begin (0 ∷ 1 ∷ 2 ∷ []) coros)).coros 0).target)
unfolding create_coro
moves-hang_example =
    moves-hang 0 (0 ∷ 1 ∷ 2 ∷ []) coros (inl refl) refl refl (omega arith) (round ++ round)
