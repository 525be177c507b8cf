-- ===== src/Buffer/Tests.antt =====
-- Tests of python/shared_memory_lock/thread_producer_consumer.py, and the theorems at concrete
-- threads.
use cocurrency.Common.{ℕ, ◌≡◌, refl, List, [], ◌∷◌, arith}
use cocurrency.Buffer.{Call, put, get, get_from, attempt, turn, run, start}
use cocurrency.Buffer.Replies.{stored_items, got_items}
use cocurrency.Buffer.Live.{IsLive, run-IsLive, start-IsLive}
use cocurrency.Buffer.Progress.{balanced_finish}

-- Two consumers wait first, then the producers fill a buffer of one place.
abbrev calls : List Call
calls = get ∷ get ∷ put 4 ∷ put 5 ∷ []

abbrev order : List ℕ
order = 0 ∷ 0 ∷ 0 ∷ 0 ∷ 1 ∷ 0 ∷ 0 ∷ 0 ∷ []

order_idle : (run order (start 1 calls)).ready ≡ []
unfolding run turn attempt get_from
order_idle = refl

order_got : got_items (run order (start 1 calls)).replies ≡ 4 ∷ 5 ∷ []
unfolding run turn attempt get_from
order_got = refl

run-IsLive_example : IsLive (run order (start 1 calls))
run-IsLive_example = run-IsLive order (start 1 calls) (start-IsLive 1 calls refl)

balanced_finish_example :
    ((run order (start 1 calls)).waiting ≡ [])
    × (stored_items (run order (start 1 calls)).replies
        ≡ got_items (run order (start 1 calls)).replies)
balanced_finish_example = balanced_finish 1 calls order (omega arith) refl order_idle
