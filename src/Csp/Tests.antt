-- ===== src/Csp/Tests.antt =====
-- Tests of python/csp/channel_demo.py, and the theorems about channels at concrete calls.
use cocurrency.Common.{◌≡◌, refl, true, false, List, [], ◌∷◌, ◌++◌, map, arith}
use cocurrency.Csp.{
  Channel, create, Call, send, recv, try_send, try_recv, close, sent, not_sent, received, ended,
  waits, channel_closed, returned, put_item, get_item, call, run,
}
use cocurrency.Csp.Fifo.{
  sent_items, received_items, run-fifo, IsBounded, run-IsBounded, run-closed, unbuffered_sends,
}

-- The test `test_try_send_try_recv`, and then `test_close_prevents_send`.
abbrev calls : List Call
calls = try_send 7 ∷ try_send 8 ∷ try_send 9 ∷ send 9 ∷ try_recv ∷ close ∷ send 2 ∷ recv ∷ recv ∷ []

calls_replies :
    (run calls (create 2)).0
    ≡ sent 7
      ∷ sent 8
      ∷ not_sent
      ∷ waits
      ∷ received 7
      ∷ returned
      ∷ channel_closed
      ∷ received 8
      ∷ ended
      ∷ []
unfolding run call put_item get_item
calls_replies = refl

run-fifo_example :
    [] ++ sent_items (run calls (create 2)).0
    ≡ received_items (run calls (create 2)).0 ++ (run calls (create 2)).1.buf
run-fifo_example = run-fifo calls (create 2)

run-IsBounded_example : IsBounded (run calls (create 2)).1
run-IsBounded_example = run-IsBounded calls (create 2) (λ p. omega arith)

abbrev shut : Channel
shut = record { maxsize = 3; buf = 1 ∷ 2 ∷ []; closed = true }

run-closed_example :
    ((run calls shut).1.closed ≡ true)
    × (sent_items (run calls shut).0 ≡ [])
    × (received_items (run calls shut).0 ++ (run calls shut).1.buf ≡ 1 ∷ 2 ∷ [])
run-closed_example = run-closed calls shut refl

unbuffered_sends_example :
    run (map send (1 ∷ 2 ∷ 3 ∷ [])) (create 0)
    ≡ (map sent (1 ∷ 2 ∷ 3 ∷ []), record { maxsize = 0; buf = 1 ∷ 2 ∷ 3 ∷ []; closed = false })
unbuffered_sends_example = unbuffered_sends (1 ∷ 2 ∷ 3 ∷ []) (create 0) refl refl
