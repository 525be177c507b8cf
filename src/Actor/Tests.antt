-- ===== src/Actor/Tests.antt =====
-- Tests of python/actor/print_server.py, and the theorems at concrete clients.
use cocurrency.Common.{◌≡◌, refl, List, [], ◌∷◌, ◌++◌, arith}
use cocurrency.Actor.{
  create, start, output, handle, receive, serve, Event, tells, asks, stops, serves, act, run,
}
use cocurrency.Actor.Delivery.{
  messages, served, lines, answers, pending, run-lines, run-answers, turns, turns-pending,
  ask_after_stop,
}

abbrev before : List Event
before = tells (72 ∷ []) ∷ asks (73 ∷ []) ∷ serves ∷ []

-- Two jobs, a shutdown, and a client that comes too late.
abbrev events : List Event
events = before ++ stops ∷ asks (74 ∷ []) ∷ serves ∷ serves ∷ serves ∷ []

events_printed : (run events (start create)).printed ≡ output (72 ∷ []) ∷ output (73 ∷ []) ∷ []
unfolding run act serve receive handle
events_printed = refl

run-lines_example :
    (run events (start create)).printed ++ lines (pending (run events (start create)))
    ≡ lines (served (messages 0 events))
run-lines_example = run-lines events

run-answers_example :
    (run events (start create)).replies 0 ++ answers 0 (pending (run events (start create)))
    ≡ answers 0 (served (messages 0 events))
run-answers_example = run-answers 0 events

turns-pending_example : pending (run (turns 5) (start create)) ≡ []
turns-pending_example = turns-pending 5 (start create) (omega arith)

-- The server has served the Shutdown before the client asks.
ask_after_stop_example :
    (run
        ((before ++ stops ∷ serves ∷ serves ∷ []) ++ asks (74 ∷ []) ∷ serves ∷ [])
        (start create)).replies
      (run (before ++ stops ∷ serves ∷ serves ∷ []) (start create)).queues
    ≡ []
ask_after_stop_example = ask_after_stop before (serves ∷ serves ∷ []) (serves ∷ []) (74 ∷ [])
