-- ===== src/Csp/Workers.antt =====
-- python/csp/channel_demo.py: the threads `_worker_sender` and `_worker_receiver`. A turn of a thread is
-- a round of the loop in `send` or `recv`, up to the next; the threads take their turns in any order. The append
-- to `results`, after the channel's lock has been given back, counts to the turn of the `recv`: `results`
-- is in the order in which the items were received.
pub mod Turns
pub mod Pair
pub mod Ends
mod Tests
use cocurrency.Common.{ℕ, zero, suc, List, [], ◌∷◌, ◌++◌, ◌==◌, if◌then◌else◌}
use cocurrency.Csp.{
  Channel, create, Call, send, recv, Reply, sent, not_sent, received, not_received, ended, waits,
  channel_closed, returned, size, call,
}

pub record System : Type 0 where
  pub channel : Channel
  -- What each sender has still to send, and how many items each receiver is still to receive.
  pub senders : ℕ → List ℕ
  pub receivers : ℕ → ℕ
  pub results : List ℕ

abbrev pub set_sender : ℕ → List ℕ → System → System
set_sender i items s = record s { senders = λ j. if i == j then items else s.senders j }

abbrev pub set_receiver : ℕ → ℕ → System → System
set_receiver i left s = record s { receivers = λ j. if i == j then left else s.receivers j }

-- After a round of `ch.send(item)`, with the items that come after it.
abbrev pub after_send : ℕ → List ℕ → Reply → System → System
after_send i items (sent item) s = set_sender i items s
after_send i items channel_closed s = set_sender i [] s
after_send i items other s = s

-- After a round of `ch.recv()`, with how many items come after this one.
abbrev pub after_recv : ℕ → ℕ → Reply → System → System
after_recv i left (received item) s = record (set_receiver i left s) {
  results = s.results ++ item ∷ [];
}
after_recv i left ended s = set_receiver i 0 s
after_recv i left other s = s

abbrev pub send_turn : ℕ → List ℕ → System → System
send_turn i [] s = s
send_turn i (item ∷ items) s =
    let (r, c) = call (send item) s.channel in after_send i items r (record s { channel = c })

abbrev pub recv_turn : ℕ → ℕ → System → System
recv_turn i zero s = s
recv_turn i (suc left) s =
    let (r, c) = call recv s.channel in after_recv i left r (record s { channel = c })

pub data Worker : Type 0 where
  sender : ℕ → Worker
  receiver : ℕ → Worker

unfoldable pub turn : Worker → System → System
turn (sender i) s = send_turn i (s.senders i) s
turn (receiver i) s = recv_turn i (s.receivers i) s

unfoldable pub run_workers : List Worker → System → System
run_workers [] s = s
run_workers (w ∷ ws) s = run_workers ws (turn w s)

-- A channel with one sender and one receiver, number 0 each.
abbrev pub one_pair : ℕ → List ℕ → ℕ → System
one_pair maxsize items count = record {
  channel = create maxsize;
  senders = λ j. if 0 == j then items else [];
  receivers = λ j. if 0 == j then count else 0;
  results = [];
}
