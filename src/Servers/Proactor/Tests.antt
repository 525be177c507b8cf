-- ===== src/Servers/Proactor/Tests.antt =====
-- Tests of python/io_multiplexing/proactor_server.py, and the theorems at concrete connections.
use cocurrency.Common.{ℕ, ◌≡◌, refl, true, false, ◌||◌, some, List, [], ◌∷◌, arith}
use cocurrency.Servers.{Bytes, upper, upper_byte}
use cocurrency.Servers.Proactor.{
  Callback, connection_made, data_received, eof_received, protocols, run_callbacks, read_done,
  drained, connection_error, close_done, resume, create, Event, connects, completes, act, run,
}
use cocurrency.Servers.Proactor.Echo.{
  received_by, ended_by, run_callbacks-echo, IsEchoServer, run-IsProactorEcho,
}
use cocurrency.Servers.Proactor.Agree.{chunk_callbacks, chunk_completions, variants_agree}

-- Connection 2 between the calls of connection 1, which sends `hi` and ends its stream.
abbrev callbacks : List (ℕ × Callback)
callbacks =
    (2, connection_made)
    ∷ (1, data_received (104 ∷ []))
    ∷ (2, data_received (120 ∷ []))
    ∷ (1, data_received (105 ∷ []))
    ∷ (1, eof_received)
    ∷ []

run_callbacks-echo_example : run_callbacks ((1, connection_made) ∷ callbacks) protocols 1 ≡ record {
  transport = some (record {
    written = upper (received_by 1 callbacks);
    closed = ended_by 1 callbacks || false;
  });
}
run_callbacks-echo_example =
    run_callbacks-echo 1 callbacks protocols
      ((λ e. absurd (omega arith)), ((λ e. tt), ((λ e. tt), ((λ e. tt), ((λ e. tt), tt)))))

-- The first client sends `hi`; the connection of the second breaks.
abbrev events : List Event
events =
    connects
    ∷ completes 1 (read_done (104 ∷ 105 ∷ []))
    ∷ connects
    ∷ completes 2 connection_error
    ∷ completes 1 drained
    ∷ completes 1 (read_done [])
    ∷ completes 1 close_done
    ∷ []

events_written :
    ((run events create).clients 1).writer ≡ record { written = 72 ∷ 73 ∷ []; closed = true }
unfolding run act resume upper_byte
events_written = refl

run-IsProactorEcho_example : IsEchoServer (run events create)
run-IsProactorEcho_example = run-IsProactorEcho events

abbrev chunks : List (ℕ × Bytes)
chunks = (104, 105 ∷ []) ∷ (33, []) ∷ []

variants_agree_example :
    (run_callbacks ((7, connection_made) ∷ chunk_callbacks 7 chunks) protocols 7).transport
    ≡ some ((run (connects ∷ chunk_completions 1 chunks) create).clients 1).writer
variants_agree_example = variants_agree 7 chunks
