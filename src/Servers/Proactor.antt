-- ===== src/Servers/Proactor.antt =====
-- python/io_multiplexing/proactor_server.py: the echo server by callbacks of a protocol, and by a
-- coroutine for each client. A transport, or a stream writer, is what has been written to it and
-- whether it is closed; asyncio calls back and resumes in any order.
pub mod Echo
pub mod Agree
mod Tests
use cocurrency.Common.{
  ℕ, zero, suc, Bool, true, false, Option, none, some, List, [], ◌∷◌, ◌++◌, ◌==◌, if◌then◌else◌,
}
use cocurrency.Servers.{Bytes, upper}

-- `asyncio.Transport`, and `asyncio.StreamWriter`.
pub record Writer : Type 0 where
  pub written : Bytes
  pub closed : Bool

abbrev pub open_writer : Writer
open_writer = record { written = []; closed = false }

-- `EchoProtocol`; its transport is set by `connection_made`.
pub record EchoProtocol : Type 0 where
  pub transport : Option Writer

-- What asyncio calls on a protocol; `lost` is `connection_lost`.
pub data Callback : Type 0 where
  connection_made : Callback
  data_received : Bytes → Callback
  eof_received : Callback
  lost : Callback

-- `transport.write`
abbrev pub write : Bytes → Writer → Writer
write bs w = record w { written = w.written ++ bs }

abbrev pub shut : Writer → Writer
shut w = record w { closed = true }

abbrev pub map_transport : (Writer → Writer) → EchoProtocol → EchoProtocol
map_transport f p = record { transport = elim p.transport [ none ↦ none | some w ↦ some (f w) ] }

-- After `eof_received`, which returns `False`, asyncio closes the transport.
unfoldable pub call : Callback → EchoProtocol → EchoProtocol
call connection_made p = record { transport = some open_writer }
call (data_received bs) p = map_transport (write (upper bs)) p
call eof_received p = map_transport shut p
call lost p = p

-- The protocols of all connections, one object for each, and their callbacks in the order in which
-- asyncio makes them.
abbrev pub Protocols : Type 0
Protocols = ℕ → EchoProtocol

-- `EchoProtocol()`, for each connection.
abbrev pub protocols : Protocols
protocols c = record { transport = none }

unfoldable pub run_callbacks : List (ℕ × Callback) → Protocols → Protocols
run_callbacks [] ps = ps
run_callbacks ((c, x) ∷ xs) ps = run_callbacks xs (λ j. if c == j then call x (ps j) else ps j)

-- Where a coroutine `_handle_client` waits.
pub data Phase : Type 0 where
  awaiting_read awaiting_drain awaiting_close finished : Phase

-- The locals of `_handle_client`; `heard` is what its reads have returned.
pub record Client : Type 0 where
  pub client_id : ℕ
  pub writer : Writer
  pub heard : Bytes
  pub phase : Phase

-- How an awaited call ends: `reader.read`, `writer.drain` and `writer.wait_closed` return, or one of
-- them raises ConnectionResetError or BrokenPipeError.
pub data Completion : Type 0 where
  read_done : Bytes → Completion
  drained : Completion
  connection_error : Completion
  close_done : Completion

-- The `finally` clause, up to its `await`.
abbrev pub leave : Client → Client
leave c = record c { writer = shut c.writer; phase = awaiting_close }

-- A coroutine that waits in this phase goes on to its next `await`; nothing else can end its wait.
unfoldable pub resume : Phase → Completion → Client → Client
resume awaiting_read (read_done []) c = leave c
resume awaiting_read (read_done (b ∷ bs)) c = record c {
  writer = write (upper (b ∷ bs)) c.writer;
  heard = c.heard ++ b ∷ bs;
  phase = awaiting_drain;
}
resume awaiting_read connection_error c = leave c
resume awaiting_drain drained c = record c { phase = awaiting_read }
resume awaiting_drain connection_error c = leave c
resume awaiting_close close_done c = record c { phase = finished }
resume awaiting_close connection_error c = record c { phase = finished }
resume phase completion c = c

pub record ProactorCoroutineServer : Type 0 where
  pub client_count : ℕ
  -- The coroutines, by their numbers; those above `client_count` have not begun.
  pub clients : ℕ → Client

abbrev pub create : ProactorCoroutineServer
create = record {
  client_count = 0;
  clients = λ n. record { client_id = n; writer = open_writer; heard = []; phase = finished };
}

-- What happens: a client connects, or the awaited call of a client ends.
pub data Event : Type 0 where
  connects : Event
  completes : ℕ → Completion → Event

unfoldable pub act : Event → ProactorCoroutineServer → ProactorCoroutineServer
act connects s =
    let id = suc s.client_count in
    record {
      client_count = id;
      clients = λ n.
          if id == n
          then record { client_id = id; writer = open_writer; heard = []; phase = awaiting_read }
          else s.clients n;
    }
act (completes k x) s = record s {
  clients = λ n. if k == n then resume (s.clients n).phase x (s.clients n) else s.clients n;
}

unfoldable pub run : List Event → ProactorCoroutineServer → ProactorCoroutineServer
run [] s = s
run (e ∷ es) s = run es (act e s)
