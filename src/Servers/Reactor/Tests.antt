-- ===== src/Servers/Reactor/Tests.antt =====
-- Tests of python/io_multiplexing/nio_reactor_server.py, and the theorems at concrete connections.
use cocurrency.Common.{◌≡◌, refl, false, none, some, List, [], ◌∷◌, arith}
use cocurrency.Servers.{bytes, reset, recv_blocks, sends, send_blocks, upper, upper_byte}
use cocurrency.Servers.Reactor.{
  on_read, NioReactorServer, create, begin, register_read, register_write, add_read_watcher,
  add_write_watcher, unregister_write, unregister_all, create_handler, accept_all, close, echo,
  receive, read, settle, flush, write, Event, readable, writable, call, dispatch, run,
}
use cocurrency.Servers.Reactor.Echo.{RunFresh, IsReactorEcho, run-IsReactorEcho}
use cocurrency.Servers.Reactor.Drain.{writable_all, run-drained}

-- Two clients come on 4 and 5; the first sends `hi!`, of which two bytes are sent back at once; the
-- second leaves.
abbrev events : List Event
events =
    readable 3 (record { accepts = 4 ∷ 5 ∷ []; recv = recv_blocks; send = send_blocks })
    ∷ readable 4 (record { accepts = []; recv = bytes (104 ∷ 105 ∷ 33 ∷ []); send = send_blocks })
    ∷ writable 4 (record { accepts = []; recv = recv_blocks; send = sends 2 })
    ∷ readable 5 (record { accepts = []; recv = reset; send = send_blocks })
    ∷ []

abbrev served : NioReactorServer
served = run events (begin (create 3))

served_state :
    (served.net.wire 0 ≡ 72 ∷ 73 ∷ [])
    × ((served.handlers 0).send_buf ≡ 33 ∷ [])
    × (served.reactor.loop.readers 4 ≡ some (on_read 0))
    × (served.reactor.loop.readers 5 ≡ none)
unfolding run dispatch call begin register_read register_write add_read_watcher add_write_watcher
    unregister_write unregister_all create_handler accept_all close echo receive read settle flush
    write upper_byte
served_state = (refl, refl, refl, refl)

events-RunFresh : RunFresh events (begin (create 3))
unfolding run dispatch call begin register_read register_write add_read_watcher add_write_watcher
    unregister_write unregister_all create_handler accept_all close echo receive read settle flush
    write upper_byte
events-RunFresh = (
  (
    ((λ e. absurd (omega arith)), (λ n o e. absurd (cc o))),
    (((λ e. absurd (omega arith)), (λ n o e. absurd (ground (arith, o, e)))), tt),
  ),
  (tt, (tt, (tt, tt))),
)

run-IsReactorEcho_example : IsReactorEcho served
run-IsReactorEcho_example = run-IsReactorEcho 3 events events-RunFresh

served-opened : (served.handlers 0).closed ≡ false
unfolding run dispatch call begin register_read register_write add_read_watcher add_write_watcher
    unregister_write unregister_all create_handler accept_all close echo receive read settle flush
    write upper_byte
served-opened = refl

run-drained_example :
    (run (writable_all (served.handlers 0).fd (0 ∷ 4 ∷ [])) served).net.wire 0
    ≡ upper (served.net.heard 0)
unfolding run dispatch call begin register_read register_write add_read_watcher add_write_watcher
    unregister_write unregister_all create_handler accept_all close echo receive read settle flush
    write upper_byte
run-drained_example =
    run-drained 3 0 events (0 ∷ 4 ∷ []) events-RunFresh served-opened (omega arith)
