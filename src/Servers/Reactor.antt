-- ===== src/Servers/Reactor.antt =====
-- python/io_multiplexing/nio_reactor_server.py: the reactor over an asyncio loop, the acceptor, and a
-- handler for each connection. A handler is a number, in the order of creation; its number names its
-- connection in `net`. The loop calls a callback only while it is registered.
pub mod Register
pub mod Serving
pub mod Echo
pub mod Drain
mod Tests
use cocurrency.Common.{
  ℕ, zero, suc, Bool, true, false, Option, none, some, List, [], ◌∷◌, ◌++◌, ◌==◌, if◌then◌else◌,
}
use cocurrency.Servers.{
  Map, set, pop, get_or, is_some, Bytes, drop, take, upper, Recv, bytes, reset, recv_blocks, Send,
  sends, broken, send_blocks, Net, hear, transmit,
}

-- The bound methods that are given to the loop.
pub data Callback : Type 0 where
  on_accept : Callback
  on_read : ℕ → Callback
  on_write : ℕ → Callback

-- What `add_reader` and `add_writer` have registered with the asyncio loop.
pub record Loop : Type 0 where
  pub readers : Map Callback
  pub writers : Map Callback

-- `_CancelHandle`; the dict that holds it says whether it removes a reader or a writer.
pub record CancelHandle : Type 0 where
  pub fd : ℕ
  pub cancelled : Bool

pub record Reactor : Type 0 where
  -- `_loop is not None`
  pub attached : Bool
  pub loop : Loop
  pub handlers : Map (Option Callback × Option Callback)
  pub read_watchers : Map CancelHandle
  pub write_watchers : Map CancelHandle

-- `Reactor()`
abbrev pub detached : Reactor
detached = record {
  attached = false;
  loop = record { readers = λ j. none; writers = λ j. none };
  handlers = λ j. none;
  read_watchers = λ j. none;
  write_watchers = λ j. none;
}

abbrev pub attach_loop : Reactor → Reactor
attach_loop r = record r { attached = true }

-- `cancel` of a handle in `_read_watchers`, which calls `remove_reader`.
abbrev pub cancel_read : CancelHandle → Loop → Loop
cancel_read h l = if h.cancelled then l else record l { readers = pop h.fd l.readers }

abbrev pub cancel_write : CancelHandle → Loop → Loop
cancel_write h l = if h.cancelled then l else record l { writers = pop h.fd l.writers }

-- `if fd in self._read_watchers: self._read_watchers[fd].cancel()`
abbrev pub cancel_reader : Option CancelHandle → Loop → Loop
cancel_reader none l = l
cancel_reader (some h) l = cancel_read h l

abbrev pub cancel_writer : Option CancelHandle → Loop → Loop
cancel_writer none l = l
cancel_writer (some h) l = cancel_write h l

-- `_add_read_watcher`
unfoldable pub add_read_watcher : ℕ → Callback → Reactor → Reactor
add_read_watcher fd callback r =
    let l = cancel_reader (r.read_watchers fd) r.loop in
    record r {
      loop = record l { readers = set fd callback l.readers };
      read_watchers = set fd (record { fd = fd; cancelled = false }) r.read_watchers;
    }

-- `_add_write_watcher`
unfoldable pub add_write_watcher : ℕ → Callback → Reactor → Reactor
add_write_watcher fd callback r =
    let l = cancel_writer (r.write_watchers fd) r.loop in
    record r {
      loop = record l { writers = set fd callback l.writers };
      write_watchers = set fd (record { fd = fd; cancelled = false }) r.write_watchers;
    }

unfoldable pub register_read : ℕ → Callback → Reactor → Reactor
register_read fd callback r =
    if r.attached
    then (let old = get_or (none, none) (r.handlers fd) in
        add_read_watcher fd callback
          (record r { handlers = set fd (some callback, old.1) r.handlers }))
    else r

unfoldable pub register_write : ℕ → Callback → Reactor → Reactor
register_write fd callback r =
    if r.attached
    then (let old = get_or (none, none) (r.handlers fd) in
        add_write_watcher fd callback
          (record r { handlers = set fd (old.0, some callback) r.handlers }))
    else r

unfoldable pub unregister_write : ℕ → Reactor → Reactor
unregister_write fd r = record r {
  loop = cancel_writer (r.write_watchers fd) r.loop;
  write_watchers = pop fd r.write_watchers;
}

unfoldable pub unregister_all : ℕ → Reactor → Reactor
unregister_all fd r = record r {
  loop = cancel_writer (r.write_watchers fd) (cancel_reader (r.read_watchers fd) r.loop);
  handlers = pop fd r.handlers;
  read_watchers = pop fd r.read_watchers;
  write_watchers = pop fd r.write_watchers;
}

pub record EchoHandler : Type 0 where
  pub fd : ℕ
  pub send_buf : Bytes
  pub closed : Bool

-- The server with its reactor and its handlers: those from `count` on are not made yet.
pub record NioReactorServer : Type 0 where
  pub server_fd : ℕ
  pub reactor : Reactor
  pub handlers : ℕ → EchoHandler
  pub count : ℕ
  pub net : Net

-- `self._handlers[n]` of the heap gets a new value.
abbrev pub set_handler : ℕ → EchoHandler → NioReactorServer → NioReactorServer
set_handler n h s = record s { handlers = λ j. if n == j then h else s.handlers j }

-- `NIOReactorServer.__init__`, with the descriptor of the socket that `start` binds.
abbrev pub create : ℕ → NioReactorServer
create fd = record {
  server_fd = fd;
  reactor = detached;
  handlers = λ j. record { fd = 0; send_buf = []; closed = true };
  count = 0;
  net = record { heard = λ j. []; wire = λ j. [] };
}

-- `serve_forever` up to `run_forever`: the loop is attached and the Acceptor is made.
unfoldable pub begin : NioReactorServer → NioReactorServer
begin s = record s { reactor = register_read s.server_fd on_accept (attach_loop s.reactor) }

-- `EchoHandler.__init__`
unfoldable pub create_handler : ℕ → NioReactorServer → NioReactorServer
create_handler fd s = record s {
  reactor = register_read fd (on_read s.count) s.reactor;
  handlers =
      λ j. if s.count == j then record { fd = fd; send_buf = []; closed = false } else s.handlers j;
  count = suc s.count;
}

-- `Acceptor.on_accept`, with the descriptors that `accept` returns before it blocks.
unfoldable pub accept_all : List ℕ → NioReactorServer → NioReactorServer
accept_all [] s = s
accept_all (fd ∷ fds) s = accept_all fds (create_handler fd s)

-- `EchoHandler._close`
unfoldable pub close : ℕ → NioReactorServer → NioReactorServer
close n s =
    let h = s.handlers n in
    if h.closed then s else record (set_handler n (record h { closed = true }) s) {
      reactor = unregister_all h.fd s.reactor;
    }

-- What `on_read` does with the bytes.
unfoldable pub echo : ℕ → Bytes → NioReactorServer → NioReactorServer
echo n bs s =
    let h = s.handlers n in
    record (set_handler n (record h { send_buf = h.send_buf ++ upper bs }) s) {
      reactor = register_write h.fd (on_write n) s.reactor;
      net = hear n bs s.net;
    }

unfoldable pub receive : ℕ → Recv → NioReactorServer → NioReactorServer
receive n (bytes []) s = close n s
receive n (bytes (b ∷ bs)) s = echo n (b ∷ bs) s
receive n reset s = close n s
receive n recv_blocks s = s

-- `EchoHandler.on_read`
unfoldable pub read : ℕ → Recv → NioReactorServer → NioReactorServer
read n r s = if (s.handlers n).closed then s else receive n r s

-- The end of `on_write`, when what is left is queued.
unfoldable pub settle : ℕ → Bytes → NioReactorServer → NioReactorServer
settle n [] s = record s { reactor = unregister_write (s.handlers n).fd s.reactor }
settle n (b ∷ bs) s = s

-- The queue, and the wire, when the first bytes of the queue are sent.
abbrev pub send_some : ℕ → ℕ → Bytes → NioReactorServer → NioReactorServer
send_some n k buf s = record (set_handler n (record (s.handlers n) { send_buf = drop k buf }) s) {
  net = transmit n (take k buf) s.net;
}

unfoldable pub flush : ℕ → Bytes → Send → NioReactorServer → NioReactorServer
flush n [] r s = settle n [] s
flush n (b ∷ bs) (sends zero) s = s
flush n (b ∷ bs) (sends (suc k)) s =
    settle n (drop (suc k) (b ∷ bs)) (send_some n (suc k) (b ∷ bs) s)
flush n (b ∷ bs) broken s = close n s
flush n (b ∷ bs) send_blocks s = s

-- `EchoHandler.on_write`
unfoldable pub write : ℕ → Send → NioReactorServer → NioReactorServer
write n r s = if (s.handlers n).closed then s else flush n (s.handlers n).send_buf r s

-- What the calls on a ready descriptor return.
pub record Ready : Type 0 where
  pub accepts : List ℕ
  pub recv : Recv
  pub send : Send

unfoldable pub call : Callback → Ready → NioReactorServer → NioReactorServer
call on_accept x s = accept_all x.accepts s
call (on_read n) x s = read n x.recv s
call (on_write n) x s = write n x.send s

-- The loop finds that a descriptor can be read, or written, and calls what is registered for it.
pub data Event : Type 0 where
  readable : ℕ → Ready → Event
  writable : ℕ → Ready → Event

abbrev pub call_if : Option Callback → Ready → NioReactorServer → NioReactorServer
call_if none x s = s
call_if (some c) x s = call c x s

unfoldable pub dispatch : Event → NioReactorServer → NioReactorServer
dispatch (readable fd x) s = call_if (s.reactor.loop.readers fd) x s
dispatch (writable fd x) s = call_if (s.reactor.loop.writers fd) x s

-- `run_forever`
unfoldable pub run : List Event → NioReactorServer → NioReactorServer
run [] s = s
run (e ∷ es) s = run es (dispatch e s)
