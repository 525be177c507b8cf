-- ===== src/Lib.antt =====
-- The Python programs of the repository, python/: one small program for each way of running things
-- concurrently, or of suspending and resuming them. The programs do not call each other, apart from the
-- test client that the socket servers share; each is a component here, with the state it keeps as a
-- record, its methods as functions on that state, and its threads as sequences of steps in any order.
--
-- What models what:
-- - Stm: python/stm/stm_model.py. A TVar is `Tvar` in a `Store`, Transaction a record of dicts,
--   atomically a loop of rounds (`attempt`) during which other threads change the store: every read
--   and both validations take a moment of a `history`. Stm/Commit is about commit, Stm/Snapshot about
--   serialisability, Stm/Transfer about stm_bank_transfer, Stm/Anomaly about _or_else and what
--   goes wrong, Stm/Local about a thread that is alone. Stm/Nested is a second model, of one thread with
--   its current transaction and with transactions inside transactions; Agrees is its theorem.
-- - Bank: python/shared_memory_lock/bank_account.py. A method that holds a lock is one step; Bank/Money
--   is about balances, Bank/Workload about the threads that deposit and transfer, Bank/Locks about
--   threads that stand anywhere in transfer.
-- - Buffer: python/shared_memory_lock/thread_producer_consumer.py. The parent, Live and Progress are
--   about any calls, those that can run and those that wait on the condition; a list of places says
--   who gets the lock next. Buffer/Threads are the threads producer and consumer, with those that
--   sleep: Busy are the same threads without sleep, Sleeps and Refines compare the two, Work and
--   Finish show that they end.
-- - Csp: python/csp/channel_demo.py. The calls of a Channel in the order in which they get its lock.
--   Csp/Workers are the threads that send and receive: Turns and Pair are about one of each, Ends
--   about a closed channel.
-- - Actor: python/actor/print_server.py. The mailbox, the terminal and the reply queues, with the calls
--   of clients and the turns of the server's thread in any order.
-- - Servers: python/io_multiplexing. The parent has bytes, dicts by descriptor, and the results of
--   the calls of the operating system, which are arguments; Servers/Select is select_server.py,
--   Servers/Poll is poll_server.py, Servers/Epoll is epoll_server.py; a handler of these goes on or is
--   left by an exception (`Ran`). Servers/Reactor is nio_reactor_server.py: its Register compares the
--   watchers with two maps of callbacks, Serving and Echo are about the server, Drain about answers that
--   are sent in parts. Servers/Proactor is proactor_server.py, with its two variants.
-- - Asyncio: python/stackless_coroutine/asyncio_producer_consumer.py. A move of a task is its code from
--   one await to the next. Asyncio/Conserved and Begin have what holds between moves, Waiting the
--   tasks that can not go on, Gathers the end.
-- - Greenlet: python/stackful_coroutine/greenlet_demo.py. The scheduler over greenlets: Traces and Turns
--   are about one pass, Ends and Fair about runs. Greenlet/Threads is the fallback on threads.
-- - T9: python/t9_combinations.py. The five versions of the letter combinations, the one with closures
--   in a heap included.
-- - Continuation: python/continuation_cps/continuation_cps.py. Continuation-passing style, the
--   trampoline, and call_cc by exceptions.
-- - Fibonacci: python/stackless_coroutine/yield_fibonacci.py. The generators, by the values they yield.
-- - Frames: python/stackless_coroutine/stackless_vs_stackful.py. The chain of generators and the machine
--   with an explicit stack of frames.
-- - Common: lists, options, integers and dicts that several components use.
--
-- Numbers: Python's integers are ℤ where they can be negative, and ℕ for lengths, versions and
-- descriptors; neither has a width. Fuel: the trampoline of Continuation and the machine of Frames run
-- on a number of rounds, with theorems that say which number is enough; `atomically` takes the number
-- of its rounds, and each theorem about it holds for every number, or says which is enough; the
-- scheduler of Greenlet runs for a number of passes, and as many as its coroutines have pieces of
-- code are enough. All other loops go through a list, or through the calls, events or moves that are made.
--
-- Not modelled: time, sleeping and printing (but for lines that a program is about); the depth of
-- Python's stack; the binding of sockets and what asyncio does to start and to end a server; the
-- benchmarks, demonstrations and tests, but for the coroutines and the schedulers that they set up.
pub mod Common
pub mod T9
pub mod Continuation
pub mod Fibonacci
pub mod Frames
pub mod Stm
pub mod Asyncio
pub mod Bank
pub mod Csp
pub mod Buffer
pub mod Actor
pub mod Servers
pub mod Greenlet
