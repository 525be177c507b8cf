-- ===== src/Servers/Reactor/Register.antt =====
-- python/io_multiplexing/nio_reactor_server.py: what the reactor's methods register with the loop.
use cocurrency.Common.{
  ℕ, ◌≡◌, refl, ap, ◌∙◌, true, false, Option, none, some, if◌then◌else◌, ◌==◌, arith,
}
use cocurrency.Servers.{Map, set, pop}
use cocurrency.Servers.Reactor.{
  Callback, Loop, CancelHandle, Reactor, cancel_reader, cancel_writer, add_read_watcher,
  add_write_watcher, register_read, register_write, unregister_write, unregister_all,
}

-- The handle that removes what is registered.
abbrev pub handle_of : ℕ → Option Callback → Option CancelHandle
handle_of fd none = none
handle_of fd (some c) = some (record { fd = fd; cancelled = false })

-- The abstract view of a reactor: a callback for the input, and one for the output, of each
-- descriptor. The reactor has an uncancelled handle for each callback of its loop, and no other.
pub record IsRegistered (readers writers : Map Callback) (r : Reactor) : Type 0 where
  pub attached : r.attached ≡ true
  pub reads : (j : ℕ) → r.loop.readers j ≡ readers j
  pub writes : (j : ℕ) → r.loop.writers j ≡ writers j
  pub read_handles : (j : ℕ) → r.read_watchers j ≡ handle_of j (readers j)
  pub write_handles : (j : ℕ) → r.write_watchers j ≡ handle_of j (writers j)

-- Cancelling what is registered for a descriptor takes it out of the loop.
cancel_reader_lem :
    (k : ℕ) (c : Option Callback) (l : Loop) (j : ℕ)
    → l.readers k ≡ c
    → (cancel_reader (handle_of k c) l).readers j ≡ (if k == j then none else l.readers j)
cancel_reader_lem k none l j e = ground (arith, e)
cancel_reader_lem k (some c) l j e = refl

cancel_writer_lem :
    (k : ℕ) (c : Option Callback) (l : Loop) (j : ℕ)
    → l.writers k ≡ c
    → (cancel_writer (handle_of k c) l).writers j ≡ (if k == j then none else l.writers j)
cancel_writer_lem k none l j e = ground (arith, e)
cancel_writer_lem k (some c) l j e = refl

cancel_reader-writers :
    (h : Option CancelHandle) (l : Loop) → (cancel_reader h l).writers ≡ l.writers
cancel_reader-writers none l = refl
cancel_reader-writers (some h) l = ground arith

cancel_writer-readers :
    (h : Option CancelHandle) (l : Loop) → (cancel_writer h l).readers ≡ l.readers
cancel_writer-readers none l = refl
cancel_writer-readers (some h) l = ground arith

handle_of-set :
    (k j : ℕ) (c : Callback) (m : Map Callback)
    → handle_of j (set k c m j)
      ≡ (if k == j then some (record { fd = k; cancelled = false }) else handle_of j (m j))
handle_of-set k j c m = ground arith

handle_of-pop :
    (k j : ℕ) (m : Map Callback)
    → handle_of j (pop k m j) ≡ (if k == j then none else handle_of j (m j))
handle_of-pop k j m = ground arith

module _ (k : ℕ) {f g : Map Callback} {r : Reactor} (is : IsRegistered f g r) where
  cancelled_readers : (j : ℕ) → (cancel_reader (r.read_watchers k) r.loop).readers j ≡ pop k f j
  cancelled_readers j =
      ap (λ h. (cancel_reader h r.loop).readers j) (is.read_handles k)
      ∙ cancel_reader_lem k (f k) r.loop j (is.reads k)
      ∙ ap (λ c. if k == j then none else c) (is.reads j)

  cancelled_writers :
      (j : ℕ) (l : Loop)
      → ((i : ℕ) → l.writers i ≡ r.loop.writers i)
      → (cancel_writer (r.write_watchers k) l).writers j ≡ pop k g j
  cancelled_writers j l same =
      ap (λ h. (cancel_writer h l).writers j) (is.write_handles k)
      ∙ cancel_writer_lem k (g k) l j (same k ∙ is.writes k)
      ∙ ap (λ c. if k == j then none else c) (same j ∙ is.writes j)

  pub register_read-IsRegistered : (c : Callback) → IsRegistered (set k c f) g (register_read k c r)
  unfolding register_read add_read_watcher
  register_read-IsRegistered c = rw is.attached (record {
    attached = refl;
    reads = λ j. ground (arith, cancelled_readers j);
    writes = λ j.
        ap (λ (m : Map Callback). m j) (cancel_reader-writers (r.read_watchers k) r.loop)
        ∙ is.writes j;
    read_handles = λ j. ground (arith, is.read_handles j);
    write_handles = is.write_handles;
  })

  pub register_write-IsRegistered :
      (c : Callback) → IsRegistered f (set k c g) (register_write k c r)
  unfolding register_write add_write_watcher
  register_write-IsRegistered c = rw is.attached (record {
    attached = refl;
    reads = λ j.
        ap (λ (m : Map Callback). m j) (cancel_writer-readers (r.write_watchers k) r.loop)
        ∙ is.reads j;
    writes = λ j. ground (arith, cancelled_writers j r.loop (λ i. refl));
    read_handles = is.read_handles;
    write_handles = λ j. ground (arith, is.write_handles j);
  })

  pub unregister_write-IsRegistered : IsRegistered f (pop k g) (unregister_write k r)
  unfolding unregister_write
  unregister_write-IsRegistered = record {
    attached = is.attached;
    reads = λ j.
        ap (λ (m : Map Callback). m j) (cancel_writer-readers (r.write_watchers k) r.loop)
        ∙ is.reads j;
    writes = λ j. cancelled_writers j r.loop (λ i. refl);
    read_handles = is.read_handles;
    write_handles = λ j. ground (arith, is.write_handles j);
  }

  pub unregister_all-IsRegistered : IsRegistered (pop k f) (pop k g) (unregister_all k r)
  unfolding unregister_all
  unregister_all-IsRegistered =
      let l = cancel_reader (r.read_watchers k) r.loop in
      record {
        attached = is.attached;
        reads = λ j.
            ap (λ (m : Map Callback). m j) (cancel_writer-readers (r.write_watchers k) l)
            ∙ cancelled_readers j;
        writes = λ j. cancelled_writers j l (λ i.
            ap (λ (m : Map Callback). m i) (cancel_reader-writers (r.read_watchers k) r.loop));
        read_handles = λ j. ground (arith, is.read_handles j);
        write_handles = λ j. ground (arith, is.write_handles j);
      }
