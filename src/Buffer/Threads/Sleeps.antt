-- ===== src/Buffer/Threads/Sleeps.antt =====
-- python/shared_memory_lock/thread_producer_consumer.py: a producer sleeps only while the buffer is full, and
-- a consumer only while it is empty.
use cocurrency.Common.{
  ℕ, zero, suc, ◌≡◌, inl, inr, refl, sym, ap, ◌∙◌, Bool, true, false, some, List, [], ◌∷◌, ◌++◌,
  map, length, leb, get_elem?, set, Bool-cases, get_elem?-map-some, map-set, set_same, some_inj,
}
use cocurrency.Buffer.{BoundedBuffer, put, get, Reply, stored, got, waits, get_from, attempt}
use cocurrency.Buffer.Threads.{
  Producer, Consumer, Threads, wake_producer, wake_consumer, notify_all, after_put, after_get,
}
use cocurrency.Buffer.Threads.Busy.{Busy, busy_put, busy_get, items_of, left_of, erase}

abbrev pub is_full : BoundedBuffer → Bool
is_full b = leb b.maxsize (length b.buf)

-- A producer sleeps only while the buffer is full, and a consumer only while it is empty.
pub record IsRoused (s : Threads) : Type 0 where
  pub full :
      (i : ℕ) (p : Producer)
      → get_elem? s.producers i ≡ some p
      → p.asleep ≡ true
      → is_full s.buffer ≡ true
  pub empty :
      (i : ℕ) (c : Consumer)
      → get_elem? s.consumers i ≡ some c
      → c.asleep ≡ true
      → s.buffer.buf ≡ []

map-wake_producer : (ps : List Producer) → map items_of (map wake_producer ps) ≡ map items_of ps
map-wake_producer [] = refl
map-wake_producer (p ∷ ps) = ap (λ qs. p.items ∷ qs) (map-wake_producer ps)

map-wake_consumer : (cs : List Consumer) → map left_of (map wake_consumer cs) ≡ map left_of cs
map-wake_consumer [] = refl
map-wake_consumer (c ∷ cs) = ap (λ ds. c.left ∷ ds) (map-wake_consumer cs)

woken_producer :
    (ps : List Producer) (i : ℕ) (p : Producer)
    → get_elem? (map wake_producer ps) i ≡ some p
    → p.asleep ≡ false
woken_producer [] i p e = absurd cc
woken_producer (q ∷ qs) zero p e = ap (λ (r : Producer). r.asleep) (sym (some_inj e))
woken_producer (q ∷ qs) (suc i) p e = woken_producer qs i p e

woken_consumer :
    (cs : List Consumer) (i : ℕ) (c : Consumer)
    → get_elem? (map wake_consumer cs) i ≡ some c
    → c.asleep ≡ false
woken_consumer [] i c e = absurd cc
woken_consumer (d ∷ ds) zero c e = ap (λ (r : Consumer). r.asleep) (sym (some_inj e))
woken_consumer (d ∷ ds) (suc i) c e = woken_consumer ds i c e

-- After `notify_all` nobody sleeps.
notify_all-IsRoused : (s : Threads) → IsRoused (notify_all s)
notify_all-IsRoused s = record {
  full = λ i p at asleep. absurd (cc (sym asleep ∙ woken_producer s.producers i p at));
  empty = λ i c at asleep. absurd (cc (sym asleep ∙ woken_consumer s.consumers i c at));
}

notify_all-erase : (s : Threads) → erase (notify_all s) ≡ erase s
notify_all-erase s =
    ap
      (λ ps.
        let b : Busy = record {
          buffer = s.buffer;
          producers = ps;
          consumers = map left_of (map wake_consumer s.consumers);
          results = s.results;
        } in
        b)
      (map-wake_producer s.producers)
    ∙ ap
        (λ cs.
          let b : Busy = record {
            buffer = s.buffer;
            producers = map items_of s.producers;
            consumers = cs;
            results = s.results;
          } in
          b)
        (map-wake_consumer s.consumers)

-- A call that has to wait.
pub put_waits : (item : ℕ) (b : BoundedBuffer) → (attempt (put item) b).0 ≡ waits → is_full b ≡ true
unfolding attempt
put_waits item b e = elim (Bool-cases (is_full b)) [
  | inl full ↦ full
  | inr room ↦ absurd (cc (rw room at e))
]

pub get_waits :
    (buf : List ℕ) (b : BoundedBuffer) → b.buf ≡ buf → (attempt get b).0 ≡ waits → buf ≡ []
unfolding attempt get_from
get_waits [] b e w = refl
get_waits (x ∷ xs) b e w = absurd (cc (rw e at w))

pub after_put-erase :
    (i item : ℕ) (items : List ℕ) (p : Producer) (r : Reply × BoundedBuffer) (s : Threads)
    → get_elem? s.producers i ≡ some p
    → p.items ≡ item ∷ items
    → erase (after_put i item items r s) ≡ busy_put i items r (erase s)
after_put-erase i item items p (stored x, b) s at e =
    let t : Threads = record s {
      buffer = b;
      producers = set s.producers i (record { items = items; asleep = false });
    } in
    notify_all-erase t
    ∙ ap (λ ps. let u : Busy = record (erase s) { buffer = b; producers = ps } in u)
        (map-set items_of s.producers i (record { items = items; asleep = false }))
after_put-erase i item items p (got x, b) s at e = refl
after_put-erase i item items p (waits, b) s at e =
    ap (λ ps. let u : Busy = record (erase s) { producers = ps } in u)
      (map-set items_of s.producers i (record { items = item ∷ items; asleep = true })
        ∙ set_same (map items_of s.producers) i (item ∷ items)
            (get_elem?-map-some items_of s.producers i p at ∙ ap some e))

pub after_put-IsRoused :
    (i item : ℕ) (items : List ℕ) (r : Reply × BoundedBuffer) (s : Threads)
    → (r.0 ≡ waits → is_full s.buffer ≡ true)
    → IsRoused s
    → IsRoused (after_put i item items r s)
after_put-IsRoused i item items (stored x, b) s full is = notify_all-IsRoused (record s {
  buffer = b;
  producers = set s.producers i (record { items = items; asleep = false });
})
after_put-IsRoused i item items (got x, b) s full is = is
after_put-IsRoused i item items (waits, b) s full is = record {
  full = λ j p at asleep. full refl;
  empty = is.empty;
}

pub after_get-erase :
    (i left : ℕ) (c : Consumer) (r : Reply × BoundedBuffer) (s : Threads)
    → get_elem? s.consumers i ≡ some c
    → c.left ≡ suc left
    → erase (after_get i left r s) ≡ busy_get i left r (erase s)
after_get-erase i left c (got x, b) s at e =
    let t : Threads = record s {
      buffer = b;
      results = s.results ++ x ∷ [];
      consumers = set s.consumers i (record { left = left; asleep = false });
    } in
    notify_all-erase t
    ∙ ap
        (λ cs.
          let u : Busy = record (erase s) {
            buffer = b;
            results = s.results ++ x ∷ [];
            consumers = cs;
          } in
          u)
        (map-set left_of s.consumers i (record { left = left; asleep = false }))
after_get-erase i left c (stored x, b) s at e = refl
after_get-erase i left c (waits, b) s at e =
    ap (λ cs. let u : Busy = record (erase s) { consumers = cs } in u)
      (map-set left_of s.consumers i (record { left = suc left; asleep = true })
        ∙ set_same (map left_of s.consumers) i (suc left)
            (get_elem?-map-some left_of s.consumers i c at ∙ ap some e))

pub after_get-IsRoused :
    (i left : ℕ) (r : Reply × BoundedBuffer) (s : Threads)
    → (r.0 ≡ waits → s.buffer.buf ≡ [])
    → IsRoused s
    → IsRoused (after_get i left r s)
after_get-IsRoused i left (got x, b) s empty is = notify_all-IsRoused (record s {
  buffer = b;
  results = s.results ++ x ∷ [];
  consumers = set s.consumers i (record { left = left; asleep = false });
})
after_get-IsRoused i left (stored x, b) s empty is = is
after_get-IsRoused i left (waits, b) s empty is = record {
  full = is.full;
  empty = λ j c at asleep. empty refl;
}
