-- ===== src/Csp/Fifo.antt =====
-- python/csp/channel_demo.py: items come out in the order in which they went in; the bound; closing.
use mathlib.Core.Path.{ap₂}
use mathlib.Core.List.{append-nil, append_assoc}
use cocurrency.Common.{
  ℕ, ◌≤◌, ◌<◌, ◌≡◌, refl, sym, ap, ◌∙◌, Bool, true, false, List, [], ◌∷◌, ◌++◌, map, length,
  length-append, if◌then◌else◌, Bool-cases, inl, inr, arith,
}
use cocurrency.Csp.{
  Channel, is_full, Call, send, recv, try_send, try_recv, close, len, Reply, sent, not_sent,
  received, not_received, ended, waits, put_item, get_item, call, run,
}

-- The items that the replies say were sent, and were received.
abbrev pub sent_items : List Reply → List ℕ
sent_items [] = []
sent_items (sent item ∷ rs) = item ∷ sent_items rs
sent_items (_ ∷ rs) = sent_items rs

abbrev pub received_items : List Reply → List ℕ
received_items [] = []
received_items (received item ∷ rs) = item ∷ received_items rs
received_items (_ ∷ rs) = received_items rs

abbrev sent_by : Reply → List ℕ
sent_by (sent item) = item ∷ []
sent_by _ = []

abbrev received_by : Reply → List ℕ
received_by (received item) = item ∷ []
received_by _ = []

sent_items-cons : (r : Reply) (rs : List Reply) → sent_items (r ∷ rs) ≡ sent_by r ++ sent_items rs
sent_items-cons (sent item) rs = refl
sent_items-cons _ rs = refl

received_items-cons :
    (r : Reply) (rs : List Reply) → received_items (r ∷ rs) ≡ received_by r ++ received_items rs
received_items-cons (received item) rs = refl
received_items-cons _ rs = refl

-- A reply that moves no item.
record IsIdle (r : Reply) : Type 0 where
  sends_none : sent_by r ≡ []
  receives_none : received_by r ≡ []

put_item-fifo :
    (item : ℕ) (r : Reply) (c : Channel)
    → IsIdle r
    → c.buf ++ sent_by (put_item item r c).0
      ≡ received_by (put_item item r c).0 ++ (put_item item r c).1.buf
unfolding put_item
put_item-fifo item r c idle = elim (Bool-cases c.closed) [
  | inl shut ↦ rw shut (append-nil c.buf)
  | inr open_yet ↦ rw open_yet (elim (Bool-cases (is_full c)) [
    | inl full ↦ rw full (rw (idle.sends_none, idle.receives_none) (append-nil c.buf))
    | inr room ↦ rw room
  ])
]

get_item-fifo :
    (r : Reply) (buf : List ℕ) (c : Channel)
    → IsIdle r
    → c.buf ≡ buf
    → buf ++ sent_by (get_item r buf c).0
      ≡ received_by (get_item r buf c).0 ++ (get_item r buf c).1.buf
unfolding get_item
get_item-fifo r [] c idle e = rw (idle.sends_none, idle.receives_none) (sym e)
get_item-fifo r (item ∷ rest) c idle e = append-nil (item ∷ rest)

ended_or_waits-IsIdle : (b : Bool) → IsIdle (if b then ended else waits)
ended_or_waits-IsIdle true = record { sends_none = refl; receives_none = refl }
ended_or_waits-IsIdle false = record { sends_none = refl; receives_none = refl }

call-fifo :
    (x : Call) (c : Channel)
    → c.buf ++ sent_by (call x c).0 ≡ received_by (call x c).0 ++ (call x c).1.buf
unfolding call
call-fifo (send item) c =
    put_item-fifo item waits c (record { sends_none = refl; receives_none = refl })
call-fifo recv c =
    get_item-fifo (if c.closed then ended else waits) c.buf c (ended_or_waits-IsIdle c.closed) refl
call-fifo (try_send item) c =
    put_item-fifo item not_sent c (record { sends_none = refl; receives_none = refl })
call-fifo try_recv c =
    get_item-fifo not_received c.buf c (record { sends_none = refl; receives_none = refl }) refl
call-fifo close c = append-nil c.buf
call-fifo len c = append-nil c.buf

-- However the calls of the threads interleave, no item is lost, made up, doubled or overtaken: what
-- stood in the buffer and then the items sent are the items received and then what the buffer holds.
pub run-fifo :
    (xs : List Call) (c : Channel)
    → c.buf ++ sent_items (run xs c).0 ≡ received_items (run xs c).0 ++ (run xs c).1.buf
unfolding run
run-fifo [] c = append-nil c.buf
run-fifo (x ∷ xs) c =
    let (r, c') = call x c in
    let (rs, c'') = run xs c' in
    ap (λ l. c.buf ++ l) (sent_items-cons r rs)
    ∙ sym (append_assoc c.buf (sent_by r) (sent_items rs))
    ∙ ap (λ l. l ++ sent_items rs) (call-fifo x c)
    ∙ append_assoc (received_by r) c'.buf (sent_items rs)
    ∙ ap (λ l. received_by r ++ l) (run-fifo xs c')
    ∙ sym (append_assoc (received_by r) (received_items rs) c''.buf)
    ∙ ap (λ l. l ++ c''.buf) (sym (received_items-cons r rs))

-- The buffer holds at most `maxsize` items, where that is a bound.
abbrev pub IsBounded : Channel → Type 0
IsBounded c = 0 < c.maxsize → length c.buf ≤ c.maxsize

get_item-IsBounded :
    (r : Reply) (buf : List ℕ) (c : Channel)
    → c.buf ≡ buf
    → IsBounded c
    → IsBounded (get_item r buf c).1
unfolding get_item
get_item-IsBounded r [] c e b = b
get_item-IsBounded r (item ∷ rest) c e b = λ p. omega (arith, b p, ap (length {A = ℕ}) e)

put_item-IsBounded :
    (item : ℕ) (r : Reply) (c : Channel) → IsBounded c → IsBounded (put_item item r c).1
unfolding put_item
put_item-IsBounded item r c b = λ p. ground (arith, b, length-append c.buf (item ∷ []))

call-IsBounded : (x : Call) (c : Channel) → IsBounded c → IsBounded (call x c).1
unfolding call
call-IsBounded (send item) c b = put_item-IsBounded item waits c b
call-IsBounded recv c b = get_item-IsBounded (if c.closed then ended else waits) c.buf c refl b
call-IsBounded (try_send item) c b = put_item-IsBounded item not_sent c b
call-IsBounded try_recv c b = get_item-IsBounded not_received c.buf c refl b
call-IsBounded close c b = b
call-IsBounded len c b = b

-- No row of calls takes a channel with a bound above it.
pub run-IsBounded : (xs : List Call) (c : Channel) → IsBounded c → IsBounded (run xs c).1
unfolding run
run-IsBounded [] c b = b
run-IsBounded (x ∷ xs) c b = run-IsBounded xs (call x c).1 (call-IsBounded x c b)

get_item-closed : (r : Reply) (buf : List ℕ) (c : Channel) → (get_item r buf c).1.closed ≡ c.closed
unfolding get_item
get_item-closed r [] c = refl
get_item-closed r (item ∷ rest) c = refl

get_item-sent :
    (r : Reply) (buf : List ℕ) (c : Channel) → sent_by r ≡ [] → sent_by (get_item r buf c).0 ≡ []
unfolding get_item
get_item-sent r [] c e = e
get_item-sent r (item ∷ rest) c e = refl

call-closed :
    (x : Call) (c : Channel)
    → c.closed ≡ true
    → ((call x c).1.closed ≡ true) × (sent_by (call x c).0 ≡ [])
unfolding call put_item
call-closed (send item) c e = ground arith
call-closed recv c e = (
  get_item-closed (if c.closed then ended else waits) c.buf c ∙ e,
  get_item-sent (if c.closed then ended else waits) c.buf c
      (ended_or_waits-IsIdle c.closed).sends_none,
)
call-closed (try_send item) c e = ground arith
call-closed try_recv c e =
    (get_item-closed not_received c.buf c ∙ e, get_item-sent not_received c.buf c refl)
call-closed close c e = (refl, refl)
call-closed len c e = (e, refl)

run-closed_after :
    (xs : List Call) (c : Channel)
    → c.closed ≡ true
    → ((run xs c).1.closed ≡ true) × (sent_items (run xs c).0 ≡ [])
unfolding run
run-closed_after [] c e = (e, refl)
run-closed_after (x ∷ xs) c e =
    let (r, c') = call x c in
    let (stays, none_sent) = call-closed x c e in
    let (later, none_later) = run-closed_after xs c' stays in
    (later, sent_items-cons r (run xs c').0 ∙ ap₂ ◌++◌ none_sent none_later)

-- After `close` nothing more is sent, whatever is called: the channel stays closed, and the items
-- received and then those in the buffer are the ones that the buffer held.
pub run-closed :
    (xs : List Call) (c : Channel)
    → c.closed ≡ true
    → ((run xs c).1.closed ≡ true)
      × (sent_items (run xs c).0 ≡ [])
      × (received_items (run xs c).0 ++ (run xs c).1.buf ≡ c.buf)
run-closed xs c e =
    let (stays, none_sent) = run-closed_after xs c e in
    (stays, none_sent, sym (run-fifo xs c) ∙ ap (λ l. c.buf ++ l) none_sent ∙ append-nil c.buf)

-- `Channel(0)` is not the synchronous handoff of an unbuffered channel: with no receiver at all, any
-- number of sends return, and the items wait in the buffer.
pub unbuffered_sends :
    (items : List ℕ) (c : Channel)
    → c.maxsize ≡ 0
    → c.closed ≡ false
    → run (map send items) c ≡ (map sent items, record c { buf = c.buf ++ items })
unfolding run call put_item
unbuffered_sends [] c e f = ap (λ l. ([], record c { buf = l })) (sym (append-nil c.buf))
unbuffered_sends (item ∷ items) c e f =
    let c₁ : Channel = record c { buf = c.buf ++ item ∷ [] } in
    let now : put_item item waits c ≡ (sent item, c₁) = ground arith in
    ap {B = List Reply × Channel}
      (λ p. (p.0 ∷ (run (map send items) p.1).0, (run (map send items) p.1).1)) now
    ∙ ap {B = List Reply × Channel} (λ q. (sent item ∷ q.0, q.1)) (unbuffered_sends items c₁ e f)
    ∙ ap {B = List Reply × Channel} (λ l. (sent item ∷ map sent items, record c { buf = l }))
        (append_assoc c.buf (item ∷ []) items)
