-- ===== src/Actor/Delivery.antt =====
-- python/actor/print_server.py: each job that is put before the first Shutdown is printed and
-- answered, once and in order, and no other.
use mathlib.Core.Path.{subst}
use mathlib.Core.List.{append-nil, append_assoc}
use cocurrency.Common.{
  ℕ, zero, suc, ◌+◌, ◌≤◌, ◌≡◌, ◌⊎◌, inl, inr, refl, sym, ap, ◌∙◌, Bool, true, false, none, some,
  List, [], ◌∷◌, ◌++◌, length, if◌then◌else◌, Bool-cases, arith,
}
use cocurrency.Actor.{
  Text, PrintJob, Message, print_job, shutdown, PrintServer, create, start, output, post, reply,
  handle, receive, serve, Event, tells, asks, stops, serves, act, run,
}

-- What the clients put in the mailbox, if `queues` reply queues exist.
abbrev pub messages : ℕ → List Event → List Message
messages queues [] = []
messages queues (tells text ∷ es) =
    print_job (record { text = text; reply_to = none }) ∷ messages queues es
messages queues (asks text ∷ es) =
    print_job (record { text = text; reply_to = some queues }) ∷ messages (suc queues) es
messages queues (stops ∷ es) = shutdown ∷ messages queues es
messages queues (serves ∷ es) = messages queues es

-- The jobs before the first Shutdown.
abbrev pub served : List Message → List PrintJob
served [] = []
served (shutdown ∷ ms) = []
served (print_job job ∷ ms) = job ∷ served ms

-- The lines that jobs print.
abbrev pub lines : List PrintJob → List Text
lines [] = []
lines (job ∷ jobs) = output job.text ∷ lines jobs

-- What jobs put in a reply queue.
abbrev pub answers : ℕ → List PrintJob → List Text
answers q [] = []
answers q (job ∷ jobs) = reply job.reply_to (output job.text) q ++ answers q jobs

-- The jobs that a server will still serve, if the messages come after those of its mailbox.
abbrev upcoming : Bool → List Message → List PrintJob
upcoming true ms = served ms
upcoming false ms = []

-- The jobs still to be served.
abbrev pub pending : PrintServer → List PrintJob
pending s = upcoming s.running s.mailbox

abbrev due : PrintServer → List Event → List PrintJob
due s es = upcoming s.running (s.mailbox ++ messages s.queues es)

append_one : (m : Message) (xs ys : List Message) → (xs ++ m ∷ []) ++ ys ≡ xs ++ m ∷ ys
append_one m xs ys = append_assoc xs (m ∷ []) ys

serve-on : (s : PrintServer) → s.running ≡ true → serve s ≡ receive s.mailbox s
unfolding serve
serve-on s on = ap (λ b. if b then receive s.mailbox s else s) on

serve-off : (s : PrintServer) → s.running ≡ false → serve s ≡ s
unfolding serve
serve-off s off = ap (λ b. if b then receive s.mailbox s else s) off

-- A view is what one reads of a server: its lines, or a reply queue.
module _ (view : PrintServer → List Text) (part : List PrintJob → List Text)
    (view_post : (m : Message) (s : PrintServer) (queues : ℕ)
      → view (post m (record s { queues = queues })) ≡ view s)
    (view_stop : (s : PrintServer) (ms : List Message)
      → view (record s { mailbox = ms; running = false }) ≡ view s)
    (part_nil : part [] ≡ [])
    (view_handle : (job : PrintJob) (jobs : List PrintJob) (s : PrintServer) (ms : List Message)
      → view (handle job (record s { mailbox = ms })) ++ part jobs
        ≡ view s ++ part (job ∷ jobs)) where
  receive-view :
      (es : List Event) (ms : List Message) (s : PrintServer)
      → s.mailbox ≡ ms
      → s.running ≡ true
      → view (receive ms s) ++ part (due (receive ms s) es) ≡ view s ++ part (due s es)
  unfolding receive handle
  receive-view es [] s box on = refl
  receive-view es (shutdown ∷ ms) s box on =
      ap (λ l. l ++ part []) (view_stop s ms)
      ∙ ap (λ jobs. view s ++ part jobs)
          (sym (
            ap (λ b. upcoming b (s.mailbox ++ messages s.queues es)) on
            ∙ ap (λ l. served (l ++ messages s.queues es)) box))
  receive-view es (print_job job ∷ ms) s box on =
      ap
        (λ b.
          view (handle job (record s { mailbox = ms }))
          ++ part (upcoming b (ms ++ messages s.queues es)))
        on
      ∙ view_handle job (served (ms ++ messages s.queues es)) s ms
      ∙ ap (λ jobs. view s ++ part jobs)
          (sym (
            ap (λ b. upcoming b (s.mailbox ++ messages s.queues es)) on
            ∙ ap (λ l. served (l ++ messages s.queues es)) box))

  serve-view :
      (es : List Event) (s : PrintServer)
      → view (serve s) ++ part (due (serve s) es) ≡ view s ++ part (due s es)
  serve-view es s = elim (Bool-cases s.running) [
    | inl on ↦
        subst (λ s'. view s' ++ part (due s' es) ≡ view s ++ part (due s es)) (sym (serve-on s on))
          (receive-view es s.mailbox s refl on)
    | inr off ↦ ap (λ s'. view s' ++ part (due s' es)) (serve-off s off)
  ]

  post-view :
      (m : Message) (queues : ℕ) (es : List Event) (s : PrintServer)
      → view (post m (record s { queues = queues }))
          ++ part (upcoming s.running ((s.mailbox ++ m ∷ []) ++ messages queues es))
        ≡ view s ++ part (upcoming s.running (s.mailbox ++ m ∷ messages queues es))
  post-view m queues es s =
      ap (λ l. l ++ part (upcoming s.running ((s.mailbox ++ m ∷ []) ++ messages queues es)))
        (view_post m s queues)
      ∙ ap (λ l. view s ++ part (upcoming s.running l))
          (append_one m s.mailbox (messages queues es))

  act-view :
      (e : Event) (es : List Event) (s : PrintServer)
      → view (act e s) ++ part (due (act e s) es) ≡ view s ++ part (due s (e ∷ es))
  unfolding act
  act-view (tells text) es s =
      post-view (print_job (record { text = text; reply_to = none })) s.queues es s
  act-view (asks text) es s =
      post-view (print_job (record { text = text; reply_to = some s.queues })) (suc s.queues) es s
  act-view stops es s = post-view shutdown s.queues es s
  act-view serves es s = serve-view es s

  run-view :
      (es : List Event) (s : PrintServer)
      → view (run es s) ++ part (pending (run es s)) ≡ view s ++ part (due s es)
  unfolding run
  run-view [] s = ap (λ l. view s ++ part (upcoming s.running l)) (sym (append-nil s.mailbox))
  run-view (e ∷ es) s = run-view es (act e s) ∙ act-view e es s

-- However the calls and the thread's turns interleave: the lines printed, and then those of the jobs
-- still pending, are the lines of the jobs that were put before the first Shutdown, in their order.
pub run-lines :
    (es : List Event)
    → (run es (start create)).printed ++ lines (pending (run es (start create)))
      ≡ lines (served (messages 0 es))
unfolding handle
run-lines es =
    run-view (λ s. s.printed) lines (λ m s queues. refl) (λ s ms. refl) refl
      (λ job jobs s ms. append_assoc s.printed (output job.text ∷ []) (lines jobs)) es
      (start create)

-- However the calls and the thread's turns interleave: what a reply queue holds, and then the lines of
-- the pending jobs put with it, are the lines of the jobs that were put with it before the first
-- Shutdown.
pub run-answers :
    (q : ℕ) (es : List Event)
    → (run es (start create)).replies q ++ answers q (pending (run es (start create)))
      ≡ answers q (served (messages 0 es))
unfolding handle
run-answers q es =
    run-view (λ s. s.replies q) (answers q) (λ m s queues. refl) (λ s ms. refl) refl
      (λ job jobs s ms.
        append_assoc (s.replies q) (reply job.reply_to (output job.text) q) (answers q jobs))
      es (start create)

-- Turns of the thread alone.
abbrev pub turns : ℕ → List Event
turns zero = []
turns (suc n) = serves ∷ turns n

receive-nears :
    (n : ℕ) (ms : List Message) (s : PrintServer)
    → length ms ≤ suc n
    → s.mailbox ≡ ms
    → (length (receive ms s).mailbox ≤ n) ⊎ ((receive ms s).running ≡ false)
unfolding receive handle
receive-nears n [] s enough box = inl (omega (arith, ap (length {A = Message}) box))
receive-nears n (shutdown ∷ ms) s enough box = inr refl
receive-nears n (print_job job ∷ ms) s enough box = inl (omega arith)

serve-nears :
    (n : ℕ) (s : PrintServer)
    → (length s.mailbox ≤ suc n) ⊎ (s.running ≡ false)
    → (length (serve s).mailbox ≤ n) ⊎ ((serve s).running ≡ false)
serve-nears n s near = elim (Bool-cases s.running) [
  | inl on ↦ elim near [
    | inl enough ↦
        subst (λ s'. (length s'.mailbox ≤ n) ⊎ (s'.running ≡ false)) (sym (serve-on s on))
          (receive-nears n s.mailbox s enough refl)
    | inr off ↦ absurd (cc (sym on ∙ off))
  ]
  | inr off ↦ inr (ap (λ (s' : PrintServer). s'.running) (serve-off s off) ∙ off)
]

turns-done :
    (n : ℕ) (s : PrintServer)
    → (length s.mailbox ≤ n) ⊎ (s.running ≡ false)
    → pending (run (turns n) s) ≡ []
unfolding run act
turns-done zero s near = elim near [
  | inl enough ↦ no_message s.mailbox s.running (omega arith)
  | inr off ↦ ap (λ b. upcoming b s.mailbox) off
]
  where
    no_message : (ms : List Message) (b : Bool) → length ms ≤ 0 → upcoming b ms ≡ []
    no_message [] true h = refl
    no_message (m ∷ ms) true h = absurd (omega arith)
    no_message ms false h = refl
turns-done (suc n) s near = turns-done n (serve s) (serve-nears n s near)

-- With as many turns of the thread as messages in the mailbox, or more, no job is pending.
pub turns-pending :
    (n : ℕ) (s : PrintServer) → length s.mailbox ≤ n → pending (run (turns n) s) ≡ []
turns-pending n s enough = turns-done n s (inl enough)

asks_in : List Event → ℕ
asks_in [] = 0
asks_in (asks text ∷ es) = suc (asks_in es)
asks_in (e ∷ es) = asks_in es

asks_in-append : (xs ys : List Event) → asks_in (xs ++ ys) ≡ asks_in xs + asks_in ys
unfolding asks_in
asks_in-append [] ys = omega arith
asks_in-append (tells text ∷ xs) ys = asks_in-append xs ys
asks_in-append (asks text ∷ xs) ys = omega (arith, asks_in-append xs ys)
asks_in-append (stops ∷ xs) ys = asks_in-append xs ys
asks_in-append (serves ∷ xs) ys = asks_in-append xs ys

receive-queues : (ms : List Message) (s : PrintServer) → (receive ms s).queues ≡ s.queues
unfolding receive handle
receive-queues [] s = refl
receive-queues (shutdown ∷ ms) s = refl
receive-queues (print_job job ∷ ms) s = refl

act-queues : (e : Event) (s : PrintServer) → (act e s).queues ≡ s.queues + asks_in (e ∷ [])
unfolding act serve asks_in
act-queues (tells text) s = omega arith
act-queues (asks text) s = omega arith
act-queues stops s = omega arith
act-queues serves s = ground (arith, receive-queues s.mailbox s)

run-queues : (es : List Event) (s : PrintServer) → (run es s).queues ≡ s.queues + asks_in es
unfolding run asks_in
run-queues [] s = omega arith
run-queues (tells text ∷ es) s =
    omega (arith, run-queues es (act (tells text) s), act-queues (tells text) s)
run-queues (asks text ∷ es) s =
    omega (arith, run-queues es (act (asks text) s), act-queues (asks text) s)
run-queues (stops ∷ es) s = omega (arith, run-queues es (act stops s), act-queues stops s)
run-queues (serves ∷ es) s = omega (arith, run-queues es (act serves s), act-queues serves s)

-- No job before the first Shutdown answers a queue that was made after it.
no_answer :
    (q k : ℕ) (before rest : List Event)
    → k + asks_in before ≤ q
    → answers q (served (messages k (before ++ stops ∷ rest))) ≡ []
unfolding asks_in
no_answer q k [] rest new = refl
no_answer q k (tells text ∷ es) rest new = no_answer q k es rest new
no_answer q k (asks text ∷ es) rest new = ground (arith, no_answer q (suc k) es rest (omega arith))
no_answer q k (stops ∷ es) rest new = refl
no_answer q k (serves ∷ es) rest new = no_answer q k es rest new

left_empty : (xs ys : List Text) → xs ++ ys ≡ [] → xs ≡ []
left_empty [] ys e = refl
left_empty (x ∷ xs) ys e = absurd (cc e)

-- Whatever was called before a Shutdown, between it and the ask, and after the ask, and whenever the
-- thread has its turns: a client that asks once a Shutdown has been put waits for ever, since its queue
-- stays empty.
pub ask_after_stop :
    (before middle after : List Event) (text : Text)
    → (run ((before ++ stops ∷ middle) ++ asks text ∷ after) (start create)).replies
        (run (before ++ stops ∷ middle) (start create)).queues
      ≡ []
ask_after_stop before middle after text =
    let so_far = before ++ stops ∷ middle in
    let q = (run so_far (start create)).queues in
    let es = so_far ++ asks text ∷ after in
    let late : 0 + asks_in before ≤ q =
      omega (arith, run-queues so_far (start create), asks_in-append before (stops ∷ middle)) in
    left_empty ((run es (start create)).replies q) (answers q (pending (run es (start create)))) (
      run-answers q es
      ∙ ap (λ es. answers q (served (messages 0 es)))
          (append_assoc before (stops ∷ middle) (asks text ∷ after))
      ∙ no_answer q 0 before (middle ++ asks text ∷ after) late)
