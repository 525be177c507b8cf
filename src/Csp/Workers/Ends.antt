-- ===== src/Csp/Workers/Ends.antt =====
-- python/csp/channel_demo.py: the threads on a channel that is closed.
use mathlib.Core.Path.{subst}
use cocurrency.Common.{
  ℕ, zero, suc, ◌+◌, ◌-◌, ◌≤◌, ◌<◌, ◌≡◌, ◌⊎◌, refl, sym, ap, ◌∙◌, inl, inr, true, List, [], ◌∷◌,
  ◌++◌, ◌==◌, if◌then◌else◌, Bool-cases, arith,
}
use mathlib.Core.List.{append_assoc}
use cocurrency.Csp.{
  Channel, is_full, sent, received, ended, waits, channel_closed, put_item, get_item, call,
}
use cocurrency.Csp.Workers.{
  System, after_send, after_recv, send_turn, recv_turn, Worker, sender, receiver, turn, run_workers,
}

-- How often a thread has a turn.
abbrev pub turns_of_sender : ℕ → List Worker → ℕ
turns_of_sender i [] = 0
turns_of_sender i (sender j ∷ ws) = (if j == i then 1 else 0) + turns_of_sender i ws
turns_of_sender i (receiver j ∷ ws) = turns_of_sender i ws

abbrev pub turns_of_receiver : ℕ → List Worker → ℕ
turns_of_receiver i [] = 0
turns_of_receiver i (sender j ∷ ws) = turns_of_receiver i ws
turns_of_receiver i (receiver j ∷ ws) = (if j == i then 1 else 0) + turns_of_receiver i ws

-- A turn on a closed channel: it stays closed and nothing is added; a sender stops, and a receiver
-- takes one item or stops.
record Closes (w : Worker) (s t : System) : Type 0 where
  closed : t.channel.closed ≡ true
  kept : t.results ++ t.channel.buf ≡ s.results ++ s.channel.buf
  sends : (i : ℕ) → (0 < turns_of_sender i (w ∷ [])) ⊎ (s.senders i ≡ []) → t.senders i ≡ []
  receives : (i : ℕ) → t.receivers i ≤ s.receivers i - turns_of_receiver i (w ∷ [])

send_turn-Closes :
    (i : ℕ) (items : List ℕ) (s : System)
    → s.senders i ≡ items
    → s.channel.closed ≡ true
    → Closes (sender i) s (send_turn i items s)
unfolding call put_item
send_turn-Closes i [] s e shut = record {
  closed = shut;
  kept = refl;
  sends = λ j has. elim has [
    | inl turned ↦ elim (Bool-cases (i == j)) [
      | inl same ↦ let here : j ≡ i = ground arith in ap s.senders here ∙ e
      | inr other ↦ absurd (ground arith)
    ]
    | inr none_left ↦ none_left
  ];
  receives = λ j. omega arith;
}
send_turn-Closes i (item ∷ items) s e shut =
    let refused : put_item item waits s.channel ≡ (channel_closed, s.channel) =
      ap
        (λ b.
          if b
          then (channel_closed, s.channel)
          else if is_full s.channel
          then (waits, s.channel)
          else (
            sent item,
            (let c : Channel = record s.channel { buf = s.channel.buf ++ item ∷ [] } in c),
          ))
        shut in
    subst (λ r. Closes (sender i) s (after_send i items r.0 (record s { channel = r.1 })))
      (sym refused)
      (record {
        closed = shut;
        kept = refl;
        sends = λ j has. elim (Bool-cases (i == j)) [
          | inl same ↦ ap (λ b. if b then [] else s.senders j) same
          | inr other ↦
              ap (λ b. if b then [] else s.senders j) other
              ∙ elim has [ inl turned ↦ absurd (ground arith) | inr none_left ↦ none_left ]
        ];
        receives = λ j. omega arith;
      })

recv_turn-Closes :
    (i left : ℕ) (buf : List ℕ) (s : System)
    → s.receivers i ≡ left
    → s.channel.buf ≡ buf
    → s.channel.closed ≡ true
    → Closes (receiver i) s (recv_turn i left s)
unfolding call get_item
recv_turn-Closes i zero buf s e b shut = record {
  closed = shut;
  kept = refl;
  sends =
      λ j has. elim has [ inl turned ↦ absurd (omega (arith, turned)) | inr none_left ↦ none_left ];
  receives = λ j. elim (Bool-cases (i == j)) [
    | inl same ↦ let here : j ≡ i = ground arith in omega (arith, ap s.receivers here, e)
    | inr other ↦ ground arith
  ];
}
recv_turn-Closes i (suc left) [] s e b shut =
    let refused : get_item (if s.channel.closed then ended else waits) s.channel.buf s.channel
        ≡ (ended, s.channel) =
      ap (λ b. get_item (if b then ended else waits) s.channel.buf s.channel) shut
      ∙ ap (λ buf. get_item ended buf s.channel) b in
    subst (λ r. Closes (receiver i) s (after_recv i left r.0 (record s { channel = r.1 })))
      (sym refused)
      (record {
        closed = shut;
        kept = refl;
        sends = λ j has. elim has [
          | inl turned ↦ absurd (omega (arith, turned))
          | inr none_left ↦ none_left
        ];
        receives = λ j. ground arith;
      })
recv_turn-Closes i (suc left) (x ∷ xs) s e b shut =
    let got : get_item (if s.channel.closed then ended else waits) s.channel.buf s.channel
        ≡ (received x, (let c : Channel = record s.channel { buf = xs } in c)) =
      ap (λ buf. get_item (if s.channel.closed then ended else waits) buf s.channel) b in
    subst (λ r. Closes (receiver i) s (after_recv i left r.0 (record s { channel = r.1 })))
      (sym got)
      (record {
        closed = shut;
        kept = append_assoc s.results (x ∷ []) xs ∙ ap (λ buf. s.results ++ buf) (sym b);
        sends = λ j has. elim has [
          | inl turned ↦ absurd (omega (arith, turned))
          | inr none_left ↦ none_left
        ];
        receives = λ j. ground (arith, ap s.receivers, e);
      })

turn-Closes : (w : Worker) (s : System) → s.channel.closed ≡ true → Closes w s (turn w s)
unfolding turn
turn-Closes (sender i) s shut = send_turn-Closes i (s.senders i) s refl shut
turn-Closes (receiver i) s shut = recv_turn-Closes i (s.receivers i) s.channel.buf s refl refl shut

turns_of_sender-cons :
    (i : ℕ) (w : Worker) (ws : List Worker)
    → turns_of_sender i (w ∷ ws) ≡ turns_of_sender i (w ∷ []) + turns_of_sender i ws
turns_of_sender-cons i (sender j) ws = omega arith
turns_of_sender-cons i (receiver j) ws = omega arith

turns_of_receiver-cons :
    (i : ℕ) (w : Worker) (ws : List Worker)
    → turns_of_receiver i (w ∷ ws) ≡ turns_of_receiver i (w ∷ []) + turns_of_receiver i ws
turns_of_receiver-cons i (sender j) ws = omega arith
turns_of_receiver-cons i (receiver j) ws = omega arith

-- What the threads come to on a closed channel.
record AreClosed (ws : List Worker) (s t : System) : Type 0 where
  kept : t.results ++ t.channel.buf ≡ s.results ++ s.channel.buf
  sends : (i : ℕ) → (0 < turns_of_sender i ws) ⊎ (s.senders i ≡ []) → t.senders i ≡ []
  receives : (i : ℕ) → t.receivers i ≤ s.receivers i - turns_of_receiver i ws

run_workers-AreClosed :
    (ws : List Worker) (s : System) → s.channel.closed ≡ true → AreClosed ws s (run_workers ws s)
unfolding run_workers
run_workers-AreClosed [] s shut = record {
  kept = refl;
  sends =
      λ i has. elim has [ inl turned ↦ absurd (omega (arith, turned)) | inr none_left ↦ none_left ];
  receives = λ i. omega arith;
}
run_workers-AreClosed (w ∷ ws) s shut =
    let first = turn-Closes w s shut in
    let rest = run_workers-AreClosed ws (turn w s) first.closed in
    record {
      kept = rest.kept ∙ first.kept;
      sends = λ i has. rest.sends i (later i has first);
      receives =
          λ i. omega (arith, first.receives i, rest.receives i, turns_of_receiver-cons i w ws);
    }
  where
    later :
        (i : ℕ)
        → (0 < turns_of_sender i (w ∷ ws)) ⊎ (s.senders i ≡ [])
        → Closes w s (turn w s)
        → (0 < turns_of_sender i ws) ⊎ ((turn w s).senders i ≡ [])
    later i (inr none_left) first = inr (first.sends i (inr none_left))
    later i (inl turned) first = split (turns_of_sender i (w ∷ [])) refl
      where
        split :
            (n : ℕ)
            → turns_of_sender i (w ∷ []) ≡ n
            → (0 < turns_of_sender i ws) ⊎ ((turn w s).senders i ≡ [])
        split zero e = inl (omega (arith, turned, turns_of_sender-cons i w ws, e))
        split (suc n) e = inr (first.sends i (inl (omega (arith, e))))

-- On a closed channel, whatever its senders and receivers had still to do: a sender that has had a turn
-- has stopped; a receiver that has had as many turns as it had items to receive has stopped; and no
-- item is lost or added, the buffered ones come out in their order.
pub run_workers-end :
    (ws : List Worker) (s : System)
    → s.channel.closed ≡ true
    → ((i : ℕ) → 0 < turns_of_sender i ws → (run_workers ws s).senders i ≡ [])
      × ((i : ℕ) → s.receivers i ≤ turns_of_receiver i ws → (run_workers ws s).receivers i ≡ 0)
      × ((run_workers ws s).results ++ (run_workers ws s).channel.buf ≡ s.results ++ s.channel.buf)
run_workers-end ws s shut =
    let are = run_workers-AreClosed ws s shut in
    (
      (λ i turned. are.sends i (inl turned)),
      (λ i enough. omega (arith, are.receives i, enough)),
      are.kept,
    )
