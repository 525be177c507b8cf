-- ===== src/Csp/Workers/Turns.antt =====
-- python/csp/channel_demo.py: a turn of one sender, or of one receiver, on a channel.
use mathlib.Core.Path.{subst}
use mathlib.Core.List.{append_assoc}
use cocurrency.Common.{
  ℕ, zero, suc, ◌+◌, ◌*◌, ◌<◌, ◌≡◌, ◌≢◌, ◌⊎◌, refl, sym, ap, ◌∙◌, inl, inr, true, false, List, [],
  ◌∷◌, ◌++◌, length, length-append, ◌==◌, if◌then◌else◌, Bool-cases, In, arith,
}
use cocurrency.Csp.{
  Channel, is_full, Reply, sent, received, ended, waits, channel_closed, put_item, get_item, call,
}
use cocurrency.Csp.Workers.{
  System, set_sender, set_receiver, after_send, after_recv, send_turn, recv_turn, Worker, sender,
  receiver, turn, run_workers,
}

-- What holds between two turns: the items are results, in the buffer, or still to send, in this order.
pub record IsPair (items : List ℕ) (s : System) : Type 0 where
  pub opened : s.channel.closed ≡ false
  pub kept : s.results ++ (s.channel.buf ++ s.senders 0) ≡ items
  pub balanced : s.receivers 0 ≡ length s.channel.buf + length (s.senders 0)
  pub no_other_sender : (i : ℕ) → i ≢ 0 → s.senders i ≡ []
  pub no_other_receiver : (i : ℕ) → i ≢ 0 → s.receivers i ≡ 0

-- The turns that are left to do something.
abbrev pub work : System → ℕ
work s = 2 * length (s.senders 0) + length s.channel.buf

-- A turn changes nothing, since the thread waits or is done, or there is less to do.
abbrev pub Waits : Worker → System → Type 0
Waits (sender i) s = (i ≡ 0) → (s.senders 0 ≡ []) ⊎ (0 < length s.channel.buf)
Waits (receiver i) s = (i ≡ 0) → s.channel.buf ≡ []

record Turns (items : List ℕ) (w : Worker) (s t : System) : Type 0 where
  pub is_pair : IsPair items t
  pub progress : (Waits w s × (t ≡ s)) ⊎ (work t < work s)

pub length-zero : (xs : List ℕ) → length xs ≡ 0 → xs ≡ []
length-zero [] e = refl
length-zero (x ∷ xs) e = absurd (omega (arith, e))

send_turn-Turns :
    (all : List ℕ) (i : ℕ) (items : List ℕ) (s : System)
    → s.senders i ≡ items
    → IsPair all s
    → Turns all (sender i) s (send_turn i items s)
unfolding call put_item
send_turn-Turns all i [] s e is = record {
  is_pair = is;
  progress = inl ((λ zero_th. inl (ap s.senders (sym zero_th) ∙ e)), refl);
}
send_turn-Turns all i (item ∷ items) s e is = elim (Bool-cases (is_full s.channel)) [
  | inl full ↦
      let refused : put_item item waits s.channel ≡ (waits, s.channel) =
        ap
          (λ b.
            if b
            then (channel_closed, s.channel)
            else if is_full s.channel
            then (waits, s.channel)
            else put)
          is.opened
        ∙ ap (λ b. if b then (waits, s.channel) else put) full in
      subst (λ r. Turns all (sender i) s (after_send i items r.0 (record s { channel = r.1 })))
        (sym refused)
        (record { is_pair = is; progress = inl ((λ zero_th. inr (ground (arith, full))), refl) })
  | inr room ↦
      let done : put_item item waits s.channel ≡ put =
        ap
          (λ b.
            if b
            then (channel_closed, s.channel)
            else if is_full s.channel
            then (waits, s.channel)
            else put)
          is.opened
        ∙ ap (λ b. if b then (waits, s.channel) else put) room in
      subst (λ r. Turns all (sender i) s (after_send i items r.0 (record s { channel = r.1 })))
        (sym done) (after here)
]
  where
    put : Reply × Channel
    put = (sent item, record s.channel { buf = s.channel.buf ++ item ∷ [] })

    here : i ≡ 0
    here = elim (Bool-cases (i == 0)) [
      | inl same ↦ ground arith
      | inr other ↦ absurd (cc (sym (is.no_other_sender i (λ e'. ground arith)) ∙ e))
    ]

    after : i ≡ 0 → Turns all (sender i) s (after_send i items put.0 (record s { channel = put.1 }))
    after zero_th =
        let t : System = set_sender i items (record s { channel = put.1 }) in
        let same : (i == 0) ≡ true = ground arith in
        let old : s.senders 0 ≡ item ∷ items = ap s.senders (sym zero_th) ∙ e in
        let new : t.senders 0 ≡ items = ap (λ b. if b then items else s.senders 0) same in
        let longer = length-append s.channel.buf (item ∷ []) in
        record {
          is_pair = record {
            opened = is.opened;
            kept =
                ap (λ more. s.results ++ ((s.channel.buf ++ item ∷ []) ++ more)) new
                ∙ ap (λ more. s.results ++ more) (append_assoc s.channel.buf (item ∷ []) items)
                ∙ ap (λ more. s.results ++ (s.channel.buf ++ more)) (sym old)
                ∙ is.kept;
            balanced =
                omega
                  (arith, is.balanced, longer, ap (length {A = ℕ}) old, ap (length {A = ℕ}) new);
            no_other_sender = λ j ne.
                let other : (i == j) ≡ false = ground arith in
                ap (λ b. if b then items else s.senders j) other ∙ is.no_other_sender j ne;
            no_other_receiver = is.no_other_receiver;
          };
          progress = inr (omega (arith, longer, ap (length {A = ℕ}) old, ap (length {A = ℕ}) new));
        }

recv_turn-Turns :
    (all : List ℕ) (i left : ℕ) (buf : List ℕ) (s : System)
    → s.receivers i ≡ left
    → s.channel.buf ≡ buf
    → IsPair all s
    → Turns all (receiver i) s (recv_turn i left s)
unfolding call get_item
recv_turn-Turns all i zero buf s e b is = record {
  is_pair = is;
  progress = inl (
    (λ zero_th. length-zero s.channel.buf (omega (arith, is.balanced, ap s.receivers zero_th, e))),
    refl,
  );
}
recv_turn-Turns all i (suc left) [] s e b is =
    let refused : get_item (if s.channel.closed then ended else waits) s.channel.buf s.channel
        ≡ (waits, s.channel) =
      ap (λ b. get_item (if b then ended else waits) s.channel.buf s.channel) is.opened
      ∙ ap (λ buf. get_item waits buf s.channel) b in
    subst (λ r. Turns all (receiver i) s (after_recv i left r.0 (record s { channel = r.1 })))
      (sym refused) (record { is_pair = is; progress = inl ((λ zero_th. b), refl) })
recv_turn-Turns all i (suc left) (x ∷ xs) s e b is =
    let got : get_item (if s.channel.closed then ended else waits) s.channel.buf s.channel
        ≡ (received x, (let c : Channel = record s.channel { buf = xs } in c)) =
      ap (λ buf. get_item (if s.channel.closed then ended else waits) buf s.channel) b in
    let t : System = record (set_receiver i left s) {
      channel = record s.channel { buf = xs };
      results = s.results ++ x ∷ [];
    } in
    let zero_th : i ≡ 0 = elim (Bool-cases (i == 0)) [
      | inl same ↦ ground arith
      | inr other ↦ absurd (omega (arith, is.no_other_receiver i (λ e'. ground arith), e))
    ] in
    let same : (i == 0) ≡ true = ground arith in
    let new : t.receivers 0 ≡ left = ap (λ b. if b then left else s.receivers 0) same in
    subst (λ r. Turns all (receiver i) s (after_recv i left r.0 (record s { channel = r.1 })))
      (sym got)
      (record {
        is_pair = record {
          opened = is.opened;
          kept =
              append_assoc s.results (x ∷ []) (xs ++ s.senders 0)
              ∙ ap (λ buf. s.results ++ (buf ++ s.senders 0)) (sym b)
              ∙ is.kept;
          balanced =
              omega (arith, is.balanced, new, e, ap s.receivers zero_th, ap (length {A = ℕ}) b);
          no_other_sender = is.no_other_sender;
          no_other_receiver = λ j ne.
              let other : (i == j) ≡ false = ground arith in
              ap (λ b. if b then left else s.receivers j) other ∙ is.no_other_receiver j ne;
        };
        progress = inr (omega (arith, ap (length {A = ℕ}) b));
      })

turn-Turns : (all : List ℕ) (w : Worker) (s : System) → IsPair all s → Turns all w s (turn w s)
unfolding turn
turn-Turns all (sender i) s is = send_turn-Turns all i (s.senders i) s refl is
turn-Turns all (receiver i) s is =
    recv_turn-Turns all i (s.receivers i) s.channel.buf s refl refl is

-- After some turns, those threads wait and nothing has changed, or there is less to do.
pub record RunsTo (all : List ℕ) (ws : List Worker) (s t : System) : Type 0 where
  pub is_pair : IsPair all t
  pub progress : (((w : Worker) → In w ws → Waits w s) × (t ≡ s)) ⊎ (work t < work s)

pub run_workers-RunsTo :
    (all : List ℕ) (ws : List Worker) (s : System)
    → IsPair all s
    → RunsTo all ws s (run_workers ws s)
unfolding run_workers
run_workers-RunsTo all [] s is = record { is_pair = is; progress = inl ((λ w i. absurd i), refl) }
run_workers-RunsTo all (w ∷ ws) s is =
    let first = turn-Turns all w s is in
    let rest = run_workers-RunsTo all ws (turn w s) first.is_pair in
    record {
      is_pair = rest.is_pair;
      progress = elim first.progress [
        | inr less ↦ inr (elim rest.progress [
          | inl (here, same) ↦ omega (arith, less, ap work same)
          | inr more ↦ omega (arith, less, more)
        ])
        | inl (here, same) ↦ elim rest.progress [
          | inl (others, stays) ↦ inl (
            (λ v i. elim i [
              | inl e ↦ subst (λ v. Waits v s) (sym e) here
              | inr later ↦ subst (Waits v) same (others v later)
            ]),
            stays ∙ same,
          )
          | inr more ↦ inr (omega (arith, more, ap work same))
        ]
      ];
    }

-- If both threads wait, there is nothing left to do.
pub waiting-work : (s : System) → Waits (sender 0) s → Waits (receiver 0) s → work s ≡ 0
waiting-work s sends receives = elim (sends refl) [
  | inl none_left ↦
      omega (arith, ap (length {A = ℕ}) none_left, ap (length {A = ℕ}) (receives refl))
  | inr some_there ↦ absurd (omega (arith, some_there, ap (length {A = ℕ}) (receives refl)))
]
