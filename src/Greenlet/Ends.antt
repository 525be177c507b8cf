-- ===== src/Greenlet/Ends.antt =====
-- python/stackful_coroutine/greenlet_demo.py: a scheduler of coroutines that do not touch the ready
-- queue comes to its end, with all their lines printed; without greenlets it does not.
use mathlib.Core.Path.{subst}
use mathlib.Core.List.{append-nil}
use cocurrency.Common.{
  ℕ, zero, suc, ◌+◌, ◌≤◌, ◌≡◌, ◌≢◌, ◌⊎◌, inl, inr, refl, sym, ap, ◌∙◌, true, false, List, [], ◌∷◌,
  ◌++◌, length, if◌then◌else◌, Bool-cases, In, In-append_left, In-append_right, of_branches, arith,
}
use cocurrency.Greenlet.{
  Piece, Coroutine, Scheduler, goes_on, index_error, code_of, switch, add, choose, announce, pass,
  finished, failed, running, run_ready, run,
}
use cocurrency.Greenlet.Traces.{lines_of, lines, IsTraced, Holds, pass-IsTraced}
use cocurrency.Greenlet.Turns.{IsWilling, AreWilling, Passes, takes_turn, Passes-AreWilling}

-- How many pieces of code are left to coroutines.
abbrev pub load : (ℕ → Coroutine) → List ℕ → ℕ
load coros [] = 0
load coros (c ∷ cs) = length (code_of (coros c)) + load coros cs

load-others :
    (c : ℕ) (cs : List ℕ) (f g : ℕ → Coroutine)
    → ((j : ℕ) → j ≢ c → g j ≡ f j)
    → ¬ In c cs
    → load g cs ≡ load f cs
load-others c [] f g same out = refl
load-others c (d ∷ ds) f g same out = omega (
  arith,
  ap (λ x. length (code_of x)) (same d (λ e. out (inl (sym e)))),
  load-others c ds f g same (λ i. out (inr i)),
)

load-snoc :
    (c : ℕ) (cs : List ℕ) (f : ℕ → Coroutine)
    → load f (cs ++ c ∷ []) ≡ load f cs + length (code_of (f c))
load-snoc c [] f = omega arith
load-snoc c (d ∷ ds) f = omega (arith, load-snoc c ds f)

-- A pass takes one piece of code.
Passes-load :
    (c : ℕ) (cs : List ℕ) (s t : Scheduler)
    → Passes c cs s t
    → ¬ In c cs
    → load s.coros (c ∷ cs) ≡ suc (load t.coros t.ready)
Passes-load c cs s t passes fresh =
    let rest = load-others c cs s.coros t.coros passes.others fresh in
    elim passes.queued [
      | inl (e, willing) ↦
          omega (arith, ap (load t.coros) e, load-snoc c cs t.coros, rest, passes.shorter)
      | inr (e, code) ↦
          omega (arith, ap (load t.coros) e, rest, passes.shorter, ap (length {A = Piece}) code)
    ]

-- A coroutine is in the queue, or has no code left.
abbrev IsServed : ℕ → Scheduler → Type 0
IsServed c s = In c s.ready ⊎ (code_of (s.coros c) ≡ [])

Passes-IsServed :
    (c j : ℕ) (cs : List ℕ) (s t : Scheduler)
    → Passes c cs s t
    → IsWilling (s.coros c)
    → (In j (c ∷ cs) ⊎ (code_of (s.coros j) ≡ []))
    → IsServed j t
Passes-IsServed c j cs s t passes willing (inl (inl e)) = elim passes.queued [
  | inl (ready, w) ↦ inl (subst (In j) (sym ready) (In-append_right j cs (c ∷ []) (inl e)))
  | inr (ready, code) ↦ inr (ap (λ i. code_of (t.coros i)) e ∙ code)
]
Passes-IsServed c j cs s t passes willing (inl (inr i)) = inl (elim passes.queued [
  | inl (ready, w) ↦ subst (In j) (sym ready) (In-append_left j cs (c ∷ []) i)
  | inr (ready, code) ↦ subst (In j) (sym ready) i
])
Passes-IsServed c j cs s t passes willing (inr code) =
    let ne : j ≢ c = (λ e. absurd (
      omega (
        arith,
        willing.has_code,
        ap (λ i. length (code_of (s.coros i))) e,
        ap (length {A = Piece}) code,
      ))) in
    inr (ap code_of (passes.others j ne) ∙ code)

-- The run has ended, with all served.
record Ends (fuel : ℕ) (all : ℕ → List ℕ) (s : Scheduler) : Type 0 where
  last : Scheduler
  ended : run fuel true s ≡ finished last
  traced : IsTraced all last
  done : (j : ℕ) → IsServed j s → code_of (last.coros j) ≡ []

run_ready-Ends :
    (fuel : ℕ) (all : ℕ → List ℕ) (ready : List ℕ) (s : Scheduler)
    → s.ready ≡ ready
    → AreWilling s.coros ready
    → load s.coros ready ≤ fuel
    → IsTraced all s
    → Ends fuel all s
unfolding run run_ready
run_ready-Ends fuel all [] s e are enough is = record {
  last = s;
  ended = ap (λ ready. run_ready fuel true ready s) e;
  traced = is;
  done = λ j served. elim served [ inl i ↦ absurd (subst (In j) e i) | inr code ↦ code ];
}
run_ready-Ends zero all (c ∷ cs) s e are enough is = absurd (omega (arith, are.0.has_code))
run_ready-Ends (suc fuel) all (c ∷ cs) s e are enough is =
    let s' : Scheduler = record s { ready = cs } in
    let (t, passes) = takes_turn c s' are.0 in
    let smaller = Passes-load c cs s' t passes are.1 in
    let is' : IsTraced all t =
      subst (Holds (IsTraced all)) passes.went (pass-IsTraced all true c s' is) in
    let rest =
      run_ready-Ends fuel all t.ready t refl (Passes-AreWilling c cs s' t passes are) (omega arith)
        is' in
    record {
      last = rest.last;
      ended =
          ap (λ ready. run_ready (suc fuel) true ready s) e
          ∙ ap
              (λ r. elim r [ goes_on u ↦ run_ready fuel true u.ready u | index_error u ↦ failed u ])
              passes.went
          ∙ rest.ended;
      traced = rest.traced;
      done = λ j served. rest.done j (
          Passes-IsServed c j cs s' t passes are.0
            (subst (λ ready. In j ready ⊎ (code_of (s.coros j) ≡ [])) e served));
    }

-- Different living coroutines are ready, which have code left and do not touch the ready queue, and
-- nothing has been printed. After at most as many passes as they have pieces of code, the scheduler
-- has finished, and each of them has printed its own lines, all of them and in order.
pub run-prints_all :
    (fuel : ℕ) (s : Scheduler)
    → s.printed ≡ []
    → AreWilling s.coros s.ready
    → load s.coros s.ready ≤ fuel
    → (t : Scheduler) × (run fuel true s ≡ finished t)
      × ((c : ℕ) → In c s.ready → lines_of c t.printed ≡ lines (code_of (s.coros c)))
run-prints_all fuel s silent are enough =
    let ends =
      run_ready-Ends fuel (λ c. lines (code_of (s.coros c))) s.ready s refl are enough
        (λ c. ap (λ printed. lines_of c printed ++ lines (code_of (s.coros c))) silent) in
    (
      ends.last,
      ends.ended,
      (λ c i.
          sym (append-nil (lines_of c ends.last.printed))
          ∙ ap (λ code. lines_of c ends.last.printed ++ lines code) (sym (ends.done c (inl i)))
          ∙ ends.traced c),
    )

-- Without greenlets no coroutine prints anything in a pass, and a living coroutine goes back to the queue.
pass-no_greenlet :
    (c : ℕ) (s : Scheduler)
    → pass false c s ≡ goes_on (if (s.coros c).is_alive then add c (announce c s) else choose c s)
unfolding pass switch
pass-no_greenlet c s = elim (Bool-cases (s.coros c).is_alive) [
  | inl alive ↦ rw alive
  | inr dead ↦ rw dead
]

-- What the scheduler waits for, without greenlets.
record Spins (fuel : ℕ) (c : ℕ) (s : Scheduler) : Type 0 where
  last : Scheduler
  not_ended : run fuel false s ≡ running last
  silent : last.printed ≡ s.printed
  waits : In c last.ready

run_ready-Spins :
    (fuel c : ℕ) (ready : List ℕ) (s : Scheduler)
    → s.ready ≡ ready
    → In c ready
    → (s.coros c).is_alive ≡ true
    → Spins fuel c s
unfolding run run_ready
run_ready-Spins fuel c [] s e i alive = absurd i
run_ready-Spins zero c (d ∷ ds) s e i alive = record {
  last = s;
  not_ended = ap (λ ready. run_ready zero false ready s) e;
  silent = refl;
  waits = subst (In c) (sym e) i;
}
run_ready-Spins (suc fuel) c (d ∷ ds) s e i alive =
    let s' : Scheduler = record s { ready = ds } in
    let t = if (s.coros d).is_alive then add d (announce d s') else choose d s' in
    let waits : In c t.ready = elim (Bool-cases (s.coros d).is_alive) [
      | inl b ↦
          subst (λ b. In c (if b then add d (announce d s') else choose d s').ready) (sym b)
            (elim i [
              | inl here ↦ In-append_right c ds (d ∷ []) (inl here)
              | inr later ↦ In-append_left c ds (d ∷ []) later
            ])
      | inr b ↦
          subst (λ b. In c (if b then add d (announce d s') else choose d s').ready) (sym b)
            (elim i [
              | inl here ↦ absurd (ground (arith, alive, b, ap (λ j. (s.coros j).is_alive) here))
              | inr later ↦ later
            ])
    ] in
    let alive' : (t.coros c).is_alive ≡ true =
      of_branches (λ u. (u.coros c).is_alive ≡ true) (s.coros d).is_alive (add d (announce d s'))
        (choose d s') (λ b. alive) (λ b. alive) in
    let same : t.printed ≡ s.printed =
      of_branches (λ u. u.printed ≡ s.printed) (s.coros d).is_alive (add d (announce d s'))
        (choose d s') (λ b. refl) (λ b. refl) in
    let rest = run_ready-Spins fuel c t.ready t refl waits alive' in
    record {
      last = rest.last;
      not_ended =
          ap (λ ready. run_ready (suc fuel) false ready s) e
          ∙ ap
              (λ r. elim r [
                | goes_on u ↦ run_ready fuel false u.ready u
                | index_error u ↦ failed u
              ])
              (pass-no_greenlet d (record s { ready = ds }))
          ∙ rest.not_ended;
      silent = rest.silent ∙ same;
      waits = rest.waits;
    }

-- Without the greenlet library, a scheduler with a living coroutine in its queue is still running
-- after any number of passes: no coroutine has printed anything, and the living one is still in the
-- queue.
pub run-no_greenlet :
    (fuel c : ℕ) (s : Scheduler)
    → In c s.ready
    → (s.coros c).is_alive ≡ true
    → (t : Scheduler) × (run fuel false s ≡ running t) × (t.printed ≡ s.printed) × In c t.ready
run-no_greenlet fuel c s i alive =
    let spins = run_ready-Spins fuel c s.ready s refl i alive in
    (spins.last, spins.not_ended, spins.silent, spins.waits)
