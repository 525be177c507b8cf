-- ===== src/Greenlet/Fair.antt =====
-- python/stackful_coroutine/greenlet_demo.py: coroutines that do not touch the ready queue take turns.
use mathlib.Core.Path.{subst}
use cocurrency.Common.{
  ℕ, zero, suc, ◌+◌, ◌≤◌, ◌≡◌, ◌≢◌, ◌⊎◌, inl, inr, refl, sym, ap, ◌∙◌, true, List, [], ◌∷◌, ◌++◌,
  length, if◌then◌else◌, ◌==◌, In, arith,
}
use cocurrency.Greenlet.{Scheduler, goes_on, index_error, failed, running, run_ready, run}
use cocurrency.Greenlet.Traces.{lines_of}
use cocurrency.Greenlet.Turns.{AreWilling, turns, Passes, takes_turn, Passes-AreWilling}

-- All have had so many turns.
abbrev AreAt : ℕ → List ℕ → Scheduler → Type 0
AreAt k [] s = Unit
AreAt k (c ∷ cs) s = (turns c s ≡ k) × AreAt k cs s

-- The first have had so many turns, and the others one more.
abbrev pub AreInStep : ℕ → List ℕ → Scheduler → Type 0
AreInStep k [] s = Unit
AreInStep k (c ∷ cs) s =
    ((turns c s ≡ k) × AreInStep k cs s) ⊎ ((turns c s ≡ suc k) × AreAt (suc k) cs s)

AreAt-AreInStep : (k : ℕ) (cs : List ℕ) (s : Scheduler) → AreAt k cs s → AreInStep k cs s
AreAt-AreInStep k [] s at = tt
AreAt-AreInStep k (c ∷ cs) s (e, at) = inl (e, AreAt-AreInStep k cs s at)

AreAt-others :
    (k c : ℕ) (cs : List ℕ) (s t : Scheduler)
    → ((j : ℕ) → turns j t ≡ turns j s + (if c == j then 1 else 0))
    → ¬ In c cs
    → AreAt k cs s
    → AreAt k cs t
AreAt-others k c [] s t one out at = tt
AreAt-others k c (d ∷ ds) s t one out (e, at) =
    let ne : c ≢ d = λ e. out (inl e) in
    (ground (arith, one d, e, ne), AreAt-others k c ds s t one (λ i. out (inr i)) at)

AreInStep-others :
    (k c : ℕ) (cs : List ℕ) (s t : Scheduler)
    → ((j : ℕ) → turns j t ≡ turns j s + (if c == j then 1 else 0))
    → ¬ In c cs
    → AreInStep k cs s
    → AreInStep k cs t
AreInStep-others k c [] s t one out are = tt
AreInStep-others k c (d ∷ ds) s t one out (inl (e, are)) =
    let ne : c ≢ d = λ e. out (inl e) in
    inl (ground (arith, one d, e, ne), AreInStep-others k c ds s t one (λ i. out (inr i)) are)
AreInStep-others k c (d ∷ ds) s t one out (inr (e, at)) =
    let ne : c ≢ d = λ e. out (inl e) in
    inr (ground (arith, one d, e, ne), AreAt-others (suc k) c ds s t one (λ i. out (inr i)) at)

AreAt-snoc :
    (k c : ℕ) (cs : List ℕ) (s : Scheduler)
    → turns c s ≡ k
    → AreAt k cs s
    → AreAt k (cs ++ c ∷ []) s
AreAt-snoc k c [] s e at = (e, tt)
AreAt-snoc k c (d ∷ ds) s e (here, at) = (here, AreAt-snoc k c ds s e at)

-- One more turn puts a coroutine at the end.
AreInStep-snoc :
    (k c : ℕ) (cs : List ℕ) (s : Scheduler)
    → turns c s ≡ suc k
    → AreInStep k cs s
    → AreInStep k (cs ++ c ∷ []) s
AreInStep-snoc k c [] s e are = inr (e, tt)
AreInStep-snoc k c (d ∷ ds) s e (inl (here, are)) = inl (here, AreInStep-snoc k c ds s e are)
AreInStep-snoc k c (d ∷ ds) s e (inr (here, at)) = inr (here, AreAt-snoc (suc k) c ds s e at)

Passes-AreInStep :
    (k c : ℕ) (cs : List ℕ) (s t : Scheduler)
    → Passes c cs s t
    → ¬ In c cs
    → AreInStep k (c ∷ cs) s
    → (m : ℕ) × AreInStep m t.ready t
Passes-AreInStep k c cs s t passes fresh (inl (e, are)) =
    let still = AreInStep-others k c cs s t passes.one_turn fresh are in
    let more : turns c t ≡ suc k = ground (arith, passes.one_turn c, e) in
    (
      k,
      elim passes.queued [
        | inl (ready, w) ↦
            subst (λ cs. AreInStep k cs t) (sym ready) (AreInStep-snoc k c cs t more still)
        | inr (ready, code) ↦ subst (λ cs. AreInStep k cs t) (sym ready) still
      ],
    )
Passes-AreInStep k c cs s t passes fresh (inr (e, at)) =
    let still =
      AreAt-AreInStep (suc k) cs t (AreAt-others (suc k) c cs s t passes.one_turn fresh at) in
    let more : turns c t ≡ suc (suc k) = ground (arith, passes.one_turn c, e) in
    (
      suc k,
      elim passes.queued [
        | inl (ready, w) ↦
            subst (λ cs. AreInStep (suc k) cs t) (sym ready)
              (AreInStep-snoc (suc k) c cs t more still)
        | inr (ready, code) ↦ subst (λ cs. AreInStep (suc k) cs t) (sym ready) still
      ],
    )

-- The queue itself does not count.
AreAt-queue :
    (k : ℕ) (cs ready : List ℕ) (s : Scheduler)
    → AreAt k cs s
    → AreAt k cs (record s { ready = ready })
AreAt-queue k [] ready s at = tt
AreAt-queue k (c ∷ cs) ready s (e, at) = (e, AreAt-queue k cs ready s at)

AreInStep-queue :
    (k : ℕ) (cs ready : List ℕ) (s : Scheduler)
    → AreInStep k cs s
    → AreInStep k cs (record s { ready = ready })
AreInStep-queue k [] ready s are = tt
AreInStep-queue k (c ∷ cs) ready s (inl (e, are)) = inl (e, AreInStep-queue k cs ready s are)
AreInStep-queue k (c ∷ cs) ready s (inr (e, at)) = inr (e, AreAt-queue (suc k) cs ready s at)

running_inj : (s t : Scheduler) → running s ≡ running t → s ≡ t
running_inj s t e = cc

run_ready-AreInStep :
    (fuel k : ℕ) (ready : List ℕ) (s t : Scheduler)
    → s.ready ≡ ready
    → AreWilling s.coros ready
    → AreInStep k ready s
    → run_ready fuel true ready s ≡ running t
    → (m : ℕ) × AreInStep m t.ready t
unfolding run_ready
run_ready-AreInStep fuel k [] s t e are step ran = absurd cc
run_ready-AreInStep zero k (c ∷ cs) s t e are step ran =
    subst (λ u. (m : ℕ) × AreInStep m u.ready u) (running_inj s t ran)
      (k, subst (λ cs. AreInStep k cs s) (sym e) step)
run_ready-AreInStep (suc fuel) k (c ∷ cs) s t e are step ran =
    let s' : Scheduler = record s { ready = cs } in
    let (u, passes) = takes_turn c s' are.0 in
    let (m, next) =
      Passes-AreInStep k c cs s' u passes are.1 (AreInStep-queue k (c ∷ cs) cs s step) in
    run_ready-AreInStep fuel m u.ready u t refl (Passes-AreWilling c cs s' u passes are) next (
      sym (
        ap (λ r. elim r [ goes_on u ↦ run_ready fuel true u.ready u | index_error u ↦ failed u ])
          passes.went)
      ∙ ran)

AreAt-turns :
    (k : ℕ) (cs : List ℕ) (s : Scheduler) → AreAt k cs s → (c : ℕ) → In c cs → turns c s ≡ k
AreAt-turns k [] s at c i = absurd i
AreAt-turns k (d ∷ ds) s (e, at) c (inl here) = ap (λ j. turns j s) here ∙ e
AreAt-turns k (d ∷ ds) s (e, at) c (inr i) = AreAt-turns k ds s at c i

AreInStep-turns :
    (k : ℕ) (cs : List ℕ) (s : Scheduler)
    → AreInStep k cs s
    → (c : ℕ) → In c cs
    → (turns c s ≡ k) ⊎ (turns c s ≡ suc k)
AreInStep-turns k [] s are c i = absurd i
AreInStep-turns k (d ∷ ds) s (inl (e, are)) c (inl here) = inl (ap (λ j. turns j s) here ∙ e)
AreInStep-turns k (d ∷ ds) s (inl (e, are)) c (inr i) = AreInStep-turns k ds s are c i
AreInStep-turns k (d ∷ ds) s (inr at) c i = inr (AreAt-turns (suc k) (d ∷ ds) s at c i)

-- Nobody has had a turn.
silent-AreAt : (cs : List ℕ) (s : Scheduler) → s.printed ≡ [] → AreAt 0 cs s
silent-AreAt [] s e = tt
silent-AreAt (c ∷ cs) s e = (ap (λ printed. length (lines_of c printed)) e, silent-AreAt cs s e)

-- Different living coroutines are ready, which have code left and do not touch the ready queue, and
-- nothing has been printed. As long as the scheduler runs, of two coroutines in its queue neither
-- has had more than one turn more than the other.
pub run-fair :
    (fuel : ℕ) (s t : Scheduler)
    → s.printed ≡ []
    → AreWilling s.coros s.ready
    → run fuel true s ≡ running t
    → (a b : ℕ) → In a t.ready
    → In b t.ready
    → turns a t ≤ suc (turns b t)
unfolding run
run-fair fuel s t silent are ran a b i j =
    let (k, step) =
      run_ready-AreInStep fuel 0 s.ready s t refl are
        (AreAt-AreInStep 0 s.ready s (silent-AreAt s.ready s silent)) ran in
    elim (AreInStep-turns k t.ready t step a i) [
      | inl e ↦ elim (AreInStep-turns k t.ready t step b j) [
        | inl f ↦ omega arith
        | inr f ↦ omega arith
      ]
      | inr e ↦ elim (AreInStep-turns k t.ready t step b j) [
        | inl f ↦ omega arith
        | inr f ↦ omega arith
      ]
    ]
