-- ===== src/Greenlet/Turns.antt =====
-- python/stackful_coroutine/greenlet_demo.py: a pass over a coroutine that does not touch the ready
-- queue, and has code left.
use mathlib.Core.Path.{subst}
use cocurrency.Common.{
  ℕ, suc, ◌+◌, ◌<◌, ◌≡◌, ◌≢◌, ◌⊎◌, inl, inr, refl, sym, ap, ◌∙◌, true, false, some, List, [], ◌∷◌,
  ◌++◌, length, length-append, if◌then◌else◌, ◌==◌, In, of_In-append, arith,
}
use cocurrency.Greenlet.{
  Piece, Coroutine, Scheduler, goes_on, print_line, rotate_ready, stop, stop_after, resume, code_of,
  switch, add, requeue, choose, announce, pass,
}
use cocurrency.Greenlet.Traces.{lines_of, lines_of-snoc}

-- The code leaves the ready queue alone.
abbrev pub IsPlain : List Piece → Type 0
IsPlain [] = Unit
IsPlain (p ∷ ps) = (p.rotates ≡ false) × IsPlain ps

-- A coroutine that has code left, and is alive.
pub record IsWilling (x : Coroutine) : Type 0 where
  pub alive : x.is_alive ≡ true
  pub has_code : 0 < length (code_of x)
  pub plain : IsPlain (code_of x)

-- Different willing coroutines.
abbrev pub AreWilling : (ℕ → Coroutine) → List ℕ → Type 0
AreWilling coros [] = Unit
AreWilling coros (c ∷ cs) = IsWilling (coros c) × (¬ In c cs) × AreWilling coros cs

-- How many lines a coroutine has printed.
abbrev pub turns : ℕ → Scheduler → ℕ
turns c s = length (lines_of c s.printed)

-- What a pass comes to, for a willing coroutine.
pub passed : ℕ → Piece → List Piece → Scheduler → Scheduler
passed c p [] s = stop c [] (print_line c p (announce c s))
passed c p (q ∷ qs) s = add c (stop c (q ∷ qs) (print_line c p (announce c s)))

stopped_alive :
    (c : ℕ) (p : Piece) (ps : List Piece) (s : Scheduler)
    → IsWilling (s.coros c)
    → requeue c (goes_on (stop c ps (print_line c p (announce c s)))) ≡ goes_on (passed c p ps s)
unfolding passed
stopped_alive c p [] s willing =
    let t = stop c [] (print_line c p (announce c s)) in
    let dead : (t.coros c).is_alive ≡ false = ground arith in
    ap (λ b. goes_on (if b then add c t else t)) dead
stopped_alive c p (q ∷ qs) s willing =
    let t = stop c (q ∷ qs) (print_line c p (announce c s)) in
    let alive : (t.coros c).is_alive ≡ true = ground (arith, willing.alive) in
    ap (λ b. goes_on (if b then add c t else t)) alive

pass-passed :
    (c : ℕ) (p : Piece) (ps : List Piece) (s : Scheduler)
    → code_of (s.coros c) ≡ p ∷ ps
    → IsWilling (s.coros c)
    → pass true c s ≡ goes_on (passed c p ps s)
unfolding pass switch resume
pass-passed c p ps s code willing =
    let s' : Scheduler = announce c s in
    let stays : p.rotates ≡ false = (subst IsPlain code willing.plain).0 in
    ap (λ b. if b then requeue c (switch true c s') else goes_on (choose c s)) willing.alive
    ∙ ap (λ code. requeue c (resume c code s')) code
    ∙ ap
        (λ b. requeue c (
          stop_after c ps
            (if b then rotate_ready s.ready (print_line c p s') else goes_on (print_line c p s'))))
        stays
    ∙ stopped_alive c p ps s willing

-- A coroutine that stops with code left is still willing.
stop-IsWilling :
    (c : ℕ) (p q : Piece) (qs : List Piece) (s : Scheduler)
    → code_of (s.coros c) ≡ p ∷ q ∷ qs
    → IsWilling (s.coros c)
    → IsWilling ((stop c (q ∷ qs) s).coros c)
stop-IsWilling c p q qs s code willing =
    let x : Coroutine = record (s.coros c) { gr = some (q ∷ qs) } in
    let same : (c == c) ≡ true = ground arith in
    let next : IsWilling x = record {
      alive = willing.alive;
      has_code = omega arith;
      plain = (subst IsPlain code willing.plain).1;
    } in
    subst (λ b. IsWilling (if b then x else s.coros c)) (sym same) next

-- What a pass leaves, when it has taken `c` from the queue.
pub record Passes (c : ℕ) (cs : List ℕ) (s t : Scheduler) : Type 0 where
  pub went : pass true c s ≡ goes_on t
  pub one_turn : (j : ℕ) → turns j t ≡ turns j s + (if c == j then 1 else 0)
  pub others : (j : ℕ) → j ≢ c → t.coros j ≡ s.coros j
  pub shorter : length (code_of (s.coros c)) ≡ suc (length (code_of (t.coros c)))
  -- It is at the end of the queue with code left, or it has none left.
  pub queued :
      ((t.ready ≡ cs ++ c ∷ []) × IsWilling (t.coros c))
      ⊎ ((t.ready ≡ cs) × (code_of (t.coros c) ≡ []))

pub passed-Passes :
    (c : ℕ) (p : Piece) (ps : List Piece) (s : Scheduler)
    → code_of (s.coros c) ≡ p ∷ ps
    → IsWilling (s.coros c)
    → Passes c s.ready s (passed c p ps s)
unfolding passed
passed-Passes c p [] s code willing = record {
  went = pass-passed c p [] s code willing;
  one_turn = λ j. ground (
    arith,
    ap (length {A = ℕ}) (lines_of-snoc j c p.line s.printed),
    length-append (lines_of j s.printed) (p.line ∷ []),
  );
  others = λ j ne. ground arith;
  shorter = ground (arith, ap (length {A = Piece}) code);
  queued = inr (refl, ground arith);
}
passed-Passes c p (q ∷ qs) s code willing = record {
  went = pass-passed c p (q ∷ qs) s code willing;
  one_turn = λ j. ground (
    arith,
    ap (length {A = ℕ}) (lines_of-snoc j c p.line s.printed),
    length-append (lines_of j s.printed) (p.line ∷ []),
  );
  others = λ j ne. ground arith;
  shorter = ground (arith, ap (length {A = Piece}) code);
  queued = inl (refl, stop-IsWilling c p q qs (print_line c p (announce c s)) code willing);
}

-- A coroutine in the queue has the pass.
pub takes_turn :
    (c : ℕ) (s : Scheduler) → IsWilling (s.coros c) → (t : Scheduler) × Passes c s.ready s t
takes_turn c s willing = next (code_of (s.coros c)) refl
  where
    next : (code : List Piece) → code_of (s.coros c) ≡ code → (t : Scheduler) × Passes c s.ready s t
    next [] e = absurd (omega (arith, willing.has_code, ap (length {A = Piece}) e))
    next (p ∷ ps) e = (passed c p ps s, passed-Passes c p ps s e willing)

-- The coroutines that wait are willing as before, and so is the one that took its turn.
AreWilling-others :
    (c : ℕ) (cs : List ℕ) (f g : ℕ → Coroutine)
    → ((j : ℕ) → j ≢ c → g j ≡ f j)
    → ¬ In c cs
    → AreWilling f cs
    → AreWilling g cs
AreWilling-others c [] f g same out are = tt
AreWilling-others c (d ∷ ds) f g same out (is, fresh, are) = (
  subst IsWilling (sym (same d (λ e. out (inl (sym e))))) is,
  fresh,
  AreWilling-others c ds f g same (λ i. out (inr i)) are,
)

AreWilling-snoc :
    (c : ℕ) (cs : List ℕ) (f : ℕ → Coroutine)
    → ¬ In c cs
    → IsWilling (f c)
    → AreWilling f cs
    → AreWilling f (cs ++ c ∷ [])
AreWilling-snoc c [] f out willing are = (willing, (λ h. h), tt)
AreWilling-snoc c (d ∷ ds) f out willing (is, fresh, are) = (
  is,
  (λ h. elim (of_In-append d ds (c ∷ []) h) [
    | inl i ↦ fresh i
    | inr (inl e) ↦ out (inl (sym e))
    | inr (inr none_left) ↦ absurd none_left
  ]),
  AreWilling-snoc c ds f (λ i. out (inr i)) willing are,
)

pub Passes-AreWilling :
    (c : ℕ) (cs : List ℕ) (s t : Scheduler)
    → Passes c cs s t
    → AreWilling s.coros (c ∷ cs)
    → AreWilling t.coros t.ready
Passes-AreWilling c cs s t passes (is, fresh, are) =
    let still = AreWilling-others c cs s.coros t.coros passes.others fresh are in
    elim passes.queued [
      | inl (e, willing) ↦
          subst (AreWilling t.coros) (sym e) (AreWilling-snoc c cs t.coros fresh willing still)
      | inr (e, code) ↦ subst (AreWilling t.coros) (sym e) still
    ]
