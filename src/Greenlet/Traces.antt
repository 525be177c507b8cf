-- ===== src/Greenlet/Traces.antt =====
-- python/stackful_coroutine/greenlet_demo.py: what a pass of the scheduler does, and what each
-- coroutine prints.
use mathlib.Core.Path.{subst}
use mathlib.Core.List.{append_assoc}
use cocurrency.Common.{
  ℕ, ◌≡◌, inl, inr, refl, sym, ap, Bool, List, [], ◌∷◌, ◌++◌, if◌then◌else◌, Bool-cases, ◌==◌,
  of_branches, arith,
}
use cocurrency.Greenlet.{
  Piece, Scheduler, Ran, goes_on, index_error, print_line, rotate_ready, stop, stop_after, resume,
  code_of, switch, add, requeue, choose, announce, pass,
}

-- The lines that a coroutine has printed.
abbrev pub lines_of : ℕ → List (ℕ × ℕ) → List ℕ
lines_of c [] = []
lines_of c ((j, l) ∷ ps) = if j == c then l ∷ lines_of c ps else lines_of c ps

-- The lines of code.
abbrev pub lines : List Piece → List ℕ
lines [] = []
lines (p ∷ ps) = p.line ∷ lines ps

pub lines_of-snoc :
    (c j l : ℕ) (ps : List (ℕ × ℕ))
    → lines_of c (ps ++ (j, l) ∷ []) ≡ (if j == c then lines_of c ps ++ l ∷ [] else lines_of c ps)
lines_of-snoc c j l [] = refl
lines_of-snoc c j l ((i, m) ∷ ps) = ground (arith, lines_of-snoc c j l ps)

-- Each coroutine has printed the first of its lines, and has the others before it.
abbrev pub IsTraced : (ℕ → List ℕ) → Scheduler → Type 0
IsTraced all s = (c : ℕ) → lines_of c s.printed ++ lines (code_of (s.coros c)) ≡ all c

pub stop-code :
    (c : ℕ) (ps : List Piece) (s : Scheduler) (j : ℕ)
    → code_of ((stop c ps s).coros j) ≡ (if c == j then ps else code_of (s.coros j))
stop-code c [] s j = ground arith
stop-code c (q ∷ qs) s j = ground arith

pub stop-printed : (c : ℕ) (ps : List Piece) (s : Scheduler) → (stop c ps s).printed ≡ s.printed
stop-printed c [] s = refl
stop-printed c (q ∷ qs) s = refl

-- A piece has printed its line, and perhaps rotated the queue: then its coroutine stops.
stop-IsTraced :
    (all : ℕ → List ℕ) (c : ℕ) (p : Piece) (ps : List Piece) (s t : Scheduler)
    → code_of (s.coros c) ≡ p ∷ ps
    → t.printed ≡ s.printed ++ (c, p.line) ∷ []
    → ((j : ℕ) → code_of (t.coros j) ≡ code_of (s.coros j))
    → IsTraced all s
    → IsTraced all (stop c ps t)
stop-IsTraced all c p ps s t code printed same is j = elim (Bool-cases (c == j)) [
  | inl here ↦
      let e : c ≡ j = ground arith in
      ground (
        arith,
        stop-code c ps t j,
        stop-printed c ps t,
        printed,
        lines_of-snoc j c p.line s.printed,
        append_assoc (lines_of j s.printed) (p.line ∷ []) (lines ps),
        is j,
        ap lines code,
        e,
      )
  | inr other ↦ ground (
    arith,
    stop-code c ps t j,
    stop-printed c ps t,
    printed,
    lines_of-snoc j c p.line s.printed,
    is j,
    same j,
  )
]

-- What holds of the state, if no IndexError came.
abbrev pub Holds : (Scheduler → Type 0) → Ran → Type 0
Holds P (goes_on s) = P s
Holds P (index_error s) = Unit

rotate_ready-IsTraced :
    (all : ℕ → List ℕ) (c : ℕ) (p : Piece) (ps : List Piece) (ready : List ℕ) (s : Scheduler)
    → code_of (s.coros c) ≡ p ∷ ps
    → IsTraced all s
    → Holds (IsTraced all) (stop_after c ps (rotate_ready ready (print_line c p s)))
rotate_ready-IsTraced all c p ps [] s code is = tt
rotate_ready-IsTraced all c p ps (d ∷ ds) s code is =
    stop-IsTraced all c p ps s (record (print_line c p s) { ready = ds ++ d ∷ [] }) code refl
      (λ j. refl) is

resume-IsTraced :
    (all : ℕ → List ℕ) (c : ℕ) (ps : List Piece) (s : Scheduler)
    → code_of (s.coros c) ≡ ps
    → IsTraced all s
    → Holds (IsTraced all) (resume c ps s)
unfolding resume
resume-IsTraced all c [] s code is = is
resume-IsTraced all c (p ∷ ps) s code is = elim (Bool-cases p.rotates) [
  | inl turns ↦
      subst
        (λ b. Holds (IsTraced all) (
          stop_after c ps
            (if b then rotate_ready s.ready (print_line c p s) else goes_on (print_line c p s))))
        (sym turns) (rotate_ready-IsTraced all c p ps s.ready s code is)
  | inr stays ↦
      subst
        (λ b. Holds (IsTraced all) (
          stop_after c ps
            (if b then rotate_ready s.ready (print_line c p s) else goes_on (print_line c p s))))
        (sym stays) (stop-IsTraced all c p ps s (print_line c p s) code refl (λ j. refl) is)
]

requeue-IsTraced :
    (all : ℕ → List ℕ) (c : ℕ) (r : Ran)
    → Holds (IsTraced all) r
    → Holds (IsTraced all) (requeue c r)
requeue-IsTraced all c (goes_on s) is =
    of_branches (IsTraced all) (s.coros c).is_alive (add c s) s (λ e. is) (λ e. is)
requeue-IsTraced all c (index_error s) is = tt

pub pass-IsTraced :
    (all : ℕ → List ℕ) (has_greenlet : Bool) (c : ℕ) (s : Scheduler)
    → IsTraced all s
    → Holds (IsTraced all) (pass has_greenlet c s)
unfolding pass switch
pass-IsTraced all has_greenlet c s is =
    let s' : Scheduler = announce c s in
    of_branches (Holds (IsTraced all)) (s.coros c).is_alive (requeue c (switch has_greenlet c s'))
      (goes_on (choose c s))
      (λ alive. requeue-IsTraced all c (switch has_greenlet c s') (
        of_branches (Holds (IsTraced all)) has_greenlet (resume c (code_of (s.coros c)) s')
          (goes_on s') (λ e. resume-IsTraced all c (code_of (s.coros c)) s' refl is) (λ e. is)))
      (λ dead. is)
