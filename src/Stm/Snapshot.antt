-- ===== src/Stm/Snapshot.antt =====
-- python/stm/stm_model.py: a transaction that commits has run as if alone, at one moment.
use mathlib.Core.Path.{subst}
use native.Mathlib.Nat.{zero-add}
use cocurrency.Common.{
  ℕ, zero, suc, ◌+◌, ◌-◌, ◌≤◌, ◌≡◌, refl, sym, ap, ◌∙◌, Bool, true, false, Option, none, some,
  if◌then◌else◌, Option-cases, arith, inl, inr,
}
use cocurrency.Common.Int.{ℤ}
use cocurrency.Common.Dict.{lookup, lookup-insert}
use cocurrency.Stm.{
  Store, Transaction, empty, read_tvar, write_tvar, validate, commit, Body, returns, reads, writes,
  flags, retries, fails, Outcome, returned, retried, failed, run, Attempt, committed, again, finish,
  close, attempt,
}
use cocurrency.Stm.Commit.{Evolves, Evolves-refl, Evolves-trans, validate-lookup}

-- Commits follow one another in the history.
abbrev pub IsHistory : (ℕ → Store) → Type 0
IsHistory history = (i : ℕ) → Evolves (history i) (history (suc i))

Evolves-add : {h : ℕ → Store} → IsHistory h → (i k : ℕ) → Evolves (h i) (h (k + i))
Evolves-add {h} ev i zero = rw zero-add (Evolves-refl (h i))
Evolves-add {h} ev i (suc k) =
    let e : suc k + i ≡ suc (k + i) = omega arith in
    rw e (Evolves-trans (Evolves-add ev i k) (ev (k + i)))

Evolves-of_le : {h : ℕ → Store} → IsHistory h → (i j : ℕ) → i ≤ j → Evolves (h i) (h j)
Evolves-of_le {h} ev i j le =
    let e : j ≡ (j - i) + i = omega arith in rw e (Evolves-add ev i (j - i))

-- On the way that the body takes, no variable is read from the store twice. (The second read of one
-- would take the place of the first in the read set.)
unfoldable pub ReadsOnce : {R : Type 0} → (ℕ → Store) → Body R → ℕ → Transaction → Type 0
ReadsOnce h (returns r) t txn = Unit
ReadsOnce h (reads tid k) t txn =
    (lookup tid txn.write_set ≡ none → lookup tid txn.read_set ≡ none)
    × (let (v, txn') = read_tvar (h t) tid txn in ReadsOnce h (k v) (t + 1) txn')
ReadsOnce h (writes tid v body) t txn = ReadsOnce h body t (write_tvar tid v txn)
ReadsOnce h (flags body) t txn = ReadsOnce h body t (record txn { should_retry = true })
ReadsOnce h retries t txn = Unit
ReadsOnce h fails t txn = Unit

read_tvar-lookup :
    (s : Store) (k : ℕ) (txn : Transaction) (tid : ℕ) (e : ℤ × ℕ)
    → (lookup k txn.write_set ≡ none → lookup k txn.read_set ≡ none)
    → lookup tid txn.read_set ≡ some e
    → lookup tid (read_tvar s k txn).1.read_set ≡ some e
unfolding read_tvar
read_tvar-lookup s k txn tid e once l = elim (Option-cases (lookup k txn.write_set)) [
  | inl unwritten ↦ ground (
    arith,
    once unwritten,
    lookup-insert k tid ((s.vars k).value, (s.vars k).version) txn.read_set,
  )
  | inr (w, is_written) ↦ ground arith
]

-- Such a body keeps what the read set holds.
run-lookup :
    {R : Type 0} (h : ℕ → Store) (body : Body R) (t : ℕ) (txn : Transaction) (tid : ℕ) (e : ℤ × ℕ)
    → ReadsOnce h body t txn
    → lookup tid txn.read_set ≡ some e
    → lookup tid (run h body t txn).1.read_set ≡ some e
unfolding run ReadsOnce
run-lookup h (returns r) t txn tid e once l = l
run-lookup h (reads k body) t txn tid e once l =
    let (v, txn') = read_tvar (h t) k txn in
    run-lookup h (body v) (t + 1) txn' tid e once.1 (read_tvar-lookup (h t) k txn tid e once.0 l)
run-lookup h (writes k v body) t txn tid e once l =
    run-lookup h body t (write_tvar k v txn) tid e once (unfold write_tvar in l)
run-lookup h (flags body) t txn tid e once l =
    run-lookup h body t (record txn { should_retry = true }) tid e once l
run-lookup h retries t txn tid e once l = l
run-lookup h fails t txn tid e once l = l

run-le :
    {R : Type 0} (h : ℕ → Store) (body : Body R) (t : ℕ) (txn : Transaction)
    → t ≤ (run h body t txn).2
unfolding run
run-le h (returns r) t txn = omega arith
run-le h (reads k body) t txn =
    let (v, txn') = read_tvar (h t) k txn in omega (arith, run-le h (body v) (t + 1) txn')
run-le h (writes k v body) t txn = run-le h body t (write_tvar k v txn)
run-le h (flags body) t txn = run-le h body t (record txn { should_retry = true })
run-le h retries t txn = omega arith
run-le h fails t txn = omega arith

-- A read gives at a later moment what it gave, if the variable has kept its version.
read_tvar-eq :
    (s s' : Store) (k : ℕ) (txn : Transaction)
    → Evolves s s'
    → (lookup k txn.write_set ≡ none → (s'.vars k).version ≡ (s.vars k).version)
    → read_tvar s' k txn ≡ read_tvar s k txn
unfolding read_tvar
read_tvar-eq s s' k txn ev same = elim (Option-cases (lookup k txn.write_set)) [
  | inl unwritten ↦ ground (arith, same unwritten, ev.keeps k)
  | inr (w, is_written) ↦ ground arith
]

read_tvar-records :
    (s : Store) (k : ℕ) (txn : Transaction)
    → lookup k txn.write_set ≡ none
    → lookup k (read_tvar s k txn).1.read_set ≡ some ((s.vars k).value, (s.vars k).version)
unfolding read_tvar
read_tvar-records s k txn unwritten =
    ground (arith, lookup-insert k k ((s.vars k).value, (s.vars k).version) txn.read_set)

module _ {R : Type 0} {h : ℕ → Store} (ev : IsHistory h) (m : ℕ) where
  -- If what the body has read is current at moment `m`, then the body does the same at `m` alone.
  replay :
      (body : Body R) (t u : ℕ) (txn : Transaction)
      → ReadsOnce h body t txn
      → (run h body t txn).2 ≤ m
      → validate (h m) (run h body t txn).1 ≡ true
      → ((run (λ _. h m) body u txn).0 ≡ (run h body t txn).0)
        × ((run (λ _. h m) body u txn).1 ≡ (run h body t txn).1)
  unfolding run ReadsOnce
  replay (returns r) t u txn once le ok = (refl, refl)
  replay (reads k body) t u txn once le ok =
      let (v, txn') = read_tvar (h t) k txn in
      let before : t ≤ m = omega (arith, run-le h (body v) (t + 1) txn') in
      let same : read_tvar (h m) k txn ≡ read_tvar (h t) k txn =
        read_tvar-eq (h t) (h m) k txn (Evolves-of_le ev t m before) (λ unwritten.
          (validate-lookup (h m) (run h (body v) (t + 1) txn').1 k ((h t).vars k).value
            ((h t).vars k).version ok
            (run-lookup h (body v) (t + 1) txn' k _ once.1
              (read_tvar-records (h t) k txn unwritten))).1) in
      subst
        (λ p.
          ((run (λ _. h m) (body p.0) (u + 1) p.1).0 ≡ (run h (body v) (t + 1) txn').0)
          × ((run (λ _. h m) (body p.0) (u + 1) p.1).1 ≡ (run h (body v) (t + 1) txn').1))
        (sym same) (replay (body v) (t + 1) (u + 1) txn' once.1 le ok)
  replay (writes k v body) t u txn once le ok = replay body t u (write_tvar k v txn) once le ok
  replay (flags body) t u txn once le ok =
      replay body t u (record txn { should_retry = true }) once le ok
  replay retries t u txn once le ok = (refl, refl)
  replay fails t u txn once le ok = (refl, refl)

-- What a round that commits went through.
record Commits {R : Type 0} (h : ℕ → Store) (x : Outcome R × Transaction × ℕ) (r : R) (s : Store)
    : Type 0 where
  outcome : x.0 ≡ returned r
  unflagged : x.1.should_retry ≡ false
  valid : validate (h (x.2 + 1)) x.1 ≡ true
  stored : commit x.1 (h (x.2 + 1)) ≡ some s

finish-eq-committed :
    {R : Type 0} (r r' : R) (m : Option Store) (s : Store)
    → finish r m ≡ committed r' s
    → (r ≡ r') × (m ≡ some s)
finish-eq-committed r r' none s h = cc
finish-eq-committed r r' (some s') s h = (cc, cc)

tests_passed :
    {R : Type 0} (flagged valid still_valid : Bool) (ended : Attempt R) (t u v : ℕ) {r : R}
    {s : Store}
    → (if flagged
        then again t
        else if valid
        then (if still_valid then ended else again u)
        else again v)
      ≡ committed r s
    → (flagged ≡ false) × (still_valid ≡ true) × (ended ≡ committed r s)
tests_passed true valid still_valid ended t u v e = cc
tests_passed false false still_valid ended t u v e = cc
tests_passed false true false ended t u v e = cc
tests_passed false true true ended t u v e = (refl, refl, e)

returned_inj : {R : Type 0} {a b : R} → returned a ≡ returned b → a ≡ b
returned_inj h = cc

close-Commits :
    {R : Type 0} (h : ℕ → Store) (x : Outcome R × Transaction × ℕ) (r : R) (s : Store)
    → close h x ≡ committed r s
    → Commits h x r s
close-Commits h (failed, txn, t) r s e = cc
close-Commits h (retried, txn, t) r s e = cc
close-Commits h (returned r', txn, t) r s e =
    let (unflagged, valid, ended) =
      tests_passed txn.should_retry (validate (h t) txn) (validate (h (t + 1)) txn)
        (finish r' (commit txn (h (t + 1)))) t (t + 2) (t + 1) e in
    let (same, stored) = finish-eq-committed r' r (commit txn (h (t + 1))) s ended in
    record { outcome = ap returned same; unflagged = unflagged; valid = valid; stored = stored }

-- A round commits alone if its store is valid for it.
Commits-close :
    {R : Type 0} (s s' : Store) (x : Outcome R × Transaction × ℕ) (r : R)
    → x.0 ≡ returned r
    → x.1.should_retry ≡ false
    → validate s x.1 ≡ true
    → commit x.1 s ≡ some s'
    → close (λ _. s) x ≡ committed r s'
Commits-close s s' (returned r', txn, t) r e f v c =
    simp (f, v, c) (ap (λ a. committed a s') (returned_inj e))
Commits-close s s' (retried, txn, t) r e f v c = cc
Commits-close s s' (failed, txn, t) r e f v c = cc

-- A transaction that reads no variable twice is serialisable: if a round of `atomically` commits,
-- while the store changes under it by other commits, then there is one moment from its start to
-- its second validation, which is one moment after the body, at which the round, run alone on the
-- store of that moment, returns the same result and commits the same store.
pub attempt_serializable :
    {R : Type 0} {h : ℕ → Store}
    → IsHistory h
    → (body : Body R) (t : ℕ) → ReadsOnce h body t empty
    → (r : R) (s : Store) → attempt h (run h body) t ≡ committed r s
    → (m : ℕ) × (t ≤ m)
      × (m ≤ (run h body t empty).2 + 1)
      × (attempt (λ _. h m) (run (λ _. h m) body) 0 ≡ committed r s)
unfolding attempt
attempt_serializable {h} ev body t once r s e =
    let x = run h body t empty in
    let c = close-Commits h x r s e in
    let m : ℕ = x.2 + 1 in
    let (same_outcome, same_txn) = replay ev m body t 0 empty once (omega arith) c.valid in
    (
      m,
      omega (arith, run-le h body t empty),
      omega arith,
      Commits-close (h m) s (run (λ _. h m) body 0 empty) r (same_outcome ∙ c.outcome)
          (ap (λ txn. txn.should_retry) same_txn ∙ c.unflagged)
          (ap (validate (h m)) same_txn ∙ c.valid)
          (ap (λ txn. commit txn (h m)) same_txn ∙ c.stored),
    )
