-- ===== src/Stm/Anomaly.antt =====
-- python/stm/stm_model.py: `_or_else`, and transactions that commit without being atomic.
use mathlib.Core.Path.{ap₂}
use cocurrency.Common.{
  ℕ, zero, suc, ◌+◌, ◌≡◌, ◌≢◌, refl, ap, ◌∙◌, true, false, some, [], ◌∷◌, Option-cases, inl, inr,
  arith,
}
use cocurrency.Common.Int.{ℤ, pos, ◌+ℤ◌, ltb_ℤ}
use cocurrency.Common.Dict.{Dict, lookup, insert, IsDict}
use cocurrency.Stm.{
  Store, Transaction, empty, read_tvar, write_tvar, validate_items, validate, commit_items, commit,
  Body, returns, reads, writes, flags, retries, fails, Outcome, returned, retried, failed, Func,
  run, or_else, or_second, committed, again, close, attempt, stm_bank_transfer,
}
use cocurrency.Stm.Commit.{commit-written, written}

-- The local cache, which nothing reads.
abbrev with_cache : Dict ℤ → Transaction → Transaction
with_cache c txn = record txn { local_cache = c }

read_tvar-with_cache :
    (s : Store) (k : ℕ) (c : Dict ℤ) (txn : Transaction)
    → ((read_tvar s k (with_cache c txn)).0 ≡ (read_tvar s k txn).0)
      × (c' : Dict ℤ) × ((read_tvar s k (with_cache c txn)).1 ≡ with_cache c' (read_tvar s k txn).1)
unfolding read_tvar
read_tvar-with_cache s k c txn = elim (Option-cases (lookup k txn.write_set)) [
  | inl unwritten ↦ (ground arith, insert k (s.vars k).value c, ground arith)
  | inr (w, is_written) ↦ (ground arith, c, ground arith)
]

write_tvar-with_cache :
    (k : ℕ) (v : ℤ) (c : Dict ℤ) (txn : Transaction)
    → write_tvar k v (with_cache c txn) ≡ with_cache (insert k v c) (write_tvar k v txn)
unfolding write_tvar
write_tvar-with_cache k v c txn = refl

run-with_cache :
    {R : Type 0} (h : ℕ → Store) (body : Body R) (t : ℕ) (c : Dict ℤ) (txn : Transaction)
    → (c' : Dict ℤ) × (let (out, txn', t') = run h body t txn in
        run h body t (with_cache c txn) ≡ (out, with_cache c' txn', t'))
unfolding run
run-with_cache h (returns r) t c txn = (c, refl)
run-with_cache h (reads k body) t c txn =
    let (v, txn') = read_tvar (h t) k txn in
    let (same, c', cached) = read_tvar-with_cache (h t) k c txn in
    let (c'', ih) = run-with_cache h (body v) (t + 1) c' txn' in
    (c'', ap₂ (λ w x. run h (body w) (t + 1) x) same cached ∙ ih)
run-with_cache h (writes k v body) t c txn =
    let (c', ih) = run-with_cache h body t (insert k v c) (write_tvar k v txn) in
    (c', ap (run h body t) (write_tvar-with_cache k v c txn) ∙ ih)
run-with_cache h (flags body) t c txn =
    run-with_cache h body t c (record txn { should_retry = true })
run-with_cache h retries t c txn = (c, refl)
run-with_cache h fails t c txn = (c, refl)

close-with_cache :
    {R : Type 0} (h : ℕ → Store) (out : Outcome R) (c : Dict ℤ) (txn : Transaction) (t : ℕ)
    → close h (out, with_cache c txn, t) ≡ close h (out, txn, t)
unfolding validate commit
close-with_cache h (returned r) c txn t = refl
close-with_cache h retried c txn t = refl
close-with_cache h failed c txn t = refl

close-or_second :
    {R : Type 0} (h : ℕ → Store) (second : Body R) (x : Outcome R × Transaction × ℕ)
    → ((r : R) → x.0 ≢ returned r)
    → close h (or_second empty (run h second) x) ≡ close h (run h second x.2 empty)
close-or_second h second (returned r, txn, t) unreturned = absurd (unreturned r refl)
close-or_second h second (retried, txn, t) unreturned =
    let (c, e) = run-with_cache h second t txn.local_cache empty in
    let (out, txn', t') = run h second t empty in ap (close h) e ∙ close-with_cache h out c txn' t'
close-or_second h second (failed, txn, t) unreturned =
    let (c, e) = run-with_cache h second t txn.local_cache empty in
    let (out, txn', t') = run h second t empty in ap (close h) e ∙ close-with_cache h out c txn' t'

close-flagged :
    {R : Type 0} (h : ℕ → Store) (second : Func R) (x : Outcome R × Transaction × ℕ) (r : R)
    → x.0 ≡ returned r
    → x.1.should_retry ≡ true
    → close h (or_second empty second x) ≡ again x.2
close-flagged h second (returned r', txn, t) r e f = rw f
close-flagged h second (retried, txn, t) r e f = cc
close-flagged h second (failed, txn, t) r e f = cc

-- `_or_else` after a first function that calls `retry()`, or fails: whatever that function has read
-- and written, the round ends as a round of the second function alone, started at that moment.
pub or_else_falls_through :
    {R : Type 0} (h : ℕ → Store) (first second : Body R) (t : ℕ)
    → ((r : R) → (run h first t empty).0 ≢ returned r)
    → attempt h (or_else (run h first) (run h second)) t
      ≡ attempt h (run h second) (run h first t empty).2
unfolding attempt or_else
or_else_falls_through h first second t unreturned =
    close-or_second h second (run h first t empty) unreturned

-- After a first function that returns with the flag set, as by `txn.retry()`, the second function
-- has no part in the round: it ends in a retry.
pub or_else_flagged :
    {R : Type 0} (h : ℕ → Store) (first : Func R) (second : Func R) (t : ℕ) (r : R)
    → (first t empty).0 ≡ returned r
    → (first t empty).1.should_retry ≡ true
    → attempt h (or_else first second) t ≡ again (first t empty).2
unfolding attempt or_else
or_else_flagged h first second t r e f = close-flagged h second (first t empty) r e f

-- The store before and after a commit of another transaction.
abbrev pub changes_once : Store → Store → ℕ → Store
changes_once s s' zero = s
changes_once s s' (suc i) = s'

abbrev pub read_twice : ℕ → Body (ℤ × ℤ)
read_twice k = reads k λ first. reads k λ second. returns (first, second)

-- A transaction that reads a variable twice is not atomic. If the variable changes between the two
-- reads, the round returns the two values that it saw and commits; alone, on no store does a round
-- return two different values.
pub read_twice_torn :
    (k : ℕ) (s s' : Store)
    → s'.registered k ≡ true
    → (s.vars k).value ≢ (s'.vars k).value
    → (attempt (changes_once s s') (run (changes_once s s') (read_twice k)) 0
        ≡ committed ((s.vars k).value, (s'.vars k).value) s')
      × ((u u' : Store)
          → attempt (λ _. u) (run (λ _. u) (read_twice k)) 0
            ≢ committed ((s.vars k).value, (s'.vars k).value) u')
unfolding attempt run read_tvar validate validate_items commit commit_items
read_twice_torn k s s' reg torn = (ground arith, λ u u' e. ground arith)

module _ (s : Store) (a l : ℕ) (amount : ℤ) where
  abbrev self_taken : Transaction
  self_taken = record {
    read_set =
        (a, ((s.vars a).value, (s.vars a).version))
        ∷ (l, ((s.vars l).value, (s.vars l).version))
        ∷ [];
    write_set = (a, (s.vars a).value +ℤ amount) ∷ (l, (s.vars l).value +ℤ pos 1) ∷ [];
    local_cache = (a, (s.vars a).value +ℤ amount) ∷ (l, (s.vars l).value +ℤ pos 1) ∷ [];
    should_retry = false;
  }

  run-self_taken :
      a ≢ l
      → ltb_ℤ (s.vars a).value amount ≡ false
      → run (λ _. s) (stm_bank_transfer a a amount l) 0 empty
        ≡ (returned (some amount), self_taken, 3)
  unfolding run read_tvar write_tvar stm_bank_transfer
  run-self_taken al rich = ground arith

  self_taken-valid : s.registered a ≡ true → s.registered l ≡ true → validate s self_taken ≡ true
  unfolding validate validate_items
  self_taken-valid ra rl = ground arith

  self_taken-IsDict : a ≢ l → IsDict self_taken.write_set
  self_taken-IsDict al = ground arith

-- A transfer from an account to itself adds the amount to it, if the account has the amount.
pub transfer_to_itself :
    (s : Store) (a l : ℕ) (amount : ℤ)
    → a ≢ l
    → s.registered a ≡ true
    → s.registered l ≡ true
    → ltb_ℤ (s.vars a).value amount ≡ false
    → (s' : Store) × (attempt (λ _. s) (run (λ _. s) (stm_bank_transfer a a amount l)) 0
        ≡ committed (some amount) s')
      × ((s'.vars a).value ≡ (s.vars a).value +ℤ amount)
unfolding attempt
transfer_to_itself s a l amount al ra rl rich =
    let valid = self_taken-valid s a l amount ra rl in
    (
      written (self_taken s a l amount).write_set s,
      rw (run-self_taken s a l amount al rich) (
          simp (
            valid,
            commit-written (self_taken s a l amount) s valid (self_taken-IsDict s a l amount al),
          )),
      ground arith,
    )
