-- ===== src/Stm/Nested/Agrees.antt =====
-- python/stm/stm_model.py: `_tls.current_txn` while transactions are inside transactions.
use cocurrency.Common.{ℕ, zero, suc, ◌≡◌, refl, ap, ◌∙◌, Option, none, some, of_branches}
use cocurrency.Common.Int.{ℤ}
use cocurrency.Stm.{Store, validate, commit}
use cocurrency.Stm.Nested.{
  Thread, Reply, value, retry_exception, other_exception, unfinished, Block, returns, reads, writes,
  flags, retries, fails, nests, tick, txn_read, txn_write, txn_retry, Func, Round, leaves, again,
  begin, restore, finish, close, round, next, atomically, bind, run_current, run_given,
}

-- The thread at the end of a round.
abbrev end_thread : Round → Thread
end_thread (leaves reply s) = s
end_thread (again s) = s

finish-current :
    (v : ℤ) (s : Thread) (committed : Option Store)
    → (end_thread (finish v s committed)).current ≡ s.current
finish-current v s none = refl
finish-current v s (some store) = refl

close-current :
    (others : ℕ → Store → Store) (id : ℕ) (reply : Reply) (s : Thread)
    → (end_thread (close others id reply s)).current ≡ s.current
unfolding close
close-current others id (value v) s =
    let P : Round → Type 0 = λ r. (end_thread r).current ≡ s.current in
    let txn = s.txns id in
    of_branches P txn.should_retry (again s) _ (λ _. refl)
      λ _.
        of_branches P (validate s.store txn) _ (again (tick others s))
          (λ _.
            of_branches P (validate (tick others s).store txn)
              (finish v (tick others s) (commit txn (tick others s).store))
              (again (tick others (tick others s)))
              (λ _. finish-current v (tick others s) (commit txn (tick others s).store)) λ _. refl)
          λ _. refl
close-current others id retry_exception s = refl
close-current others id other_exception s = refl
close-current others id unfinished s = refl

round-current :
    (others : ℕ → Store → Store) (func : Func) (s : Thread)
    → (end_thread (round others func s)).current ≡ s.current
unfolding round restore
round-current others func s =
    let (reply, s') = func s.count (begin s) in
    close-current others s.count reply (restore s.current s')

next-current :
    (r : Round) (loop : Thread → Reply × Thread) (old : Option ℕ)
    → ((s : Thread) → (loop s).1.current ≡ s.current)
    → (end_thread r).current ≡ old
    → (next r loop).1.current ≡ old
next-current (leaves reply s) loop old keeps e = e
next-current (again s) loop old keeps e = keeps s ∙ e

next_agree :
    (r : Round) (f g : Thread → Reply × Thread) → ((s : Thread) → f s ≡ g s) → next r f ≡ next r g
next_agree (leaves reply s) f g same = refl
next_agree (again s) f g same = same s

-- Whatever the function does to the current transaction, `atomically` puts it back.
atomically-current :
    (others : ℕ → Store → Store) (func : Func) (rounds : ℕ) (s : Thread)
    → (atomically others rounds func s).1.current ≡ s.current
unfolding atomically
atomically-current others func zero s = refl
atomically-current others func (suc rounds) s =
    next-current (round others func s) (λ s'. atomically others rounds func s') s.current
      (λ s'. atomically-current others func rounds s') (round-current others func s)

-- Two functions that do the same when the transaction that they are given is the current one.
DoSame : Func → Func → Type 0
DoSame f g = (id : ℕ) (s : Thread) → s.current ≡ some id → f id s ≡ g id s

atomically_agree :
    (others : ℕ → Store → Store) (f g : Func) (rounds : ℕ) (s : Thread)
    → DoSame f g
    → atomically others rounds f s ≡ atomically others rounds g s
unfolding atomically round begin DoSame
atomically_agree others f g zero s same = refl
atomically_agree others f g (suc rounds) s same =
    ap
      (λ p.
        next (close others s.count p.0 (restore s.current p.1))
          (λ s'. atomically others rounds f s'))
      (same s.count (begin s) refl)
    ∙ next_agree (round others g s) (λ s'. atomically others rounds f s')
        (λ s'. atomically others rounds g s') λ s'. atomically_agree others f g rounds s' same

bind_agree :
    (p : Reply × Thread) (k k' : ℤ → Thread → Reply × Thread) (me : ℕ)
    → p.1.current ≡ some me
    → ((v : ℤ) (s : Thread) → s.current ≡ some me → k v s ≡ k' v s)
    → bind p k ≡ bind p k'
bind_agree (value v, s) k k' me e same = same v s e
bind_agree (retry_exception, s) k k' me e same = refl
bind_agree (other_exception, s) k k' me e same = refl
bind_agree (unfinished, s) k k' me e same = refl

run_current-run_given :
    (others : ℕ → Store → Store) (rounds : ℕ) (block : Block) (me : ℕ) (s : Thread)
    → s.current ≡ some me
    → run_current others rounds block s ≡ run_given others rounds block me s
unfolding run_current run_given DoSame
run_current-run_given others rounds (returns v) me s e = refl
run_current-run_given others rounds (reads tid k) me s e =
    let (v, s') = txn_read tid me s in
    ap
      (λ c.
        let p : ℤ × Thread = elim c [
          | none ↦ ((s.store.vars tid).value, s)
          | some id ↦ txn_read tid id s
        ] in
        run_current others rounds (k p.0) (tick others p.1))
      e
    ∙ run_current-run_given others rounds (k v) me (tick others s') e
run_current-run_given others rounds (writes tid v block) me s e =
    ap
      (λ c.
        let r : Option Thread = elim c [ none ↦ none | some id ↦ some (txn_write tid v id s) ] in
        elim r [ none ↦ (other_exception, s) | some s' ↦ run_current others rounds block s' ])
      e
    ∙ run_current-run_given others rounds block me (txn_write tid v me s) e
run_current-run_given others rounds (flags block) me s e =
    ap
      (λ c.
        let r : Option Thread = elim c [ none ↦ none | some id ↦ some (txn_retry id s) ] in
        elim r [ none ↦ (other_exception, s) | some s' ↦ run_current others rounds block s' ])
      e
    ∙ run_current-run_given others rounds block me (txn_retry me s) e
run_current-run_given others rounds retries me s e =
    ap (λ c. elim c [ none ↦ (other_exception, s) | some id ↦ (retry_exception, txn_retry id s) ]) e
run_current-run_given others rounds fails me s e = refl
run_current-run_given others rounds (nests inner k) me s e =
    let f : Func = λ id s'. run_current others rounds inner s' in
    let g : Func = λ id s'. run_given others rounds inner id s' in
    ap (λ p. bind p (λ v s'. run_current others rounds (k v) s'))
      (atomically_agree others f g rounds s
        λ id s' e'. run_current-run_given others rounds inner id s' e')
    ∙ bind_agree (atomically others rounds g s) _ _ me (atomically-current others g rounds s ∙ e)
        λ v s' e'. run_current-run_given others rounds (k v) me s' e'

-- In `atomically`, transactions inside it included, the functions of the module, which look the
-- current transaction up, do what the methods of the transaction that each function was given do:
-- the results and the whole state are the same. Afterwards the current transaction of the thread is
-- what it was before, also when the call ends by an exception.
pub atomically_current :
    (others : ℕ → Store → Store) (rounds : ℕ) (block : Block) (s : Thread)
    → (atomically others rounds (λ id s'. run_current others rounds block s') s
        ≡ atomically others rounds (run_given others rounds block) s)
      × ((atomically others rounds (λ id s'. run_current others rounds block s') s).1.current
          ≡ s.current)
unfolding DoSame
atomically_current others rounds block s = (
  atomically_agree others (λ id s'. run_current others rounds block s')
      (run_given others rounds block) rounds s
      λ id s' e. run_current-run_given others rounds block id s' e,
  atomically-current others (λ id s'. run_current others rounds block s') rounds s,
)
