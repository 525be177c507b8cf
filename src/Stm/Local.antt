-- ===== src/Stm/Local.antt =====
-- python/stm/stm_model.py: `atomically` in one thread, while no other thread is at work.
use cocurrency.Common.{
  ℕ, ◌+◌, ◌≡◌, refl, ap, ◌∙◌, true, false, none, some, [], ◌∷◌, ◌==◌, if◌then◌else◌, arith,
}
use cocurrency.Common.Int.{ℤ}
use cocurrency.Stm.{
  Store, Tvar, set_var, Transaction, empty, validate_items, validate, commit_items, commit, returns,
  reads, writes, run, committed, again, raised, attempt, atomically, finish,
}

same_key : (k : ℕ) → (k == k) ≡ true
same_key k = ground arith

-- A transaction that reads a registered variable commits, with nothing else going on.
atomically-read :
    (tid : ℕ) (s : Store)
    → s.registered tid ≡ true
    → atomically 1 (λ t. s) (run (λ t. s) (reads tid returns)) 0 ≡ committed (s.vars tid).value s
unfolding atomically attempt run validate validate_items commit commit_items
    cocurrency.Stm.read_tvar
atomically-read tid s registered =
    let v = (s.vars tid).value in
    let txn : Transaction = record empty {
      read_set = (tid, (v, (s.vars tid).version)) ∷ [];
      local_cache = (tid, v) ∷ [];
    } in
    let valid : validate s txn ≡ true =
      ap
        (λ b.
          if b
          then (if (s.vars tid).version == (s.vars tid).version then true else false)
          else false)
        registered
      ∙ ap (λ b. if b then true else false) (same_key (s.vars tid).version) in
    let one_round : attempt (λ t. s) (run (λ t. s) (reads tid returns)) 0 ≡ committed v s =
      ap
        (λ b. if b then (if b then finish v (if b then some s else none) else again 3) else again 2)
        valid in
    ap (λ r. elim r [ committed r s ↦ committed r s | raised ↦ raised | again t' ↦ again t' ])
      one_round

-- A value that a transaction writes to a registered variable, with nothing else going on, is
-- committed, and the next transaction reads it.
pub atomically-write-read :
    (tid : ℕ) (v : ℤ) (s : Store)
    → s.registered tid ≡ true
    → (s' : Store) × (atomically 1 (λ t. s) (run (λ t. s) (writes tid v (returns v))) 0
        ≡ committed v s')
      × (atomically 1 (λ t. s') (run (λ t. s') (reads tid returns)) 0 ≡ committed v s')
unfolding atomically attempt run validate validate_items commit commit_items
    cocurrency.Stm.read_tvar cocurrency.Stm.write_tvar
atomically-write-read tid v s registered =
    let s' = set_var tid (record { value = v; version = (s.vars tid).version + 1 }) s in
    (
      s',
      rw registered refl,
      atomically-read tid s' registered
          ∙ ap
              (λ b.
                committed
                  (if b
                    then (let x : Tvar = record { value = v; version = (s.vars tid).version + 1 } in
                        x)
                    else s.vars tid).value
                  s')
              (same_key tid),
    )
