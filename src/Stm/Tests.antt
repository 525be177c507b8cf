-- ===== src/Stm/Tests.antt =====
-- Tests of python/stm/stm_model.py, and the theorems about it at concrete stores.
use cocurrency.Common.{
  ℕ, zero, suc, ◌+◌, ◌≤◌, ◌≡◌, ◌≢◌, refl, true, false, Option, none, some, [], ◌∷◌, ◌==◌,
  if◌then◌else◌, arith,
}
use cocurrency.Common.Int.{ℤ, pos, ◌+ℤ◌, ◌-ℤ◌, ltb_ℤ}
use cocurrency.Stm.{
  Store, set_var, write_direct, Transaction, empty, read_tvar, write_tvar, validate_items, validate,
  commit_items, commit, Body, returns, reads, writes, flags, retries, run, or_else, committed,
  again, attempt, atomically, stm_bank_transfer,
}
use cocurrency.Stm.Commit.{
  commit-written, written, Evolves, Evolves-refl, commit-Evolves, write_direct-Evolves,
}
use cocurrency.Stm.Snapshot.{IsHistory, ReadsOnce, attempt_serializable}
use cocurrency.Stm.Transfer.{Parties, Moved, money, transfer_atomic, transfer_poor, atomically_poor}
use cocurrency.Stm.Local.{atomically-write-read}
use cocurrency.Stm.Anomaly.{
  changes_once, read_twice, or_else_falls_through, or_else_flagged, read_twice_torn,
  transfer_to_itself,
}

-- Two accounts, 0 with 100 and 1 with 5, and the ledger 2; all variables are registered.
abbrev bank : Store
bank = record {
  vars = λ j.
      if j == 0
      then record { value = pos 100; version = 0 }
      else if j == 1
      then record { value = pos 5; version = 0 }
      else record { value = pos 0; version = 0 };
  registered = λ j. true;
}

-- Another thread changes variable 7 after the first read.
abbrev history : ℕ → Store
history = changes_once bank (write_direct 7 (pos 9) bank)

history-IsHistory : IsHistory history
history-IsHistory zero = write_direct-Evolves 7 (pos 9) bank
history-IsHistory (suc i) = Evolves-refl (write_direct 7 (pos 9) bank)

abbrev after_transfer : Store
after_transfer =
    set_var 2 (record { value = pos 1; version = 1 })
      (set_var 1 (record { value = pos 35; version = 1 })
        (set_var 0 (record { value = pos 70; version = 1 }) (write_direct 7 (pos 9) bank)))

transfer_30 :
    attempt history (run history (stm_bank_transfer 0 1 (pos 30) 2)) 0
    ≡ committed (some (pos 30)) after_transfer
unfolding attempt run read_tvar write_tvar stm_bank_transfer validate validate_items commit
    commit_items write_direct ◌+ℤ◌ ◌-ℤ◌
transfer_30 = refl

transfer_30-ReadsOnce : ReadsOnce history (stm_bank_transfer 0 1 (pos 30) 2) 0 empty
unfolding ReadsOnce read_tvar write_tvar stm_bank_transfer write_direct
transfer_30-ReadsOnce = (λ _. refl, (λ _. refl, (λ _. refl, tt)))

attempt_serializable_example :
    (m : ℕ) × (0 ≤ m)
    × (m ≤ (run history (stm_bank_transfer 0 1 (pos 30) 2) 0 empty).2 + 1)
    × (attempt (λ _. history m) (run (λ _. history m) (stm_bank_transfer 0 1 (pos 30) 2)) 0
        ≡ committed (some (pos 30)) after_transfer)
attempt_serializable_example =
    attempt_serializable history-IsHistory (stm_bank_transfer 0 1 (pos 30) 2) 0
      transfer_30-ReadsOnce (some (pos 30)) after_transfer transfer_30

parties : (i : ℕ) → Parties (history i) 0 1 2
unfolding write_direct
parties zero = ground arith
parties (suc i) = ground arith

transfer_atomic_example :
    (m : ℕ) × (0 ≤ m)
    × (some (pos 30) ≡ some (pos 30))
    × (ltb_ℤ ((history m).vars 0).value (pos 30) ≡ false)
    × Moved (history m) after_transfer 0 1 2 (pos 30)
    × (money after_transfer 0 1 ≡ money (history m) 0 1)
transfer_atomic_example =
    transfer_atomic 0 1 2 (pos 30) 0 (some (pos 30)) after_transfer history-IsHistory parties
      transfer_30

transfer_poor_example : attempt history (run history (stm_bank_transfer 1 0 (pos 30) 2)) 0 ≡ again 2
transfer_poor_example = transfer_poor history 1 0 2 (pos 30) 0 refl

-- The test `test_retry_on_insufficient_funds`: no other thread pays in.
atomically_poor_example :
    (t' : ℕ) × (atomically 1000 (λ _. bank) (run (λ _. bank) (stm_bank_transfer 1 0 (pos 30) 2)) 0
      ≡ again t')
atomically_poor_example = atomically_poor (λ _. bank) 1 0 2 (pos 30) (λ _. refl) 1000 0

-- A transaction that has read account 0, and writes it and the ledger.
abbrev txn : Transaction
txn = record {
  read_set = (0, (pos 100, 0)) ∷ [];
  write_set = (0, pos 60) ∷ (2, pos 1) ∷ [];
  local_cache = [];
  should_retry = false;
}

txn_valid : validate bank txn ≡ true
unfolding validate validate_items
txn_valid = refl

commit-written_example : commit txn bank ≡ some (written txn.write_set bank)
commit-written_example = commit-written txn bank txn_valid (refl, (refl, tt))

commit-Evolves_example : Evolves bank (written txn.write_set bank)
commit-Evolves_example =
    commit-Evolves txn bank (written txn.write_set bank)
      (commit-written txn bank txn_valid (refl, (refl, tt)))

-- The functions of the demo: `try_x` asks for a retry by `txn.retry()`, `try_y` takes 500.
abbrev try_x : Body (Option ℤ)
try_x = reads 0 λ bal.
    if ltb_ℤ bal (pos 500)
    then flags (returns none)
    else writes 0 (bal -ℤ pos 500) (returns (some bal))

abbrev try_y : Body (Option ℤ)
try_y = reads 1 λ bal. writes 1 (bal -ℤ pos 500) (returns (some bal))

-- The same with `retry()`, which raises.
abbrev try_x_raising : Body (Option ℤ)
try_x_raising =
    reads 0
      λ bal. if ltb_ℤ bal (pos 500) then retries else writes 0 (bal -ℤ pos 500) (returns (some bal))

or_else_flagged_example :
    attempt (λ _. bank) (or_else (run (λ _. bank) try_x) (run (λ _. bank) try_y)) 0
    ≡ again (run (λ _. bank) try_x 0 empty).2
unfolding run read_tvar
or_else_flagged_example =
    or_else_flagged (λ _. bank) (run (λ _. bank) try_x) (run (λ _. bank) try_y) 0 none refl refl

or_else_falls_through_example :
    attempt (λ _. bank) (or_else (run (λ _. bank) try_x_raising) (run (λ _. bank) try_y)) 0
    ≡ attempt (λ _. bank) (run (λ _. bank) try_y) (run (λ _. bank) try_x_raising 0 empty).2
unfolding run read_tvar
or_else_falls_through_example = or_else_falls_through (λ _. bank) try_x_raising try_y 0 (λ r e. cc)

read_twice_torn_example :
    (attempt
        (changes_once bank after_transfer)
        (run (changes_once bank after_transfer) (read_twice 0))
        0
      ≡ committed (pos 100, pos 70) after_transfer)
    × ((u u' : Store)
        → attempt (λ _. u) (run (λ _. u) (read_twice 0)) 0 ≢ committed (pos 100, pos 70) u')
unfolding write_direct
read_twice_torn_example = read_twice_torn 0 bank after_transfer refl (λ e. ground arith)

transfer_to_itself_example :
    (s' : Store) × (attempt (λ _. bank) (run (λ _. bank) (stm_bank_transfer 0 0 (pos 30) 2)) 0
      ≡ committed (some (pos 30)) s')
    × ((s'.vars 0).value ≡ (bank.vars 0).value +ℤ pos 30)
transfer_to_itself_example = transfer_to_itself bank 0 2 (pos 30) (omega arith) refl refl refl

atomically-write-read_example :
    (s' : Store) × (atomically 1
        (λ t. bank)
        (run (λ t. bank) (writes 1 (pos 8) (returns (pos 8))))
        0
      ≡ committed (pos 8) s')
    × (atomically 1 (λ t. s') (run (λ t. s') (reads 1 returns)) 0 ≡ committed (pos 8) s')
atomically-write-read_example = atomically-write-read 1 (pos 8) bank refl
