-- ===== src/Bank/Tests.antt =====
-- Tests of python/shared_memory_lock/bank_account.py, and the theorems at concrete accounts.
use cocurrency.Common.{
  ℕ, ◌≡◌, ◌⊎◌, inl, inr, refl, ap, List, [], ◌∷◌, ◌==◌, if◌then◌else◌, In, arith,
}
use cocurrency.Common.Int.{pos, ◌+ℤ◌, ◌-ℤ◌, ◌≤ℤ◌, ◌<ℤ◌}
use cocurrency.Bank.{
  not_positive, insufficient_funds, done, value_error, deposit, withdraw, get_balance, Accounts,
  transfer_locked,
}
use cocurrency.Bank.Money.{
  TransferOutcome, transfer_locked-TransferOutcome, total, deposit-withdraw, transfer_locked-back,
}
use cocurrency.Bank.Workload.{
  Work, deposits, transfers, run_work, deposited, do_work, run_work-total, run_work-nonneg,
}
use cocurrency.Bank.Locks.{
  finished, Transfer, begin, IsReady, no_deadlock, holding_first, self_transfer_stuck,
  equal_ids_deadlock,
}

-- Account 0 has 500, account 1 has 300, and no other has anything.
abbrev accounts : Accounts
accounts k = record {
  account_id = k;
  balance = if k == 0 then pos 500 else if k == 1 then pos 300 else pos 0;
}

transfer_locked-TransferOutcome_example :
    TransferOutcome 0 1
      (pos 20)
      accounts
      (transfer_locked 0 1 (pos 20) accounts).1
      (transfer_locked 0 1 (pos 20) accounts).0
transfer_locked-TransferOutcome_example =
    transfer_locked-TransferOutcome 0 1 (pos 20) accounts (omega arith)

accounts_nonneg : (k : ℕ) → pos 0 ≤ℤ (accounts k).balance
accounts_nonneg k = ground arith

deposit-withdraw_example :
    ((deposit (pos 5) (accounts 0) ≡ (value_error not_positive, accounts 0)) × (pos 5 ≤ℤ pos 0)
      ⊎ (get_balance (deposit (pos 5) (accounts 0)).1 ≡ get_balance (accounts 0) +ℤ pos 5)
        × ((deposit (pos 5) (accounts 0)).0 ≡ done)
        × (pos 1 ≤ℤ pos 5))
    × ((withdraw (pos 5) (accounts 0) ≡ (value_error not_positive, accounts 0)) × (pos 5 ≤ℤ pos 0)
        ⊎ ((withdraw (pos 5) (accounts 0)
                ≡ (value_error (insufficient_funds (pos 500) (pos 5)), accounts 0))
              × (pos 500 <ℤ pos 5)
            ⊎ (get_balance (withdraw (pos 5) (accounts 0)).1 ≡ get_balance (accounts 0) -ℤ pos 5)
              × ((withdraw (pos 5) (accounts 0)).0 ≡ done)
              × (pos 5 ≤ℤ get_balance (accounts 0))))
deposit-withdraw_example = deposit-withdraw (pos 5) (accounts 0)

-- Thread 0 holds the lock of account 0 and waits for account 1, which thread 1 has locked to go on to
-- account 2; thread 2 has not begun.
abbrev threads : List Transfer
threads = holding_first accounts 0 1 ∷ holding_first accounts 2 1 ∷ begin accounts 2 0 ∷ []

no_deadlock_example :
    ((t : Transfer) × In t threads × IsReady threads t)
    ⊎ ((t : Transfer) → In t threads → t.phase ≡ finished)
no_deadlock_example = no_deadlock accounts threads (λ t. elim [
  | inl e ↦ (0, 1, omega arith, ap (λ (u : Transfer). u.first) e, ap (λ (u : Transfer). u.second) e)
  | inr (inl e) ↦
      (2, 1, omega arith, ap (λ (u : Transfer). u.first) e, ap (λ (u : Transfer). u.second) e)
  | inr (inr (inl e)) ↦
      (2, 0, omega arith, ap (λ (u : Transfer). u.first) e, ap (λ (u : Transfer). u.second) e)
  | inr (inr (inr impossible)) ↦ absurd impossible
])

self_transfer_stuck_example :
    ¬ IsReady (holding_first accounts 0 0 ∷ []) (holding_first accounts 0 0)
self_transfer_stuck_example =
    self_transfer_stuck accounts 0 (holding_first accounts 0 0 ∷ []) (inl refl)

-- Accounts with one id.
abbrev twins : Accounts
twins k = record { account_id = 7; balance = pos 100 }

equal_ids_deadlock_example :
    ¬ IsReady (holding_first twins 0 1 ∷ holding_first twins 1 0 ∷ []) (holding_first twins 0 1)
equal_ids_deadlock_example = equal_ids_deadlock twins 0 1 refl (holding_first twins 0 1) (inl refl)

-- The transfer is done; an amount of 20 there and back.
transfer_20 : (transfer_locked 0 1 (pos 20) accounts).0 ≡ done
unfolding transfer_locked ◌+ℤ◌ ◌-ℤ◌
transfer_20 = refl

transfer_locked-back_example :
    ((transfer_locked 1 0 (pos 20) (transfer_locked 0 1 (pos 20) accounts).1).0 ≡ done)
    × ((k : ℕ)
        → ((transfer_locked 1 0 (pos 20) (transfer_locked 0 1 (pos 20) accounts).1).1 k).balance
          ≡ (accounts k).balance)
transfer_locked-back_example =
    transfer_locked-back 0 1 (pos 20) accounts (omega arith) (omega arith) transfer_20

-- Two deposits, one of them refused, and a transfer.
abbrev workload : List Work
workload = deposits 0 (pos 7) ∷ transfers 0 1 (pos 20) ∷ deposits 1 (pos 0) ∷ []

run_work-total_example :
    total (0 ∷ 1 ∷ []) (run_work workload (record { accounts = accounts; errors = [] })).accounts
    ≡ total (0 ∷ 1 ∷ []) accounts +ℤ deposited workload
run_work-total_example =
    run_work-total (0 ∷ 1 ∷ []) workload (record { accounts = accounts; errors = [] })
      (ground arith) (ground arith)

run_work-nonneg_example :
    pos 0 ≤ℤ ((run_work workload (record { accounts = accounts; errors = [] })).accounts 1).balance
run_work-nonneg_example =
    run_work-nonneg workload (record { accounts = accounts; errors = [] }) (ground arith)
      accounts_nonneg 1

-- A transfer of more than there is, is refused and noted.
refused_noted :
    (run_work (transfers 1 0 (pos 900) ∷ []) (record { accounts = accounts; errors = [] })).errors
    ≡ insufficient_funds (pos 300) (pos 900) ∷ []
unfolding run_work do_work transfer_locked ◌+ℤ◌ ◌-ℤ◌
refused_noted = refl
