-- ===== src/Bank.antt =====
-- python/shared_memory_lock/bank_account.py: accounts under locks, and transfers that take the locks
-- in the order of the account ids. Amounts and balances are integers; a string id is a number that
-- keeps its order; the lock that a method holds makes it one step.
pub mod Money
pub mod Locks
pub mod Workload
mod Tests
use cocurrency.Common.{
  ℕ, zero, suc, ◌≡◌, Bool, true, false, Option, none, some, ◌==◌, leb, if◌then◌else◌,
}
use cocurrency.Common.Int.{ℤ, pos, ◌+ℤ◌, ◌-ℤ◌, ltb_ℤ}

pub record BankAccount : Type 0 where
  pub account_id : ℕ
  pub balance : ℤ

-- The `ValueError`s, by their texts.
pub data Error : Type 0 where
  not_positive : Error
  insufficient_funds : (balance amount : ℤ) → Error

-- A call returns, or raises a `ValueError`, with the new state.
pub data Reply : Type 0 where
  done : Reply
  value_error : Error → Reply

-- `amount <= 0`
abbrev pub is_not_positive : ℤ → Bool
is_not_positive amount = ltb_ℤ amount (pos 1)

pub deposit : ℤ → BankAccount → Reply × BankAccount
deposit amount a =
    if is_not_positive amount
    then (value_error not_positive, a)
    else (done, record a { balance = a.balance +ℤ amount })

pub withdraw : ℤ → BankAccount → Reply × BankAccount
withdraw amount a =
    if is_not_positive amount
    then (value_error not_positive, a)
    else if ltb_ℤ a.balance amount
    then (value_error (insufficient_funds a.balance amount), a)
    else (done, record a { balance = a.balance -ℤ amount })

pub get_balance : BankAccount → ℤ
get_balance a = a.balance

-- The accounts, by their places in the heap: two names may mean one account.
abbrev pub Accounts : Type 0
Accounts = ℕ → BankAccount

abbrev pub set_balance : ℕ → ℤ → Accounts → Accounts
set_balance k b s =
    λ j. if k == j then record { account_id = (s k).account_id; balance = b } else s j

-- The body of `transfer`, with both locks held.
pub transfer_locked : ℕ → ℕ → ℤ → Accounts → Reply × Accounts
transfer_locked from_account to_account amount s =
    if is_not_positive amount
    then (value_error not_positive, s)
    else if ltb_ℤ (s from_account).balance amount
    then (value_error (insufficient_funds (s from_account).balance amount), s)
    else let s' = set_balance from_account ((s from_account).balance -ℤ amount) s in
      (done, set_balance to_account ((s' to_account).balance +ℤ amount) s')

-- `sorted([from_account, to_account], key=...)`, which keeps the order of equal ids.
pub lock_order : Accounts → ℕ → ℕ → ℕ × ℕ
lock_order s from_account to_account =
    if leb (s from_account).account_id (s to_account).account_id
    then (from_account, to_account)
    else (to_account, from_account)
