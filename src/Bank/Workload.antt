-- ===== src/Bank/Workload.antt =====
-- python/shared_memory_lock/bank_account.py: the threads `_worker_deposit` and `_worker_transfer`, as the
-- calls that they make, in the order in which they get the locks.
use cocurrency.Common.{
  ℕ, ◌≡◌, ◌≢◌, refl, ap, ◌∙◌, inl, inr, List, [], ◌∷◌, ◌++◌, ◌==◌, if◌then◌else◌, Bool-cases, In,
  of_branches, arith,
}
use cocurrency.Common.Int.{ℤ, pos, pos_part, neg_part, ◌+ℤ◌, ◌≤ℤ◌, int_laws}
use cocurrency.Bank.{
  BankAccount, Error, Reply, done, value_error, is_not_positive, deposit, Accounts, transfer_locked,
}
use cocurrency.Bank.Money.{
  total, AreDistinct, total-set_balance, transfer_locked-total, transfer_locked-nonneg,
}

pub data Work : Type 0 where
  -- `account.deposit(amount)`
  deposits : ℕ → ℤ → Work
  -- `transfer(a, b, amount)`
  transfers : ℕ → ℕ → ℤ → Work

pub record Bank : Type 0 where
  pub accounts : Accounts
  pub errors : List Error

-- `except ValueError as e: errors.append(e)`
abbrev pub note_error : Reply → List Error → List Error
note_error done errors = errors
note_error (value_error e) errors = errors ++ e ∷ []

unfoldable pub do_work : Work → Bank → Bank
do_work (deposits k amount) b = record b {
  accounts = λ j. if k == j then (deposit amount (b.accounts k)).1 else b.accounts j;
}
do_work (transfers from_account to_account amount) b =
    let (r, s) = transfer_locked from_account to_account amount b.accounts in
    record { accounts = s; errors = note_error r b.errors }

unfoldable pub run_work : List Work → Bank → Bank
run_work [] b = b
run_work (w ∷ ws) b = run_work ws (do_work w b)

-- The deposits are to accounts of a list, the transfers between different ones.
abbrev pub AreWithin : List ℕ → List Work → Type 0
AreWithin names [] = Unit
AreWithin names (deposits k amount ∷ ws) = In k names × AreWithin names ws
AreWithin names (transfers a b amount ∷ ws) = (a ≢ b) × In a names × In b names × AreWithin names ws

-- The money that is deposited; an amount below 1 is refused.
abbrev pub deposited : List Work → ℤ
deposited [] = pos 0
deposited (deposits k amount ∷ ws) =
    (if is_not_positive amount then pos 0 else amount) +ℤ deposited ws
deposited (transfers a b amount ∷ ws) = deposited ws

add_change : (t t' x amount : ℤ) → t' +ℤ x ≡ t +ℤ (x +ℤ amount) → t' ≡ t +ℤ amount
add_change t t' x amount e = omega (int_laws, ap pos_part e, ap neg_part e)

no_change : (t t' x : ℤ) → t' +ℤ x ≡ t +ℤ x → t' ≡ t +ℤ pos 0
no_change t t' x e = omega (int_laws, ap pos_part e, ap neg_part e)

deposit-total :
    (names : List ℕ) (k : ℕ) (amount : ℤ) (s : Accounts)
    → AreDistinct names
    → In k names
    → total names (λ j. if k == j then (deposit amount (s k)).1 else s j)
      ≡ total names s +ℤ (if is_not_positive amount then pos 0 else amount)
unfolding deposit
deposit-total names k amount s distinct i = elim (Bool-cases (is_not_positive amount)) [
  | inl bad ↦ rw bad (
      no_change (total names s) _ (s k).balance
        (total-set_balance names k (s k).balance s distinct i))
  | inr good ↦ rw good (
      add_change (total names s) _ (s k).balance amount
        (total-set_balance names k ((s k).balance +ℤ amount) s distinct i))
]

add_later : (t t' t'' x y : ℤ) → t' ≡ t +ℤ x → t'' ≡ t' +ℤ y → t'' ≡ t +ℤ (x +ℤ y)
add_later t t' t'' x y e f =
    omega (int_laws, ap pos_part e, ap neg_part e, ap pos_part f, ap neg_part f)

-- Deposits to accounts of a list and transfers between different accounts of it, in any order,
-- refused ones included: the money on the accounts of the list grows by the deposits and by nothing else.
pub run_work-total :
    (names : List ℕ) (ws : List Work) (b : Bank)
    → AreDistinct names
    → AreWithin names ws
    → total names (run_work ws b).accounts ≡ total names b.accounts +ℤ deposited ws
unfolding run_work do_work
run_work-total names [] b distinct within =
    no_change (total names b.accounts) (total names b.accounts) (pos 0) refl
run_work-total names (deposits k amount ∷ ws) b distinct (i, within) =
    add_later _ _ _ _ (deposited ws) (deposit-total names k amount b.accounts distinct i)
      (run_work-total names ws (do_work (deposits k amount) b) distinct within)
run_work-total names (transfers from_account to_account amount ∷ ws) b distinct (ne, i, j, within) =
    run_work-total names ws (do_work (transfers from_account to_account amount) b) distinct within
    ∙ ap (λ t. t +ℤ deposited ws)
        (transfer_locked-total names from_account to_account amount b.accounts distinct ne i j)

-- The transfers are between different accounts: one from an account to itself waits for its own lock.
abbrev pub AreBetween : List Work → Type 0
AreBetween [] = Unit
AreBetween (deposits k amount ∷ ws) = AreBetween ws
AreBetween (transfers a b amount ∷ ws) = (a ≢ b) × AreBetween ws

deposit-nonneg :
    (amount : ℤ) (a : BankAccount) → pos 0 ≤ℤ a.balance → pos 0 ≤ℤ (deposit amount a).1.balance
unfolding deposit ◌+ℤ◌
deposit-nonneg amount a h = ground arith

do_work-nonneg :
    (w : Work) (b : Bank)
    → ((k : ℕ) → pos 0 ≤ℤ (b.accounts k).balance)
    → (k : ℕ) → pos 0 ≤ℤ ((do_work w b).accounts k).balance
unfolding do_work
do_work-nonneg (deposits j amount) b h k =
    of_branches (λ (a : BankAccount). pos 0 ≤ℤ a.balance) (j == k) (deposit amount (b.accounts j)).1
      (b.accounts k) (λ same. deposit-nonneg amount (b.accounts j) (h j)) (λ other. h k)
do_work-nonneg (transfers from_account to_account amount) b h k =
    transfer_locked-nonneg from_account to_account amount b.accounts k (h k)

-- If no balance is negative at the start, then none is after any deposits and any transfers between
-- different accounts, in any order and refused ones included.
pub run_work-nonneg :
    (ws : List Work) (b : Bank)
    → AreBetween ws
    → ((k : ℕ) → pos 0 ≤ℤ (b.accounts k).balance)
    → (k : ℕ) → pos 0 ≤ℤ ((run_work ws b).accounts k).balance
unfolding run_work
run_work-nonneg [] b between h k = h k
run_work-nonneg (deposits j amount ∷ ws) b between h k =
    run_work-nonneg ws (do_work (deposits j amount) b) between
      (do_work-nonneg (deposits j amount) b h) k
run_work-nonneg (transfers from_account to_account amount ∷ ws) b (ne, between) h k =
    run_work-nonneg ws (do_work (transfers from_account to_account amount) b) between
      (do_work-nonneg (transfers from_account to_account amount) b h) k
