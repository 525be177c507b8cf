-- ===== src/Bank/Money.antt =====
-- python/shared_memory_lock/bank_account.py: what the methods do to the balances.
use mathlib.Core.Path.{subst}
use cocurrency.Common.{
  ℕ, ◌≡◌, ◌≢◌, ◌⊎◌, inl, inr, refl, sym, ap, ◌∙◌, true, List, [], ◌∷◌, ◌==◌, Bool-cases, In, arith,
}
use cocurrency.Common.Int.{
  ℤ, pos, pos_part, neg_part, ◌+ℤ◌, ◌-ℤ◌, ◌≤ℤ◌, ◌<ℤ◌, ltb_ℤ, int_laws, +ℤ_assoc,
}
use cocurrency.Bank.{
  BankAccount, not_positive, insufficient_funds, Reply, done, value_error, is_not_positive, deposit,
  withdraw, get_balance, Accounts, set_balance, transfer_locked,
}

-- What a transfer, from accounts to accounts and with a reply, may do.
pub data TransferOutcome (a b : ℕ) (amount : ℤ) (s s' : Accounts) : Reply → Type 0 where
  refused_amount :
      amount ≤ℤ pos 0 → s' ≡ s → TransferOutcome a b amount s s' (value_error not_positive)
  refused_funds :
      pos 1 ≤ℤ amount
      → (s a).balance <ℤ amount
      → s' ≡ s
      → TransferOutcome a b amount s s' (value_error (insufficient_funds (s a).balance amount))
  moved :
      pos 1 ≤ℤ amount
      → amount ≤ℤ (s a).balance
      → (s' a).balance ≡ (s a).balance -ℤ amount
      → (s' b).balance ≡ (s b).balance +ℤ amount
      → ((j : ℕ) → j ≢ a → j ≢ b → s' j ≡ s j)
      → TransferOutcome a b amount s s' done

module _ (a b : ℕ) (amount : ℤ) (s : Accounts) where
  -- A transfer between two accounts refuses an amount below 1 and one above the balance, leaving
  -- every account as it was; otherwise it moves the amount and changes no other account.
  pub transfer_locked-TransferOutcome :
      a ≢ b
      → TransferOutcome a b amount s
          (transfer_locked a b amount s).1
          (transfer_locked a b amount s).0
  unfolding transfer_locked
  transfer_locked-TransferOutcome ab = elim (Bool-cases (is_not_positive amount)) [
    | inl bad ↦ rw bad (refused_amount (ground arith) refl)
    | inr good ↦ rw good (elim (Bool-cases (ltb_ℤ (s a).balance amount)) [
      | inl poor ↦ rw poor (refused_funds (ground arith) (ground arith) refl)
      | inr rich ↦ rw rich (
          moved (ground arith) (ground arith) (ground arith) (ground arith)
            (λ j ja jb. ground arith))
    ])
  ]

-- The money on the named accounts.
abbrev pub total : List ℕ → Accounts → ℤ
total [] s = pos 0
total (k ∷ names) s = (s k).balance +ℤ total names s

-- No account is named twice.
abbrev pub AreDistinct : List ℕ → Type 0
AreDistinct [] = Unit
AreDistinct (k ∷ names) = ¬ In k names × AreDistinct names

total-set_balance_out :
    (names : List ℕ) (k : ℕ) (b : ℤ) (s : Accounts)
    → ¬ In k names
    → total names (set_balance k b s) ≡ total names s
total-set_balance_out [] k b s out = refl
total-set_balance_out (j ∷ names) k b s out = elim (Bool-cases (k == j)) [
  | inl same ↦ absurd (out (inl (ground arith)))
  | inr other ↦ rw (other, total-set_balance_out names k b s (λ i. out (inr i)))
]

==_refl : (k : ℕ) → (k == k) ≡ true
==_refl k = ground arith

pub total-set_balance :
    (names : List ℕ) (k : ℕ) (b : ℤ) (s : Accounts)
    → AreDistinct names
    → In k names
    → total names (set_balance k b s) +ℤ (s k).balance ≡ total names s +ℤ b
total-set_balance [] k b s d i = absurd i
total-set_balance (j ∷ names) k b s d (inl e) =
    subst (λ i. total (j ∷ names) (set_balance i b s) +ℤ (s i).balance ≡ total (j ∷ names) s +ℤ b)
      (sym e) (rw (==_refl j, total-set_balance_out names j b s d.0) (omega int_laws))
total-set_balance (j ∷ names) k b s d (inr i) = elim (Bool-cases (k == j)) [
  | inl same ↦ absurd (d.0 (subst (λ n. In n names) (ground arith) i))
  | inr other ↦ rw other (
      +ℤ_assoc (s j).balance (total names (set_balance k b s)) (s k).balance
      ∙ ap (λ z. (s j).balance +ℤ z) (total-set_balance names k b s d.1 i)
      ∙ sym (+ℤ_assoc (s j).balance (total names s) b))
]

two_changes :
    (t₀ t₁ t₂ x y amount : ℤ)
    → t₁ +ℤ x ≡ t₀ +ℤ (x -ℤ amount)
    → t₂ +ℤ y ≡ t₁ +ℤ (y +ℤ amount)
    → t₂ ≡ t₀
two_changes t₀ t₁ t₂ x y amount e f =
    omega (int_laws, ap pos_part e, ap neg_part e, ap pos_part f, ap neg_part f)

pub transfer_locked-total :
    (names : List ℕ) (a b : ℕ) (amount : ℤ) (s : Accounts)
    → AreDistinct names
    → a ≢ b
    → In a names
    → In b names
    → total names (transfer_locked a b amount s).1 ≡ total names s
unfolding transfer_locked
transfer_locked-total names a b amount s d ab ia ib = elim (Bool-cases (is_not_positive amount)) [
  | inl bad ↦ rw bad
  | inr good ↦ rw good (elim (Bool-cases (ltb_ℤ (s a).balance amount)) [
    | inl poor ↦ rw poor
    | inr rich ↦
        let s₁ : Accounts = set_balance a ((s a).balance -ℤ amount) s in
        rw rich (
          two_changes (total names s) (total names s₁) _ (s a).balance (s₁ b).balance amount
            (total-set_balance names a ((s a).balance -ℤ amount) s d ia)
            (total-set_balance names b ((s₁ b).balance +ℤ amount) s₁ d ib))
  ])
]

pub transfer_locked-nonneg :
    (a b : ℕ) (amount : ℤ) (s : Accounts) (k : ℕ)
    → pos 0 ≤ℤ (s k).balance
    → pos 0 ≤ℤ ((transfer_locked a b amount s).1 k).balance
unfolding transfer_locked ◌+ℤ◌ ◌-ℤ◌
transfer_locked-nonneg a b amount s k h = ground arith

-- `deposit` and `withdraw` raise a ValueError exactly for an amount below 1, `withdraw` also for one
-- above the balance, and then leave the account as it was; otherwise the balance changes by the
-- amount, and a withdrawal leaves no debt.
pub deposit-withdraw :
    (amount : ℤ) (a : BankAccount)
    → ((deposit amount a ≡ (value_error not_positive, a)) × (amount ≤ℤ pos 0)
        ⊎ (get_balance (deposit amount a).1 ≡ get_balance a +ℤ amount)
          × ((deposit amount a).0 ≡ done)
          × (pos 1 ≤ℤ amount))
      × ((withdraw amount a ≡ (value_error not_positive, a)) × (amount ≤ℤ pos 0)
          ⊎ ((withdraw amount a ≡ (value_error (insufficient_funds a.balance amount), a))
                × (a.balance <ℤ amount)
              ⊎ (get_balance (withdraw amount a).1 ≡ get_balance a -ℤ amount)
                × ((withdraw amount a).0 ≡ done)
                × (amount ≤ℤ get_balance a)))
unfolding deposit withdraw get_balance
deposit-withdraw amount a = (ground arith, ground arith)

-- What a transfer that is done has done.
record Moved (a b : ℕ) (amount : ℤ) (s s' : Accounts) : Type 0 where
  positive : pos 1 ≤ℤ amount
  paid : (s' a).balance ≡ (s a).balance -ℤ amount
  received : (s' b).balance ≡ (s b).balance +ℤ amount
  others : (j : ℕ) → j ≢ a → j ≢ b → s' j ≡ s j

done-Moved :
    (a b : ℕ) (amount : ℤ) (s s' : Accounts) (r : Reply)
    → TransferOutcome a b amount s s' r
    → r ≡ done
    → Moved a b amount s s'
done-Moved a b amount s s' r (refused_amount h e) ok = absurd cc
done-Moved a b amount s s' r (refused_funds h k e) ok = absurd cc
done-Moved a b amount s s' r (moved h k e f g) ok = record {
  positive = h;
  paid = e;
  received = f;
  others = g;
}

-- A transfer is done, if the amount is positive and on the account.
done_if :
    (a b : ℕ) (amount : ℤ) (s s' : Accounts) (r : Reply)
    → TransferOutcome a b amount s s' r
    → pos 1 ≤ℤ amount
    → amount ≤ℤ (s a).balance
    → r ≡ done
done_if a b amount s s' r (refused_amount h e) positive enough = absurd (omega int_laws)
done_if a b amount s s' r (refused_funds h k e) positive enough = absurd (omega int_laws)
done_if a b amount s s' r (moved h k e f g) positive enough = refl

undone : (x amount u v : ℤ) → u ≡ x -ℤ amount → v ≡ u +ℤ amount → v ≡ x
undone x amount u v e f =
    omega (int_laws, ap pos_part e, ap neg_part e, ap pos_part f, ap neg_part f)

redone : (x amount u v : ℤ) → u ≡ x +ℤ amount → v ≡ u -ℤ amount → v ≡ x
redone x amount u v e f =
    omega (int_laws, ap pos_part e, ap neg_part e, ap pos_part f, ap neg_part f)

-- A transfer between different accounts that is done, to an account without debt, can be taken back:
-- the opposite transfer is done too, and every account is as it was.
pub transfer_locked-back :
    (a b : ℕ) (amount : ℤ) (s : Accounts)
    → a ≢ b
    → pos 0 ≤ℤ (s b).balance
    → (transfer_locked a b amount s).0 ≡ done
    → ((transfer_locked b a amount (transfer_locked a b amount s).1).0 ≡ done)
      × ((k : ℕ)
          → ((transfer_locked b a amount (transfer_locked a b amount s).1).1 k).balance
            ≡ (s k).balance)
transfer_locked-back a b amount s ab no_debt ok =
    let s₁ = (transfer_locked a b amount s).1 in
    let there = done-Moved a b amount s s₁ _ (transfer_locked-TransferOutcome a b amount s ab) ok in
    let outcome = transfer_locked-TransferOutcome b a amount s₁ (λ e. ab (sym e)) in
    let enough : amount ≤ℤ (s₁ b).balance = rw there.received (omega int_laws) in
    let again = done_if b a amount s₁ _ _ outcome there.positive enough in
    let back = done-Moved b a amount s₁ _ _ outcome again in
    (
      again,
      λ k. elim (Bool-cases (k == a)) [
        | inl e ↦
            let same : k ≡ a = ground arith in
            subst (λ j. ((transfer_locked b a amount s₁).1 j).balance ≡ (s j).balance) (sym same)
              (undone (s a).balance amount _ _ there.paid back.received)
        | inr e ↦ elim (Bool-cases (k == b)) [
          | inl f ↦
              let same : k ≡ b = ground arith in
              subst (λ j. ((transfer_locked b a amount s₁).1 j).balance ≡ (s j).balance) (sym same)
                (redone (s b).balance amount _ _ there.received back.paid)
          | inr f ↦
              ap (λ (x : BankAccount). x.balance)
                (back.others k (λ g. ground arith) (λ g. ground arith)
                  ∙ there.others k (λ g. ground arith) (λ g. ground arith))
        ]
      ],
    )
