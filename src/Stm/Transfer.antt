-- ===== src/Stm/Transfer.antt =====
-- python/stm/stm_model.py: `stm_bank_transfer`, alone on a store.
use mathlib.Core.Path.{subst}
use cocurrency.Common.{
  ℕ, zero, suc, ◌+◌, ◌≡◌, ◌≢◌, ◌≤◌, inl, inr, Bool-cases, refl, sym, ◌∙◌, true, false, Option, some,
  [], ◌∷◌, arith,
}
use cocurrency.Common.Int.{ℤ, pos, ◌+ℤ◌, ◌-ℤ◌, ltb_ℤ, int_laws}
use cocurrency.Common.Dict.{IsDict}
use cocurrency.Stm.{
  Store, Transaction, empty, read_tvar, write_tvar, validate_items, validate, returned, run,
  committed, again, attempt, atomically, stm_bank_transfer,
}
use cocurrency.Stm.Commit.{commit-written, written}
use cocurrency.Stm.Snapshot.{IsHistory, ReadsOnce, attempt_serializable}

module _ (s : Store) (a b l : ℕ) (amount : ℤ) where
  abbrev taken : Transaction
  taken = record {
    read_set =
        (a, ((s.vars a).value, (s.vars a).version))
        ∷ (b, ((s.vars b).value, (s.vars b).version))
        ∷ (l, ((s.vars l).value, (s.vars l).version))
        ∷ [];
    write_set =
        (a, (s.vars a).value -ℤ amount)
        ∷ (b, (s.vars b).value +ℤ amount)
        ∷ (l, (s.vars l).value +ℤ pos 1)
        ∷ [];
    local_cache =
        (a, (s.vars a).value -ℤ amount)
        ∷ (b, (s.vars b).value +ℤ amount)
        ∷ (l, (s.vars l).value +ℤ pos 1)
        ∷ [];
    should_retry = false;
  }

  run-taken :
      a ≢ b
      → a ≢ l
      → b ≢ l
      → ltb_ℤ (s.vars a).value amount ≡ false
      → run (λ _. s) (stm_bank_transfer a b amount l) 0 empty ≡ (returned (some amount), taken, 3)
  unfolding run read_tvar write_tvar stm_bank_transfer
  run-taken ab al bl rich = ground arith

  taken-valid :
      s.registered a ≡ true
      → s.registered b ≡ true
      → s.registered l ≡ true
      → validate s taken ≡ true
  unfolding validate validate_items
  taken-valid ra rb rl = ground arith

  taken-IsDict : a ≢ b → a ≢ l → b ≢ l → IsDict taken.write_set
  taken-IsDict ab al bl = ground arith

-- The parties of a transfer: three variables of the registry.
pub record Parties (s : Store) (a b l : ℕ) : Type 0 where
  pub apart : a ≢ b
  pub from_ledger : a ≢ l
  pub to_ledger : b ≢ l
  pub from_registered : s.registered a ≡ true
  pub to_registered : s.registered b ≡ true
  pub ledger_registered : s.registered l ≡ true

-- What a transfer does to the store: the amount is moved, the ledger counts one more, and no other
-- variable changes.
pub record Moved (s s' : Store) (a b l : ℕ) (amount : ℤ) : Type 0 where
  pub from_value : (s'.vars a).value ≡ (s.vars a).value -ℤ amount
  pub to_value : (s'.vars b).value ≡ (s.vars b).value +ℤ amount
  pub ledger_value : (s'.vars l).value ≡ (s.vars l).value +ℤ pos 1
  pub others : (j : ℕ) → j ≢ a → j ≢ b → j ≢ l → s'.vars j ≡ s.vars j

module _ (s : Store) (a b l : ℕ) (amount : ℤ) (p : Parties s a b l) where
  written-Moved : Moved s (written (taken s a b l amount).write_set s) a b l amount
  written-Moved = record {
    from_value = ground (arith, p.apart, p.from_ledger, p.to_ledger);
    to_value = ground (arith, p.apart, p.from_ledger, p.to_ledger);
    ledger_value = ground (arith, p.apart, p.from_ledger, p.to_ledger);
    others = λ j ja jb jl. ground arith;
  }

  alone-commits :
      ltb_ℤ (s.vars a).value amount ≡ false
      → attempt (λ _. s) (run (λ _. s) (stm_bank_transfer a b amount l)) 0
        ≡ committed (some amount) (written (taken s a b l amount).write_set s)
  unfolding attempt
  alone-commits rich =
      let valid =
        taken-valid s a b l amount p.from_registered p.to_registered p.ledger_registered in
      rw (run-taken s a b l amount p.apart p.from_ledger p.to_ledger rich) (
        simp (
          valid,
          commit-written (taken s a b l amount) s valid
              (taken-IsDict s a b l amount p.apart p.from_ledger p.to_ledger),
        ))

-- With less on the account than the amount, a round ends in a retry, whatever other threads do.
pub transfer_poor :
    (h : ℕ → Store) (a b l : ℕ) (amount : ℤ) (t : ℕ)
    → ltb_ℤ ((h t).vars a).value amount ≡ true
    → attempt h (run h (stm_bank_transfer a b amount l)) t ≡ again (t + 1 + 1)
unfolding attempt run read_tvar stm_bank_transfer
transfer_poor h a b l amount t poor = ground arith

transfer-ReadsOnce :
    (h : ℕ → Store) (a b l : ℕ) (amount : ℤ) (t : ℕ)
    → a ≢ b
    → a ≢ l
    → b ≢ l
    → ReadsOnce h (stm_bank_transfer a b amount l) t empty
unfolding ReadsOnce read_tvar write_tvar stm_bank_transfer
transfer-ReadsOnce h a b l amount t ab al bl = (λ _. refl, (λ _. ground arith, ground arith))

again-ne-committed : {R : Type 0} {t : ℕ} {r : R} {s : Store} → again t ≡ committed r s → ⊥
again-ne-committed h = cc

committed_inj :
    {R : Type 0} {r r' : R} {s s' : Store} → committed r s ≡ committed r' s' → (r ≡ r') × (s ≡ s')
committed_inj h = (cc, cc)

-- The money on two accounts.
abbrev pub money : Store → ℕ → ℕ → ℤ
money s a b = (s.vars a).value +ℤ (s.vars b).value

Moved-money :
    {s s' : Store} {a b l : ℕ} {amount : ℤ} → Moved s s' a b l amount → money s' a b ≡ money s a b
Moved-money {s} {s'} {a} {b} {l} {amount} m = rw (m.from_value, m.to_value) (omega (int_laws))

-- Alone, a round on an account with too little money does not commit.
alone_poor :
    (s s' : Store) (a b l : ℕ) (amount : ℤ) (r : Option ℤ)
    → attempt (λ _. s) (run (λ _. s) (stm_bank_transfer a b amount l)) 0 ≡ committed r s'
    → ltb_ℤ (s.vars a).value amount ≡ false
alone_poor s s' a b l amount r e = elim (Bool-cases (ltb_ℤ (s.vars a).value amount)) [
  | inl poor ↦ absurd (again-ne-committed (sym (transfer_poor (λ _. s) a b l amount 0 poor) ∙ e))
  | inr rich ↦ rich
]

-- Among other transactions that commit at any moment, a round of a transfer between two accounts
-- that commits has moved the whole amount, for some store of the history since its start: there the
-- paying account had the amount, the money on the two accounts together is unchanged, the ledger
-- counts one more, and no other variable changes.
pub transfer_atomic :
    {h : ℕ → Store} (a b l : ℕ) (amount : ℤ) (t : ℕ) (r : Option ℤ) (s : Store)
    → IsHistory h
    → ((i : ℕ) → Parties (h i) a b l)
    → attempt h (run h (stm_bank_transfer a b amount l)) t ≡ committed r s
    → (m : ℕ) × (t ≤ m)
      × (r ≡ some amount)
      × (ltb_ℤ ((h m).vars a).value amount ≡ false)
      × Moved (h m) s a b l amount
      × (money s a b ≡ money (h m) a b)
transfer_atomic {h} a b l amount t r s ev parties e =
    let p = parties 0 in
    let (m, le, by_end, alone) =
      attempt_serializable ev (stm_bank_transfer a b amount l) t
        (transfer-ReadsOnce h a b l amount t p.apart p.from_ledger p.to_ledger) r s e in
    let rich = alone_poor (h m) s a b l amount r alone in
    let (same, stored) =
      committed_inj (sym alone ∙ alone-commits (h m) a b l amount (parties m) rich) in
    let moved : Moved (h m) s a b l amount =
      subst (λ u. Moved (h m) u a b l amount) (sym stored)
        (written-Moved (h m) a b l amount (parties m)) in
    (m, le, same, rich, moved, Moved-money moved)

-- While the account has less than the amount at every moment, `atomically` goes round for ever: no
-- number of rounds commits the transfer or raises an exception.
pub atomically_poor :
    (h : ℕ → Store) (a b l : ℕ) (amount : ℤ)
    → ((i : ℕ) → ltb_ℤ ((h i).vars a).value amount ≡ true)
    → (rounds t : ℕ)
    → (t' : ℕ) × (atomically rounds h (run h (stm_bank_transfer a b amount l)) t ≡ again t')
unfolding atomically
atomically_poor h a b l amount poor zero t = (t, refl)
atomically_poor h a b l amount poor (suc rounds) t =
    let (t', e) = atomically_poor h a b l amount poor rounds (t + 1 + 1) in
    (t', rw (transfer_poor h a b l amount t (poor t), atomically) e)
