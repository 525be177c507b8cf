-- ===== src/Stm.antt =====
-- python/stm/stm_model.py: software transactional memory.
-- Values are integers. A variable is named by its `id`; `registered` is the dict `_id_to_tvar`.
pub mod Commit
pub mod Snapshot
pub mod Transfer
pub mod Anomaly
pub mod Local
pub mod Nested
mod Tests
use cocurrency.Common.{
  ℕ, zero, suc, ◌+◌, Bool, true, false, Option, none, some, List, [], ◌∷◌, ◌==◌, ltb, if◌then◌else◌,
}
use cocurrency.Common.Int.{ℤ, pos, ◌+ℤ◌, ◌-ℤ◌, ltb_ℤ}
use cocurrency.Common.Dict.{Dict, lookup, insert}

pub record Tvar : Type 0 where
  pub value : ℤ
  pub version : ℕ

-- The shared state: the variables, and which of them are in the registry.
pub record Store : Type 0 where
  pub vars : ℕ → Tvar
  pub registered : ℕ → Bool

abbrev pub set_var : ℕ → Tvar → Store → Store
set_var tid tvar s = record s { vars = λ j. if tid == j then tvar else s.vars j }

-- `TVar._write`
pub write_direct : ℕ → ℤ → Store → Store
write_direct tid value s =
    set_var tid (record { value = value; version = (s.vars tid).version + 1 }) s

-- `create_tvar(value)`, with the `id` of the new object.
pub create_tvar : ℕ → ℤ → Store → Store
create_tvar tid value s = record {
  vars = λ j. if tid == j then record { value = value; version = 0 } else s.vars j;
  registered = λ j. if tid == j then true else s.registered j;
}

pub record Transaction : Type 0 where
  pub read_set : Dict (ℤ × ℕ)
  pub write_set : Dict ℤ
  pub local_cache : Dict ℤ
  pub should_retry : Bool

-- `Transaction()`
abbrev pub empty : Transaction
empty = record { read_set = []; write_set = []; local_cache = []; should_retry = false }

-- `Transaction.read_tvar`: the value, and the transaction with the read recorded.
pub read_tvar : Store → ℕ → Transaction → ℤ × Transaction
read_tvar s tid txn =
    let tvar = s.vars tid in
    elim (lookup tid txn.write_set) [
      | some value ↦ (value, txn)
      | none ↦ (
        tvar.value,
        record txn {
          read_set = insert tid (tvar.value, tvar.version) txn.read_set;
          local_cache = insert tid tvar.value txn.local_cache;
        },
      )
    ]

-- `Transaction.write_tvar`
pub write_tvar : ℕ → ℤ → Transaction → Transaction
write_tvar tid value txn = record txn {
  write_set = insert tid value txn.write_set;
  local_cache = insert tid value txn.local_cache;
}

-- The loop of `Transaction.validate` over the items of the read set.
validate_items : Store → Dict (ℤ × ℕ) → Bool
validate_items s [] = true
validate_items s ((tid, (expected_val, expected_ver)) ∷ items) =
    let rest = validate_items s items in
    if s.registered tid
    then (if (s.vars tid).version == expected_ver then rest else false)
    else false

pub validate : Store → Transaction → Bool
unfolding validate_items
validate s txn = validate_items s txn.read_set

-- The loop of `Transaction.commit` over the items of the write set; `none` is its RuntimeError
-- "Concurrent modification detected".
commit_items : Dict (ℤ × ℕ) → Dict ℤ → Store → Option Store
commit_items read_set [] s = some s
commit_items read_set ((tid, new_value) ∷ items) s =
    let version = (s.vars tid).version in
    let written =
      commit_items read_set items
        (set_var tid (record { value = new_value; version = version + 1 }) s) in
    let skipped = commit_items read_set items s in
    elim (s.registered tid) [
      | false ↦ skipped
      | true ↦ elim (lookup tid read_set) [
        | none ↦ written
        | some (_, expected_ver) ↦ if version == expected_ver then written else none
      ]
    ]

-- `none` is a RuntimeError.
pub commit : Transaction → Store → Option Store
unfolding validate commit_items
commit txn s = if validate s txn then commit_items txn.read_set txn.write_set s else none

-- The body of a transaction, `txn_func`: what it does with `txn`, and then.
pub data Body (R : Type 0) : Type 0 where
  returns : R → Body R
  reads : ℕ → (ℤ → Body R) → Body R
  writes : ℕ → ℤ → Body R → Body R
  -- `txn.retry()`, which sets a flag and goes on
  flags : Body R → Body R
  -- `retry()`, which sets the flag and raises `RetryException`
  retries : Body R
  -- another exception
  fails : Body R

pub data Outcome (R : Type 0) : Type 0 where
  returned : R → Outcome R
  retried : Outcome R
  failed : Outcome R

-- A running `txn_func`: it starts at a moment with a transaction, and ends with an outcome, the
-- transaction, and the moment after it.
abbrev pub Func : Type 0 → Type 0
Func R = ℕ → Transaction → Outcome R × Transaction × ℕ

-- Other threads change the store while the body runs: at moment `t` it is `history t`, and each read
-- takes one moment.
pub run : {R : Type 0} → (ℕ → Store) → Body R → Func R
run history (returns r) t txn = (returned r, txn, t)
run history (reads tid k) t txn =
    let (v, txn') = read_tvar (history t) tid txn in run history (k v) (t + 1) txn'
run history (writes tid v body) t txn = run history body t (write_tvar tid v txn)
run history (flags body) t txn = run history body t (record txn { should_retry = true })
run history retries t txn = (retried, record txn { should_retry = true }, t)
run history fails t txn = (failed, txn, t)

-- `_or_else(txn, first, second)`
abbrev or_second :
    {R : Type 0} → Transaction → Func R → Outcome R × Transaction × ℕ → Outcome R × Transaction × ℕ
or_second saved second (returned r, txn, t) = (returned r, txn, t)
or_second saved second (retried, txn, t) =
    second t
      (record txn { read_set = saved.read_set; write_set = saved.write_set; should_retry = false })
or_second saved second (failed, txn, t) =
    second t
      (record txn { read_set = saved.read_set; write_set = saved.write_set; should_retry = false })

pub or_else : {R : Type 0} → Func R → Func R → Func R
or_else first second t txn = or_second txn second (first t txn)

-- One round of the loop in `atomically`: `committed` is the `return`, with the store after the
-- commit; `again` goes round the loop, from this moment; `raised` leaves it by an exception.
pub data Attempt (R : Type 0) : Type 0 where
  committed : R → Store → Attempt R
  again : ℕ → Attempt R
  raised : Attempt R

abbrev pub finish : {R : Type 0} → R → Option Store → Attempt R
finish r none = raised
finish r (some s) = committed r s

-- The round after the body: the first validation is at moment `t`, and what the global lock protects
-- is one moment, `t + 1`.
abbrev pub close : {R : Type 0} → (ℕ → Store) → Outcome R × Transaction × ℕ → Attempt R
close history (failed, txn, t) = raised
close history (retried, txn, t) = again t
close history (returned r, txn, t) =
    if txn.should_retry
    then again t
    else if validate (history t) txn
    then (if validate (history (t + 1)) txn
        then finish r (commit txn (history (t + 1)))
        else again (t + 2))
    else again (t + 1)

pub attempt : {R : Type 0} → (ℕ → Store) → Func R → ℕ → Attempt R
attempt history func t = close history (func t empty)

-- The loop of `atomically`, for a number of rounds; `again` if they are not enough.
pub atomically : {R : Type 0} → ℕ → (ℕ → Store) → Func R → ℕ → Attempt R
atomically zero history func t = again t
atomically (suc rounds) history func t = elim (attempt history func t) [
  | committed r s ↦ committed r s
  | raised ↦ raised
  | again t' ↦ atomically rounds history func t'
]

-- The function `transfer` inside `stm_bank_transfer`: the string that it returns shows the amount,
-- and is empty after `txn.retry()`.
pub stm_bank_transfer : ℕ → ℕ → ℤ → ℕ → Body (Option ℤ)
stm_bank_transfer from_acc to_acc amount ledger = reads from_acc λ from_bal. reads to_acc λ to_bal.
    if ltb_ℤ from_bal amount
    then flags (returns none)
    else writes from_acc (from_bal -ℤ amount) (
        writes to_acc (to_bal +ℤ amount) (
          reads ledger
            λ ledger_count. writes ledger (ledger_count +ℤ pos 1) (returns (some amount))))
