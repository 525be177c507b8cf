-- ===== src/Stm/Nested.antt =====
-- python/stm/stm_model.py: the current transaction of a thread, `_tls.current_txn`, and the functions
-- of the module that look it up, with transactions inside transactions.
-- A `Transaction` object is named by a number, and the thread's state holds all that it has made.
-- The thread does one thing at each moment that matters: after a read and after a validation, the
-- other threads change the store by `others`.
pub mod Agrees
mod Tests
use cocurrency.Common.{ℕ, zero, suc, ◌+◌, true, Option, none, some, ◌==◌, if◌then◌else◌}
use cocurrency.Common.Int.{ℤ}
use cocurrency.Stm.{Store, Transaction, empty, validate, commit}

pub record Thread : Type 0 where
  pub store : Store
  pub moment : ℕ
  -- `_tls.current_txn`
  pub current : Option ℕ
  -- the `Transaction` objects that were made, and how many they are
  pub txns : ℕ → Transaction
  pub count : ℕ

-- How a call ends: `unfinished` when the rounds of some `atomically` were not enough.
pub data Reply : Type 0 where
  value : ℤ → Reply
  retry_exception : Reply
  other_exception : Reply
  unfinished : Reply

-- What a function that is given to `atomically` does, and then.
pub data Block : Type 0 where
  returns : ℤ → Block
  -- `read_tvar(tvar)`
  reads : ℕ → (ℤ → Block) → Block
  -- `write_tvar(tvar, value)`
  writes : ℕ → ℤ → Block → Block
  -- `txn.retry()`
  flags : Block → Block
  -- `retry()`
  retries : Block
  -- another exception
  fails : Block
  -- `atomically(inner)`, whose value it goes on with
  nests : Block → (ℤ → Block) → Block

-- The other threads have their moment.
abbrev pub tick : (ℕ → Store → Store) → Thread → Thread
tick others s = record s { store = others s.moment s.store; moment = s.moment + 1 }

abbrev pub set_txn : ℕ → Transaction → Thread → Thread
set_txn id txn s = record s { txns = λ j. if id == j then txn else s.txns j }

-- The methods of the `Transaction` object `id`.
abbrev pub txn_read : ℕ → ℕ → Thread → ℤ × Thread
txn_read tid id s =
    let (v, txn) = cocurrency.Stm.read_tvar s.store tid (s.txns id) in (v, set_txn id txn s)

abbrev pub txn_write : ℕ → ℤ → ℕ → Thread → Thread
txn_write tid v id s = set_txn id (cocurrency.Stm.write_tvar tid v (s.txns id)) s

abbrev pub txn_retry : ℕ → Thread → Thread
txn_retry id s = set_txn id (record (s.txns id) { should_retry = true }) s

-- `read_tvar`: outside a transaction it is the value of the variable.
abbrev pub read_tvar : ℕ → Thread → ℤ × Thread
read_tvar tid s = elim s.current [
  | none ↦ ((s.store.vars tid).value, s)
  | some id ↦ txn_read tid id s
]

-- `write_tvar`; `none` is its RuntimeError.
abbrev pub write_tvar : ℕ → ℤ → Thread → Option Thread
write_tvar tid v s = elim s.current [ none ↦ none | some id ↦ some (txn_write tid v id s) ]

-- `_get_current_txn().retry()`; `none` is an AttributeError.
abbrev pub flag : Thread → Option Thread
flag s = elim s.current [ none ↦ none | some id ↦ some (txn_retry id s) ]

-- `retry`: RuntimeError, or RetryException.
abbrev pub retry : Thread → Reply × Thread
retry s = elim s.current [
  | none ↦ (other_exception, s)
  | some id ↦ (retry_exception, txn_retry id s)
]

-- A call by its `Transaction` argument, and the ends of a round of `atomically`: it leaves the loop,
-- or goes round it again.
abbrev pub Func : Type 0
Func = ℕ → Thread → Reply × Thread

pub data Round : Type 0 where
  leaves : Reply → Thread → Round
  again : Thread → Round

-- `txn = Transaction()` and `_tls.current_txn = txn`
unfoldable pub begin : Thread → Thread
begin s = record (set_txn s.count empty s) { current = some s.count; count = s.count + 1 }

-- `finally: _tls.current_txn = old`
unfoldable pub restore : Option ℕ → Thread → Thread
restore old s = record s { current = old }

-- After the commit under the global lock; the exception of `commit` leaves the loop.
abbrev pub finish : ℤ → Thread → Option Store → Round
finish v s none = leaves other_exception s
finish v s (some store) = leaves (value v) (record s { store = store })

-- The round after the body.
unfoldable pub close : (ℕ → Store → Store) → ℕ → Reply → Thread → Round
close others id (value v) s =
    let txn = s.txns id in
    if txn.should_retry
    then again s
    else if validate s.store txn
    then (if validate (tick others s).store txn
        then finish v (tick others s) (commit txn (tick others s).store)
        else again (tick others (tick others s)))
    else again (tick others s)
close others id retry_exception s = again s
close others id other_exception s = leaves other_exception s
close others id unfinished s = leaves unfinished s

-- One round of the loop in `atomically`.
unfoldable pub round : (ℕ → Store → Store) → Func → Thread → Round
round others func s =
    let (reply, s') = func s.count (begin s) in close others s.count reply (restore s.current s')

abbrev pub next : Round → (Thread → Reply × Thread) → Reply × Thread
next (leaves reply s) loop = (reply, s)
next (again s) loop = loop s

-- `atomically(txn_func)`, for a number of rounds.
unfoldable pub atomically : (ℕ → Store → Store) → ℕ → Func → Thread → Reply × Thread
atomically others zero func s = (unfinished, s)
atomically others (suc rounds) func s =
    next (round others func s) (λ s'. atomically others rounds func s')

-- What follows a call, unless it raised.
abbrev pub bind : Reply × Thread → (ℤ → Thread → Reply × Thread) → Reply × Thread
bind (value v, s) k = k v s
bind (retry_exception, s) k = (retry_exception, s)
bind (other_exception, s) k = (other_exception, s)
bind (unfinished, s) k = (unfinished, s)

-- The block by the functions of the module, which look the transaction up.
unfoldable pub run_current : (ℕ → Store → Store) → ℕ → Block → Thread → Reply × Thread
run_current others rounds (returns v) s = (value v, s)
run_current others rounds (reads tid k) s =
    let (v, s') = read_tvar tid s in run_current others rounds (k v) (tick others s')
run_current others rounds (writes tid v block) s = elim (write_tvar tid v s) [
  | none ↦ (other_exception, s)
  | some s' ↦ run_current others rounds block s'
]
run_current others rounds (flags block) s = elim (flag s) [
  | none ↦ (other_exception, s)
  | some s' ↦ run_current others rounds block s'
]
run_current others rounds retries s = retry s
run_current others rounds fails s = (other_exception, s)
run_current others rounds (nests inner k) s =
    bind (atomically others rounds (λ id s'. run_current others rounds inner s') s)
      λ v s'. run_current others rounds (k v) s'

-- The block by the methods of the transaction `id` that it was given, whatever is current.
unfoldable pub run_given : (ℕ → Store → Store) → ℕ → Block → Func
run_given others rounds (returns v) id s = (value v, s)
run_given others rounds (reads tid k) id s =
    let (v, s') = txn_read tid id s in run_given others rounds (k v) id (tick others s')
run_given others rounds (writes tid v block) id s =
    run_given others rounds block id (txn_write tid v id s)
run_given others rounds (flags block) id s = run_given others rounds block id (txn_retry id s)
run_given others rounds retries id s = (retry_exception, txn_retry id s)
run_given others rounds fails id s = (other_exception, s)
run_given others rounds (nests inner k) id s =
    bind (atomically others rounds (λ id' s'. run_given others rounds inner id' s') s)
      λ v s'. run_given others rounds (k v) id s'
