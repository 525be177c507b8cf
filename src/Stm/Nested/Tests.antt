-- ===== src/Stm/Nested/Tests.antt =====
-- Tests of the current transaction in python/stm/stm_model.py, and the theorem about it at a concrete
-- thread.
use cocurrency.Common.{ℕ, zero, suc, ◌≡◌, refl, true, none, ◌==◌, if◌then◌else◌}
use cocurrency.Common.Int.{pos, ◌+ℤ◌}
use cocurrency.Stm.{
  Store, empty, read_tvar, write_tvar, write_direct, validate, validate_items, commit, commit_items,
}
use cocurrency.Stm.Nested.{
  Thread, value, other_exception, Block, returns, reads, writes, nests, fails, begin, restore,
  close, round, atomically, run_current, run_given,
}
use cocurrency.Stm.Nested.Agrees.{atomically_current}

-- A thread outside every transaction; variable 0 is 100, and the others are 0.
abbrev idle : Thread
idle = record {
  store = record {
    vars = λ j.
        if j == 0
        then record { value = pos 100; version = 0 }
        else record { value = pos 0; version = 0 };
    registered = λ j. true;
  };
  moment = 0;
  current = none;
  txns = λ j. empty;
  count = 0;
}

-- Another thread sets variable 0 to 7 after the first read.
abbrev interferes : ℕ → Store → Store
interferes zero s = write_direct 0 (pos 7) s
interferes (suc m) s = s

-- The outer transaction writes variable 2 after the inner one, which writes variable 1.
abbrev inner_block : Block
inner_block = reads 0 λ v. writes 1 (v +ℤ pos 1) (returns v)

abbrev outer_block : Block
outer_block = nests inner_block λ v. writes 2 v (returns v)

abbrev ended : Thread
ended = (atomically interferes 3 (λ id s. run_current interferes 3 outer_block s) idle).1

-- The inner transaction went round twice, and its round made no difference to the outer one.
outer_commits :
    ((atomically interferes 3 (λ id s. run_current interferes 3 outer_block s) idle).0
      ≡ value (pos 7))
    × ((ended.store.vars 1).value ≡ pos 8)
    × ((ended.store.vars 2).value ≡ pos 7)
    × (ended.current ≡ none)
    × (ended.count ≡ 3)
unfolding atomically round begin restore close run_current read_tvar write_tvar write_direct
    validate validate_items commit commit_items ◌+ℤ◌
outer_commits = (refl, refl, refl, refl, refl)

-- Outside a transaction, a variable is read as it is, and writing one is an error.
outside :
    (run_current interferes 3 (reads 0 returns) idle).0 ≡ value (pos 100)
    × ((run_current interferes 3 (writes 0 (pos 1) (returns (pos 1))) idle).0 ≡ other_exception)
unfolding run_current
outside = (refl, refl)

-- The inner transaction raises, and the outer one with it.
raises :
    (atomically interferes 3 (λ id s. run_current interferes 3 (nests fails returns) s) idle).0
    ≡ other_exception
unfolding atomically round begin restore close run_current
raises = refl

atomically_current_example :
    (atomically interferes 3 (λ id s. run_current interferes 3 outer_block s) idle
      ≡ atomically interferes 3 (run_given interferes 3 outer_block) idle)
    × ((atomically interferes 3 (λ id s. run_current interferes 3 outer_block s) idle).1.current
        ≡ none)
atomically_current_example = atomically_current interferes 3 outer_block idle
