-- ===== src/Stm/Commit.antt =====
-- python/stm/stm_model.py: what `validate` finds, and what `commit` writes.
use mathlib.Core.Path.{fun_ext, subst}
use cocurrency.Common.{
  ℕ, ◌+◌, ◌≤◌, ◌≡◌, refl, ap, ◌∙◌, Bool, true, false, Option, none, some, [], ◌∷◌, ◌==◌, Bool-cases,
  Option-cases, some_inj, arith, inl, inr,
}
use cocurrency.Common.Int.{ℤ}
use cocurrency.Common.Dict.{Dict, lookup, IsDict}
use cocurrency.Stm.{
  Tvar, Store, set_var, Transaction, validate_items, validate, commit_items, commit, write_direct,
}

-- A validated transaction has read the variables at the versions that they have now.
validate_items-lookup :
    (s : Store) (items : Dict (ℤ × ℕ)) (tid : ℕ) (v : ℤ) (ver : ℕ)
    → validate_items s items ≡ true
    → lookup tid items ≡ some (v, ver)
    → (s.registered tid ≡ true) × ((s.vars tid).version ≡ ver)
unfolding validate_items
validate_items-lookup s [] tid v ver h e = cc
validate_items-lookup s ((k, (w, kver)) ∷ items) tid v ver h e =
    ground (arith, validate_items-lookup s items tid v ver)

pub validate-lookup :
    (s : Store) (txn : Transaction) (tid : ℕ) (v : ℤ) (ver : ℕ)
    → validate s txn ≡ true
    → lookup tid txn.read_set ≡ some (v, ver)
    → (s.registered tid ≡ true) × ((s.vars tid).version ≡ ver)
unfolding validate
validate-lookup s txn = validate_items-lookup s txn.read_set

-- A registered variable of the write set gets its new value and the next version.
abbrev pub written_var : Option ℤ → Bool → Tvar → Tvar
written_var none is_registered tvar = tvar
written_var (some v) false tvar = tvar
written_var (some v) true tvar = record { value = v; version = tvar.version + 1 }

abbrev pub written : Dict ℤ → Store → Store
written ws s = record s {
  vars = λ tid. written_var (lookup tid ws) (s.registered tid) (s.vars tid);
}

-- What a transaction has read and writes is at the version that it has read.
abbrev IsCurrent : Dict (ℤ × ℕ) → Dict ℤ → Store → Type 0
IsCurrent rs ws s =
    (tid ver : ℕ) (v w : ℤ)
    → lookup tid ws ≡ some w
    → lookup tid rs ≡ some (v, ver)
    → (s.vars tid).version ≡ ver

written-cons :
    (tid : ℕ) (v : ℤ) (ws : Dict ℤ) (s : Store)
    → lookup tid ws ≡ none
    → s.registered tid ≡ true
    → written ws (set_var tid (record { value = v; version = (s.vars tid).version + 1 }) s)
      ≡ written ((tid, v) ∷ ws) s
written-cons tid v ws s fresh reg = ap (λ f. record s { vars = f }) (fun_ext λ j. ground arith)

written-cons_unregistered :
    (tid : ℕ) (v : ℤ) (ws : Dict ℤ) (s : Store)
    → lookup tid ws ≡ none
    → s.registered tid ≡ false
    → written ws s ≡ written ((tid, v) ∷ ws) s
written-cons_unregistered tid v ws s fresh reg =
    ap (λ f. record s { vars = f }) (fun_ext λ j. ground arith)

commit_items-written :
    (rs : Dict (ℤ × ℕ)) (ws : Dict ℤ) (s : Store)
    → IsDict ws
    → IsCurrent rs ws s
    → commit_items rs ws s ≡ some (written ws s)
unfolding commit_items
commit_items-written rs [] s d c = refl
commit_items-written rs ((tid, v) ∷ ws) s (fresh, d) c = elim (Bool-cases (s.registered tid)) [
  | inl reg ↦
      let next : Store = set_var tid (record { value = v; version = (s.vars tid).version + 1 }) s in
      let rest : commit_items rs ws next ≡ some (written ((tid, v) ∷ ws) s) =
        commit_items-written rs ws next d (λ j ver e w i r. ground (arith, c j ver e w))
        ∙ ap some (written-cons tid v ws s fresh reg) in
      elim (Option-cases (lookup tid rs)) [
        | inl unread ↦ rw (reg, commit_items) (rw (unread, commit_items) rest)
        | inr ((e, ver), read) ↦
            rw (reg, commit_items) (rw (read, commit_items) (rw (is_current e ver read) rest))
      ]
  | inr unreg ↦
      rw (unreg, commit_items)
        (commit_items-written rs ws s d (λ j ver e w i r. ground (arith, c j ver e w))
          ∙ ap some (written-cons_unregistered tid v ws s fresh unreg))
]
  where
    is_current :
        (e : ℤ) (ver : ℕ) → lookup tid rs ≡ some (e, ver) → ((s.vars tid).version == ver) ≡ true
    is_current e ver read = ground (arith, c tid ver e v)

-- A transaction that validates commits, under the lock, without an exception: each registered
-- variable of its write set gets its new value and the next version, and nothing else changes.
pub commit-written :
    (txn : Transaction) (s : Store)
    → validate s txn ≡ true
    → IsDict txn.write_set
    → commit txn s ≡ some (written txn.write_set s)
unfolding commit
commit-written txn s ok d = rw ok (
    commit_items-written txn.read_set txn.write_set s d
      (λ tid ver v w i r. (validate-lookup s txn tid v ver ok r).1))

-- How the store may change: versions never fall, and a variable that keeps its version keeps its
-- value.
pub record Evolves (s s' : Store) : Type 0 where
  pub grows : (tid : ℕ) → (s.vars tid).version ≤ (s'.vars tid).version
  pub keeps :
      (tid : ℕ)
      → (s.vars tid).version ≡ (s'.vars tid).version
      → (s.vars tid).value ≡ (s'.vars tid).value
  pub stays : (tid : ℕ) → s.registered tid ≡ true → s'.registered tid ≡ true

pub Evolves-refl : (s : Store) → Evolves s s
Evolves-refl s = record { grows = λ tid. omega arith; keeps = λ tid e. refl; stays = λ tid e. e }

pub Evolves-trans : {s t u : Store} → Evolves s t → Evolves t u → Evolves s u
Evolves-trans {s} {t} {u} e f = record {
  grows = λ tid. omega (arith, e.grows tid, f.grows tid);
  keeps = λ tid h.
      e.keeps tid (omega (arith, e.grows tid, f.grows tid, h))
      ∙ f.keeps tid (omega (arith, e.grows tid, f.grows tid, h));
  stays = λ tid h. f.stays tid (e.stays tid h);
}

set_var-Evolves :
    (tid : ℕ) (v : ℤ) (s : Store)
    → Evolves s (set_var tid (record { value = v; version = (s.vars tid).version + 1 }) s)
set_var-Evolves tid v s = record {
  grows = λ j. ground arith;
  keeps = λ j h. ground (arith, h);
  stays = λ j h. h;
}

pub write_direct-Evolves : (tid : ℕ) (v : ℤ) (s : Store) → Evolves s (write_direct tid v s)
unfolding write_direct
write_direct-Evolves tid v s = set_var-Evolves tid v s

commit_items-Evolves :
    (rs : Dict (ℤ × ℕ)) (ws : Dict ℤ) (s s' : Store) → commit_items rs ws s ≡ some s' → Evolves s s'
unfolding commit_items
commit_items-Evolves rs [] s s' h = subst (λ u. Evolves s u) (some_inj h) (Evolves-refl s)
commit_items-Evolves rs ((tid, v) ∷ ws) s s' h = elim (Bool-cases (s.registered tid)) [
  | inl reg ↦
      let next : Store = set_var tid (record { value = v; version = (s.vars tid).version + 1 }) s in
      let rest : commit_items rs ws next ≡ some s' = ground arith in
      Evolves-trans (set_var-Evolves tid v s) (commit_items-Evolves rs ws next s' rest)
  | inr unreg ↦ commit_items-Evolves rs ws s s' (rw (unreg, commit_items) at h)
]

-- A commit that returns moves every version on or leaves the variable as it is.
pub commit-Evolves : (txn : Transaction) (s s' : Store) → commit txn s ≡ some s' → Evolves s s'
unfolding commit
commit-Evolves txn s s' h = elim (Bool-cases (validate s txn)) [
  | inl valid ↦ commit_items-Evolves txn.read_set txn.write_set s s' (rw valid at h)
  | inr invalid ↦ absurd (cc (rw invalid at h))
]
