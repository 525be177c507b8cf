-- ===== src/Bank/Locks.antt =====
-- python/shared_memory_lock/bank_account.py: threads that take the two locks of a transfer, the lock
-- of the account with the smaller id first.
use mathlib.Core.Path.{subst}
use cocurrency.Common.{
  ℕ, zero, suc, ◌+◌, ◌≤◌, ◌<◌, ◌≡◌, ◌≢◌, ◌⊎◌, inl, inr, refl, sym, ap, ◌∙◌, Bool, true, false, ◌||◌,
  List, [], ◌∷◌, ◌==◌, Bool-cases, In, arith,
}
use cocurrency.Bank.{Accounts, lock_order}

-- Where a thread stands in `transfer`: before `with first._lock`, before `with second._lock`, inside
-- both, or after them.
pub data Phase : Type 0 where
  before_first before_second inside finished : Phase

pub record Transfer : Type 0 where
  pub first : ℕ
  pub second : ℕ
  pub phase : Phase

-- A thread that has called `transfer` and has sorted the accounts.
pub begin : Accounts → ℕ → ℕ → Transfer
begin s from_account to_account =
    let (first, second) = lock_order s from_account to_account in
    record { first = first; second = second; phase = before_first }

-- Whether the thread holds the lock of an account.
abbrev holds_at : Phase → ℕ → ℕ → ℕ → Bool
holds_at before_first first second lock = false
holds_at before_second first second lock = first == lock
holds_at inside first second lock = first == lock || second == lock
holds_at finished first second lock = false

abbrev pub holds : ℕ → Transfer → Bool
holds lock t = holds_at t.phase t.first t.second lock

abbrev pub is_held : ℕ → List Transfer → Bool
is_held lock [] = false
is_held lock (t ∷ ts) = holds lock t || is_held lock ts

-- The thread can take its next step among these threads.
abbrev ReadyAt : Phase → ℕ → ℕ → List Transfer → Type 0
ReadyAt before_first first second ts = is_held first ts ≡ false
ReadyAt before_second first second ts = is_held second ts ≡ false
ReadyAt inside first second ts = Unit
ReadyAt finished first second ts = ⊥

abbrev pub IsReady : List Transfer → Transfer → Type 0
IsReady ts t = ReadyAt t.phase t.first t.second ts

-- A search through a list.
find :
    {A : Type 0} (p : A → Bool) (xs : List A)
    → ((a : A) × In a xs × (p a ≡ true)) ⊎ ((a : A) → In a xs → p a ≡ false)
find p [] = inr (λ a i. absurd i)
find p (x ∷ xs) = elim (Bool-cases (p x)) [
  | inl here ↦ inl (x, inl refl, here)
  | inr other ↦ elim (find p xs) [
    | inl (a, i, e) ↦ inl (a, inr i, e)
    | inr none_of ↦
        inr (λ a. elim [ inl e ↦ subst (λ b. p b ≡ false) (sym e) other | inr i ↦ none_of a i ])
  ]
]

is_held-holder :
    (lock : ℕ) (ts : List Transfer)
    → is_held lock ts ≡ true
    → (t : Transfer) × In t ts × (holds lock t ≡ true)
is_held-holder lock [] h = cc
is_held-holder lock (t ∷ ts) h = elim (Bool-cases (holds lock t)) [
  | inl here ↦ (t, inl refl, here)
  | inr other ↦ let (u, i, e) = is_held-holder lock ts (rw other at h) in (u, inr i, e)
]

-- The threads' locks stand in the order of a rank.
abbrev AreOrdered : (ℕ → ℕ) → List Transfer → Type 0
AreOrdered rank ts = (t : Transfer) → In t ts → rank t.first < rank t.second

abbrev is_inside : Phase → Bool
is_inside inside = true
is_inside _ = false

abbrev is_before_second : Phase → Bool
is_before_second before_second = true
is_before_second _ = false

abbrev is_before_first : Phase → Bool
is_before_first before_first = true
is_before_first _ = false

abbrev Ready : List Transfer → Type 0
Ready ts = (t : Transfer) × In t ts × IsReady ts t

holder_waits :
    (lock : ℕ) (u : Transfer)
    → is_inside u.phase ≡ false
    → holds lock u ≡ true
    → (is_before_second u.phase ≡ true) × (u.first ≡ lock)
holder_waits lock u out h = ground arith

IsReady-second :
    (ts : List Transfer) (t : Transfer)
    → is_before_second t.phase ≡ true
    → is_held t.second ts ≡ false
    → IsReady ts t
IsReady-second ts t waits free = at t.phase waits
  where
    at : (p : Phase) → is_before_second p ≡ true → ReadyAt p t.first t.second ts
    at before_second w = free
    at before_first w = cc
    at inside w = tt
    at finished w = cc

module _ (rank : ℕ → ℕ) (bound : ℕ) (ts : List Transfer) (ordered : AreOrdered rank ts)
    (bounded : (t : Transfer) → In t ts → rank t.first < bound)
    (none_inside : (t : Transfer) → In t ts → is_inside t.phase ≡ false) where
  -- From a thread that waits for its second lock, to the holder of that lock, and so on: the ranks
  -- rise, so some thread on the way finds its lock free.
  climb :
      (fuel : ℕ) (t : Transfer)
      → In t ts
      → is_before_second t.phase ≡ true
      → bound ≤ rank t.first + fuel
      → Ready ts
  climb zero t i waits le = absurd (omega (arith, bounded t i))
  climb (suc fuel) t i waits le = elim (Bool-cases (is_held t.second ts)) [
    | inl held ↦
        let (u, j, h) = is_held-holder t.second ts held in
        let (waits_too, same) = holder_waits t.second u (none_inside u j) h in
        climb fuel u j waits_too (omega (arith, ordered t i, ap rank same))
    | inr free ↦ (t, i, IsReady-second ts t waits free)
  ]

-- A bound above the ranks of the first locks.
abbrev bound_of : (ℕ → ℕ) → List Transfer → ℕ
bound_of rank [] = 0
bound_of rank (t ∷ ts) = rank t.first + bound_of rank ts + 1

lt-bound_of :
    (rank : ℕ → ℕ) (ts : List Transfer) (t : Transfer) → In t ts → rank t.first < bound_of rank ts
lt-bound_of rank [] t i = absurd i
lt-bound_of rank (u ∷ ts) t (inl e) = omega (arith, ap (λ (v : Transfer). rank v.first) e)
lt-bound_of rank (u ∷ ts) t (inr i) = omega (arith, lt-bound_of rank ts t i)

none_held :
    (lock : ℕ) (ts : List Transfer)
    → ((t : Transfer) → In t ts → is_inside t.phase ≡ false)
    → ((t : Transfer) → In t ts → is_before_second t.phase ≡ false)
    → is_held lock ts ≡ false
none_held lock [] h k = refl
none_held lock (t ∷ ts) h k = ground (
  arith,
  h t (inl refl),
  k t (inl refl),
  none_held lock ts (λ u i. h u (inr i)) (λ u i. k u (inr i)),
)

IsReady-inside : (ts : List Transfer) (t : Transfer) → is_inside t.phase ≡ true → IsReady ts t
IsReady-inside ts t e = at t.phase e
  where
    at : (p : Phase) → is_inside p ≡ true → ReadyAt p t.first t.second ts
    at inside w = tt
    at before_first w = cc
    at before_second w = cc
    at finished w = cc

IsReady-first :
    (ts : List Transfer) (t : Transfer)
    → is_before_first t.phase ≡ true
    → is_held t.first ts ≡ false
    → IsReady ts t
IsReady-first ts t e free = at t.phase e
  where
    at : (p : Phase) → is_before_first p ≡ true → ReadyAt p t.first t.second ts
    at before_first w = free
    at inside w = tt
    at before_second w = cc
    at finished w = cc

ordered_progress :
    (rank : ℕ → ℕ) (ts : List Transfer)
    → AreOrdered rank ts
    → Ready ts ⊎ ((t : Transfer) → In t ts → t.phase ≡ finished)
ordered_progress rank ts ordered = elim (find (λ t. is_inside t.phase) ts) [
  | inl (t, i, e) ↦ inl (t, i, IsReady-inside ts t e)
  | inr out ↦ elim (find (λ t. is_before_second t.phase) ts) [
    | inl (t, i, e) ↦ inl (
        climb rank (bound_of rank ts) ts ordered (lt-bound_of rank ts) out (bound_of rank ts) t i e
          (omega arith))
    | inr unlocked ↦ elim (find (λ t. is_before_first t.phase) ts) [
      | inl (t, i, e) ↦ inl (t, i, IsReady-first ts t e (none_held t.first ts out unlocked))
      | inr started ↦ inr (λ t i. ground (arith, out t i, unlocked t i, started t i))
    ]
  ]
]

-- The threads are in transfers between accounts with different ids, and take the locks in the order
-- that `transfer` sorts them.
abbrev pub AreTransfers : Accounts → List Transfer → Type 0
AreTransfers s ts =
    (t : Transfer)
    → In t ts
    → (a b : ℕ) × ((s a).account_id ≢ (s b).account_id)
      × (t.first ≡ (begin s a b).first)
      × (t.second ≡ (begin s a b).second)

begin-ordered :
    (s : Accounts) (a b : ℕ)
    → (s a).account_id ≢ (s b).account_id
    → (s (begin s a b).first).account_id < (s (begin s a b).second).account_id
unfolding begin lock_order
begin-ordered s a b ne = ground (arith)

-- No deadlock: however the threads stand in their transfers, and whatever locks they hold, one of
-- them can take its next step, or all have finished, if each transfer is between accounts with
-- different ids.
pub no_deadlock :
    (s : Accounts) (ts : List Transfer)
    → AreTransfers s ts
    → ((t : Transfer) × In t ts × IsReady ts t) ⊎ ((t : Transfer) → In t ts → t.phase ≡ finished)
no_deadlock s ts transfers =
    ordered_progress (λ k. (s k).account_id) ts
      (λ t i.
        let (a, b, ne, e, f) = transfers t i in
        subst (λ k. (s k).account_id < (s t.second).account_id) (sym e)
          (subst (λ k. (s (begin s a b).first).account_id < (s k).account_id) (sym f)
            (begin-ordered s a b ne)))

is_held-In :
    (lock : ℕ) (t : Transfer) (ts : List Transfer)
    → In t ts
    → holds lock t ≡ true
    → is_held lock ts ≡ true
is_held-In lock t [] i h = absurd i
is_held-In lock t (u ∷ ts) (inl e) h = rw (subst (λ v. holds lock v ≡ true) e h)
is_held-In lock t (u ∷ ts) (inr i) h = ground (arith, is_held-In lock t ts i h)

-- A thread that has called `transfer` and holds the first of its locks.
abbrev pub holding_first : Accounts → ℕ → ℕ → Transfer
holding_first s a b = record (begin s a b) { phase = before_second }

-- A thread that transfers from an account to itself and holds the first lock can not go on, whatever
-- the other threads do: it waits for its own lock.
pub self_transfer_stuck :
    (s : Accounts) (a : ℕ) (ts : List Transfer)
    → In (holding_first s a a) ts
    → ¬ IsReady ts (holding_first s a a)
unfolding begin lock_order
self_transfer_stuck s a ts i ready =
    let held = is_held-In (holding_first s a a).second (holding_first s a a) ts i (ground arith) in
    cc (sym held ∙ ready)

-- Two accounts with one id: threads that transfer between them in opposite directions, and hold their
-- first locks, wait for each other.
pub equal_ids_deadlock :
    (s : Accounts) (a b : ℕ)
    → (s a).account_id ≡ (s b).account_id
    → (t : Transfer) → In t (holding_first s a b ∷ holding_first s b a ∷ [])
    → ¬ IsReady (holding_first s a b ∷ holding_first s b a ∷ []) t
unfolding begin lock_order
equal_ids_deadlock s a b same t (inl e) ready =
    ground (arith, subst (λ u. IsReady (holding_first s a b ∷ holding_first s b a ∷ []) u) e ready)
equal_ids_deadlock s a b same t (inr (inl e)) ready =
    ground (arith, subst (λ u. IsReady (holding_first s a b ∷ holding_first s b a ∷ []) u) e ready)
equal_ids_deadlock s a b same t (inr (inr impossible)) ready = absurd impossible
