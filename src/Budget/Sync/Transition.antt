-- ===== src/Budget/Sync/Transition.antt =====
-- The incremental update of the budget rows follows the sums over the expenses.
use expentra.Prelude.{
  ℕ, ◌+◌, ◌≤◌, Bool, true, false, Option, none, some, List, [], ◌∷◌, ◌&&◌, ◌||◌, ◌==◌, ◌≡◌, ◌≢◌,
  ◌⊎◌, inl, inr, arith, if◌then◌else◌, not,
}
use expentra.Prelude.Int.{ℤ, pos, sub_ℕ, ◌+ℤ◌}
use expentra.Entities.{ExpenseStatus, same_status, same_status_iff}
use expentra.Store.{Db}
use expentra.Budget.Period.{Zone, resolve_budget_year}
use expentra.Budget.Sync.{
  ExpenseBudgetSnapshot, counts_toward_committed_budget, is_reimbursement_transition,
  expense_budget_attribution_changed, attribution_changed, Delta, resolve_department_for_submit,
  accumulate, apply_deltas, apply_committed_amount_delta, add_delta,
  sync_committed_amount_for_expense_transition,
}
use expentra.Budget.Sync.Rows.{Matches, moved, apply_committed-Matches}

abbrev pub is_reimbursed : ExpenseStatus → Bool
is_reimbursed s = same_status s ExpenseStatus.reimbursed

-- The statuses whose expenses stand in `committed_amount`: a reimbursement leaves it as it is.
unfoldable pub in_ledger : ExpenseStatus → Bool
unfolding counts_toward_committed_budget
in_ledger s = counts_toward_committed_budget s || is_reimbursed s

-- What one expense adds to the sum of a department and a year over the statuses of a test: the
-- condition of the `SUM` queries of budget-committed.query.ts.
unfoldable pub share : Zone → (ExpenseStatus → Bool) → ExpenseBudgetSnapshot → ℕ → ℕ → ℕ
share z counted s d y = elim s.submitted_at [
  | none ↦ 0
  | some t ↦ elim s.department_id [
    | none ↦ 0
    | some d' ↦ if counted s.status && d' == d && resolve_budget_year z t == y then s.amount else 0
  ]
]

-- An expense that stands in the ledger names its department and the time of its submission.
abbrev pub IsAttributed : ExpenseBudgetSnapshot → Type 0
IsAttributed s =
    (in_ledger s.status ≡ false)
    ⊎ ((d : ℕ) × (t : ℕ) × (s.department_id ≡ some d) × (d ≢ 0) × (s.submitted_at ≡ some t))

-- The changes that the services make: an expense leaves `REIMBURSED` never, and enters it from
-- `APPROVED` with its attribution unchanged.
pub record IsTransition (before after : ExpenseBudgetSnapshot) : Type 0 where
  pub attributed_before : IsAttributed before
  pub attributed_after : IsAttributed after
  pub not_reimbursed : before.status ≢ ExpenseStatus.reimbursed
  pub from_approved :
      after.status ≡ ExpenseStatus.reimbursed → before.status ≡ ExpenseStatus.approved
  pub same_department :
      after.status ≡ ExpenseStatus.reimbursed → after.department_id ≡ before.department_id
  pub same_time : after.status ≡ ExpenseStatus.reimbursed → after.submitted_at ≡ before.submitted_at
  pub same_amount : after.status ≡ ExpenseStatus.reimbursed → after.amount ≡ before.amount

-- `f` after a list of updates.
abbrev pub moved_all : List Delta → (ℕ → ℕ → ℕ) → ℕ → ℕ → ℕ
moved_all [] f = f
moved_all (x ∷ xs) f = moved_all xs (moved x.department_id x.year x.delta_amount f)

pub apply_deltas-Matches :
    (deltas : List Delta) (f r : ℕ → ℕ → ℕ) (db : Db)
    → Matches f r db.budgets
    → Matches (moved_all deltas f) r (apply_deltas deltas db).budgets
unfolding apply_deltas
apply_deltas-Matches [] f r db m = m
apply_deltas-Matches (x ∷ xs) f r db m =
    apply_deltas-Matches xs (moved x.department_id x.year x.delta_amount f) r
      (apply_committed_amount_delta x.department_id x.year x.delta_amount db)
      (apply_committed-Matches x.department_id x.year x.delta_amount f r db m)

pub counted_in_ledger :
    (s : ExpenseStatus) → counts_toward_committed_budget s ≡ true → in_ledger s ≡ true
unfolding in_ledger
counted_in_ledger s h = rw h

pub uncounted_not_in_ledger :
    (s : ExpenseStatus)
    → counts_toward_committed_budget s ≡ false
    → s ≢ ExpenseStatus.reimbursed
    → in_ledger s ≡ false
unfolding in_ledger
uncounted_not_in_ledger s h n = rw h (ground (arith, same_status_iff s ExpenseStatus.reimbursed))

-- Where a snapshot that counts is attributed.
pub attribution :
    (s : ExpenseBudgetSnapshot)
    → IsAttributed s
    → in_ledger s.status ≡ true
    → (d : ℕ) × (t : ℕ) × (s.department_id ≡ some d) × (d ≢ 0) × (s.submitted_at ≡ some t)
attribution s (inl out) c = absurd (cc)
attribution s (inr a) c = a

module _ (z : Zone) (db : Db) where
  pub resolve_attributed : (u d : ℕ) → d ≢ 0 → resolve_department_for_submit db u (some d) ≡ some d
  unfolding resolve_department_for_submit
  resolve_attributed u d h = ground arith

  -- A snapshot that counts adds its signed amount at its department and year; another adds nothing.
  pub accumulate_counted :
      (signed : ℕ → ℤ) (s : ExpenseBudgetSnapshot) (d t : ℕ) (deltas : List Delta)
      → counts_toward_committed_budget s.status ≡ true
      → s.department_id ≡ some d
      → d ≢ 0
      → s.submitted_at ≡ some t
      → accumulate z db signed s deltas
        ≡ add_delta d (resolve_budget_year z t) (signed s.amount) deltas
  unfolding accumulate
  accumulate_counted signed s d t deltas c e h e' = ground (arith, resolve_attributed s.user_id d h)

  pub accumulate_uncounted :
      (signed : ℕ → ℤ) (s : ExpenseBudgetSnapshot) (deltas : List Delta)
      → counts_toward_committed_budget s.status ≡ false
      → accumulate z db signed s deltas ≡ deltas
  unfolding accumulate
  accumulate_uncounted signed s deltas c = rw c

  pub share_at :
      (counted : ExpenseStatus → Bool) (s : ExpenseBudgetSnapshot) (d t : ℕ)
      → counted s.status ≡ true
      → s.department_id ≡ some d
      → s.submitted_at ≡ some t
      → (d' y' : ℕ)
      → share z counted s d' y' ≡ (if d == d' && resolve_budget_year z t == y' then s.amount else 0)
  unfolding share
  share_at counted s d t c e e' d' y' = ground arith

  pub share_out :
      (counted : ExpenseStatus → Bool) (s : ExpenseBudgetSnapshot)
      → counted s.status ≡ false
      → (d' y' : ℕ) → share z counted s d' y' ≡ 0
  unfolding share
  share_out counted s c d' y' = ground arith

  abbrev pub deltas_of : ExpenseBudgetSnapshot → ExpenseBudgetSnapshot → List Delta
  deltas_of before after =
      accumulate z db (λ n. pos n) after (accumulate z db (λ n. sub_ℕ 0 n) before [])

  abbrev pub here : ℕ → ℕ → ℕ → ℕ → Bool
  here d t d' y' = d == d' && resolve_budget_year z t == y'

  module _ (before after : ExpenseBudgetSnapshot) (f g : ℕ → ℕ → ℕ) (d' y' : ℕ)
      (balance : g d' y' + share z in_ledger before d' y' ≡ f d' y' + share z in_ledger after d' y')
      (enough : share z in_ledger before d' y' ≤ f d' y') where
    pub moved_none :
        share z in_ledger before d' y' ≡ 0 → share z in_ledger after d' y' ≡ 0 → f d' y' ≡ g d' y'
    moved_none h k = omega arith

    pub moved_out :
        (d t : ℕ)
        → share z in_ledger before d' y' ≡ (if here d t d' y' then before.amount else 0)
        → share z in_ledger after d' y' ≡ 0
        → moved_all (add_delta d (resolve_budget_year z t) (sub_ℕ 0 before.amount) []) f d' y'
          ≡ g d' y'
    unfolding add_delta
    moved_out d t h k = ground arith

    pub moved_in :
        (d t : ℕ)
        → share z in_ledger before d' y' ≡ 0
        → share z in_ledger after d' y' ≡ (if here d t d' y' then after.amount else 0)
        → moved_all (add_delta d (resolve_budget_year z t) (pos after.amount) []) f d' y' ≡ g d' y'
    unfolding add_delta
    moved_in d t h k = ground arith

    pub moved_both :
        (d t e u : ℕ)
        → share z in_ledger before d' y' ≡ (if here d t d' y' then before.amount else 0)
        → share z in_ledger after d' y' ≡ (if here e u d' y' then after.amount else 0)
        → moved_all
            (add_delta e
              (resolve_budget_year z u)
              (pos after.amount)
              (add_delta d (resolve_budget_year z t) (sub_ℕ 0 before.amount) []))
            f
            d'
            y'
          ≡ g d' y'
    unfolding add_delta ◌+ℤ◌
    moved_both d t e u h k = ground arith

pub in_ledger_lem :
    (s : ExpenseStatus)
    → in_ledger s
      ≡ (not (same_status s ExpenseStatus.draft) && not (same_status s ExpenseStatus.rejected))
unfolding in_ledger
in_ledger_lem s = ground arith

draft-attribution_changed :
    (before after : ExpenseBudgetSnapshot)
    → before.status ≡ ExpenseStatus.draft
    → attribution_changed before after ≡ counts_toward_committed_budget after.status
unfolding attribution_changed counts_toward_committed_budget
draft-attribution_changed before after h = ground arith

draft-accumulate :
    (z : Zone) (db : Db) (signed : ℕ → ℤ) (s : ExpenseBudgetSnapshot) (ds : List Delta)
    → s.status ≡ ExpenseStatus.draft
    → accumulate z db signed s ds ≡ ds
unfolding accumulate counts_toward_committed_budget
draft-accumulate z db signed s ds h = ground arith

draft-reimbursement :
    (before : ExpenseBudgetSnapshot) (after : Option ExpenseBudgetSnapshot)
    → before.status ≡ ExpenseStatus.draft
    → is_reimbursement_transition (some before) after ≡ false
unfolding is_reimbursement_transition
draft-reimbursement before after h = ground arith

-- What the snapshot of a draft says beyond its status is not read.
pub sync-draft :
    (z : Zone) (before after : ExpenseBudgetSnapshot) (db : Db)
    → before.status ≡ ExpenseStatus.draft
    → sync_committed_amount_for_expense_transition z (some before) (some after) db ≡ (
        if not (counts_toward_committed_budget after.status)
        then db
        else apply_deltas (accumulate z db (λ n. pos n) after []) db)
unfolding sync_committed_amount_for_expense_transition expense_budget_attribution_changed
sync-draft z before after db h = rw (
  draft-reimbursement before (some after) h,
  draft-attribution_changed before after h,
  draft-accumulate z db (λ n. sub_ℕ 0 n) before [] h,
)

-- Outside the committed statuses the update changes nothing.
pub sync-outside :
    (z : Zone) (before after : ExpenseBudgetSnapshot) (db : Db)
    → before.status ≡ ExpenseStatus.rejected
    → after.status ≡ ExpenseStatus.draft
    → sync_committed_amount_for_expense_transition z (some before) (some after) db ≡ db
unfolding sync_committed_amount_for_expense_transition expense_budget_attribution_changed
    is_reimbursement_transition attribution_changed counts_toward_committed_budget
sync-outside z before after db h k = rw (h, k)
