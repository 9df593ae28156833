-- ===== src/Budget/Sync.antt =====
-- modules/budget/utils/expense-budget-sync.util.ts, queries/budget-committed.query.ts and the
-- incremental update in services/budget.service.ts (`syncCommittedAmountForExpenseTransition`).
pub mod Rows
pub mod Transition
pub mod Ledger
pub mod Frame
use expentra.Prelude.{
  ℕ, ◌+◌, ◌-◌, Bool, true, false, Option, none, some, List, [], ◌∷◌, map, ◌&&◌, ◌||◌, not, ◌==◌,
  if◌then◌else◌, eq_option, truthy_id, is_none, is_some,
}
use expentra.Prelude.Int.{ℤ, pos, negsuc, ◌+ℤ◌, pos_part, neg_part, sub_ℕ}
use expentra.Entities.{ExpenseStatus, same_status, Expense, DepartmentBudget, User}
use expentra.Store.{Db, find_user}
use expentra.Budget.Period.{Zone, resolve_budget_year}

pub record ExpenseBudgetSnapshot : Type 0 where
  pub user_id : ℕ
  pub department_id : Option ℕ
  pub submitted_at : Option ℕ
  pub status : ExpenseStatus
  pub amount : ℕ

-- `toExpenseBudgetSnapshot`
unfoldable pub to_expense_budget_snapshot : Expense → ExpenseBudgetSnapshot
to_expense_budget_snapshot e = record {
  user_id = e.user_id;
  department_id = e.department_id;
  submitted_at = e.submitted_at;
  status = e.status;
  amount = e.amount;
}

-- `BUDGET_COMMITTED_STATUSES.includes(status)`
unfoldable pub counts_toward_committed_budget : ExpenseStatus → Bool
counts_toward_committed_budget s =
    same_status s ExpenseStatus.submitted
    || same_status s ExpenseStatus.under_review
    || same_status s ExpenseStatus.approved

abbrev has_status : ExpenseStatus → Option ExpenseBudgetSnapshot → Bool
has_status s none = false
has_status s (some x) = same_status x.status s

-- `isReimbursementTransition`
unfoldable pub is_reimbursement_transition :
    Option ExpenseBudgetSnapshot → Option ExpenseBudgetSnapshot → Bool
is_reimbursement_transition before after =
    has_status ExpenseStatus.approved before && has_status ExpenseStatus.reimbursed after

-- The body of `expenseBudgetAttributionChanged` where both snapshots are present.
unfoldable pub attribution_changed : ExpenseBudgetSnapshot → ExpenseBudgetSnapshot → Bool
attribution_changed before after =
    let was = counts_toward_committed_budget before.status in
    let is = counts_toward_committed_budget after.status in
    if not was && not is
    then false
    else if (was && not is) || (not was && is)
    then true
    else if is_none before.submitted_at || is_none after.submitted_at
    then true
    else not (before.amount == after.amount)
      || not (eq_option before.department_id after.department_id)
      || not (before.user_id == after.user_id)
      || not (eq_option before.submitted_at after.submitted_at)

-- `expenseBudgetAttributionChanged`
unfoldable pub expense_budget_attribution_changed :
    Option ExpenseBudgetSnapshot → Option ExpenseBudgetSnapshot → Bool
expense_budget_attribution_changed none none = false
expense_budget_attribution_changed none (some b) = true
expense_budget_attribution_changed (some a) none = true
expense_budget_attribution_changed (some a) (some b) = attribution_changed a b

-- The rows that the `UPDATE`s of budget-committed.query.ts select.
abbrev is_live_row : ℕ → ℕ → DepartmentBudget → Bool
is_live_row department year b =
    b.department_id == department && b.year == year && b.is_active && is_none b.deleted_at

-- `GREATEST(0, n + delta)`
abbrev clamped : ℕ → ℤ → ℕ
clamped n delta = (n + pos_part delta) - neg_part delta

-- `applyCommittedAmountDelta`, `applyReimbursedAmountDelta`; a delta of 0 changes nothing.
add_committed : ℕ → ℕ → ℤ → DepartmentBudget → DepartmentBudget
add_committed department year delta b =
    if is_live_row department year b
    then record b { committed_amount = clamped b.committed_amount delta }
    else b

add_reimbursed : ℕ → ℕ → ℤ → DepartmentBudget → DepartmentBudget
add_reimbursed department year delta b =
    if is_live_row department year b
    then record b { reimbursed_amount = clamped b.reimbursed_amount delta }
    else b

abbrev is_zero : ℤ → Bool
is_zero (pos n) = n == 0
is_zero (negsuc n) = false

unfoldable pub apply_committed_amount_delta : ℕ → ℕ → ℤ → Db → Db
unfolding add_committed
apply_committed_amount_delta department year delta db =
    if is_zero delta
    then db
    else record db { budgets = map (add_committed department year delta) db.budgets }

unfoldable pub apply_reimbursed_amount_delta : ℕ → ℕ → ℤ → Db → Db
unfolding add_reimbursed
apply_reimbursed_amount_delta department year delta db =
    if is_zero delta
    then db
    else record db { budgets = map (add_reimbursed department year delta) db.budgets }

-- `resolveDepartmentForSubmit`: the department of the snapshot, or else the one of its user. The
-- callers test the result for truth, so 0 counts as absent.
unfoldable pub resolve_department_for_submit : Db → ℕ → Option ℕ → Option ℕ
resolve_department_for_submit db user_id department_id = elim (truthy_id department_id) [
  | some d ↦ some d
  | none ↦ elim (find_user db user_id) [ none ↦ none | some u ↦ truthy_id u.department_id ]
]

-- An entry of the map `deltas`, whose key is the department with the year.
pub record Delta : Type 0 where
  pub department_id : ℕ
  pub year : ℕ
  pub delta_amount : ℤ

-- `entry.deltaAmount += …` at the entry of the key, or at a new one.
unfoldable pub add_delta : ℕ → ℕ → ℤ → List Delta → List Delta
add_delta d y n [] = record { department_id = d; year = y; delta_amount = n } ∷ []
add_delta d y n (x ∷ xs) =
    if x.department_id == d && x.year == y
    then record x { delta_amount = x.delta_amount +ℤ n } ∷ xs
    else x ∷ add_delta d y n xs

-- The last loop of `syncCommittedAmountForExpenseTransition`.
unfoldable pub apply_deltas : List Delta → Db → Db
apply_deltas [] db = db
apply_deltas (x ∷ xs) db =
    apply_deltas xs (apply_committed_amount_delta x.department_id x.year x.delta_amount db)

module _ (z : Zone) where
  -- `syncReimbursedAmountForExpense`
  unfoldable pub sync_reimbursed_amount_for_expense : ExpenseBudgetSnapshot → Db → Db
  sync_reimbursed_amount_for_expense s db = elim s.submitted_at [
    | none ↦ db
    | some t ↦ elim (resolve_department_for_submit db s.user_id s.department_id) [
      | none ↦ db
      | some d ↦ apply_reimbursed_amount_delta d (resolve_budget_year z t) (pos s.amount) db
    ]
  ]

  -- The closure `accumulate`; the signed amount is `sign * snapshot.amount`.
  unfoldable pub accumulate : Db → (ℕ → ℤ) → ExpenseBudgetSnapshot → List Delta → List Delta
  accumulate db signed s deltas =
      if counts_toward_committed_budget s.status
      then elim s.submitted_at [
        | none ↦ deltas
        | some t ↦ elim (resolve_department_for_submit db s.user_id s.department_id) [
          | none ↦ deltas
          | some d ↦ add_delta d (resolve_budget_year z t) (signed s.amount) deltas
        ]
      ]
      else deltas

  abbrev accumulate_opt : Db → (ℕ → ℤ) → Option ExpenseBudgetSnapshot → List Delta → List Delta
  accumulate_opt db signed none deltas = deltas
  accumulate_opt db signed (some s) deltas = accumulate db signed s deltas

  abbrev reimburse_opt : Option ExpenseBudgetSnapshot → Db → Db
  reimburse_opt none db = db
  reimburse_opt (some s) db = sync_reimbursed_amount_for_expense s db

  -- `syncCommittedAmountForExpenseTransition`
  unfoldable pub sync_committed_amount_for_expense_transition :
      Option ExpenseBudgetSnapshot → Option ExpenseBudgetSnapshot → Db → Db
  sync_committed_amount_for_expense_transition before after db =
      if is_reimbursement_transition before after
      then reimburse_opt after db
      else if not (expense_budget_attribution_changed before after)
      then db
      else apply_deltas
          (accumulate_opt db (λ n. pos n) after (accumulate_opt db (λ n. sub_ℕ 0 n) before [])) db
