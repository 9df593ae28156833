-- ===== src/Budget/Usage.antt =====
-- modules/budget/queries/department-budget-summary.query.ts, the sums of budget-committed.query.ts,
-- and the evaluations of services/budget.service.ts. A percentage is a number of hundredths of a
-- percent. `users`, `departments` and `expenses` are the rows that are not deleted.
use expentra.Prelude.{
  ℕ, ◌+◌, ◌-◌, ◌*◌, ◌/◌, Bool, false, Option, none, some, List, [], ◌∷◌, ◌&&◌, ◌||◌, ◌==◌, ltb, leb,
  if◌then◌else◌, find?, is_none, is_empty, String,
}
use expentra.Prelude.Result.{Result, ok, err, bad_request, not_found, throw_if, ◌>>=◌, ◌>>◌}
use expentra.Entities.{ExpenseStatus, same_status, Expense, DepartmentBudget}
use expentra.Store.{Db, find_department}
use expentra.Runtime.{Runtime}
use expentra.Budget.Period.{Range, resolve_budget_year, budget_year_range_in_time_zone}
use expentra.Budget.Sync.{counts_toward_committed_budget, resolve_department_for_submit}

-- The generated columns of `DepartmentBudget`.
pub remaining_amount : DepartmentBudget → ℕ
remaining_amount b = b.amount_limit - b.committed_amount

-- The quotient to the nearest hundredth of a percent, a half rounded up.
abbrev pub hundredths : ℕ → ℕ → ℕ
hundredths n limit = if ltb 0 limit then (n * 20000 + limit) / (2 * limit) else 0

pub utilization_percent : DepartmentBudget → ℕ
utilization_percent b = hundredths b.committed_amount b.amount_limit

pub is_over_budget : DepartmentBudget → Bool
is_over_budget b = ltb b.amount_limit b.committed_amount

-- `BudgetUsageSummary`, less the names of the department.
pub record BudgetUsageSummary : Type 0 where
  pub year : ℕ
  pub currency : String
  pub amount_limit : ℕ
  pub committed_amount : ℕ
  pub reimbursed_amount : ℕ
  pub remaining : ℕ
  pub utilization : ℕ
  pub over_budget : Bool
  pub near_limit : Bool
  pub budget : Option DepartmentBudget

-- `e.submitted_at >= $3 AND e.submitted_at < $4`
abbrev submitted_within : Range → Expense → Bool
submitted_within r e = elim e.submitted_at [ none ↦ false | some t ↦ leb r.start t && ltb t r.stop ]

abbrev of_department : ℕ → Expense → Bool
of_department d e = elim e.department_id [ none ↦ false | some d' ↦ d' == d ]

-- `SUM(e.amount)` over the rows of a department and a range whose status passes a test.
unfoldable pub sum_spend : (ExpenseStatus → Bool) → ℕ → Range → List Expense → ℕ
sum_spend counted d r [] = 0
sum_spend counted d r (e ∷ es) =
    (if of_department d e && counted e.status && submitted_within r e then e.amount else 0)
    + sum_spend counted d r es

-- `sumCommittedSpendForDepartmentYear`
unfoldable pub sum_committed_spend_for_department_year : ℕ → Range → Db → ℕ
sum_committed_spend_for_department_year d r db =
    sum_spend counts_toward_committed_budget d r db.expenses

-- `sumReimbursedSpendForDepartmentYear`
unfoldable pub sum_reimbursed_spend_for_department_year : ℕ → Range → Db → ℕ
sum_reimbursed_spend_for_department_year d r db =
    sum_spend (λ s. same_status s ExpenseStatus.reimbursed) d r db.expenses

-- The row that `DEPARTMENT_BUDGET_SUMMARY_SQL` joins.
abbrev pub joined_budget : ℕ → ℕ → Db → Option DepartmentBudget
joined_budget d year db =
    find? (λ b. b.department_id == d && b.year == year && b.is_active && is_none b.deleted_at)
      db.budgets

-- `mapBudgetFromSummaryRow`: a row without a key or a reference is no budget.
abbrev map_budget_from_summary_row : Option DepartmentBudget → Option DepartmentBudget
map_budget_from_summary_row none = none
map_budget_from_summary_row (some b) = if b.id == 0 || is_empty b.reference then none else some b

-- `COALESCE(b.column, default)`
abbrev column {ℓ} : {A : Type ℓ} → Option DepartmentBudget → (DepartmentBudget → A) → A → A
column none f default = default
column (some b) f default = f b

module _ (rt : Runtime) where
  -- What `fetchDepartmentBudgetSummary` makes of the joined row.
  unfoldable pub summary_of_row : ℕ → ℕ → Option DepartmentBudget → Db → BudgetUsageSummary
  summary_of_row d year row db =
      let range = budget_year_range_in_time_zone rt.zone year in
      let limit = column row (λ b. b.amount_limit) 0 in
      let currency = column row (λ b. b.currency) "NGN" in
      elim (map_budget_from_summary_row row) [
        | none ↦ record {
          year = year;
          currency = currency;
          amount_limit = limit;
          committed_amount = sum_committed_spend_for_department_year d range db;
          reimbursed_amount = 0;
          remaining = 0;
          utilization = 0;
          over_budget = false;
          near_limit = false;
          budget = none;
        }
        | some b ↦ record {
          year = year;
          currency = currency;
          amount_limit = limit;
          committed_amount = b.committed_amount;
          reimbursed_amount = b.reimbursed_amount;
          remaining = remaining_amount b;
          utilization = utilization_percent b;
          over_budget = is_over_budget b;
          near_limit =
              ltb 0 limit && leb (rt.near_limit_threshold_percent * 100) (utilization_percent b);
          budget = some b;
        }
      ]

  -- `fetchDepartmentBudgetSummary`
  unfoldable pub fetch_department_budget_summary : ℕ → ℕ → Db → Option BudgetUsageSummary
  fetch_department_budget_summary d year db = elim (find_department db d) [
    | none ↦ none
    | some _ ↦ some (summary_of_row d year (joined_budget d year db) db)
  ]

  -- `assertValidYear`
  unfoldable pub assert_valid_year : ℕ → Result (Unit {0})
  assert_valid_year year =
      throw_if (ltb year 2000 || ltb 2100 year) (bad_request "Invalid budget year")

  -- `getDepartmentSummary`, and `getDepartmentSummaryInTransaction`, which reads the same tables.
  unfoldable pub get_department_summary : ℕ → ℕ → Db → Result BudgetUsageSummary
  get_department_summary d year db =
      assert_valid_year year >> elim (fetch_department_budget_summary d year db) [
        | none ↦ err (not_found "Department not found")
        | some s ↦ ok s
      ]

  -- `getSummaryForUser`
  pub get_summary_for_user : ℕ → Option ℕ → Db → Result (Option BudgetUsageSummary)
  get_summary_for_user user_id year db =
      let resolved : ℕ = elim year [ some y ↦ y | none ↦ resolve_budget_year rt.zone rt.now ] in
      elim (resolve_department_for_submit db user_id none) [
        | none ↦ ok none
        | some d ↦ get_department_summary d resolved db >>= λ s. ok (some s)
      ]
