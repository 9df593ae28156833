-- ===== src/Budget/Administration.antt =====
-- The rest of modules/budget/services/budget.service.ts: the rows of the budgets, their
-- recalculation from the expenses (queries/budget-committed.query.ts), and the effect of a user's
-- change of department. The workers of `runWithConcurrency` write rows of one department and year
-- each, so they are run in the order of the list.
pub mod Recalculation
pub mod Recount
pub mod Created
pub mod Reconciliation
pub mod Years
use expentra.Prelude.{
  ℕ, ◌+◌, String, Bool, true, false, Option, none, some, List, [], ◌∷◌, ◌++◌, map, ◌&&◌, ◌||◌, not,
  ◌==◌, ltb, filter, find?, any, eq_option, is_none, if◌then◌else◌,
}
use expentra.Prelude.Result.{
  Result, ok, err, bad_request, not_found, conflict, throw_if, ◌>>=◌, ◌>>◌,
}
use expentra.Entities.{Department, DepartmentBudget, Expense}
use expentra.Store.{Db, next_id}
use expentra.Runtime.{Runtime}
use expentra.Reference.{find_entity_by_reference}
use expentra.Budget.Period.{Range, resolve_budget_year, budget_year_range_in_time_zone}
use expentra.Budget.Sync.{counts_toward_committed_budget}
use expentra.Budget.Usage.{
  assert_valid_year, sum_committed_spend_for_department_year,
  sum_reimbursed_spend_for_department_year,
}

pub record CreateDepartmentBudgetInput : Type 0 where
  pub department_reference : String
  pub year : ℕ
  pub amount_limit : ℕ
  pub currency : Option String

pub record UpdateDepartmentBudgetInput : Type 0 where
  pub amount_limit : Option ℕ
  pub is_active : Option Bool

-- `budgetRepository.save` of a row that exists.
pub replace_budget : DepartmentBudget → List DepartmentBudget → List DepartmentBudget
replace_budget b [] = []
replace_budget b (x ∷ xs) = (if x.id == b.id then b else x) ∷ replace_budget b xs

-- The row of a new budget, whose amounts are the defaults of the columns.
abbrev pub new_budget : ℕ → String → ℕ → CreateDepartmentBudgetInput → DepartmentBudget
new_budget id reference department input = record {
  id = id;
  reference = reference;
  department_id = department;
  year = input.year;
  amount_limit = input.amount_limit;
  currency = elim input.currency [ none ↦ "NGN" | some c ↦ c ];
  is_active = true;
  committed_amount = 0;
  reimbursed_amount = 0;
  deleted_at = none;
}

-- The rows that an `UPDATE ... WHERE department_id AND year AND deleted_at IS NULL` selects.
abbrev pub is_kept_row : ℕ → ℕ → DepartmentBudget → Bool
is_kept_row department year b =
    b.department_id == department && b.year == year && is_none b.deleted_at

unfoldable pub set_committed : ℕ → ℕ → ℕ → DepartmentBudget → DepartmentBudget
set_committed department year amount b =
    if is_kept_row department year b then record b { committed_amount = amount } else b

unfoldable pub set_reimbursed : ℕ → ℕ → ℕ → DepartmentBudget → DepartmentBudget
set_reimbursed department year amount b =
    if is_kept_row department year b then record b { reimbursed_amount = amount } else b

-- `assertPositiveLimit`
abbrev assert_positive_limit : ℕ → Result (Unit {0})
assert_positive_limit amount =
    throw_if (not (ltb 0 amount))
      (bad_request "Budget limit must be a positive whole number in minor units")

abbrev assert_limit : Option ℕ → Result (Unit {0})
assert_limit none = ok tt
assert_limit (some n) = assert_positive_limit n

abbrev or_else {ℓ} : {A : Type ℓ} → A → Option A → A
or_else a none = a
or_else a (some b) = b

module _ (rt : Runtime) where
  -- `assertCreatableBudgetYear`
  unfoldable pub assert_creatable_budget_year : ℕ → Result (Unit {0})
  assert_creatable_budget_year year =
      throw_if (ltb year (resolve_budget_year rt.zone rt.now))
        (bad_request "Budget year cannot be in the past")

  -- `findOne`
  pub find_one : String → Db → Result DepartmentBudget
  find_one reference db = do
    resolved ←
        find_entity_by_reference rt.to_upper (λ b. b.reference) db.budgets reference
          "Budget not found"
    elim (find? (λ b. b.id == resolved.id && is_none b.deleted_at) db.budgets) [
      | none ↦ err (not_found "Budget not found")
      | some b ↦ ok b
    ]

  -- `BudgetService.create`, less the read that follows; the reference is the one that the insertion
  -- generates.
  unfoldable pub create : CreateDepartmentBudgetInput → String → Db → Result (DepartmentBudget × Db)
  unfolding assert_creatable_budget_year
  create input reference db = do
    assert_valid_year rt input.year
    assert_creatable_budget_year input.year
    assert_positive_limit input.amount_limit
    department ←
        find_entity_by_reference rt.to_upper (λ d. d.reference) db.departments
          input.department_reference "Department not found"
    throw_if (not department.is_active) (not_found "Department not found")
    throw_if
        (any (λ b. b.department_id == department.id && b.year == input.year && is_none b.deleted_at)
          db.budgets)
        (conflict "A budget already exists for this department and year")
    let budget = new_budget (next_id (map (λ b. b.id) db.budgets)) reference department.id input
    ok (budget, record db { budgets = db.budgets ++ budget ∷ [] })

  -- `BudgetService.update`, less the read that follows.
  pub update : String → UpdateDepartmentBudgetInput → Db → Result (DepartmentBudget × Db)
  update reference input db = do
    budget ← find_one reference db
    assert_limit input.amount_limit
    let saved : DepartmentBudget = record budget {
      amount_limit = or_else budget.amount_limit input.amount_limit;
      is_active = or_else budget.is_active input.is_active;
    }
    ok (saved, record db { budgets = replace_budget saved db.budgets })

  -- `recalculateCommittedAmountForDepartmentYear`, with `recalculateDepartmentBudgetCommitted`
  unfoldable pub recalculate_committed_amount_for_department_year : ℕ → ℕ → Db → Result Db
  unfolding set_committed
  recalculate_committed_amount_for_department_year department year db = do
    assert_valid_year rt year
    let range = budget_year_range_in_time_zone rt.zone year
    let amount =
        sum_committed_spend_for_department_year department range db
        + sum_reimbursed_spend_for_department_year department range db
    ok (record db { budgets = map (set_committed department year amount) db.budgets })

  -- `recalculateReimbursedAmountForDepartmentYear`, with `recalculateDepartmentBudgetReimbursed`
  unfoldable pub recalculate_reimbursed_amount_for_department_year : ℕ → ℕ → Db → Result Db
  unfolding set_reimbursed
  recalculate_reimbursed_amount_for_department_year department year db = do
    assert_valid_year rt year
    let range = budget_year_range_in_time_zone rt.zone year
    let amount = sum_reimbursed_spend_for_department_year department range db
    ok (record db { budgets = map (set_reimbursed department year amount) db.budgets })

  -- The workers of `reconcileAllCommittedAmounts`, on the budgets that it found.
  unfoldable pub reconcile_budgets : List DepartmentBudget → Db → Result Db
  reconcile_budgets [] db = ok db
  reconcile_budgets (b ∷ bs) db = do
    committed ← recalculate_committed_amount_for_department_year b.department_id b.year db
    reimbursed ← recalculate_reimbursed_amount_for_department_year b.department_id b.year committed
    reconcile_budgets bs reimbursed

  -- `reconcileAllCommittedAmounts`
  unfoldable pub reconcile_all_committed_amounts : Db → Result Db
  reconcile_all_committed_amounts db =
      reconcile_budgets (filter (λ b. b.is_active && is_none b.deleted_at) db.budgets) db

  -- The years of the query of `syncCommittedAmountForUserDepartmentChange`, each once.
  submitted_years : ℕ → List Expense → List ℕ
  submitted_years user_id [] = []
  submitted_years user_id (e ∷ es) =
      let rest = submitted_years user_id es in
      if e.user_id == user_id && is_none e.department_id && counts_toward_committed_budget e.status
      then elim e.submitted_at [
        | none ↦ rest
        | some t ↦
            let year = resolve_budget_year rt.zone t in year ∷ filter (λ y. not (y == year)) rest
      ]
      else rest

  recalculate_years : ℕ → List ℕ → Db → Result Db
  recalculate_years department [] db = ok db
  recalculate_years department (y ∷ ys) db = do
    next ← recalculate_committed_amount_for_department_year department y db
    recalculate_years department ys next

  recalculate_department : Option ℕ → List ℕ → Db → Result Db
  unfolding recalculate_years
  recalculate_department none years db = ok db
  recalculate_department (some d) years db = recalculate_years d years db

  -- `syncCommittedAmountForUserDepartmentChange`
  unfoldable pub sync_committed_amount_for_user_department_change :
      ℕ → Option ℕ → Option ℕ → Db → Result Db
  unfolding submitted_years recalculate_department
  sync_committed_amount_for_user_department_change user_id previous next db =
      if eq_option previous next then ok db else do
        let years = submitted_years user_id db.expenses
        left ← recalculate_department previous years db
        recalculate_department next years left
