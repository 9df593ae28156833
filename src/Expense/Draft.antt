-- ===== src/Expense/Draft.antt =====
-- modules/expense/services/expense-draft.service.ts
pub mod Outcome
pub mod Reopened
pub mod Lifetime
use expentra.Prelude.{
  ℕ, Bool, true, false, Option, none, some, List, [], ◌∷◌, ◌++◌, map, filter, ◌&&◌, ◌||◌, not, ◌==◌,
  if◌then◌else◌, is_some, is_none, is_empty, trim, trimmed, truthy_id, non_empty, String,
}
use expentra.Prelude.Result.{
  Exception, Result, ok, err, bad_request, forbidden, not_found, throw_if, ◌>>=◌, ◌>>◌,
}
use expentra.Entities.{ExpenseStatus, same_status, ExpenseCategory, Expense, LoadedExpense}
use expentra.Store.{Db, Event, transaction, find_user, save_expense, publish, next_id}
use expentra.Runtime.{Runtime}
use expentra.Authorization.Types.{ExpenseDraftMutation, AuthUser}
use expentra.Authorization.Policy.{assert_can_mutate_expense_draft}
use expentra.Approval.Decision.{save_and_sync}
use expentra.Expense.Support.{
  assert_non_empty_title, assert_positive_amount, assert_draft_status, assert_incurred_at,
  load_expense_for_mutation, find_one,
}

-- `CreateExpenseInput`; a date is what `new Date` makes of the text.
pub record CreateExpenseInput : Type 0 where
  pub title : String
  pub description : Option String
  pub amount : ℕ
  pub category : ExpenseCategory
  pub incurred_at : Option ℕ

-- `UpdateExpenseInput`: `none` where the field is undefined; a date that is null or empty clears.
pub record UpdateExpenseInput : Type 0 where
  pub title : Option String
  pub description : Option String
  pub amount : Option ℕ
  pub category : Option ExpenseCategory
  pub incurred_at : Option (Option ℕ)

-- `hasUpdateFields`
pub has_update_fields : UpdateExpenseInput → Bool
has_update_fields i =
    is_some i.title
    || is_some i.description
    || is_some i.amount
    || is_some i.category
    || is_some i.incurred_at

-- The steps of `update` on the entity, one field each. A description or a date that is cleared is set
-- to undefined, and so not written.
set_title : Option String → Expense → Result Expense
set_title none e = ok e
set_title (some t) e = assert_non_empty_title (trim t) >> ok (record e { title = trim t })

set_description : Option String → Expense → Expense
set_description none e = e
set_description (some t) e = record e { description = non_empty (trim t) }

set_amount : Option ℕ → Expense → Result Expense
set_amount none e = ok e
set_amount (some n) e = assert_positive_amount n >> ok (record e { amount = n })

set_category : Option ExpenseCategory → Expense → Expense
set_category none e = e
set_category (some c) e = record e { category = c }

-- The new row of `expenses`.
pub draft_row : ℕ → String → ℕ → ℕ → CreateExpenseInput → Expense
draft_row id reference user_id department i = record {
  id = id;
  reference = reference;
  user_id = user_id;
  department_id = some department;
  title = trim i.title;
  description = trimmed i.description;
  amount = i.amount;
  currency = "NGN";
  category = i.category;
  status = ExpenseStatus.draft;
  submitted_at = none;
  approved_at = none;
  rejected_at = none;
  reimbursed_at = none;
  incurred_at = i.incurred_at;
  reimbursement_reference = none;
}

-- The entity that `reopenRejected` saves; the times are set to undefined, and so not written.
unfoldable pub reopened_expense : Expense → Expense
reopened_expense e = record e {
  status = ExpenseStatus.draft;
  submitted_at = none;
  rejected_at = none;
  approved_at = none;
  reimbursed_at = none;
}

module _ (rt : Runtime) where
  set_incurred_at : Option (Option ℕ) → Expense → Result Expense
  set_incurred_at none e = ok e
  set_incurred_at (some t) e = assert_incurred_at rt t >> ok (record e { incurred_at = t })

  -- The fields of `update`, in order.
  pub apply_update : UpdateExpenseInput → Expense → Result Expense
  unfolding set_description set_category
  apply_update i e = do
    titled ← set_title i.title e
    amounted ← set_amount i.amount (set_description i.description titled)
    set_incurred_at i.incurred_at (set_category i.category amounted)

  -- `create` for a user with a department; the insertion generates the reference.
  pub create_in_department : ℕ → ℕ → CreateExpenseInput → String → Db → Result (Expense × Db)
  create_in_department user_id department i reference db = do
    assert_non_empty_title (trim i.title)
    assert_positive_amount i.amount
    assert_incurred_at rt i.incurred_at
    let key = next_id (map (λ e. e.id) db.expenses)
    let row = draft_row key reference user_id department i
    ok (row, record db { expenses = db.expenses ++ row ∷ [] })

  -- `ExpenseDraftService.create`
  pub create : ℕ → CreateExpenseInput → String → Db → Result (Expense × Db)
  create user_id i reference db = elim (find_user db user_id) [
    | none ↦ err (not_found "User not found")
    | some user ↦ elim (truthy_id user.department_id) [
      | none ↦ err (bad_request "You must be assigned to a department before creating expenses")
      | some department ↦ create_in_department user_id department i reference db
    ]
  ]

  -- The body of the transaction of `update`.
  pub update_in_transaction : AuthUser → String → UpdateExpenseInput → Db → Result (Expense × Db)
  update_in_transaction u reference i db = do
    e ← load_expense_for_mutation rt reference db
    assert_can_mutate_expense_draft u e ExpenseDraftMutation.modify false
    assert_draft_status e ExpenseDraftMutation.modify
    after ← apply_update i e
    ok (after, save_and_sync rt e after db)

  -- `ExpenseDraftService.update`
  pub update : AuthUser → String → UpdateExpenseInput → Db → Result Expense × Db
  update u reference i db =
      if not (has_update_fields i)
      then (err (bad_request "At least one field must be provided to update an expense"), db)
      else elim (find_one rt u reference db) [
        | err x ↦ (err x, db)
        | ok _ ↦ transaction (update_in_transaction u reference i) db
      ]

  -- The body of the transaction of `remove`; the key of an approval or a comment cascades.
  pub remove_in_transaction : AuthUser → String → Db → Result (Unit {0} × Db)
  remove_in_transaction u reference db = do
    e ← load_expense_for_mutation rt reference db
    assert_can_mutate_expense_draft u e ExpenseDraftMutation.delete false
    assert_draft_status e ExpenseDraftMutation.delete
    ok (
      tt,
      record db {
        expenses = filter (λ x. not (x.id == e.id)) db.expenses;
        approvals = filter (λ a. not (a.expense_id == e.id)) db.approvals;
        comments = filter (λ c. not (c.expense_id == e.id)) db.comments;
        attachments = filter (λ a. not (a == e.id)) db.attachments;
      },
    )

  -- `ExpenseDraftService.remove`
  pub remove : AuthUser → String → Db → Result (Unit {0}) × Db
  remove u reference db = elim (find_one rt u reference db) [
    | err x ↦ (err x, db)
    | ok _ ↦ transaction (remove_in_transaction u reference) db
  ]

  -- The body of the transaction of `reopenRejected`.
  unfoldable pub reopen_in_transaction : AuthUser → String → Db → Result (Expense × Db)
  reopen_in_transaction u reference db = do
    locked ← load_expense_for_mutation rt reference db
    throw_if (not (same_status locked.status ExpenseStatus.rejected))
        (bad_request "Only rejected expenses can be reopened")
    let cleared = record db {
      approvals = filter (λ a. not (a.expense_id == locked.id)) db.approvals;
    }
    let after = reopened_expense locked
    ok (after, publish (Event.expense_reopened after.id u.id) (save_expense after cleared))

  -- `ExpenseDraftService.reopenRejected`
  unfoldable pub reopen_rejected : AuthUser → String → Db → Result Expense × Db
  reopen_rejected u reference db = elim (find_one rt u reference db) [
    | err x ↦ (err x, db)
    | ok e ↦
        if not (e.row.user_id == u.id)
        then (err (forbidden "You can only reopen your own expenses"), db)
        else if not (same_status e.row.status ExpenseStatus.rejected)
        then (err (bad_request "Only rejected expenses can be reopened"), db)
        else transaction (reopen_in_transaction u reference) db
  ]
