-- ===== src/Store.antt =====
-- The tables behind the repositories, and a transaction over them. `repository.save` of an
-- entity that exists writes its defined properties to the row of that id; `findOne` by an id or a
-- reference finds the first such row.
pub mod Distinct
pub mod Keys
pub mod Rows
use expentra.Prelude.{
  ℕ, suc, ◌+◌, max, Bool, true, String, Option, none, some, List, [], ◌∷◌, ◌++◌, map, ◌≡◌, ◌==◌,
  find?, filter, if◌then◌else◌, same_text, leb, ◌&&◌,
}
use expentra.Prelude.Result.{Exception, Result, ok, err, not_found}
use expentra.Entities.{
  Expense, LoadedExpense, ExpenseApproval, ExpenseComment, ApprovalLevel, ApprovalDelegation,
  DepartmentBudget, Department, User, Role,
}

-- What a service publishes to the outbox. An idempotency key is the name of the event with the
-- identifier and the time that the source joins with colons.
pub data Event : Type 0 where
  expense_submitted expense_approved expense_pending_finance expense_rejected expense_reimbursed :
      (expense user actor at : ℕ) → Event
  expense_budget_committed : (expense actor department at : ℕ) → Event
  expense_comment_added : (expense actor comment : ℕ) → Event
  expense_reopened : (expense user : ℕ) → Event
  delegation_created : (actor delegation delegate : ℕ) → Event
  delegation_revoked : (actor delegation : ℕ) → Event

pub record Db : Type 0 where
  pub expenses : List Expense
  pub attachments : List ℕ  -- the expense of each attachment
  pub approvals : List ExpenseApproval
  pub comments : List ExpenseComment
  pub levels : List ApprovalLevel
  pub delegations : List ApprovalDelegation
  pub budgets : List DepartmentBudget
  pub departments : List Department
  pub users : List User
  pub roles : List Role
  pub events : List Event

-- `manager.transaction(body)`: the writes are kept if the body returns and dropped if it throws.
unfoldable pub transaction {ℓ} : {A : Type ℓ} → (Db → Result (A × Db)) → Db → Result A × Db
transaction body db = elim (body db) [ ok (a, db') ↦ (ok a, db') | err e ↦ (err e, db) ]

unfoldable pub find_expense : Db → ℕ → Option Expense
find_expense db id = find? (λ e. e.id == id) db.expenses

unfoldable pub find_user : Db → ℕ → Option User
find_user db id = find? (λ u. u.id == id) db.users

unfoldable pub find_department : Db → ℕ → Option Department
find_department db id = find? (λ d. d.id == id) db.departments

-- A column that `repository.save` writes: a property that is undefined is skipped. The services set
-- no property of an expense to null, so an absent one was null when it was loaded, or is undefined.
abbrev pub saved_column {ℓ} : {A : Type ℓ} → Option A → Option A → Option A
saved_column column none = column
saved_column column (some value) = some value

-- The row that is stored where the entity `e` is saved over `row`.
unfoldable pub saved_row : Expense → Expense → Expense
saved_row row e = record e {
  department_id = saved_column row.department_id e.department_id;
  description = saved_column row.description e.description;
  submitted_at = saved_column row.submitted_at e.submitted_at;
  approved_at = saved_column row.approved_at e.approved_at;
  rejected_at = saved_column row.rejected_at e.rejected_at;
  reimbursed_at = saved_column row.reimbursed_at e.reimbursed_at;
  incurred_at = saved_column row.incurred_at e.incurred_at;
  reimbursement_reference = saved_column row.reimbursement_reference e.reimbursement_reference;
}

-- The entity `e` saved over the rows with its key.
unfoldable pub replace_expense : Expense → List Expense → List Expense
replace_expense e [] = []
replace_expense e (x ∷ xs) = (if x.id == e.id then saved_row x e else x) ∷ replace_expense e xs

unfoldable pub save_expense : Expense → Db → Db
save_expense e db = record db { expenses = replace_expense e db.expenses }

unfoldable pub publish : Event → Db → Db
publish v db = record db { events = db.events ++ v ∷ [] }

-- The next value of a serial column.
unfoldable pub next_id : List ℕ → ℕ
next_id [] = 1
next_id (n ∷ ns) = max (suc n) (next_id ns)
