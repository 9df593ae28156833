-- ===== src/Entities.antt =====
-- database/entities: the rows that the services read and write. Amounts are in minor units (kobo)
-- and are natural numbers; identifiers and years are natural numbers; a `Date` is the number of its
-- milliseconds. A nullable column is an `Option`.
mod Enums
pub use Enums.*
use expentra.Prelude.{ℕ, String, Option, Bool, List}
use expentra.Authorization.Types.{PermissionAction, PermissionResource, PermissionScope}

-- database/entities/department.entity.ts, the columns that the services read.
pub record Department : Type 0 where
  pub id : ℕ
  pub reference : String
  pub manager_id : Option ℕ
  pub is_active : Bool

-- database/entities/permission.entity.ts and role.entity.ts, the columns that the services read.
pub record Permission : Type 0 where
  pub name : String
  pub action : PermissionAction
  pub resource : PermissionResource
  pub scope : PermissionScope
  pub is_active : Bool

pub record Role : Type 0 where
  pub id : ℕ
  pub reference : String
  pub name : String
  pub permissions : List Permission

-- database/entities/user.entity.ts, the columns that the services read, with the role joined.
pub record User : Type 0 where
  pub id : ℕ
  pub reference : String
  pub department_id : Option ℕ
  pub is_active : Bool
  pub is_email_verified : Bool
  pub deactivated_at : Option ℕ
  pub role : Option Role

-- database/entities/expense.entity.ts: the columns.
pub record Expense : Type 0 where
  pub id : ℕ
  pub reference : String
  pub user_id : ℕ
  pub department_id : Option ℕ
  pub title : String
  pub description : Option String
  pub amount : ℕ
  pub currency : String
  pub category : ExpenseCategory
  pub status : ExpenseStatus
  pub submitted_at : Option ℕ
  pub approved_at : Option ℕ
  pub rejected_at : Option ℕ
  pub reimbursed_at : Option ℕ
  pub incurred_at : Option ℕ
  pub reimbursement_reference : Option String

-- An expense with the relations `user` and `department` joined; `none` where the join found no row
-- or the query did not ask for it.
pub record LoadedExpense : Type 0 where
  pub row : Expense
  pub user : Option User
  pub department : Option Department

-- database/entities/approval-level.entity.ts; `role?.id` is `role_id`.
pub record ApprovalLevel : Type 0 where
  pub id : ℕ
  pub reference : String
  pub role_id : Option ℕ
  pub approver_type : ApprovalApproverType
  pub name : String
  pub level : ℕ
  pub minimum_amount : ℕ
  pub maximum_amount : Option ℕ
  pub is_active : Bool
  pub description : Option String

-- The `metadata` that `ApprovalService.approve` stores with an over-budget approval.
pub record OverBudgetNote : Type 0 where
  pub over_budget_acknowledged : Bool
  pub committed_amount : ℕ

-- database/entities/expense-approval.entity.ts
pub record ExpenseApproval : Type 0 where
  pub id : ℕ
  pub expense_id : ℕ
  pub approval_level_id : ℕ
  pub approver_id : ℕ
  pub decision : ApprovalDecision
  pub comment : Option String
  pub decided_at : ℕ
  pub metadata : Option OverBudgetNote

-- database/entities/department-budget.entity.ts; the generated columns are functions of these.
pub record DepartmentBudget : Type 0 where
  pub id : ℕ
  pub reference : String
  pub department_id : ℕ
  pub year : ℕ
  pub amount_limit : ℕ
  pub currency : String
  pub is_active : Bool
  pub committed_amount : ℕ
  pub reimbursed_amount : ℕ
  pub deleted_at : Option ℕ

-- database/entities/expense-comment.entity.ts
pub record ExpenseComment : Type 0 where
  pub id : ℕ
  pub expense_id : ℕ
  pub user_id : ℕ
  pub body : String
  pub created_at : ℕ

-- database/entities/approval-delegation.entity.ts
pub record ApprovalDelegation : Type 0 where
  pub id : ℕ
  pub reference : String
  pub delegator_id : ℕ
  pub delegate_id : ℕ
  pub starts_at : ℕ
  pub ends_at : ℕ
  pub is_active : Bool
