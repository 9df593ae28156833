-- ===== src/Samples.antt =====
-- An organisation with one department, one expense and a chain of two levels, for the tests.
pub mod Calls
pub mod Zones
pub mod Strings
use expentra.Prelude.{ℕ, Bool, true, false, String, Option, none, some, List, [], ◌∷◌}
use expentra.Prelude.Result.{Result, ok}
use expentra.Entities.{
  ExpenseStatus, ExpenseCategory, ApprovalApproverType, ApprovalDecision, Department, User, Expense,
  LoadedExpense, ApprovalLevel, ExpenseApproval, DepartmentBudget, Role,
}
use expentra.Store.{Db}
use expentra.Runtime.{Runtime}
use expentra.Authorization.Types.{
  PermissionAction, PermissionResource, PermissionScope, AuthUserPermission, AuthUser,
}
use expentra.Budget.Period.{CalendarDate, WallClock, Zone}
use expentra.Expense.Support.{PolicyEvaluationContext}

abbrev new_year : CalendarDate
new_year = record { year = 2026; month = 1; day = 1 }

abbrev pub zone : Zone
zone = record {
  formatted = λ _. some new_year;
  utc = λ _. new_year;
  wall_clock = λ _. record { year = 2026; month = 1; day = 1; hour = 0; minute = 0; second = 0 };
  date_utc = λ y m d h. h;
}

abbrev pub runtime : Runtime
runtime = record {
  now = 1000;
  zone = zone;
  to_upper = λ s. s;
  block_submit_on_overspend = true;
  near_limit_threshold_percent = 80;
  to_iso_string = λ _. "2026-01-01T00:00:01.000Z";
}

abbrev pub no_policies : PolicyEvaluationContext → Db → Result (Unit {0})
no_policies context db = ok tt

abbrev pub grant : PermissionAction → PermissionResource → PermissionScope → AuthUserPermission
grant a r s = record { action = a; resource = r; scope = s }

abbrev pub caller : ℕ → List ℕ → List AuthUserPermission → AuthUser
caller id managed permissions = record {
  id = id;
  role = "employee";
  role_id = 1;
  is_active = true;
  deactivated_at = none;
  is_email_verified = true;
  department_id = some 10;
  managed_department_ids = managed;
  permissions = permissions;
}

abbrev pub owner : AuthUser
owner = caller 1 [] (
    grant PermissionAction.read PermissionResource.expense PermissionScope.self
    ∷ grant PermissionAction.submit PermissionResource.expense PermissionScope.self
    ∷ [])

abbrev pub manager : AuthUser
manager = caller 2 (10 ∷ []) []

abbrev pub finance : AuthUser
finance = caller 3 [] (
    grant PermissionAction.approve PermissionResource.approval PermissionScope.global
    ∷ grant PermissionAction.reimburse PermissionResource.expense PermissionScope.global
    ∷ [])

abbrev pub taxi_reference : String
taxi_reference = "EXP1749078456123A7B9C2"

abbrev pub taxi : Expense
taxi = record {
  id = 7;
  reference = taxi_reference;
  user_id = 1;
  department_id = some 10;
  title = "Taxi";
  description = none;
  amount = 500;
  currency = "NGN";
  category = ExpenseCategory.travel;
  status = ExpenseStatus.draft;
  submitted_at = none;
  approved_at = none;
  rejected_at = none;
  reimbursed_at = none;
  incurred_at = some 900;
  reimbursement_reference = none;
}

abbrev pub sales : Department
sales = record {
  id = 10;
  reference = "DPT1749078456123A7B9C2";
  manager_id = some 2;
  is_active = true;
}

abbrev pub manager_level : ApprovalLevel
manager_level = record {
  id = 21;
  reference = "APL1749078456123A7B9C2";
  role_id = none;
  approver_type = ApprovalApproverType.department_manager;
  name = "Manager";
  level = 1;
  minimum_amount = 0;
  maximum_amount = none;
  is_active = true;
  description = none;
}

abbrev pub finance_level : ApprovalLevel
finance_level = record {
  id = 22;
  reference = "APL1749078456123A7B9C3";
  role_id = some 5;
  approver_type = ApprovalApproverType.finance_manager;
  name = "Finance";
  level = 2;
  minimum_amount = 100;
  maximum_amount = none;
  is_active = true;
  description = none;
}

abbrev pub levels : List ApprovalLevel
levels = finance_level ∷ manager_level ∷ []

abbrev pub sales_budget : DepartmentBudget
sales_budget = record {
  id = 31;
  reference = "BGT1749078456123A7B9C2";
  department_id = 10;
  year = 2026;
  amount_limit = 600;
  currency = "NGN";
  is_active = true;
  committed_amount = 0;
  reimbursed_amount = 0;
  deleted_at = none;
}

abbrev pub employee : User
employee = record {
  id = 1;
  reference = "USR1749078456123A7B9C2";
  department_id = some 10;
  is_active = true;
  is_email_verified = true;
  deactivated_at = none;
  role = none;
}

abbrev pub finance_role : Role
finance_role = record {
  id = 5;
  reference = "ROL1749078456123A7B9C2";
  name = "finance";
  permissions = [];
}

abbrev pub office : Db
office = record {
  expenses = taxi ∷ [];
  attachments = [];
  approvals = [];
  comments = [];
  levels = levels;
  delegations = [];
  budgets = sales_budget ∷ [];
  departments = sales ∷ [];
  users = employee ∷ [];
  roles = finance_role ∷ [];
  events = [];
}

-- The expense as a load joins it, with a status.
abbrev pub loaded : ExpenseStatus → LoadedExpense
loaded s = record {
  row = record taxi { status = s; submitted_at = some 1000 };
  user = some employee;
  department = some sales;
}

-- A decision on the expense at a level.
abbrev pub decision : ApprovalDecision → ApprovalLevel → ExpenseApproval
decision d l = record {
  id = l.id;
  expense_id = 7;
  approval_level_id = l.id;
  approver_id = 3;
  decision = d;
  comment = none;
  decided_at = 1000;
  metadata = none;
}
