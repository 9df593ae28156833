-- ===== src/Authorization/Access.antt =====
-- modules/authorization/policies/approval-access.policy.ts and expense-access.policy.ts.
pub mod Deciding
pub mod Reading
use expentra.Prelude.{
  ℕ, Bool, true, false, Option, none, some, ◌&&◌, ◌||◌, not, ◌==◌, if◌then◌else◌, includes, length,
  ltb, truthy_id,
}
use expentra.Entities.{
  ExpenseStatus, same_status, Expense, User, LoadedExpense, ApprovalLevel, ApprovalApproverType,
}
use expentra.Authorization.Types.{
  PermissionAction, PermissionResource, PermissionScope, ExpenseDraftMutation,
  ExpenseListVisibility, AuthUser,
}
use expentra.Authorization.Grants.{has_permission, can_manage_all, can_access_scoped_subject}

abbrev on_expense : AuthUser → PermissionAction → PermissionScope → Bool
on_expense u action scope = has_permission u action PermissionResource.expense (some scope)

-- `ApprovalAccessPolicy.hasGlobalApprovalPermission`
unfoldable pub has_global_approval_permission : AuthUser → Bool
has_global_approval_permission u =
    has_permission u PermissionAction.approve PermissionResource.approval
      (some PermissionScope.global)
    || has_permission u PermissionAction.reject PermissionResource.approval
        (some PermissionScope.global)

-- `ApprovalAccessPolicy.isManagerApprover`
unfoldable pub is_manager_approver : AuthUser → Bool
is_manager_approver u = ltb 0 (length u.managed_department_ids)

-- `ApprovalAccessPolicy.canDecideOnApproval`
pub can_decide_on_approval : AuthUser → Bool
can_decide_on_approval u = has_global_approval_permission u || is_manager_approver u

-- `expense.departmentId ?? expense.user?.departmentId ?? null`
unfoldable pub resolve_expense_department_id : LoadedExpense → Option ℕ
resolve_expense_department_id e = elim e.row.department_id [
  | some d ↦ some d
  | none ↦ elim e.user [ none ↦ none | some owner ↦ owner.department_id ]
]

-- `if (!expenseDepartmentId) return false; return managedDepartmentIds.includes(…)`
unfoldable pub manages : AuthUser → Option ℕ → Bool
manages u department = elim (truthy_id department) [
  | none ↦ false
  | some d ↦ includes u.managed_department_ids d
]

-- `ApprovalAccessPolicy.isDepartmentManagerForExpense`
unfoldable pub is_department_manager_for_expense : AuthUser → LoadedExpense → Bool
is_department_manager_for_expense u e = manages u (resolve_expense_department_id e)

-- `ApprovalAccessPolicy.canDecideOnExpense`
unfoldable pub can_decide_on_expense : AuthUser → LoadedExpense → Bool
can_decide_on_expense u e =
    if has_global_approval_permission u
    then true
    else if not (is_manager_approver u)
    then false
    else manages u (resolve_expense_department_id e)

-- The `switch` of `canActOnApprovalStage`; its default is for no value of the enum.
unfoldable pub stage_grants : ApprovalApproverType → AuthUser → LoadedExpense → Bool
stage_grants ApprovalApproverType.department_manager u e = is_department_manager_for_expense u e
stage_grants ApprovalApproverType.finance_manager u e = has_global_approval_permission u

-- `ApprovalAccessPolicy.canActOnApprovalStage`
unfoldable pub can_act_on_approval_stage : AuthUser → LoadedExpense → ApprovalLevel → Bool
can_act_on_approval_stage u e stage =
    if not (can_decide_on_expense u e) then false else stage_grants stage.approver_type u e

-- `ExpenseAccessPolicy.expenseListVisibility`
pub expense_list_visibility : AuthUser → ExpenseListVisibility
expense_list_visibility u =
    if on_expense u PermissionAction.read PermissionScope.global
    then ExpenseListVisibility.all
    else if can_decide_on_approval u
    then ExpenseListVisibility.own_and_submitted
    else if on_expense u PermissionAction.read PermissionScope.self
    then ExpenseListVisibility.own
    else ExpenseListVisibility.own

-- `ExpenseAccessPolicy.canReadExpense`
unfoldable pub can_read_expense : AuthUser → LoadedExpense → Bool
can_read_expense u e =
    if same_status e.row.status ExpenseStatus.draft
    then (if not (e.row.user_id == u.id)
        then false
        else on_expense u PermissionAction.read PermissionScope.self
          || on_expense u PermissionAction.read PermissionScope.global
          || can_manage_all u)
    else if on_expense u PermissionAction.read PermissionScope.global
    then true
    else if e.row.user_id == u.id
    then on_expense u PermissionAction.read PermissionScope.self
    else if (same_status e.row.status ExpenseStatus.submitted
          || same_status e.row.status ExpenseStatus.under_review)
        && can_decide_on_expense u e
    then true
    else if same_status e.row.status ExpenseStatus.under_review
        && on_expense u PermissionAction.reimburse PermissionScope.global
    then true
    else false

mutation_action : ExpenseDraftMutation → PermissionAction
mutation_action ExpenseDraftMutation.delete = PermissionAction.delete
mutation_action ExpenseDraftMutation.submit = PermissionAction.submit
mutation_action ExpenseDraftMutation.modify = PermissionAction.update

-- `ExpenseAccessPolicy.canMutateExpenseDraft`; the last argument is `options?.ownerOnly`.
unfoldable pub can_mutate_expense_draft : AuthUser → Expense → ExpenseDraftMutation → Bool → Bool
unfolding mutation_action
can_mutate_expense_draft u e action owner_only =
    if owner_only
    then e.user_id == u.id
    else can_access_scoped_subject u e.user_id (on_expense u (mutation_action action))
        (can_manage_all u)

-- `ExpenseAccessPolicy.canOnExpense`
pub can_on_expense : AuthUser → PermissionAction → LoadedExpense → Bool
can_on_expense u PermissionAction.read e = can_read_expense u e
can_on_expense u PermissionAction.update e =
    can_mutate_expense_draft u e.row ExpenseDraftMutation.modify false
can_on_expense u PermissionAction.delete e =
    can_mutate_expense_draft u e.row ExpenseDraftMutation.delete false
can_on_expense u PermissionAction.submit e =
    can_mutate_expense_draft u e.row ExpenseDraftMutation.submit true
can_on_expense u PermissionAction.approve e = can_decide_on_expense u e
can_on_expense u PermissionAction.reject e = can_decide_on_expense u e
can_on_expense u PermissionAction.reimburse e =
    has_permission u PermissionAction.reimburse PermissionResource.expense none
can_on_expense u action e = has_permission u action PermissionResource.expense none

-- `ExpenseAccessPolicy.canManageReceiptOnExpense`
pub can_manage_receipt_on_expense : AuthUser → Expense → Bool
can_manage_receipt_on_expense u e = if e.user_id == u.id then true else can_manage_all u
