-- ===== src/Authorization/Policy.antt =====
-- modules/authorization/services/access-policy.service.ts: the checks that throw, and
-- policies/role-assignment.policy.ts and separation-of-duties.rules.ts.
pub mod Duties
use expentra.Prelude.{
  Bool, true, false, List, [], ◌∷◌, String, Option, none, some, ◌&&◌, ◌||◌, not, ◌==◌,
  if◌then◌else◌, any, same_text, ◌<>◌,
}
use expentra.Prelude.Result.{Exception, Result, throw_if, ok, err, forbidden, ◌>>◌, ◌>>=◌}
use expentra.Entities.{Expense, LoadedExpense}
use expentra.Authorization.Types.{
  PermissionAction, PermissionResource, PermissionScope, ExpenseDraftMutation, AuthUser,
  is_super_admin_user,
}
use expentra.Authorization.Grants.{has_permission, can_manage_all}
use expentra.Authorization.Access.{
  can_mutate_expense_draft, can_manage_receipt_on_expense, can_decide_on_approval,
  can_decide_on_expense, can_read_expense,
}

abbrev mutation_verb : ExpenseDraftMutation → String
mutation_verb ExpenseDraftMutation.delete = "delete"
mutation_verb ExpenseDraftMutation.submit = "submit"
mutation_verb ExpenseDraftMutation.modify = "modify"

abbrev reads_expenses : AuthUser → PermissionScope → Bool
reads_expenses u scope =
    has_permission u PermissionAction.read PermissionResource.expense (some scope)

unfoldable pub assert_can_mutate_expense_draft :
    AuthUser → Expense → ExpenseDraftMutation → Bool → Result (Unit {0})
assert_can_mutate_expense_draft u e action owner_only =
    if can_mutate_expense_draft u e action owner_only
    then ok tt
    else if owner_only
    then err (forbidden "You can only submit your own expenses")
    else err (forbidden ("You can only " <> mutation_verb action <> " your own expenses"))

pub assert_can_manage_receipt_on_expense : AuthUser → Expense → Result (Unit {0})
assert_can_manage_receipt_on_expense u e =
    throw_if (not (can_manage_receipt_on_expense u e))
      (forbidden "You can only manage receipts on your own draft expenses")

unfoldable pub assert_can_reimburse_expense : AuthUser → Result (Unit {0})
assert_can_reimburse_expense u =
    throw_if (not (has_permission u PermissionAction.reimburse PermissionResource.expense none))
      (forbidden "You do not have permission to mark expenses as reimbursed")

pub assert_can_list_personal_expenses : AuthUser → Result (Unit {0})
assert_can_list_personal_expenses u =
    if reads_expenses u PermissionScope.self
      || reads_expenses u PermissionScope.global
      || can_manage_all u
    then ok tt
    else err (forbidden "You do not have permission to list your expenses")

pub assert_can_list_all_expenses : AuthUser → Result (Unit {0})
assert_can_list_all_expenses u =
    if reads_expenses u PermissionScope.global || can_manage_all u
    then ok tt
    else err (forbidden "You do not have permission to list all expenses")

pub assert_can_list_for_approval_expenses : AuthUser → Result (Unit {0})
assert_can_list_for_approval_expenses u =
    if can_decide_on_approval u
    then ok tt
    else err (forbidden "You do not have permission to list expenses pending approval")

unfoldable pub assert_can_read_expense : AuthUser → LoadedExpense → Result (Unit {0})
assert_can_read_expense u e =
    throw_if (not (can_read_expense u e)) (forbidden "You do not have access to this expense")

unfoldable pub assert_can_decide_on_expense : AuthUser → LoadedExpense → Result (Unit {0})
assert_can_decide_on_expense u e = do
  throw_if (e.row.user_id == u.id) (forbidden "You cannot approve or reject your own expense")
  throw_if (not (can_decide_on_expense u e))
      (forbidden "You do not have permission to approve or reject this expense")

-- `assertCanAssignRole`, the role given by its name.
pub assert_can_assign_role : AuthUser → String → Result (Unit {0})
assert_can_assign_role actor role_name =
    if not (same_text role_name "super_admin")
    then ok tt
    else throw_if (not (is_super_admin_user actor))
        (forbidden "Only super administrators can assign the super admin role")

-- `SEPARATION_OF_DUTIES_CONFLICTS`
abbrev pub separation_of_duties_conflicts : List (String × String)
separation_of_duties_conflicts =
    ("expense.submit", "approval.approve") ∷ ("expense.submit", "approval.reject") ∷ []

-- `names.has(name)`
abbrev pub has_name : List String → String → Bool
has_name names name = any (λ n. same_text n name) names

-- The loop of `assertNoSeparationOfDutiesConflicts`.
check_conflicts : List (String × String) → List String → Result (Unit {0})
check_conflicts [] names = ok tt
check_conflicts ((left, right) ∷ rest) names =
    let later = check_conflicts rest names in
    if has_name names left && has_name names right
    then err (
        forbidden (
          "Permissions \"" <> left <> "\" and \"" <> right
          <> "\" cannot be assigned to the same role (separation of duties)"))
    else later

-- `assertNoSeparationOfDutiesConflicts`, the permissions given by their names.
pub assert_no_separation_of_duties_conflicts : List String → Result (Unit {0})
unfolding check_conflicts
assert_no_separation_of_duties_conflicts names =
    check_conflicts separation_of_duties_conflicts names
