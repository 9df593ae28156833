-- ===== src/Authorization/Types.antt =====
-- modules/authorization/constants/permissions.ts, types/auth-user.types.ts and definition/index.ts.
use expentra.Prelude.{ℕ, String, List, Option, Bool, ◌≡◌, ◌↔◌, true, arith, ◌==◌, same_text}

pub data PermissionAction : Type 0 where
  manage create read update delete submit approve reject reimburse export mark upload :
      PermissionAction

pub data PermissionResource : Type 0 where
  all expense user approval approval_level receipt notification budget report department role audit
        policy dashboard :
      PermissionResource

pub data PermissionScope : Type 0 where
  global self : PermissionScope

-- modules/authorization/types/policy.types.ts
pub data ExpenseDraftMutation : Type 0 where
  modify delete submit : ExpenseDraftMutation

pub data ExpenseListVisibility : Type 0 where
  all own_and_submitted own : ExpenseListVisibility

-- A stored permission tuple.
pub record AuthUserPermission : Type 0 where
  pub action : PermissionAction
  pub resource : PermissionResource
  pub scope : PermissionScope

-- The authenticated caller: the fields of `IAuthUser` that the services read.
pub record AuthUser : Type 0 where
  pub id : ℕ
  pub role : String
  pub role_id : ℕ
  pub is_active : Bool
  pub deactivated_at : Option ℕ
  pub is_email_verified : Bool
  pub department_id : Option ℕ
  pub managed_department_ids : List ℕ
  pub permissions : List AuthUserPermission

abbrev action_code : PermissionAction → ℕ
action_code PermissionAction.manage = 0
action_code PermissionAction.create = 1
action_code PermissionAction.read = 2
action_code PermissionAction.update = 3
action_code PermissionAction.delete = 4
action_code PermissionAction.submit = 5
action_code PermissionAction.approve = 6
action_code PermissionAction.reject = 7
action_code PermissionAction.reimburse = 8
action_code PermissionAction.export = 9
action_code PermissionAction.mark = 10
action_code PermissionAction.upload = 11

abbrev resource_code : PermissionResource → ℕ
resource_code PermissionResource.all = 0
resource_code expense = 1
resource_code user = 2
resource_code approval = 3
resource_code approval_level = 4
resource_code receipt = 5
resource_code notification = 6
resource_code budget = 7
resource_code report = 8
resource_code department = 9
resource_code role = 10
resource_code audit = 11
resource_code policy = 12
resource_code dashboard = 13

abbrev scope_code : PermissionScope → ℕ
scope_code global = 0
scope_code self = 1

unfoldable pub same_action : PermissionAction → PermissionAction → Bool
same_action a b = action_code a == action_code b

unfoldable pub same_resource : PermissionResource → PermissionResource → Bool
same_resource a b = resource_code a == resource_code b

unfoldable pub same_scope : PermissionScope → PermissionScope → Bool
same_scope a b = scope_code a == scope_code b

pub same_action_iff : (a b : PermissionAction) → (same_action a b ≡ true) ↔ (a ≡ b)
unfolding same_action
same_action_iff a b = ground arith

pub same_resource_iff : (a b : PermissionResource) → (same_resource a b ≡ true) ↔ (a ≡ b)
unfolding same_resource
same_resource_iff a b = ground arith

pub same_scope_iff : (a b : PermissionScope) → (same_scope a b ≡ true) ↔ (a ≡ b)
unfolding same_scope
same_scope_iff a b = ground arith

-- database/constants/system-roles.ts, `isSuperAdminUser`.
unfoldable pub is_super_admin_user : AuthUser → Bool
is_super_admin_user u = same_text u.role "super_admin"
