-- ===== src/Authorization/Grants.antt =====
-- modules/authorization/matching/permission-grants.ts and scope-access.ts,
-- services/permission-evaluator.service.ts.
pub mod Scopes
pub mod Approvers
use expentra.Prelude.{
  ℕ, Bool, true, false, Option, none, some, List, ◌&&◌, ◌||◌, not, ◌==◌, if◌then◌else◌, any,
  is_none,
}
use expentra.Authorization.Types.{
  PermissionAction, PermissionResource, PermissionScope, AuthUserPermission, AuthUser, same_action,
  same_resource, same_scope, is_super_admin_user,
}

-- `actionAndResourceMatch`
unfoldable pub action_and_resource_match :
    AuthUserPermission → PermissionAction → PermissionResource → Bool
action_and_resource_match p action resource =
    (same_action p.action PermissionAction.manage || same_action p.action action)
    && (same_resource p.resource PermissionResource.all || same_resource p.resource resource)

abbrev global_or_self : AuthUserPermission → Bool
global_or_self p =
    same_scope p.scope PermissionScope.global || same_scope p.scope PermissionScope.self

-- The resources whose permissions are global only.
abbrev global_only : PermissionResource → Bool
global_only resource =
    same_resource resource PermissionResource.report
    || same_resource resource PermissionResource.approval_level
    || same_resource resource PermissionResource.department
    || same_resource resource PermissionResource.role
    || same_resource resource PermissionResource.user
    || same_resource resource PermissionResource.policy
    || same_resource resource PermissionResource.audit

-- `permissionScopeAllows`. An inner `if` that fails falls through to the later resources, which
-- are different ones, and so to the last line.
unfoldable pub permission_scope_allows :
    AuthUserPermission → PermissionAction → PermissionResource → Bool
permission_scope_allows p action resource =
    if same_resource resource PermissionResource.expense && same_action action PermissionAction.read
    then global_or_self p
    else if same_resource resource PermissionResource.expense
        && (same_action action PermissionAction.create
            || same_action action PermissionAction.update
            || same_action action PermissionAction.delete
            || same_action action PermissionAction.submit
            || same_action action PermissionAction.reimburse)
    then global_or_self p
    else if same_resource resource PermissionResource.receipt
        && (same_action action PermissionAction.create
            || same_action action PermissionAction.read
            || same_action action PermissionAction.delete)
    then global_or_self p
    else if same_resource resource PermissionResource.approval
        && (same_action action PermissionAction.approve
            || same_action action PermissionAction.reject)
    then same_scope p.scope PermissionScope.global
    else if same_resource resource PermissionResource.approval
        && (same_action action PermissionAction.create
            || same_action action PermissionAction.read
            || same_action action PermissionAction.update
            || same_action action PermissionAction.delete)
    then same_scope p.scope PermissionScope.global
    else if same_resource resource PermissionResource.notification
        && (same_action action PermissionAction.read
            || same_action action PermissionAction.update
            || same_action action PermissionAction.mark)
    then same_scope p.scope PermissionScope.self
    else if same_resource resource PermissionResource.dashboard
        && same_action action PermissionAction.read
    then global_or_self p
    else if same_resource resource PermissionResource.budget
    then (if same_action action PermissionAction.read
        then global_or_self p
        else same_scope p.scope PermissionScope.global)
    else if global_only resource
    then same_scope p.scope PermissionScope.global
    else true

-- `requiredScope !== undefined && permission.scope !== requiredScope`
abbrev scope_missed : AuthUserPermission → Option PermissionScope → Bool
scope_missed p none = false
scope_missed p (some s) = not (same_scope p.scope s)

-- `permissionGrants`
unfoldable pub permission_grants :
    AuthUserPermission → PermissionAction → PermissionResource → Option PermissionScope → Bool
permission_grants p action resource required =
    if same_action p.action PermissionAction.manage
      && (same_resource p.resource PermissionResource.all || same_resource p.resource resource)
    then not (scope_missed p required)
    else if not (action_and_resource_match p action resource)
    then false
    else if scope_missed p required
    then false
    else if is_none required
        && same_resource resource PermissionResource.budget
        && same_action action PermissionAction.read
        && same_scope p.scope PermissionScope.self
    then false
    else permission_scope_allows p action resource

-- `PermissionEvaluatorService.hasPermission`
unfoldable pub has_permission :
    AuthUser → PermissionAction → PermissionResource → Option PermissionScope → Bool
has_permission u action resource scope =
    if is_super_admin_user u
    then true
    else any (λ p. permission_grants p action resource scope) u.permissions

-- `PermissionEvaluatorService.canManageAll`
pub can_manage_all : AuthUser → Bool
can_manage_all u =
    is_super_admin_user u || has_permission u PermissionAction.manage PermissionResource.all none

-- `PermissionEvaluatorService.hasAnyScope`
pub has_any_scope : AuthUser → PermissionAction → PermissionResource → List PermissionScope → Bool
has_any_scope u action resource scopes = any (λ s. has_permission u action resource (some s)) scopes

-- matching/scope-access.ts, `subjectMatchesScope`
subject_matches_scope : AuthUser → ℕ → PermissionScope → Bool
subject_matches_scope u owner PermissionScope.global = true
subject_matches_scope u owner PermissionScope.self = owner == u.id

-- `canAccessScopedSubject`, the subject given by its `userId`
pub can_access_scoped_subject : AuthUser → ℕ → (PermissionScope → Bool) → Bool → Bool
can_access_scoped_subject u owner allowed manage_all =
    if is_super_admin_user u || manage_all || allowed PermissionScope.global
    then true
    else if allowed PermissionScope.self
    then subject_matches_scope u owner PermissionScope.self
    else false
