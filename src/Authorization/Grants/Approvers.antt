-- ===== src/Authorization/Grants/Approvers.antt =====
-- Who holds a global permission to approve or to reject.
use expentra.Prelude.{Bool, true, some, List, [], ◌∷◌, ◌≡◌, ◌↔◌, ◌⊎◌, ◌||◌, arith, any}
use expentra.Authorization.Types.{
  PermissionAction, PermissionResource, PermissionScope, AuthUserPermission, AuthUser,
  is_super_admin_user, same_action, same_resource, same_scope,
}
use expentra.Authorization.Grants.{
  permission_grants, permission_scope_allows, action_and_resource_match, has_permission,
}

-- One permission that makes its holder a global approver.
abbrev pub IsApproverPermission : AuthUserPermission → Type 0
IsApproverPermission p =
    (p.scope ≡ PermissionScope.global)
    × ((p.resource ≡ PermissionResource.all) ⊎ (p.resource ≡ PermissionResource.approval))
    × ((p.action ≡ PermissionAction.manage)
        ⊎ (p.action ≡ PermissionAction.approve)
        ⊎ (p.action ≡ PermissionAction.reject))

abbrev pub Any {ℓ} : {A : Type ℓ} → (A → Type 0) → List A → Type 0
Any P [] = ⊥
Any P (x ∷ xs) = P x ⊎ Any P xs

abbrev approves : AuthUserPermission → PermissionAction → Bool
approves p a = permission_grants p a PermissionResource.approval (some PermissionScope.global)

approves_iff :
    (p : AuthUserPermission)
    → ((approves p PermissionAction.approve || approves p PermissionAction.reject) ≡ true)
      ↔ IsApproverPermission p
unfolding permission_grants permission_scope_allows action_and_resource_match same_action
    same_resource same_scope
approves_iff p = (λ h. (ground arith, ground arith, ground arith), λ h. ground arith)

any_iff :
    (ps : List AuthUserPermission)
    → ((any (λ p. approves p PermissionAction.approve) ps
          || any (λ p. approves p PermissionAction.reject) ps)
        ≡ true)
      ↔ Any IsApproverPermission ps
any_iff [] = (λ h. cc, λ h. absurd h)
any_iff (p ∷ ps) =
    let here = approves_iff p in
    let later = any_iff ps in
    (λ h. ground (arith, here.0, later.0), λ h. ground (arith, here.1, later.1))

abbrev decides : AuthUser → PermissionAction → Bool
decides u a = has_permission u a PermissionResource.approval (some PermissionScope.global)

pub global_approver_iff :
    (u : AuthUser)
    → ((decides u PermissionAction.approve || decides u PermissionAction.reject) ≡ true)
      ↔ ((is_super_admin_user u ≡ true) ⊎ Any IsApproverPermission u.permissions)
unfolding has_permission
global_approver_iff u =
    let stored = any_iff u.permissions in
    (λ h. ground (arith, stored.0), λ h. ground (arith, stored.1))
