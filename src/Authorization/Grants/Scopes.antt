-- ===== src/Authorization/Grants/Scopes.antt =====
-- What a stored permission grants, by scope (matching/permission-grants.ts), and access to an owned
-- subject (matching/scope-access.ts).
use expentra.Prelude.{
  ℕ, Bool, true, Option, none, some, List, [], ◌∷◌, ◌++◌, ◌≡◌, ◌↔◌, ◌⊎◌, ◌≢◌, arith, any,
}
use expentra.Authorization.Types.{
  PermissionAction, PermissionResource, PermissionScope, AuthUserPermission, AuthUser,
  is_super_admin_user, same_scope_iff, same_action_iff, same_resource_iff,
}
use expentra.Authorization.Grants.{
  permission_grants, has_permission, can_access_scoped_subject, subject_matches_scope,
}

-- A permission that grants a request at a scope has that scope.
pub permission_grants-scope :
    (p : AuthUserPermission) (a : PermissionAction) (r : PermissionResource) (s : PermissionScope)
    → permission_grants p a r (some s) ≡ true
    → p.scope ≡ s
unfolding permission_grants
permission_grants-scope p a r s h = ground (arith, same_scope_iff p.scope s)

-- A permission that grants a request at a scope grants the request without a scope, unless the
-- request is to read a budget at a scope other than the global one.
pub permission_grants-unscoped :
    (p : AuthUserPermission) (a : PermissionAction) (r : PermissionResource) (s : PermissionScope)
    → permission_grants p a r (some s) ≡ true
    → (r ≢ PermissionResource.budget) ⊎ (a ≢ PermissionAction.read) ⊎ (s ≡ PermissionScope.global)
    → permission_grants p a r none ≡ true
unfolding permission_grants
permission_grants-unscoped p a r s h k = ground (
  arith,
  permission_grants-scope p a r s h,
  same_resource_iff r PermissionResource.budget,
  same_action_iff a PermissionAction.read,
  same_scope_iff p.scope PermissionScope.self,
)

any-append {ℓ} :
    {A : Type ℓ} (p : A → Bool) (xs ys : List A) → any p xs ≡ true → any p (xs ++ ys) ≡ true
any-append p [] ys h = cc
any-append p (x ∷ xs) ys h = ground (arith, any-append p xs ys)

-- More permissions never take a permission away.
pub has_permission-append :
    (u : AuthUser) (more : List AuthUserPermission) (a : PermissionAction) (r : PermissionResource)
    (s : Option PermissionScope)
    → has_permission u a r s ≡ true
    → has_permission (record u { permissions = u.permissions ++ more }) a r s ≡ true
unfolding has_permission is_super_admin_user
has_permission-append u more a r s h =
    ground (arith, any-append (λ p. permission_grants p a r s) u.permissions more)

-- An owned subject is open to the super admin, to who manages all, to who holds the permission
-- globally, and to its owner with the permission for the own ones; to nobody else.
pub can_access_scoped_subject_iff :
    (u : AuthUser) (owner : ℕ) (allowed : PermissionScope → Bool) (manage_all : Bool)
    → (can_access_scoped_subject u owner allowed manage_all ≡ true) ↔ (
        (is_super_admin_user u ≡ true)
        ⊎ (manage_all ≡ true)
        ⊎ (allowed PermissionScope.global ≡ true)
        ⊎ ((allowed PermissionScope.self ≡ true) × (owner ≡ u.id)))
unfolding can_access_scoped_subject subject_matches_scope
can_access_scoped_subject_iff u owner allowed manage_all = (λ h. ground arith, λ h. ground arith)
