-- ===== src/Authorization/Mapper.antt =====
-- modules/authorization/mappers/auth-user.mapper.ts: the caller that a stored user stands for.
use expentra.Prelude.{ℕ, Option, none, some, List, [], filter, map, String}
use expentra.Entities.{Permission, Role, User}
use expentra.Authorization.Types.{AuthUserPermission, AuthUser}

-- `mapPermissionsFromRole`
pub map_permissions_from_role : List Permission → List AuthUserPermission
map_permissions_from_role permissions =
    map (λ p. record { action = p.action; resource = p.resource; scope = p.scope })
      (filter (λ p. p.is_active) permissions)

abbrev role_name : Option Role → String
role_name none = ""
role_name (some r) = r.name

abbrev role_key : Option Role → ℕ
role_key none = 0
role_key (some r) = r.id

abbrev role_permissions : Option Role → List Permission
role_permissions none = []
role_permissions (some r) = r.permissions

-- `toAuthUser`
pub to_auth_user : User → List ℕ → AuthUser
unfolding map_permissions_from_role
to_auth_user user managed = record {
  id = user.id;
  role = role_name user.role;
  role_id = role_key user.role;
  is_active = user.is_active;
  deactivated_at = user.deactivated_at;
  is_email_verified = user.is_email_verified;
  department_id = user.department_id;
  managed_department_ids = managed;
  permissions = map_permissions_from_role (role_permissions user.role);
}
