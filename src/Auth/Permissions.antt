-- ===== src/Auth/Permissions.antt =====
-- apps/api/src/modules/auth/permissions.ts: what an administrator may do, read from the database at
-- each request. The JSON column of the roles by app is a map of lists of texts, as the API writes it;
-- what `parseAppRoles` does with values of other kinds is not modelled.
pub mod Grants
use slc_central_admin_cursor.Prelude.{
  Text, codes, true, false, ltb, sort_by, ℕ, Bool, Option, none, some, String, List, [], ◌∷◌, ◌++◌,
  ◌==◌, nat_eq, string_eq, find, any, includes, if◌then◌else◌,
}
use slc_central_admin_cursor.Shared.{Permission, permission_eq, RoleKey, role_eq}
use slc_central_admin_cursor.Auth.Db.{
  AdminUserStatus, AppRoleMap, AdminUser, Role, World, has_id, find_admin, role_keys_of,
}

pub record ResolvedAdmin : Type 0 where
  pub id : ℕ
  pub email : String
  pub name : Option String
  pub status : AdminUserStatus
  pub mfa_enabled : Bool
  pub roles : List RoleKey
  pub permissions : List Permission
  pub app_roles : AppRoleMap

-- `Set.add`.
add_permission : List Permission → Permission → List Permission
add_permission acc p = if includes acc p then acc else acc ++ p ∷ []

add_permissions : List Permission → List Permission → List Permission
add_permissions acc [] = acc
add_permissions acc (p ∷ ps) = add_permissions (add_permission acc p) ps

pub granted_by : Option Role → List Permission
granted_by none = []
granted_by (some r) = r.permissions

-- The permissions of the roles together, each once.
add_roles : List Role → List Permission → List RoleKey → List Permission
add_roles roles acc [] = acc
add_roles roles acc (k ∷ ks) =
    add_roles roles (add_permissions acc (granted_by (find (λ r. r.key == k) roles))) ks

unfoldable pub permissions_of : ℕ → World → List Permission
unfolding add_roles add_permissions add_permission granted_by
permissions_of id w = add_roles w.roles [] (role_keys_of id w)

-- The order of `sort`, unit by unit.
abbrev text_le : Text → Text → Bool
text_le [] t = true
text_le (a ∷ s) [] = false
text_le (a ∷ s) (b ∷ t) = let rest = text_le s t in if a == b then rest else ltb a b

-- `[...new Set(roles)]`.
abbrev each_once : List String → List String → List String
each_once acc [] = acc
each_once acc (r ∷ rs) = each_once (if includes acc r then acc else acc ++ r ∷ []) rs

-- A client without roles is left out; the roles of another are sorted, each once.
unfoldable pub parse_app_roles : AppRoleMap → AppRoleMap
parse_app_roles [] = []
parse_app_roles ((client_id, []) ∷ rest) = parse_app_roles rest
parse_app_roles ((client_id, r ∷ rs) ∷ rest) =
    (client_id, sort_by (λ a b. text_le (codes a) (codes b)) (each_once [] (r ∷ rs)))
    ∷ parse_app_roles rest

unfoldable pub resolved : Option AdminUser → World → Option ResolvedAdmin
resolved none w = none
resolved (some a) w = some (record {
  id = a.id;
  email = a.email;
  name = a.name;
  status = a.status;
  mfa_enabled = a.mfa_enabled;
  roles = role_keys_of a.id w;
  permissions = permissions_of a.id w;
  app_roles = parse_app_roles a.app_roles;
})

unfoldable pub resolve_admin : ℕ → World → Option ResolvedAdmin
unfolding resolved
resolve_admin id w = resolved (find_admin (has_id id) w) w

unfoldable pub has_permission : ResolvedAdmin → Permission → Bool
has_permission admin p = includes admin.permissions p

roles_in : String → AppRoleMap → List String
roles_in client_id [] = []
roles_in client_id ((c, roles) ∷ rest) = if c == client_id then roles else roles_in client_id rest

unfoldable pub has_app_role : ResolvedAdmin → String → List String → Bool
unfolding roles_in
has_app_role admin client_id roles =
    any (λ r. includes roles r) (roles_in client_id admin.app_roles)
