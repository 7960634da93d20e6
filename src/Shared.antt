-- ===== src/Shared.antt =====
-- The constants of packages/shared/src/index.ts that the API decides by: permissions, roles, and
-- which role grants what.
use slc_central_admin_cursor.Prelude.{
  ℕ, suc, ◌≤◌, ◌≡◌, refl, true, List, [], ◌∷◌, Eq, ◌==◌, nat_eq, includes, if◌then◌else◌, arith,
}

pub data Permission : Type 0 where
  applications_view applications_manage users_view users_manage content_view : Permission
  content_manage notifications_view notifications_send reports_view reports_export : Permission
  monitoring_view audit_logs_view admin_users_view admin_users_manage system_manage : Permission
  integrations_view integrations_manage integrations_test : Permission

-- The place in `PERMISSIONS`.
abbrev pub permission_index : Permission → ℕ
permission_index applications_view = 0
permission_index applications_manage = 1
permission_index users_view = 2
permission_index users_manage = 3
permission_index content_view = 4
permission_index content_manage = 5
permission_index notifications_view = 6
permission_index notifications_send = 7
permission_index reports_view = 8
permission_index reports_export = 9
permission_index monitoring_view = 10
permission_index audit_logs_view = 11
permission_index admin_users_view = 12
permission_index admin_users_manage = 13
permission_index system_manage = 14
permission_index integrations_view = 15
permission_index integrations_manage = 16
permission_index integrations_test = 17

instance abbrev pub permission_eq : Eq Permission
permission_eq = record { beq = λ a b. permission_index a == permission_index b }

abbrev pub permissions : List Permission
permissions =
    applications_view ∷ applications_manage ∷ users_view ∷ users_manage ∷ content_view
    ∷ content_manage ∷ notifications_view ∷ notifications_send ∷ reports_view ∷ reports_export
    ∷ monitoring_view ∷ audit_logs_view ∷ admin_users_view ∷ admin_users_manage ∷ system_manage
    ∷ integrations_view ∷ integrations_manage ∷ integrations_test ∷ []

pub data RoleKey : Type 0 where
  super_admin app_admin content_admin support_admin report_viewer : RoleKey

-- The place in `ROLE_KEYS`.
abbrev pub role_index : RoleKey → ℕ
role_index super_admin = 0
role_index app_admin = 1
role_index content_admin = 2
role_index support_admin = 3
role_index report_viewer = 4

instance abbrev pub role_eq : Eq RoleKey
role_eq = record { beq = λ a b. role_index a == role_index b }

unfoldable pub role_permissions : RoleKey → List Permission
role_permissions super_admin = permissions
role_permissions app_admin =
    applications_view ∷ applications_manage ∷ monitoring_view ∷ reports_view ∷ integrations_view
    ∷ integrations_manage ∷ integrations_test ∷ []
role_permissions content_admin =
    content_view ∷ content_manage ∷ notifications_view ∷ notifications_send ∷ []
role_permissions support_admin =
    users_view ∷ users_manage ∷ applications_view ∷ monitoring_view ∷ notifications_view ∷ []
role_permissions report_viewer = reports_view ∷ reports_export ∷ []

abbrev pub password_min_length : ℕ
password_min_length = 12

abbrev pub password_max_length : ℕ
password_max_length = 200

-- How often a key stands in a list.
unfoldable pub count : RoleKey → List RoleKey → ℕ
count k [] = 0
count k (x ∷ xs) = let rest = count k xs in if x == k then suc rest else rest

pub same_key : (a b : RoleKey) → (a == b) ≡ true → a ≡ b
same_key super_admin super_admin h = refl
same_key app_admin app_admin h = refl
same_key content_admin content_admin h = refl
same_key support_admin support_admin h = refl
same_key report_viewer report_viewer h = refl
same_key a b h = absurd cc

pub count-included : (k : RoleKey) (xs : List RoleKey) → includes xs k ≡ true → 1 ≤ count k xs
unfolding count
count-included k [] h = cc
count-included k (x ∷ xs) h = ground (arith, count-included k xs)
