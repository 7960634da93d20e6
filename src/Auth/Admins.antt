-- ===== src/Auth/Admins.antt =====
-- The management of administrators, apps/api/src/modules/admin-users/adminUsers.service.ts. The
-- database refuses an update of a row that is not there and a role for an unknown administrator;
-- its transaction writes both or nothing.
pub mod LastSuper
pub mod RoleRows
pub mod RoleChange
pub mod Disable
use slc_central_admin_cursor.Prelude.{
  ℕ, ◌+◌, Bool, true, false, not, ◌&&◌, Option, none, some, String, List, [], ◌∷◌, ◌++◌, map, ◌==◌,
  nat_eq, ltb, if◌then◌else◌, filter, length, includes, Outcome, ok, err, Exec, guard, modify,
  ◌>>=◌, ◌>>◌,
}
use slc_central_admin_cursor.Shared.{RoleKey, role_eq, super_admin, system_manage}
use slc_central_admin_cursor.Rows.{delete_where}
use slc_central_admin_cursor.Auth.Db.{
  AdminUserStatus, active, is_disabled, AdminUser, Role, AdminUserRole, World, has_id, has_email,
  find_admin, update_admin, role_keys_of, record_event, admin_disabled, role_changed,
}
use slc_central_admin_cursor.AppErrors.{
  AppError, app_error, other_error, forbidden, last_super_admin, validation_error, email_taken,
}
use slc_central_admin_cursor.Auth.Env.{Env}
use slc_central_admin_cursor.Auth.Sessions.{revoke_all_sessions}
use slc_central_admin_cursor.Auth.Permissions.{ResolvedAdmin, has_permission}
use slc_central_admin_cursor.Auth.Login.{normalize_email}
use slc_central_admin_cursor.Auth.Account.{PolicyProblem, validate_password_policy}

pub record AdminUserSummary : Type 0 where
  pub id : ℕ
  pub email : String
  pub name : Option String
  pub status : AdminUserStatus
  pub mfa_enabled : Bool
  pub roles : List RoleKey
  pub last_login_at : Option ℕ

abbrev pub is_active_super : World → AdminUser → Bool
is_active_super w a = not (is_disabled a.status) && includes (role_keys_of a.id w) super_admin

-- The active administrators with SUPER_ADMIN, one excluded.
unfoldable pub active_super_admin_count : ℕ → World → ℕ
active_super_admin_count exclude w =
    length (filter (λ a. is_active_super w a && not (a.id == exclude)) w.admins)

-- `targetIsActiveSuper`.
abbrev pub target_is_active_super : Option AdminUser → World → Bool
target_is_active_super none w = false
target_is_active_super (some a) w = is_active_super w a

unfoldable pub assert_not_last_super_admin : ℕ → Exec World AppError (Unit {0})
assert_not_last_super_admin id w =
    guard
      (not (
        target_is_active_super (find_admin (has_id id) w) w
        && ltb (active_super_admin_count id w) 1))
      (app_error 409 last_super_admin) w

unfoldable pub assert_may_assign_super_admin :
    ResolvedAdmin → List RoleKey → Exec World AppError (Unit {0})
assert_may_assign_super_admin actor keys =
    guard (not (includes keys super_admin && not (has_permission actor system_manage)))
      (app_error 403 forbidden)

summary_of : Option AdminUser → Exec World AppError AdminUserSummary
summary_of none w = err other_error w
summary_of (some a) w =
    ok
      (record {
        id = a.id;
        email = a.email;
        name = a.name;
        status = a.status;
        mfa_enabled = a.mfa_enabled;
        roles = role_keys_of a.id w;
        last_login_at = a.last_login_at;
      })
      w

unfoldable pub to_summary : ℕ → Exec World AppError AdminUserSummary
unfolding summary_of
to_summary id w = summary_of (find_admin (has_id id) w) w

-- An update fails where the row is missing.
update_found : Option AdminUser → ℕ → AdminUserStatus → Exec World AppError (Unit {0})
update_found none id status w = err other_error w
update_found (some a) id status w = ok tt (update_admin id (λ r. record r { status = status }) w)

-- What disabling an account does besides.
unfoldable pub after_status : ℕ → AdminUserStatus → World → World
after_status id status w =
    if is_disabled status
    then record_event admin_disabled (some id) none (revoke_all_sessions id w).1
    else w

unfoldable pub set_admin_user_status : ℕ → AdminUserStatus → Exec World AppError AdminUserSummary
unfolding update_found after_status
set_admin_user_status id status = do
  (if is_disabled status then assert_not_last_super_admin id else (λ w. ok tt w))
  (λ w. update_found (find_admin (has_id id) w) id status w)
  modify (after_status id status)
  to_summary id

abbrev pub roles_with : List RoleKey → World → List Role
roles_with keys w = filter (λ r. includes keys r.key) w.roles

abbrev pub given_to : ℕ → List Role → List AdminUserRole
given_to id roles = map (λ r. record { admin_user_id = id; role_key = r.key }) roles

-- The transaction that replaces the roles.
replace_roles : Option AdminUser → ℕ → List Role → Exec World AppError (Unit {0})
replace_roles none id (r ∷ rs) w = err other_error w
replace_roles _ id roles w = ok tt (record w {
  user_roles = delete_where (λ r. r.admin_user_id == id) w.user_roles ++ given_to id roles;
})

assert_roles_exist : List RoleKey → Exec World AppError (Unit {0})
assert_roles_exist keys w =
    guard (length (roles_with keys w) == length keys) (app_error 422 validation_error) w

unfoldable pub set_admin_user_roles :
    ℕ → List RoleKey → ResolvedAdmin → Exec World AppError AdminUserSummary
unfolding replace_roles assert_roles_exist
set_admin_user_roles id keys actor = do
  assert_may_assign_super_admin actor keys
  (if not (includes keys super_admin) then assert_not_last_super_admin id else (λ w. ok tt w))
  assert_roles_exist keys
  (λ w. replace_roles (find_admin (has_id id) w) id (roles_with keys w) w)
  modify (record_event role_changed (some id) none)
  to_summary id

pub record CreateAdminUserInput : Type 0 where
  pub email : String
  pub password : String
  pub name : Option String
  pub role_keys : List RoleKey

abbrev is_valid : List PolicyProblem → Bool
is_valid [] = true
is_valid (p ∷ ps) = false

abbrev is_free : Option AdminUser → Bool
is_free none = true
is_free (some a) = false

module _ (env : Env) where
  -- The row of a new administrator.
  unfoldable pub new_admin : CreateAdminUserInput → ℕ → AdminUser
  new_admin input id = record {
    id = id;
    email = normalize_email env input.email;
    password_hash = some (env.hash_password input.password);
    oidc_subject = none;
    app_roles = [];
    name = input.name;
    status = active;
    mfa_enabled = false;
    mfa_secret = none;
    mfa_last_used_step = none;
    last_login_at = none;
  }

  unfoldable pub insert_admin : CreateAdminUserInput → World → World
  insert_admin input w = record_event role_changed (some w.next_id) none (record w {
    admins = w.admins ++ new_admin input w.next_id ∷ [];
    user_roles = w.user_roles ++ given_to w.next_id (roles_with input.role_keys w);
    next_id = w.next_id + 1;
  })

  unfoldable pub create_admin_user :
      CreateAdminUserInput → ResolvedAdmin → Exec World AppError AdminUserSummary
  unfolding assert_roles_exist
  create_admin_user input actor = do
    assert_may_assign_super_admin actor input.role_keys
    guard
        (is_valid
          (validate_password_policy env input.password (some (normalize_email env input.email))))
        (app_error 422 validation_error)
    (λ w.
        guard (is_free (find_admin (has_email (normalize_email env input.email)) w))
          (app_error 409 email_taken) w)
    assert_roles_exist input.role_keys
    (λ w. to_summary w.next_id (insert_admin input w))
