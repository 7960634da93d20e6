-- ===== src/Examples/Access.antt =====
-- Requests, permissions and password changes at work.
use slc_central_admin_cursor.Prelude.{
  sort_by, insert_by, ◌≡◌, ◌==◌, nat_eq, refl, ◌⊎◌, true, false, none, some, String, [], ◌∷◌,
  nat_eq, state_of, ok, err,
}
use slc_central_admin_cursor.Shared.{permission_eq, super_admin, permissions, system_manage}
use slc_central_admin_cursor.Auth.Db.{
  active, disabled, role_keys_in, World, role_keys_of, find_admin,
}
use slc_central_admin_cursor.AppErrors.{AppError, app_error, last_super_admin}
use slc_central_admin_cursor.Auth.Sessions.{resolve_session, find_session}
use slc_central_admin_cursor.Auth.Permissions.{
  parse_app_roles, ResolvedAdmin, resolve_admin, resolved, permissions_of, has_permission,
}
use slc_central_admin_cursor.Auth.Permissions.Grants.{is_granted, has_permission-is_granted}
use slc_central_admin_cursor.Auth.Account.{change_password}
use slc_central_admin_cursor.Auth.Account.Change.{Changed, change_password-ends}
use slc_central_admin_cursor.Auth.Access.{
  Attached, require_auth, csrf_protection, csrf_tokens_fit, authorize, require_permission,
}
use slc_central_admin_cursor.Auth.Access.Checks.{
  csrf_protection-passed, Authenticated, access-is_granted,
}
use slc_central_admin_cursor.Auth.Admins.{
  set_admin_user_status, assert_not_last_super_admin, active_super_admin_count,
  set_admin_user_roles,
}
use slc_central_admin_cursor.Auth.Admins.LastSuper.{has_super, set_admin_user_status-has_super}
use slc_central_admin_cursor.Auth.Admins.RoleChange.{set_admin_user_roles-has_super}
use slc_central_admin_cursor.Auth.Admins.{AdminUserSummary, to_summary, after_status}
use slc_central_admin_cursor.Auth.Admins.Disable.{disable-signs_out}
use slc_central_admin_cursor.Rows.{update_where, delete_where}
use slc_central_admin_cursor.Auth.Db.{AdminUser, AdminSession, update_admin, record_event}
use slc_central_admin_cursor.Auth.Sessions.{revoke_all_sessions}
use slc_central_admin_cursor.Examples.Accounts.{ann, old_session, one_hour, start}

abbrev ann_resolved : ResolvedAdmin
ann_resolved = record {
  id = 1;
  email = "ann@x";
  name = none;
  status = active;
  mfa_enabled = true;
  roles = super_admin ∷ [];
  permissions = permissions;
  app_roles = [];
}

abbrev attached : Attached
attached = record { admin = ann_resolved; session_id = 7; session_token = "old" }

abbrev touched : World
touched = (resolve_session one_hour "old" start).1

is_let_in : require_auth one_hour (some "old") (start, false) ≡ ok attached (touched, false)
unfolding require_auth resolve_session find_session resolve_admin resolved parse_app_roles
    permissions_of role_keys_of find_admin
is_let_in = refl

has_permission-is_granted_example :
    has_permission ann_resolved system_manage
    ≡ is_granted start.roles (role_keys_of 1 start) system_manage
unfolding resolve_admin resolved parse_app_roles permissions_of role_keys_of find_admin
has_permission-is_granted_example =
    has_permission-is_granted 1 start ann_resolved system_manage refl

access-is_granted_example :
    Authenticated one_hour (some "old") start attached
    × (is_granted start.roles (role_keys_of 1 start) system_manage ≡ true)
unfolding require_permission authorize has_permission
access-is_granted_example =
    access-is_granted one_hour (some "old") start false (touched, false) attached system_manage
      is_let_in refl

csrf_protection-passed_example : (t : String) × (some "csrf" ≡ some t) × (some "csrf" ≡ some t)
unfolding csrf_protection csrf_tokens_fit
csrf_protection-passed_example =
    csrf_protection-passed "POST" (some "old") (some "csrf") (some "csrf") "old" refl refl refl

change_password-ends_example :
    ((e : AppError) × (change_password one_hour 1 "pw" "a long password" start ≡ err e start))
    ⊎ ((v : World) × (change_password one_hour 1 "pw" "a long password" start ≡ ok tt v)
        × Changed one_hour 1 "pw" "a long password" start v)
change_password-ends_example = change_password-ends one_hour 1 "pw" "a long password" start

-- The last super administrator cannot be disabled.
last_is_kept : set_admin_user_status 1 disabled start ≡ err (app_error 409 last_super_admin) start
unfolding set_admin_user_status assert_not_last_super_admin active_super_admin_count find_admin
    role_keys_of role_keys_in
last_is_kept = refl

set_admin_user_status-has_super_example :
    has_super (state_of (set_admin_user_status 1 disabled start)) ≡ true
unfolding role_keys_of role_keys_in
set_admin_user_status-has_super_example =
    set_admin_user_status-has_super 1 disabled start (refl, tt) refl

set_admin_user_roles-has_super_example :
    has_super (state_of (set_admin_user_roles 1 (super_admin ∷ []) ann_resolved start)) ≡ true
unfolding role_keys_of role_keys_in
set_admin_user_roles-has_super_example =
    set_admin_user_roles-has_super 1 (super_admin ∷ []) ann_resolved start (refl, tt) refl refl

abbrev bob : AdminUser
bob = record ann { id = 2; email = "bob@x" }

abbrev bobs_session : AdminSession
bobs_session = record old_session { id = 8; admin_user_id = 2; token_hash = "bobs" }

abbrev two_supers : World
two_supers = record start {
  admins = ann ∷ bob ∷ [];
  user_roles =
      record { admin_user_id = 1; role_key = super_admin }
      ∷ record { admin_user_id = 2; role_key = super_admin }
      ∷ [];
  sessions = old_session ∷ bobs_session ∷ [];
}

abbrev ann_disabled : AdminUserSummary
ann_disabled = record {
  id = 1;
  email = "ann@x";
  name = none;
  status = disabled;
  mfa_enabled = true;
  roles = super_admin ∷ [];
  last_login_at = none;
}

disable-signs_out_example : (bobs_session.admin_user_id == 1) ≡ false
unfolding set_admin_user_status assert_not_last_super_admin active_super_admin_count to_summary
    find_admin update_admin update_where after_status revoke_all_sessions delete_where record_event
    role_keys_of role_keys_in resolve_session find_session
disable-signs_out_example =
    disable-signs_out one_hour 1 two_supers (state_of (set_admin_user_status 1 disabled two_supers))
      ann_disabled "bobs" bobs_session refl refl

-- Roles by app are sorted, each once; an app without roles is left out.
cleaned :
    parse_app_roles (("herd", "vet" ∷ "admin" ∷ "vet" ∷ []) ∷ ("shop", []) ∷ [])
    ≡ ("herd", "admin" ∷ "vet" ∷ []) ∷ []
unfolding parse_app_roles sort_by insert_by
cleaned = refl
