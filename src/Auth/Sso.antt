-- ===== src/Auth/Sso.antt =====
-- Sign-in through the central identity provider,
-- apps/api/src/modules/auth/oidc/oidc.service.ts, from the claims of a token that was verified. The
-- unique indexes on email and subject are checked by the searches before each write.
pub mod Identity
pub mod Logout
pub mod RoleSync
pub mod SignIn
pub mod Rejected
use slc_central_admin_cursor.Prelude.{
  sort_by, ℕ, ◌+◌, Bool, true, false, not, Option, none, some, String, List, [], ◌∷◌, ◌++◌, map,
  ltb, length, ◌==◌, nat_eq, string_eq, list_eq, filter, includes, if◌then◌else◌, Outcome, ok, err,
  Exec, guard, modify, gets, ◌>>=◌, ◌>>◌,
}
use slc_central_admin_cursor.Shared.{RoleKey, role_eq}
use slc_central_admin_cursor.AppErrors.{
  ErrorCode, AppError, app_error, sso_login_error, SsoErrorCode, sso_no_access, sso_email_missing,
  sso_email_unverified, sso_email_conflict, sso_account_disabled, sso_disabled, roles_not_seeded,
  internal_error, truthy,
}
use slc_central_admin_cursor.Rows.{delete_where}
use slc_central_admin_cursor.Auth.Db.{
  active, is_disabled, AppRoleMap, AdminUser, Role, AdminUserRole, SessionContext, AuthEventType,
  Reason, World, has_id, has_email, has_subject, find_admin, update_admin, role_keys_of,
  record_event, admin_sso_login, admin_sso_login_failed, admin_sso_provisioned, admin_sso_linked,
  admin_sso_backchannel_logout, role_changed, no_central_admin_role, email_claim_missing,
  email_not_verified_for_linking, email_linked_to_other_subject, disabled_account,
}
use slc_central_admin_cursor.Auth.Env.{Env}
use slc_central_admin_cursor.Auth.Sessions.{
  IssuedSession, SsoSessionData, create_session, revoke_all_sessions, revoke_sessions_by_oidc_sid,
}
use slc_central_admin_cursor.Auth.Permissions.{ResolvedAdmin}
use slc_central_admin_cursor.Auth.Login.{LoginResult, normalize_email, get_current_user}
use slc_central_admin_cursor.Auth.Claims.{
  Json, ClaimTexts, member, text_or_empty, is_text, is_true, role_in_order, extract_role_keys,
  extract_app_roles, display_name_from_claims,
}

-- `config.oidc`, and the client ids of `config.keycloakAdmin`.
pub record SsoConfig : Type 0 where
  pub roles_claim : String
  pub managed_apps : Option (List String)

-- What is read from the claims at the start.
pub record TokenIdentity : Type 0 where
  pub subject : String
  pub email : String
  pub email_verified : Bool
  pub roles : List RoleKey
  pub name : Option String
  pub sid : Option String
  pub app_roles : AppRoleMap

abbrev pub text_claim : Option Json → Option String
text_claim none = none
text_claim (some j) = is_text j

unfoldable pub identity_of : Env → ClaimTexts → SsoConfig → String → Json → TokenIdentity
identity_of env texts settings subject claims =
    let raw_email = text_or_empty (member texts claims "email") in
    record {
      subject = subject;
      email = if raw_email == "" then "" else normalize_email env raw_email;
      email_verified = is_true (member texts claims "email_verified");
      roles = extract_role_keys texts claims settings.roles_claim;
      name = display_name_from_claims texts claims;
      sid = text_claim (member texts claims "sid");
      app_roles = extract_app_roles texts claims settings.managed_apps;
    }

module _ {A : Type 0} where
  -- `fail`.
  unfoldable pub sso_fail : SsoErrorCode → Reason → Option ℕ → Exec World AppError A
  sso_fail code reason id w =
      err (sso_login_error code) (record_event admin_sso_login_failed id (some reason) w)

-- `byEmail.oidcSubject && byEmail.oidcSubject !== subject`.
abbrev pub is_other : String → Option String → Bool
is_other subject none = false
is_other subject (some s) = not (s == subject)

unfoldable pub link : String → AdminUser → AdminUser
link subject a = record a { oidc_subject = some subject }

-- The second step, with the account of the email.
unfoldable pub link_by_email :
    TokenIdentity → Option AdminUser → Exec World AppError (Option AdminUser)
link_by_email t none w = ok none w
link_by_email t (some a) w =
    if not t.email_verified
    then sso_fail sso_email_unverified email_not_verified_for_linking (some a.id) w
    else if is_other t.subject (truthy a.oidc_subject)
    then sso_fail sso_email_conflict email_linked_to_other_subject (some a.id) w
    else ok (some (link t.subject a))
        (record_event admin_sso_linked (some a.id) none (update_admin a.id (link t.subject) w))

unfoldable pub find_linked :
    TokenIdentity → Option AdminUser → Exec World AppError (Option AdminUser)
find_linked t (some a) w = ok (some a) w
find_linked t none w = link_by_email t (find_admin (has_email t.email) w) w

-- The row of an account that only the provider signs in.
unfoldable pub new_sso_admin : TokenIdentity → ℕ → AdminUser
new_sso_admin t id = record {
  id = id;
  email = t.email;
  password_hash = none;
  oidc_subject = some t.subject;
  app_roles = [];
  name = t.name;
  status = active;
  mfa_enabled = false;
  mfa_secret = none;
  mfa_last_used_step = none;
  last_login_at = none;
}

-- The third step.
unfoldable pub provision : TokenIdentity → Option AdminUser → Exec World AppError AdminUser
provision t (some a) w = ok a w
provision t none w = ok (new_sso_admin t w.next_id) (
    record_event admin_sso_provisioned (some w.next_id) none
      (record w { admins = w.admins ++ new_sso_admin t w.next_id ∷ []; next_id = w.next_id + 1 }))

abbrev pub rows_of : List RoleKey → World → List Role
rows_of keys w = filter (λ r. includes keys r.key) w.roles

abbrev pub assigned : ℕ → List Role → List AdminUserRole
assigned id rows = map (λ r. record { admin_user_id = id; role_key = r.key }) rows

-- The transaction of `syncRoles`.
unfoldable pub assign_exactly : ℕ → List Role → World → World
assign_exactly id rows w = record w {
  user_roles = delete_where (λ r. r.admin_user_id == id) w.user_roles ++ assigned id rows;
}

unfoldable pub sync_roles : ℕ → List RoleKey → Exec World AppError (Unit {0})
sync_roles id roles w =
    if sort_by role_in_order (role_keys_of id w) == roles
    then ok tt w
    else if not (length (rows_of roles w) == length roles)
    then err (app_error 500 roles_not_seeded) w
    else ok tt (record_event role_changed (some id) none (assign_exactly id (rows_of roles w) w))

abbrev is_unused : Option AdminUser → Bool
is_unused none = true
is_unused (some a) = false

abbrev new_name : Option String → Option String → Option String
new_name none old = old
new_name (some name) old = some name

-- The columns that are kept in step with the provider.
unfoldable pub profile : TokenIdentity → AdminUser → World → AdminUser → AdminUser
profile t a w r = record r {
  last_login_at = some w.now;
  app_roles = t.app_roles;
  name = new_name (truthy t.name) r.name;
  email =
      if t.email == a.email
      then r.email
      else if is_unused (find_admin (has_email t.email) w)
      then t.email
      else r.email;
}

unfoldable pub sync_profile : TokenIdentity → AdminUser → World → World
sync_profile t a w = update_admin a.id (profile t a w) w

finish_sso : IssuedSession → AdminUser → Option ResolvedAdmin → Exec World AppError LoginResult
finish_sso s a none w = err (app_error 500 internal_error) w
finish_sso s a (some user) w =
    ok (record { token = s.token; expires_at = s.expires_at; user = user })
      (record_event admin_sso_login (some a.id) none w)

module _ (env : Env) where
  -- From the account on.
  unfoldable pub admit_account :
      TokenIdentity → String → SessionContext → AdminUser → Exec World AppError LoginResult
  unfolding finish_sso
  admit_account t id_token ctx a =
      if is_disabled a.status
      then sso_fail sso_account_disabled disabled_account (some a.id)
      else do
        sync_roles a.id t.roles
        modify (sync_profile t a)
        s ←
            create_session env a.id ctx (record { oidc_sid = t.sid; id_token_hint = some id_token })
              none
        (λ w. finish_sso s a (get_current_user a.id w) w)

  -- After the claims were read.
  unfoldable pub sign_in_as :
      TokenIdentity → String → SessionContext → Exec World AppError LoginResult
  sign_in_as t id_token ctx =
      if length t.roles == 0
      then sso_fail sso_no_access no_central_admin_role none
      else if t.email == ""
      then sso_fail sso_email_missing email_claim_missing none
      else do
        linked ← (λ w. find_linked t (find_admin (has_subject t.subject) w) w)
        a ← provision t linked
        admit_account t id_token ctx a

  -- `requireOidcSettings` throws where SSO is not configured.
  unfoldable pub complete_sso_login :
      ClaimTexts
      → Option SsoConfig
      → String
      → Json
      → String
      → SessionContext
      → Exec World AppError LoginResult
  complete_sso_login texts none subject claims id_token ctx w = err (app_error 404 sso_disabled) w
  complete_sso_login texts (some settings) subject claims id_token ctx w =
      sign_in_as (identity_of env texts settings subject claims) id_token ctx w

-- The sessions of the subject, and the count.
revoke_found : Option AdminUser → World → ℕ × World
revoke_found none w = (0, w)
revoke_found (some a) w = revoke_all_sessions a.id w

subject_id : Option AdminUser → Option ℕ
subject_id none = none
subject_id (some a) = some a.id

abbrev logged_out : Option ℕ → (ℕ × World) → ℕ × World
logged_out id (count, v) = (count, record_event admin_sso_backchannel_logout id none v)

by_subject : Option String → World → ℕ × World
unfolding revoke_found subject_id
by_subject none w = logged_out none (0, w)
by_subject (some subject) w =
    let found = find_admin (has_subject subject) w in
    logged_out (subject_id found) (revoke_found found w)

by_sid : Option String → Option String → World → ℕ × World
unfolding by_subject
by_sid (some sid) subject w = logged_out none (revoke_sessions_by_oidc_sid sid w)
by_sid none subject w = by_subject subject w

unfoldable pub apply_backchannel_logout : Option String → Option String → World → ℕ × World
unfolding by_sid
apply_backchannel_logout subject sid w = by_sid (truthy sid) (truthy subject) w
