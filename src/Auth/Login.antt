-- ===== src/Auth/Login.antt =====
-- Password sign-in, apps/api/src/modules/auth/auth.service.ts. The constant hash that is checked
-- where an account has none of its own is `dummy_hash`.
pub mod Outcomes
pub mod SignIn
pub mod Security
use slc_central_admin_cursor.Prelude.{
  ℕ, Bool, true, false, not, ◌&&◌, ◌||◌, Option, none, some, String, List, [], ◌∷◌, Text, codes,
  ltb, length, ◌==◌, nat_eq, string_eq, includes, if◌then◌else◌, Outcome, ok, err, Exec, throw,
  modify, gets, ◌>>=◌, ◌>>◌,
}
use slc_central_admin_cursor.Auth.Db.{
  AdminUser, is_disabled, SessionContext, AuthEventType, admin_login, admin_login_failed,
  admin_logout, admin_break_glass_login, password_changed, Reason, unknown_user, disabled_account,
  sso_only_account, bad_password, not_a_break_glass_account, mfa_code_missing, bad_mfa_code,
  mfa_not_set_up, World, has_email, has_id, find_admin, update_admin, record_event,
}
use slc_central_admin_cursor.AppErrors.{
  AppError, app_error, other_error, invalid_credentials, mfa_required, mfa_not_configured,
  invalid_code, mfa_setup_required, internal_error, truthy,
}
use slc_central_admin_cursor.Auth.Env.{Env}
use slc_central_admin_cursor.Auth.Sessions.{IssuedSession, no_sso, create_session}
use slc_central_admin_cursor.Auth.Permissions.{ResolvedAdmin, resolve_admin}
use slc_central_admin_cursor.Auth.Totp.{Verdict, matched, unmatched, threw, verify_totp}

unfoldable pub normalize_email : Env → String → String
normalize_email env email = env.to_lower_case (env.trim email)

pub record LoginResult : Type 0 where
  pub token : String
  pub expires_at : ℕ
  pub user : ResolvedAdmin

abbrev pub dummy_hash : String
dummy_hash =
    "$argon2id$v=19$m=19456,t=2,p=1$c29tZS1zYWx0LXZhbHVl$3s8b2i3o8n1Zr8m8m9q0Xh0Zr8m8m9q0Xh0Zr8m8m9q"

-- `admin?.passwordHash`, or the constant hash.
abbrev pub or_dummy : Option String → String
or_dummy none = dummy_hash
or_dummy (some hash) = hash

abbrev pub hash_of : Option AdminUser → Option String
hash_of none = none
hash_of (some a) = truthy a.password_hash

-- `getCurrentUser` passes the resolved administrator on, field by field.
unfoldable pub get_current_user : ℕ → World → Option ResolvedAdmin
get_current_user id w = resolve_admin id w

module _ (env : Env) where
  unfoldable pub not_on_list : String → Bool
  not_on_list email =
      let allowed = env.config.break_glass.allowed_emails in
      ltb 0 (length allowed) && not (includes allowed email)

  -- Some account that is not disabled, with the right password, on the list.
  unfoldable pub accepted : Option AdminUser → String → Bool → Option AdminUser
  accepted none password off_list = none
  accepted (some a) password off_list =
      if is_disabled a.status
        || not (env.verify_password (or_dummy (truthy a.password_hash)) password)
        || off_list
      then none
      else some a

  -- The reason that is logged; the caller is not told.
  failure_reason : Option AdminUser → String → Reason
  failure_reason none password = unknown_user
  failure_reason (some a) password =
      if is_disabled a.status then disabled_account else elim (truthy a.password_hash) [
        | none ↦ sso_only_account
        | some hash ↦
            if not (env.verify_password hash password)
            then bad_password
            else not_a_break_glass_account
      ]

  id_of : Option AdminUser → Option ℕ
  id_of none = none
  id_of (some a) = some a.id

  reject : Option AdminUser → String → Exec World AppError AdminUser
  unfolding failure_reason id_of
  reject admin password w =
      err (app_error 401 invalid_credentials)
        (record_event admin_login_failed (id_of admin) (some (failure_reason admin password)) w)

  -- The first factor: a known account and its password.
  unfoldable pub check_password : String → String → Exec World AppError AdminUser
  unfolding reject
  check_password email password w =
      let admin = find_admin (has_email email) w in
      elim (accepted admin password (not_on_list email)) [
        | none ↦ reject admin password w
        | some a ↦ ok a w
      ]

  -- `failMfa`.
  unfoldable pub fail_mfa : AdminUser → Reason → AppError → Exec World AppError Bool
  fail_mfa a reason error w =
      err error (record_event admin_login_failed (some a.id) (some reason) w)

  use_code : AdminUser → Verdict → Exec World AppError Bool
  use_code a (matched step) w =
      ok true (update_admin a.id (λ r. record r { mfa_last_used_step = some step }) w)
  use_code a unmatched w = fail_mfa a bad_mfa_code (app_error 401 invalid_code) w
  use_code a threw w = err other_error w

  opened : AdminUser → String → Option Text → Exec World AppError Bool
  unfolding use_code
  opened a otp none w = err other_error w
  opened a otp (some secret) w =
      use_code a (verify_totp env.hmac_sha1 secret (codes otp) a.mfa_last_used_step w.now) w

  with_key : AdminUser → String → String → Option String → Exec World AppError Bool
  unfolding opened
  with_key a sealed otp none w = err (app_error 500 mfa_not_configured) w
  with_key a sealed otp (some key) w = opened a otp (env.open_sealed sealed key) w

  with_code : AdminUser → String → Option String → Exec World AppError Bool
  unfolding with_key
  with_code a sealed none w = fail_mfa a mfa_code_missing (app_error 401 mfa_required) w
  with_code a sealed (some otp) w = with_key a sealed otp (truthy env.config.break_glass.mfa_key) w

  -- `admin.mfaEnabled && admin.mfaSecret`.
  abbrev pub mfa_secret_of : AdminUser → Option String
  mfa_secret_of a = if a.mfa_enabled then truthy a.mfa_secret else none

  by_secret : AdminUser → Option String → Option String → Exec World AppError Bool
  unfolding with_code
  by_secret a otp (some sealed) w = with_code a sealed (truthy otp) w
  by_secret a otp none w =
      if env.config.break_glass.require_mfa
      then fail_mfa a mfa_not_set_up (app_error 403 mfa_setup_required) w
      else ok false w

  -- The second factor; the result says whether a code was used.
  unfoldable pub second_factor : AdminUser → Option String → Exec World AppError Bool
  unfolding by_secret
  second_factor a otp w = by_secret a otp (mfa_secret_of a) w

  unfoldable pub login_ttl : Option ℕ
  login_ttl = if env.config.oidc then some env.config.break_glass.session_hours else none

  -- The current user after the sign-in, with the session's token.
  finish_login : IssuedSession → AdminUser → Option ResolvedAdmin → Exec World AppError LoginResult
  finish_login s a none w = err (app_error 500 internal_error) w
  finish_login s a (some user) w =
      ok (record { token = s.token; expires_at = s.expires_at; user = user })
        (record_event (if env.config.oidc then admin_break_glass_login else admin_login) (some a.id)
          none w)

  unfoldable pub start_session : SessionContext → AdminUser → Exec World AppError LoginResult
  unfolding login_ttl finish_login
  start_session ctx a = do
    s ← create_session env a.id ctx no_sso login_ttl
    modify (λ w. update_admin a.id (λ r. record r { last_login_at = some w.now }) w)
    (λ w. finish_login s a (get_current_user a.id w) w)

  unfoldable pub login :
      String → String → SessionContext → Option String → Exec World AppError LoginResult
  login email_input password ctx otp = do
    a ← check_password (normalize_email env email_input) password
    second_factor a otp
    start_session ctx a
