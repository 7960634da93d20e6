-- ===== src/AppErrors.antt =====
-- The errors that the handlers of the API throw, apps/api/src/errors/AppError.ts, and what a text
-- counts for in a test.
use slc_central_admin_cursor.Prelude.{ℕ, Option, none, some, String, ◌==◌, string_eq, if◌then◌else◌}

-- The `code` of an `AppError`.
pub data ErrorCode : Type 0 where
  unauthenticated forbidden invalid_credentials mfa_required mfa_not_configured : ErrorCode
  invalid_code mfa_setup_required internal_error not_found sso_account : ErrorCode
  validation_error last_super_admin email_taken roles_not_seeded csrf_failed : ErrorCode
  sso_disabled slug_taken : ErrorCode

-- `SsoErrorCode` of oidc.service.ts.
pub data SsoErrorCode : Type 0 where
  sso_failed sso_no_access sso_account_disabled sso_email_missing : SsoErrorCode
  sso_email_unverified sso_email_conflict : SsoErrorCode

-- An `AppError` by its status and code, an `SsoLoginError` by its own code, or any other error (of
-- the database, or of a decoder).
pub data AppError : Type 0 where
  app_error : ℕ → ErrorCode → AppError
  sso_login_error : SsoErrorCode → AppError
  other_error : AppError

-- A text that counts as true: given, and not empty.
abbrev pub truthy : Option String → Option String
truthy none = none
truthy (some s) = if s == "" then none else some s
