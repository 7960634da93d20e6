-- ===== src/Integration/Errors.antt =====
-- apps/api/src/integration/errors.ts: the error of the layer, and how any thrown value becomes one.
-- Messages and the names of errors are left out: the code only shows them.
use slc_central_admin_cursor.Prelude.{Bool, true, false}

-- `IntegrationErrorCode` of packages/shared/src/index.ts.
pub data IntegrationErrorCode : Type 0 where
  timeout unauthorized forbidden not_found rate_limited upstream_5xx : IntegrationErrorCode
  malformed_response network circuit_open not_supported : IntegrationErrorCode
  environment_mismatch credential_revoked ssrf_blocked config_invalid : IntegrationErrorCode

pub record IntegrationError : Type 0 where
  pub code : IntegrationErrorCode
  pub retryable : Bool

-- Membership in `DEFAULT_RETRYABLE`.
unfoldable pub default_retryable : IntegrationErrorCode → Bool
default_retryable timeout = true
default_retryable rate_limited = true
default_retryable upstream_5xx = true
default_retryable network = true
default_retryable _ = false

-- The constructor with no `retryable` option.
unfoldable pub new_error : IntegrationErrorCode → IntegrationError
unfolding default_retryable
new_error code = record { code = code; retryable = default_retryable code }

-- What a task can throw: an error of the layer, an `Error` named `AbortError`, or anything else.
pub data Thrown : Type 0 where
  integration : IntegrationError → Thrown
  abort_error : Thrown
  other : Thrown

unfoldable pub normalize_error : Thrown → IntegrationError
unfolding new_error
normalize_error (integration error) = error
normalize_error abort_error = new_error timeout
normalize_error other = new_error network
