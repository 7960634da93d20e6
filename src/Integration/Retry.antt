-- ===== src/Integration/Retry.antt =====
-- `withRetry` of apps/api/src/integration/policies.ts, around a task that changes a world `W`; the
-- sleeper and the random numbers are parameters, as they are options in the source.
pub mod Attempts
use slc_central_admin_cursor.Prelude.{
  ℕ, zero, suc, ◌+◌, ◌*◌, ◌^◌, Bool, true, false, not, ◌||◌, Option, none, some, leb, if◌then◌else◌,
  Outcome, ok, err, Exec,
}
use slc_central_admin_cursor.Integration.Errors.{IntegrationError, Thrown, normalize_error}

pub record RetryOptions : Type 0 where
  pub retries : ℕ
  pub base_delay_ms : ℕ
  pub factor : ℕ
  pub jitter : Bool

-- `Math.random()` is u / 2^53 for some u < 2^53, so a delay is a whole number of 2^-54 ms: the
-- product of the backoff with 0.5 + (u / 2^53) * 0.5, with no rounding.
unfoldable pub delay : RetryOptions → ℕ → ℕ → ℕ
delay o u attempt =
    let backoff = o.base_delay_ms * o.factor ^ attempt in
    if o.jitter then backoff * (2 ^ 53 + u) else backoff * 2 ^ 54

module _ {W A : Type 0} (o : RetryOptions) (sleep : ℕ → W → W) (random : ℕ → ℕ)
    (task : Exec W Thrown A) where
  -- The loop, from the attempt with the given number; `none` if the fuel ran out.
  unfoldable pub retry_loop : ℕ → ℕ → W → Option (Outcome W IntegrationError A)
  retry_loop zero attempt w = none
  retry_loop (suc fuel) attempt w = elim (task w) [
    | ok result v ↦ some (ok result v)
    | err error v ↦ elim (not (normalize_error error).retryable || leb o.retries attempt) [
      | true ↦ some (err (normalize_error error) v)
      | false ↦ retry_loop fuel (attempt + 1) (sleep (delay o (random attempt) attempt) v)
    ]
  ]

  -- A loop that ends by `attempt >= retries` makes at most `retries + 1` rounds.
  unfoldable pub with_retry : W → Option (Outcome W IntegrationError A)
  unfolding retry_loop
  with_retry w = retry_loop (o.retries + 1) 0 w
