-- ===== src/Examples/Policies.antt =====
-- The retry loop and the circuit breaker at work.
use slc_central_admin_cursor.Prelude.{
  ℕ, ◌+◌, ◌≤◌, ◌<◌, min, ◌≡◌, refl, ◌≢◌, true, some, List, [], ◌∷◌, ◌++◌, arith, Outcome, err, Exec,
  state_of,
}
use slc_central_admin_cursor.Integration.Errors.{IntegrationError, Thrown, other}
use slc_central_admin_cursor.Integration.Breaker.{
  CircuitBreakerOptions, CircuitBreaker, closed, opened, new_breaker, begin, failure, Event, step,
  run,
}
use slc_central_admin_cursor.Integration.Breaker.History.{failures_since_success, run-history}
use slc_central_admin_cursor.Integration.Breaker.Calls.{repeat_exec, calls-failing_target}
use slc_central_admin_cursor.Integration.Retry.{RetryOptions, with_retry}
use slc_central_admin_cursor.Integration.Retry.Attempts.{delays, is_retryable, with_retry-attempts}

-- Opens at the second failure, for 1000 ms.
abbrev two_failures : CircuitBreakerOptions
two_failures = record { failure_threshold = 2; reset_timeout_ms = 1000 }

abbrev overlapping : List Event
overlapping = begin 5 ∷ begin 6 ∷ failure 10 ∷ begin 11 ∷ failure 12 ∷ begin 13 ∷ []

overlapping_opens :
    run two_failures new_breaker overlapping
    ≡ record { state = opened; failures = 2; opened_at = 12 }
unfolding run step new_breaker
overlapping_opens = refl

run-history_example :
    let n = failures_since_success 0 overlapping in
    let b = run two_failures new_breaker overlapping in
    (b.failures ≡ n) × (b.state ≡ closed → n < 2) × (b.state ≢ closed → 2 ≤ n)
run-history_example = run-history two_failures (omega arith) overlapping

abbrev open_since_12 : CircuitBreaker
open_since_12 = record { state = opened; failures = 2; opened_at = 12 }

-- A target that always fails; the world counts its calls.
abbrev failing : Exec ℕ Thrown ℕ
failing w = err other (w + 1)

abbrev at_noon : ℕ → ℕ
at_noon w = 12

calls-failing_target_example :
    (repeat_exec two_failures at_noon failing 5 (new_breaker, 0)).1 ≡ 0 + min 5 2
calls-failing_target_example =
    calls-failing_target two_failures at_noon failing (λ w. w) (λ w. refl) (λ w. refl)
      (λ v w. omega arith) 5 0 (omega arith)

abbrev service_retry : RetryOptions
service_retry = record { retries = 2; base_delay_ms = 200; factor = 2; jitter = true }

abbrev Counted : Type 0
Counted = ℕ × List ℕ

abbrev sleeper : ℕ → Counted → Counted
sleeper d w = (w.0, w.1 ++ d ∷ [])

abbrev down : Exec Counted Thrown ℕ
down w = err other (w.0 + 1, w.1)

with_retry-attempts_example :
    (r : Outcome Counted IntegrationError ℕ) × (n : ℕ) × (with_retry service_retry sleeper
        (λ k. 0)
        down
        (0, [])
      ≡ some r)
    × (n ≤ 2)
    × ((state_of r).0 ≡ 0 + n + 1)
    × ((state_of r).1 ≡ [] ++ delays service_retry (λ k. 0) 0 n)
    × (is_retryable r ≡ true → n ≡ 2)
with_retry-attempts_example =
    with_retry-attempts service_retry sleeper (λ k. 0) down (λ w. w.0) (λ w. w.1) (λ w. refl)
      (λ w. refl) (λ d w. refl) (λ d w. refl) (0, [])
