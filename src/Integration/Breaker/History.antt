-- ===== src/Integration/Breaker/History.antt =====
-- What the breaker's state says of the calls so far, for calls that overlap in any way.
use slc_central_admin_cursor.Prelude.{ℕ, ◌+◌, ◌≤◌, ◌<◌, ◌≡◌, ◌≢◌, List, [], ◌∷◌, arith}
use slc_central_admin_cursor.Integration.Breaker.{
  closed, CircuitBreakerOptions, CircuitBreaker, new_breaker, Event, begin, success, failure, step,
  run,
}

-- The failures since the last success, oldest event first, beginning from `n`.
unfoldable pub failures_since_success : ℕ → List Event → ℕ
failures_since_success n [] = n
failures_since_success n (begin now ∷ es) = failures_since_success n es
failures_since_success n (success ∷ es) = failures_since_success 0 es
failures_since_success n (failure now ∷ es) = failures_since_success (n + 1) es

-- The breaker is closed just while it has counted fewer failures than the threshold.
pub record Counts (o : CircuitBreakerOptions) (n : ℕ) (b : CircuitBreaker) : Type 0 where
  pub counted : b.failures ≡ n
  pub below : b.state ≡ closed → n < o.failure_threshold
  pub above : b.state ≢ closed → o.failure_threshold ≤ n

module _ (o : CircuitBreakerOptions) (positive : 0 < o.failure_threshold) where
  begin-Counts : (b : CircuitBreaker) (n now : ℕ) → Counts o n b → Counts o n (step o b (begin now))
  unfolding step
  begin-Counts b n now c = ground arith

  success-Counts : (b : CircuitBreaker) (n : ℕ) → Counts o n b → Counts o 0 (step o b success)
  unfolding step
  success-Counts b n c = ground arith

  failure-Counts :
      (b : CircuitBreaker) (n now : ℕ) → Counts o n b → Counts o (n + 1) (step o b (failure now))
  unfolding step
  failure-Counts b n now c = ground arith

  run-Counts :
      (b : CircuitBreaker) (n : ℕ) (es : List Event)
      → Counts o n b
      → Counts o (failures_since_success n es) (run o b es)
  unfolding run failures_since_success
  run-Counts b n [] c = c
  run-Counts b n (begin now ∷ es) c =
      run-Counts (step o b (begin now)) n es (begin-Counts b n now c)
  run-Counts b n (success ∷ es) c = run-Counts (step o b success) 0 es (success-Counts b n c)
  run-Counts b n (failure now ∷ es) c =
      run-Counts (step o b (failure now)) (n + 1) es (failure-Counts b n now c)

  -- Where `failureThreshold` is not 0, and however the calls before it overlapped, a breaker is closed exactly while fewer than
  -- `failureThreshold` failures have come since the last success, and its count is their number.
  pub run-history :
      (es : List Event)
      → let n = failures_since_success 0 es in
        let b = run o new_breaker es in
        (b.failures ≡ n)
        × (b.state ≡ closed → n < o.failure_threshold)
        × (b.state ≢ closed → o.failure_threshold ≤ n)
  unfolding new_breaker
  run-history es =
      let c = run-Counts new_breaker 0 es (ground arith) in (c.counted, c.below, c.above)
