-- ===== src/Integration/Breaker/Calls.antt =====
-- How often calls made one after the other reach their target.
use native.Mathlib.Decide.{dec_le}
use slc_central_admin_cursor.Prelude.{
  ℕ, zero, suc, ◌+◌, ◌-◌, ◌≤◌, ◌<◌, min, ◌≡◌, refl, ap, ◌∙◌, Bool, true, false, arith, Outcome, ok,
  err, Exec, state_of,
}
use slc_central_admin_cursor.Integration.Errors.{Thrown}
use slc_central_admin_cursor.Integration.Breaker.{
  closed, opened, CircuitBreakerOptions, CircuitBreaker, new_breaker, admit, on_failure, exec,
}

abbrev pub is_err : {W E A : Type 0} → Outcome W E A → Bool
is_err (ok a w) = false
is_err (err e w) = true

module _ (o : CircuitBreakerOptions) where
  opens_at :
      (b : CircuitBreaker) (now : ℕ)
      → o.failure_threshold ≤ b.failures + 1
      → ((on_failure o b now).state ≡ opened) × ((on_failure o b now).opened_at ≡ now)
  unfolding on_failure
  opens_at b now h = ground arith

  stays_closed :
      (b : CircuitBreaker) (now : ℕ)
      → b.state ≡ closed
      → b.failures + 1 < o.failure_threshold
      → ((on_failure o b now).state ≡ closed) × ((on_failure o b now).failures ≡ b.failures + 1)
  unfolding on_failure
  stays_closed b now c h = ground arith

module _ {W A : Type 0} (o : CircuitBreakerOptions) (clock : W → ℕ) (task : Exec W Thrown A) where
  -- The task is called through the breaker `n` times, one call after the other.
  unfoldable pub repeat_exec : ℕ → CircuitBreaker × W → CircuitBreaker × W
  repeat_exec zero s = s
  repeat_exec (suc n) s = repeat_exec n (state_of (exec o clock task s))

  repeat_exec-suc :
      (n : ℕ) (s s' : CircuitBreaker × W)
      → state_of (exec o clock task s) ≡ s'
      → repeat_exec (suc n) s ≡ repeat_exec n s'
  unfolding repeat_exec
  repeat_exec-suc n s s' e = ap (repeat_exec n) e

  failing_closed :
      (b : CircuitBreaker) (w : W)
      → b.state ≡ closed
      → is_err (task w) ≡ true
      → state_of (exec o clock task (b, w))
        ≡ (on_failure o b (clock (state_of (task w))), state_of (task w))
  unfolding exec admit
  failing_closed b w c f = ground arith

  refused_open :
      (b : CircuitBreaker) (w : W)
      → b.state ≡ opened
      → clock w < b.opened_at + o.reset_timeout_ms
      → state_of (exec o clock task (b, w)) ≡ (b, w)
  unfolding exec admit
  refused_open b w c early = ground arith

module _ {W A : Type 0} (o : CircuitBreakerOptions) (clock : W → ℕ) (task : Exec W Thrown A)
    (calls : W → ℕ) (one_call : (w : W) → calls (state_of (task w)) ≡ calls w + 1)
    (fails : (w : W) → is_err (task w) ≡ true)
    (window : (v w : W) → clock v < clock w + o.reset_timeout_ms) where
  stays_open :
      (n : ℕ) (b : CircuitBreaker) (w : W)
      → b.state ≡ opened
      → ((v : W) → clock v < b.opened_at + o.reset_timeout_ms)
      → repeat_exec o clock task n (b, w) ≡ (b, w)
  unfolding repeat_exec
  stays_open zero b w c early = refl
  stays_open (suc n) b w c early =
      repeat_exec-suc o clock task n (b, w) (b, w) (refused_open o clock task b w c (early w))
      ∙ stays_open n b w c early

  -- The calls that still reach the target, from a closed breaker.
  calls-repeat_exec :
      (n : ℕ) (b : CircuitBreaker) (w : W)
      → b.state ≡ closed
      → b.failures < o.failure_threshold
      → calls (repeat_exec o clock task n (b, w)).1
        ≡ calls w + min n (o.failure_threshold - b.failures)
  calls-repeat_exec zero b w c below = unfold repeat_exec in omega arith
  calls-repeat_exec (suc n) b w c below =
      let v = state_of (task w) in
      let b' = on_failure o b (clock v) in
      rw
        (repeat_exec-suc o clock task n (b, w) (b', v)
          (failing_closed o clock task b w c (fails w)))
        (elim (dec_le o.failure_threshold (b.failures + 1)) [
          | yes last ↦
              rw
                (stays_open n b' v (opens_at o b (clock v) last).0
                  (λ u. rw (opens_at o b (clock v) last).1 (window u v)))
                (omega (arith, one_call w))
          | no more ↦
              let kept = stays_closed o b (clock v) c (omega arith) in
              omega (
                arith,
                one_call w,
                kept.1,
                calls-repeat_exec n b' v kept.0 (rw kept.1 (omega arith)),
              )
        ])

  -- Where `failureThreshold` is not 0: for a task that always fails, called through a new breaker `n` times one after the other, all
  -- within the reset time: the target is called `n` times, and `failureThreshold` times at most.
  pub calls-failing_target :
      (n : ℕ) (w : W)
      → 0 < o.failure_threshold
      → calls (repeat_exec o clock task n (new_breaker, w)).1 ≡ calls w + min n o.failure_threshold
  unfolding new_breaker
  calls-failing_target n w positive = omega (arith, calls-repeat_exec n new_breaker w refl positive)
