-- ===== src/Integration/Retry/Attempts.antt =====
-- How often the task is called, and how long the code sleeps between the calls.
use slc_central_admin_cursor.Prelude.{
  Outcome-cases, ℕ, zero, suc, ◌+◌, ◌*◌, ◌^◌, ◌≤◌, ◌<◌, ◌≡◌, refl, ap, sym, ◌∙◌, inl, inr, Bool,
  true, false, not, ◌||◌, some, List, [], ◌∷◌, ◌++◌, leb, arith, Outcome, ok, err, Exec, state_of,
  Bool-cases,
}
use mathlib.Core.List.{append_assoc, append-nil}
use slc_central_admin_cursor.Integration.Errors.{IntegrationError, Thrown, normalize_error}
use slc_central_admin_cursor.Integration.Retry.{RetryOptions, delay, retry_loop, with_retry}

-- A result that is an error which may be retried.
abbrev pub is_retryable : {W A : Type 0} → Outcome W IntegrationError A → Bool
is_retryable (ok a w) = false
is_retryable (err e w) = e.retryable

jitter_bounds :
    (b u : ℕ) → u < 2 ^ 53 → (b * 2 ^ 53 ≤ b * (2 ^ 53 + u)) × (b * (2 ^ 53 + u) ≤ b * 2 ^ 54)
jitter_bounds b u h = grind arith

-- With jitter a delay is at least half the backoff and less than the whole, without it the whole.
pub delay_bounds :
    (o : RetryOptions) (u attempt : ℕ)
    → u < 2 ^ 53
    → let backoff = o.base_delay_ms * o.factor ^ attempt in
      (backoff * 2 ^ 53 ≤ delay o u attempt) × (delay o u attempt ≤ backoff * 2 ^ 54)
unfolding delay
delay_bounds o u attempt h =
    let backoff = o.base_delay_ms * o.factor ^ attempt in
    elim (Bool-cases o.jitter) [
      | inl e ↦ rw e (jitter_bounds backoff u h)
      | inr e ↦ rw e (omega arith, omega arith)
    ]

module _ (o : RetryOptions) (random : ℕ → ℕ) where
  -- The delays after `n` failed attempts, from the attempt with number `k`.
  unfoldable pub delays : ℕ → ℕ → List ℕ
  delays k zero = []
  delays k (suc n) = delay o (random k) k ∷ delays (k + 1) n

-- What a run has done: `n` calls beyond the first, each after its delay, and all of those that the
-- options allow if it ends in an error that may be retried.
pub record Ran {W A : Type 0} (o : RetryOptions) (random : ℕ → ℕ) (calls : W → ℕ)
    (slept : W → List ℕ) (k : ℕ) (w : W) (r : Outcome W IntegrationError A) (n : ℕ) : Type 0 where
  pub called : calls (state_of r) ≡ calls w + n + 1
  pub delayed : slept (state_of r) ≡ slept w ++ delays o random k n
  pub allowed : k + n ≤ o.retries
  pub exhausted : is_retryable r ≡ true → k + n ≡ o.retries

module _ {W A : Type 0} (o : RetryOptions) (sleep : ℕ → W → W) (random : ℕ → ℕ)
    (task : Exec W Thrown A) where
  stop_ok :
      (fuel k : ℕ) (w v : W) (a : A)
      → task w ≡ ok a v
      → retry_loop o sleep random task (suc fuel) k w ≡ some (ok a v)
  unfolding retry_loop
  stop_ok fuel k w v a e = rw (e, retry_loop)

  stop_err :
      (fuel k : ℕ) (w v : W) (e : Thrown)
      → task w ≡ err e v
      → (not (normalize_error e).retryable || leb o.retries k) ≡ true
      → retry_loop o sleep random task (suc fuel) k w ≡ some (err (normalize_error e) v)
  unfolding retry_loop
  stop_err fuel k w v e p q = rw (p, q, retry_loop)

  go_on :
      (fuel k : ℕ) (w v : W) (e : Thrown)
      → task w ≡ err e v
      → (not (normalize_error e).retryable || leb o.retries k) ≡ false
      → retry_loop o sleep random task (suc fuel) k w
        ≡ retry_loop o sleep random task fuel (k + 1) (sleep (delay o (random k) k) v)
  unfolding retry_loop
  go_on fuel k w v e p q = rw (p, q, retry_loop)

  module _ (calls : W → ℕ) (slept : W → List ℕ)
      (task_calls : (w : W) → calls (state_of (task w)) ≡ calls w + 1)
      (task_slept : (w : W) → slept (state_of (task w)) ≡ slept w)
      (sleep_calls : (d : ℕ) (w : W) → calls (sleep d w) ≡ calls w)
      (sleep_slept : (d : ℕ) (w : W) → slept (sleep d w) ≡ slept w ++ d ∷ []) where
    one_call :
        (k : ℕ) (w v : W) (r : Outcome W IntegrationError A)
        → state_of (task w) ≡ v
        → state_of r ≡ v
        → k ≤ o.retries
        → (is_retryable r ≡ true → k ≡ o.retries)
        → Ran o random calls slept k w r 0
    unfolding delays
    one_call k w v r p q h x = record {
      called = omega (arith, task_calls w, ap calls p, ap calls q);
      delayed = rw append-nil (ap slept q ∙ sym (ap slept p) ∙ task_slept w);
      allowed = omega arith;
      exhausted = λ t. omega (arith, x t);
    }

    more_calls :
        (k n : ℕ) (w v : W) (r : Outcome W IntegrationError A)
        → state_of (task w) ≡ v
        → Ran o random calls slept (k + 1) (sleep (delay o (random k) k) v) r n
        → Ran o random calls slept k w r (suc n)
    unfolding delays
    more_calls k n w v r p ran = record {
      called =
          omega (arith, task_calls w, ap calls p, sleep_calls (delay o (random k) k) v, ran.called);
      delayed = ran.delayed ∙ rw sleep_slept (rw append_assoc (rw (← p) (rw task_slept)));
      allowed = omega (arith, ran.allowed);
      exhausted = λ t. omega (arith, ran.exhausted t);
    }

    retryable_at_end :
        (k : ℕ) (e : IntegrationError)
        → k ≤ o.retries
        → (not e.retryable || leb o.retries k) ≡ true
        → e.retryable ≡ true
        → k ≡ o.retries
    retryable_at_end k e h p q = ground arith

    below_end : (k : ℕ) (b : Bool) → (b || leb o.retries k) ≡ false → k + 1 ≤ o.retries
    below_end k b h = ground arith

    loop-Ran :
        (fuel k : ℕ) (w : W)
        → k ≤ o.retries
        → o.retries < k + fuel
        → (r : Outcome W IntegrationError A) × (n : ℕ) × (retry_loop o sleep random task fuel k w
            ≡ some r)
          × Ran o random calls slept k w r n
    loop-Ran zero k w h f = absurd (omega arith)
    loop-Ran (suc fuel) k w h f = elim (Outcome-cases (task w)) [
      | inl (a, v, e) ↦ (
        ok a v,
        0,
        stop_ok fuel k w v a e,
        one_call k w v (ok a v) (ap state_of e) refl h (λ t. cc),
      )
      | inr (e, v, p) ↦ elim (Bool-cases (not (normalize_error e).retryable || leb o.retries k)) [
        | inl q ↦
            let x = normalize_error e in
            (
              err x v,
              0,
              stop_err fuel k w v e p q,
              one_call k w v (err x v) (ap state_of p) refl h (retryable_at_end k x h q),
            )
        | inr q ↦
            let more = below_end k (not (normalize_error e).retryable) q in
            let (r, n, returns, ran) =
              loop-Ran fuel (k + 1) (sleep (delay o (random k) k) v) more (omega arith) in
            (r, suc n, go_on fuel k w v e p q ∙ returns, more_calls k n w v r (ap state_of p) ran)
      ]
    ]

    -- `withRetry` always ends, after one call of the task and then one more for each retry, of
    -- which there are at most `retries`, all of them if the error that it throws may be retried.
    -- Between two calls it sleeps once, by the backoff of the attempt that failed.
    pub with_retry-attempts :
        (w : W)
        → (r : Outcome W IntegrationError A) × (n : ℕ) × (with_retry o sleep random task w ≡ some r)
          × (n ≤ o.retries)
          × (calls (state_of r) ≡ calls w + n + 1)
          × (slept (state_of r) ≡ slept w ++ delays o random 0 n)
          × (is_retryable r ≡ true → n ≡ o.retries)
    unfolding with_retry
    with_retry-attempts w =
        let (r, n, returns, ran) = loop-Ran (o.retries + 1) 0 w (omega arith) (omega arith) in
        (
          r,
          n,
          returns,
          omega (arith, ran.allowed),
          ran.called,
          ran.delayed,
          λ t. omega (arith, ran.exhausted t),
        )
