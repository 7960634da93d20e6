-- ===== src/Integration/Breaker.antt =====
-- The circuit breaker of apps/api/src/integration/policies.ts, with the clock that the source
-- injects. A call of `exec` is split where it awaits its task, so that calls can overlap; `exec`
-- itself is the call that no other overlaps.
pub mod History
pub mod Calls
use slc_central_admin_cursor.Prelude.{
  ℕ, ◌+◌, Bool, true, false, ◌||◌, Option, none, some, List, [], ◌∷◌, leb, if◌then◌else◌, Outcome,
  ok, err, Exec,
}
use slc_central_admin_cursor.Integration.Errors.{
  IntegrationError, circuit_open, Thrown, new_error, normalize_error,
}

pub data CircuitState : Type 0 where
  closed opened half_open : CircuitState

pub record CircuitBreakerOptions : Type 0 where
  pub failure_threshold : ℕ
  pub reset_timeout_ms : ℕ

pub record CircuitBreaker : Type 0 where
  pub state : CircuitState
  pub failures : ℕ
  pub opened_at : ℕ

unfoldable pub new_breaker : CircuitBreaker
new_breaker = record { state = closed; failures = 0; opened_at = 0 }

abbrev is_half_open : CircuitState → Bool
is_half_open half_open = true
is_half_open _ = false

-- What a call does at time `now` by the state it finds; `now - openedAt >= reset` is written
-- without the subtraction.
admit_by : CircuitState → CircuitBreakerOptions → CircuitBreaker → ℕ → Option CircuitBreaker
admit_by opened o b now =
    if leb (b.opened_at + o.reset_timeout_ms) now
    then some (record b { state = half_open })
    else none
admit_by _ o b now = some b

-- `exec` up to its task: `none` if it throws CIRCUIT_OPEN.
unfoldable pub admit : CircuitBreakerOptions → CircuitBreaker → ℕ → Option CircuitBreaker
unfolding admit_by
admit o b now = admit_by b.state o b now

unfoldable pub on_success : CircuitBreaker → CircuitBreaker
on_success b = record b { failures = 0; state = closed }

unfoldable pub on_failure : CircuitBreakerOptions → CircuitBreaker → ℕ → CircuitBreaker
on_failure o b now =
    let c = record b { failures = b.failures + 1 } in
    if is_half_open c.state || leb o.failure_threshold c.failures
    then record c { state = opened; opened_at = now }
    else c

module _ {W A : Type 0} (o : CircuitBreakerOptions) (clock : W → ℕ) where
  -- `exec` after its task.
  settle : CircuitBreaker → Outcome W Thrown A → Outcome (CircuitBreaker × W) IntegrationError A
  settle b (ok result w) = ok result (on_success b, w)
  settle b (err error w) = err (normalize_error error) (on_failure o b (clock w), w)

  unfoldable pub exec : Exec W Thrown A → Exec (CircuitBreaker × W) IntegrationError A
  unfolding settle
  exec task (b, w) = elim (admit o b (clock w)) [
    | none ↦ err (new_error circuit_open) (b, w)
    | some b' ↦ settle b' (task w)
  ]

-- The points at which overlapping calls touch the breaker.
pub data Event : Type 0 where
  begin : ℕ → Event
  success : Event
  failure : ℕ → Event

-- A call that is refused leaves the breaker as it was.
abbrev pub or_same : CircuitBreaker → Option CircuitBreaker → CircuitBreaker
or_same b none = b
or_same b (some b') = b'

unfoldable pub step : CircuitBreakerOptions → CircuitBreaker → Event → CircuitBreaker
unfolding admit on_success on_failure
step o b (begin now) = or_same b (admit o b now)
step o b success = on_success b
step o b (failure now) = on_failure o b now

unfoldable pub run : CircuitBreakerOptions → CircuitBreaker → List Event → CircuitBreaker
run o b [] = b
run o b (e ∷ es) = run o (step o b e) es
