-- ===== src/Integration/Timeout.antt =====
-- `withTimeout` of apps/api/src/integration/policies.ts, for a task whose promise settles: where the
-- task passes over the signal and never settles, nor does the source. The timer and the signal belong to the
-- world: `start_timer` sets the one, `aborted` reads the other when the task has ended.
use slc_central_admin_cursor.Prelude.{ℕ, Bool, if◌then◌else◌, Outcome, ok, err, Exec}
use slc_central_admin_cursor.Integration.Errors.{Thrown, integration, new_error, timeout}

module _ {W A : Type 0} (start_timer : ℕ → W → W) (clear_timer : W → W) (aborted : W → Bool) where
  -- The `catch` and the `finally`.
  settle_timeout : Outcome W Thrown A → Outcome W Thrown A
  settle_timeout (ok a w) = ok a (clear_timer w)
  settle_timeout (err e w) =
      err (if aborted w then integration (new_error timeout) else e) (clear_timer w)

  unfoldable pub with_timeout : Exec W Thrown A → ℕ → Exec W Thrown A
  unfolding settle_timeout
  with_timeout task timeout_ms w = settle_timeout (task (start_timer timeout_ms w))
