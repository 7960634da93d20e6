-- ===== src/Integration/Service/Connect.antt =====
-- The test of a connection, `testConnection` of
-- apps/api/src/integration/integration.service.ts: credentials, the check of the address, and the
-- adapter behind its timeout, the retries and the circuit breaker. What the platform does is a
-- parameter, and so is the identifier that `randomUUID` gives.
use slc_central_admin_cursor.Prelude.{
  ℕ, Bool, true, false, not, Option, none, some, String, List, [], ◌∷◌, Text, ◌==◌, nat_eq, list_eq,
  if◌then◌else◌, Outcome, ok, err, Exec, modify, ◌>>=◌, ◌>>◌,
}
use slc_central_admin_cursor.AppErrors.{AppError}
use slc_central_admin_cursor.Rows.{update_where}
use slc_central_admin_cursor.Integration.Errors.{
  IntegrationErrorCode, timeout, upstream_5xx, rate_limited, network, circuit_open, not_supported,
  environment_mismatch, config_invalid, IntegrationError, Thrown, integration, other, new_error,
  normalize_error,
}
use slc_central_admin_cursor.Integration.Breaker.{CircuitBreaker, CircuitBreakerOptions, exec}
use slc_central_admin_cursor.Integration.Retry.{RetryOptions, with_retry}
use slc_central_admin_cursor.Integration.Timeout.{with_timeout}
use slc_central_admin_cursor.Integration.Ssrf.Hosts.{Url, assert_allowed_outbound_url}
use slc_central_admin_cursor.Integration.Credentials.{CredentialReference, resolve, Resolved}
use slc_central_admin_cursor.Integration.Adapters.{get, or_else}
use slc_central_admin_cursor.Integration.Types.{
  IntegrationEnvironment, environment_eq, ConnectionStatus, configured, testing, connected,
  degraded, disconnected, not_applicable, connection_test_started, connection_test_succeeded,
  connection_test_failed, credential_accessed, ConnectionTestResult, ResolvedCredential,
  ResolvedCredentialMap, AdapterContext, Adapter,
}
use slc_central_admin_cursor.Integration.Service.{
  IntegrationRow, ApplicationIntegration, State, no_detail, of_code, of_credential, is_row,
  add_event, get_integration, references_of, breaker_for, set_breaker,
}

-- What the code calls and does not implement.
pub record ServicePlatform (W : Type 0) : Type 0 where
  pub clock : W → ℕ
  pub sleep : ℕ → W → W
  pub random : ℕ → ℕ
  pub start_timer : ℕ → W → W
  pub clear_timer : W → W
  pub aborted : W → Bool
  pub random_uuid : W → String
  pub parse_url : Text → Option Url
  pub process_env : String → Option String

pub record IntegrationService (W : Type 0) : Type 0 where
  pub registry : List (Adapter W)
  pub runtime_env : IntegrationEnvironment
  pub egress_allowlist : List Text
  pub retry : RetryOptions
  pub breaker : CircuitBreakerOptions

-- The constructor with no options but those that have no constant default.
unfoldable pub new_service :
    {W : Type 0} → List (Adapter W) → IntegrationEnvironment → List Text → IntegrationService W
new_service registry runtime_env egress_allowlist = record {
  registry = registry;
  runtime_env = runtime_env;
  egress_allowlist = egress_allowlist;
  retry = record { retries = 2; base_delay_ms = 200; factor = 2; jitter = true };
  breaker = record { failure_threshold = 5; reset_timeout_ms = 30_000 };
}

unfoldable pub map_connection_status_for_error : IntegrationErrorCode → ConnectionStatus
map_connection_status_for_error not_supported = not_applicable
map_connection_status_for_error timeout = degraded
map_connection_status_for_error upstream_5xx = degraded
map_connection_status_for_error rate_limited = degraded
map_connection_status_for_error network = degraded
map_connection_status_for_error circuit_open = degraded
map_connection_status_for_error _ = disconnected

module _ {W : Type 0} where
  unfoldable pub update_row : ℕ → (IntegrationRow → IntegrationRow) → State W → State W
  update_row id f s = record s { integrations = update_where (is_row id) f s.integrations }

  -- `fail`: the state and the result.
  unfoldable pub failed_state : ℕ → IntegrationErrorCode → ConnectionStatus → State W → State W
  failed_state id code status s =
      add_event id connection_test_failed (of_code code)
        (update_row id (λ r. record r { connection_status = status; last_error = some code }) s)

unfoldable pub failed_result :
    String → IntegrationErrorCode → ConnectionStatus → ConnectionTestResult
failed_result correlation_id code status = record {
  connection_status = status;
  is_ok = false;
  code = some code;
  capabilities = [];
  correlation_id = correlation_id;
}

module _ {W : Type 0} (p : ServicePlatform W) (service : IntegrationService W) where
  unfoldable pub fail :
      ℕ
      → String
      → IntegrationErrorCode
      → ConnectionStatus
      → Exec (State W) AppError ConnectionTestResult
  fail id correlation_id code status s =
      ok (failed_result correlation_id code status) (failed_state id code status s)

  unfoldable pub add_credential :
      ℕ → CredentialReference → Resolved → Exec (State W) Thrown ResolvedCredential
  add_credential id ref (err code u) s = err (integration (new_error code)) s
  add_credential id ref (ok c u) s =
      ok c (add_event id credential_accessed (of_credential ref.name) s)

  -- The loop over the references. A name stands for one row of an integration.
  unfoldable pub resolve_credentials :
      ℕ → List CredentialReference → Exec (State W) Thrown ResolvedCredentialMap
  unfolding add_credential
  resolve_credentials id [] = (λ s. ok [] s)
  resolve_credentials id (ref ∷ refs) = do
    c ← add_credential id ref (resolve p.process_env ref service.runtime_env)
    rest ← resolve_credentials id refs
    (λ s. ok ((ref.name, c) ∷ rest) s)

  unfoldable pub check_base_url : Option Text → Exec (State W) Thrown (Unit {0})
  check_base_url none = (λ s. ok tt s)
  check_base_url (some url) =
      if url == []
      then (λ s. ok tt s)
      else assert_allowed_outbound_url p.parse_url url service.egress_allowlist >> (λ s. ok tt s)

  -- A retried task as a task again: the outcome of the loop, which its fuel covers.
  to_task : Option (Outcome W IntegrationError (Unit {0})) → W → Outcome W Thrown (Unit {0})
  to_task none w = err other w
  to_task (some (ok u v)) w = ok u v
  to_task (some (err e v)) w = err (integration e) v

  unfoldable pub attempt : Adapter W → AdapterContext → Exec W Thrown (Unit {0})
  attempt adapter ctx =
      with_timeout p.start_timer p.clear_timer p.aborted (adapter.validate_connection ctx)
        ctx.timeout_ms

  unfoldable pub retried : Adapter W → AdapterContext → Exec W Thrown (Unit {0})
  unfolding to_task
  retried adapter ctx w =
      to_task (with_retry service.retry p.sleep p.random (attempt adapter ctx) w) w

  -- The breaker and the world go back into the state.
  put_back :
      ℕ
      → State W
      → Outcome (CircuitBreaker × W) IntegrationError (Unit {0})
      → Outcome (State W) Thrown (Unit {0})
  put_back id s (ok u (b, w)) = ok u (set_breaker id b (record s { outside = w }))
  put_back id s (err e (b, w)) = err (integration e) (set_breaker id b (record s { outside = w }))

  unfoldable pub validate : ℕ → Adapter W → AdapterContext → Exec (State W) Thrown (Unit {0})
  unfolding put_back
  validate id adapter ctx s =
      put_back id s
        (exec service.breaker p.clock (retried adapter ctx) (breaker_for id s, s.outside))

  unfoldable pub context : IntegrationRow → String → ResolvedCredentialMap → AdapterContext
  context row correlation_id credentials = record {
    correlation_id = correlation_id;
    environment = service.runtime_env;
    base_url = row.base_url;
    timeout_ms = or_else row.timeout_ms 5_000;
    credentials = credentials;
  }

  -- The row of a connection that was validated, and the event.
  unfoldable pub connected_state : IntegrationRow → Adapter W → State W → State W
  connected_state row adapter s = add_event row.id connection_test_succeeded no_detail (
      update_row row.id
        (λ r. record r {
          connection_status = connected;
          capabilities = adapter.capabilities;
          last_error = none;
          last_tested_at = some (p.clock s.outside);
        })
        s)

  -- The body of the `try`.
  unfoldable pub connect :
      ApplicationIntegration → Adapter W → String → Exec (State W) Thrown ConnectionTestResult
  connect dto adapter correlation_id = do
    credentials ← (λ s. resolve_credentials dto.row.id (references_of dto.row.id s) s)
    check_base_url dto.row.base_url
    validate dto.row.id adapter (context dto.row correlation_id credentials)
    modify (connected_state dto.row adapter)
    (λ s.
        ok
          (record {
            connection_status = connected;
            is_ok = true;
            code = none;
            capabilities = adapter.capabilities;
            correlation_id = correlation_id;
          })
          s)

  -- The `catch`.
  unfoldable pub catch_connect :
      ℕ
      → String
      → Outcome (State W) Thrown ConnectionTestResult
      → Outcome (State W) AppError ConnectionTestResult
  catch_connect id correlation_id (ok r s) = ok r s
  catch_connect id correlation_id (err e s) =
      let code = (normalize_error e).code in
      fail id correlation_id code (map_connection_status_for_error code) s

  unfoldable pub started_state : ℕ → State W → State W
  started_state id s = add_event id connection_test_started no_detail (
      update_row id
        (λ r. record r { connection_status = testing; last_tested_at = some (p.clock s.outside) })
        s)

  unfoldable pub test_with :
      ApplicationIntegration
      → String
      → Option (Adapter W)
      → Exec (State W) AppError ConnectionTestResult
  test_with dto correlation_id none s =
      fail dto.row.id correlation_id not_supported not_applicable s
  test_with dto correlation_id (some adapter) s =
      catch_connect dto.row.id correlation_id
        (connect dto adapter correlation_id (started_state dto.row.id s))

  -- The gates before the adapter.
  unfoldable pub test_configured :
      ApplicationIntegration → String → Exec (State W) AppError ConnectionTestResult
  test_configured dto correlation_id =
      if not (dto.row.environment == service.runtime_env)
      then fail dto.row.id correlation_id environment_mismatch disconnected
      else if not dto.row.enabled
      then fail dto.row.id correlation_id config_invalid configured
      else test_with dto correlation_id (get dto.row.adapter_type service.registry)

  unfoldable pub test_connection :
      ℕ → IntegrationEnvironment → Exec (State W) AppError ConnectionTestResult
  test_connection application_id environment = do
    dto ← get_integration application_id environment
    (λ s. test_configured dto (p.random_uuid s.outside) s)
