-- ===== src/Integration/Service/Gates.antt =====
-- What a test of a connection passes before it reports success, and what it leaves alone.
use slc_central_admin_cursor.Prelude.{
  ◌≡◌, refl, ap, inl, inr, ℕ, Bool, true, false, not, ◌&&◌, Option, none, some, String, List, [],
  ◌∷◌, Text, ◌==◌, nat_eq, list_eq, All, if◌then◌else◌, Outcome, ok, err, Exec, and_then-ok,
  ok-not_err, ok-injective,
}
use slc_central_admin_cursor.AppErrors.{AppError}
use slc_central_admin_cursor.Integration.Errors.{
  not_supported, environment_mismatch, config_invalid, IntegrationErrorCode, Thrown,
}
use slc_central_admin_cursor.Integration.Ssrf.Hosts.{Url, assert_allowed_outbound_url}
use slc_central_admin_cursor.Integration.Ssrf.Guards.{IsAllowed, assert_url-cases}
use slc_central_admin_cursor.Integration.Credentials.{CredentialReference, Resolved, resolve}
use slc_central_admin_cursor.Integration.Credentials.Guard.{is_usable, resolve-is_usable}
use slc_central_admin_cursor.Integration.Adapters.{get}
use slc_central_admin_cursor.Integration.Types.{
  not_applicable, disconnected, configured, ConnectionStatus, IntegrationEnvironment,
  environment_eq, Adapter, ConnectionTestResult, ResolvedCredential, ResolvedCredentialMap,
}
use slc_central_admin_cursor.Integration.Service.{
  IntegrationRow, ApplicationIntegration, State, to_dto, references_of, find_integration,
  get_integration-found, add_event,
}
use slc_central_admin_cursor.Integration.Service.Connect.{
  update_row, ServicePlatform, IntegrationService, fail, failed_result, failed_state,
  add_credential, resolve_credentials, check_base_url, connect, catch_connect, started_state,
  test_with, test_configured, test_connection,
}

module _ {W : Type 0} (p : ServicePlatform W) (service : IntegrationService W) where
  abbrev Usable : List CredentialReference → Type 0
  Usable refs = All (λ r. is_usable p.process_env service.runtime_env r ≡ true) refs

  added-usable :
      (ref : CredentialReference) (id : ℕ) (o : Resolved) (s : State W) {c : ResolvedCredential}
      {v : State W}
      → resolve p.process_env ref service.runtime_env ≡ o
      → add_credential p service id ref o s ≡ ok c v
      → is_usable p.process_env service.runtime_env ref ≡ true
  unfolding add_credential
  added-usable ref id (err code u) s q h = cc
  added-usable ref id (ok c u) s q h = resolve-is_usable p.process_env ref service.runtime_env q

  resolved-Usable :
      (id : ℕ) (refs : List CredentialReference) {m : ResolvedCredentialMap} (s : State W)
      {v : State W}
      → resolve_credentials p service id refs s ≡ ok m v
      → Usable refs
  unfolding resolve_credentials
  resolved-Usable id [] s h = tt
  resolved-Usable id (ref ∷ refs) s h =
      let (c, u, added, rest) =
        and_then-ok
          (add_credential p service id ref (resolve p.process_env ref service.runtime_env) _) _ h in
      let (m, u2, more, last) = and_then-ok (resolve_credentials p service id refs u) _ rest in
      (added-usable ref id _ s refl added, resolved-Usable id refs u more)

  -- An address is missing, or passes the checks on addresses.
  pub data Reachable : Option Text → Type 0 where
    no_address : Reachable none
    empty_address : Reachable (some [])
    allowed :
        (raw : Text) (url : Url)
        → p.parse_url raw ≡ some url
        → IsAllowed service.egress_allowlist url
        → Reachable (some raw)

  checked-Reachable :
      (base_url : Option Text) (s : State W) {v : State W}
      → check_base_url p service base_url s ≡ ok tt v
      → Reachable base_url
  unfolding check_base_url
  checked-Reachable none s h = no_address
  checked-Reachable (some []) s h = empty_address
  checked-Reachable (some (c ∷ cs)) s h =
      elim (assert_url-cases service.egress_allowlist p.parse_url (c ∷ cs) s) [
        | inl e ↦
            let (url, u, passed, rest) =
              and_then-ok
                (assert_allowed_outbound_url p.parse_url (c ∷ cs) service.egress_allowlist s) _ h in
            absurd (ok-not_err passed e)
        | inr (url, e, parsed, ok_url) ↦ allowed (c ∷ cs) url parsed ok_url
      ]

  -- What has been checked of a connection that a test reports as validated.
  pub record Validated (s : State W) (row : IntegrationRow) (adapter : Adapter W) : Type 0 where
    pub environment : (row.environment == service.runtime_env) ≡ true
    pub enabled : row.enabled ≡ true
    pub registered : get row.adapter_type service.registry ≡ some adapter
    pub credentials : Usable (references_of row.id s)
    pub address : Reachable row.base_url

  connect-validated :
      (dto : ApplicationIntegration) (adapter : Adapter W) (correlation_id : String) (s : State W)
      → {r : ConnectionTestResult} {v : State W}
      → connect p service dto adapter correlation_id s ≡ ok r v
      → Usable (references_of dto.row.id s) × Reachable dto.row.base_url
  unfolding connect
  connect-validated dto adapter correlation_id s h =
      let (m, u, resolved, rest) =
        and_then-ok (resolve_credentials p service dto.row.id (references_of dto.row.id s) s) _ h in
      let (_, u2, checked, rest2) =
        and_then-ok (check_base_url p service dto.row.base_url u) _ rest in
      (
        resolved-Usable dto.row.id (references_of dto.row.id s) s resolved,
        checked-Reachable dto.row.base_url u checked,
      )

  cong2 :
      {a b : ConnectionTestResult} {s t : State W}
      → (a ≡ b) × (s ≡ t)
      → ◌≡◌ {A = Outcome (State W) Thrown ConnectionTestResult} (ok a s) (ok b t)
  cong2 (x, y) = rw (x, y) refl

  failed-not_ok :
      (id : ℕ) (correlation_id : String) (code : IntegrationErrorCode) (status : ConnectionStatus)
      (s : State W)
      → {r : ConnectionTestResult} {v : State W}
      → fail p service id correlation_id code status s ≡ ok r v
      → r.is_ok ≡ true
      → ⊥
  unfolding fail failed_result
  failed-not_ok id correlation_id code status s h k =
      let (x, y) = ok-injective h in let same = ap (λ r. r.is_ok) x in cc

  gate :
      (b : Bool) (id : ℕ) (correlation_id : String) (code : IntegrationErrorCode)
      (status : ConnectionStatus)
      → (next : Exec (State W) AppError ConnectionTestResult) (s : State W)
      → {r : ConnectionTestResult} {v : State W}
      → (if not b then fail p service id correlation_id code status else next) s ≡ ok r v
      → r.is_ok ≡ true
      → (b ≡ true) × (next s ≡ ok r v)
  gate true id correlation_id code status next s h k = (refl, h)
  gate false id correlation_id code status next s h k =
      absurd (failed-not_ok id correlation_id code status s h k)

  -- A result that reports success is the one of the `try`.
  caught :
      (id : ℕ) (correlation_id : String) (o : Outcome (State W) Thrown ConnectionTestResult)
      → {r : ConnectionTestResult} {v : State W}
      → catch_connect p service id correlation_id o ≡ ok r v
      → r.is_ok ≡ true
      → o ≡ ok r v
  unfolding catch_connect fail failed_result
  caught id correlation_id (ok r s) h k = cong2 (ok-injective h)
  caught id correlation_id (err e s) h k = absurd (failed-not_ok _ _ _ _ _ h k)

  test_with-Validated :
      (row : IntegrationRow) (correlation_id : String) (found : Option (Adapter W)) (s : State W)
      → {r : ConnectionTestResult} {v : State W}
      → test_with p service (to_dto row s) correlation_id found s ≡ ok r v
      → r.is_ok ≡ true
      → (adapter : Adapter W) × (found ≡ some adapter)
        × Usable (references_of row.id s)
        × Reachable row.base_url
  unfolding test_with to_dto started_state add_event update_row
  test_with-Validated row correlation_id none s h k =
      absurd (failed-not_ok row.id correlation_id not_supported not_applicable s h k)
  test_with-Validated row correlation_id (some adapter) s h k =
      let (usable, reachable) =
        connect-validated (to_dto row s) adapter correlation_id (started_state p service row.id s) (
          caught row.id correlation_id
            (connect p service (to_dto row s) adapter correlation_id
              (started_state p service row.id s))
            h k) in
      (adapter, refl, usable, reachable)

  test_configured-Validated :
      (row : IntegrationRow) (correlation_id : String) (s : State W) {r : ConnectionTestResult}
      {v : State W}
      → test_configured p service (to_dto row s) correlation_id s ≡ ok r v
      → r.is_ok ≡ true
      → (adapter : Adapter W) × Validated s row adapter
  unfolding test_configured to_dto
  test_configured-Validated row correlation_id s h k =
      let (same, h2) = gate (row.environment == service.runtime_env) _ _ _ _ _ _ h k in
      let (enabled, h3) = gate row.enabled _ _ _ _ _ _ h2 k in
      let (adapter, there, usable, reachable) =
        test_with-Validated row correlation_id (get row.adapter_type service.registry) s h3 k in
      (
        adapter,
        record {
          environment = same;
          enabled = enabled;
          registered = there;
          credentials = usable;
          address = reachable;
        },
      )

  catch_connect-returns :
      (id : ℕ) (correlation_id : String) (o : Outcome (State W) Thrown ConnectionTestResult)
      → (r : ConnectionTestResult) × (v : State W) × (catch_connect p service id correlation_id o
          ≡ ok r v)
  unfolding catch_connect fail
  catch_connect-returns id correlation_id (ok r s) = (r, s, refl)
  catch_connect-returns id correlation_id (err e s) = (_, _, refl)

  test_with-returns :
      (dto : ApplicationIntegration) (correlation_id : String) (found : Option (Adapter W))
      (s : State W)
      → (r : ConnectionTestResult) × (v : State W) × (test_with p service dto correlation_id found s
          ≡ ok r v)
  unfolding test_with fail
  test_with-returns dto correlation_id none s = (_, _, refl)
  test_with-returns dto correlation_id (some adapter) s =
      catch_connect-returns dto.row.id correlation_id _

  gate_returns :
      (b : Bool) (id : ℕ) (correlation_id : String) (code : IntegrationErrorCode)
      (status : ConnectionStatus)
      → (next : Exec (State W) AppError ConnectionTestResult) (s : State W)
      → ((r : ConnectionTestResult) × (v : State W) × (next s ≡ ok r v))
      → (r : ConnectionTestResult) × (v : State W) × ((if not b
              then fail p service id correlation_id code status
              else next)
            s
          ≡ ok r v)
  unfolding fail
  gate_returns true id correlation_id code status next s h = h
  gate_returns false id correlation_id code status next s h = (_, _, refl)

  test_configured-returns :
      (dto : ApplicationIntegration) (correlation_id : String) (s : State W)
      → (r : ConnectionTestResult) × (v : State W) × (test_configured p service dto correlation_id s
          ≡ ok r v)
  unfolding test_configured
  test_configured-returns dto correlation_id s =
      gate_returns (dto.row.environment == service.runtime_env) _ _ _ _ _ _
        (gate_returns dto.row.enabled _ _ _ _ _ _ (test_with-returns dto correlation_id _ s))

  -- Where the application has an integration for the environment, and each call of its adapter
  -- settles, with a value or an error, a test of its connection throws nothing and comes back with a
  -- result. When the result reports success, the environment is the server's, the integration is
  -- enabled, its adapter is registered, the address, if it has one, passes the checks on addresses,
  -- and each reference is active, of that environment, and names a variable of the process that is
  -- set and not empty.
  pub test_connection-Validated :
      (application_id : ℕ) (environment : IntegrationEnvironment) (s : State W)
      (row : IntegrationRow)
      → find_integration application_id environment s ≡ some row
      → (r : ConnectionTestResult) × (v : State W) × (test_connection p service application_id
            environment s
          ≡ ok r v)
        × (r.is_ok ≡ true → (adapter : Adapter W) × Validated s row adapter)
  unfolding test_connection
  test_connection-Validated application_id environment s row h =
      let (r, v, q) = test_configured-returns (to_dto row s) (p.random_uuid s.outside) s in
      (
        r,
        v,
        rw (get_integration-found application_id environment s row h) q,
        λ k. test_configured-Validated row (p.random_uuid s.outside) s q k,
      )

  gated :
      (b c : Bool) (id : ℕ) (correlation_id : String) (s : State W)
      → (next : Exec (State W) AppError ConnectionTestResult) → (b && c) ≡ false
      → (code : IntegrationErrorCode) × (status : ConnectionStatus) × ((if not b
              then fail p service id correlation_id environment_mismatch disconnected
              else if not c
              then fail p service id correlation_id config_invalid configured
              else next)
            s
          ≡ ok (failed_result correlation_id code status) (failed_state id code status s))
  unfolding fail
  gated false c id correlation_id s next h = (_, _, refl)
  gated true false id correlation_id s next h = (_, _, refl)
  gated true true id correlation_id s next h = cc

  -- A test of a connection for another environment than the server's, or of an integration that is
  -- not enabled, comes back with a result that reports no success, and nothing outside was called:
  -- the world, the breakers and the references are as before.
  pub test_connection-gated :
      (application_id : ℕ) (environment : IntegrationEnvironment) (s : State W)
      (row : IntegrationRow)
      → find_integration application_id environment s ≡ some row
      → ((row.environment == service.runtime_env) && row.enabled) ≡ false
      → (r : ConnectionTestResult) × (v : State W) × (test_connection p service application_id
            environment s
          ≡ ok r v)
        × (r.is_ok ≡ false)
        × (v.outside ≡ s.outside)
        × (v.breakers ≡ s.breakers)
        × (v.credentials ≡ s.credentials)
  unfolding test_connection test_configured to_dto failed_result failed_state add_event update_row
  test_connection-gated application_id environment s row h g =
      let (code, status, q) =
        gated (row.environment == service.runtime_env) row.enabled row.id (p.random_uuid s.outside)
          s
          (test_with p service (to_dto row s) (p.random_uuid s.outside)
            (get row.adapter_type service.registry))
          g in
      (
        failed_result (p.random_uuid s.outside) code status,
        failed_state row.id code status s,
        rw (get_integration-found application_id environment s row h) q,
        refl,
        refl,
        refl,
        refl,
      )
