-- ===== src/Examples/Integrations.antt =====
-- An integration with an adapter that answers, configured and tested.
use slc_central_admin_cursor.Prelude.{
  string_eq, ℕ, ◌≡◌, refl, true, false, none, some, [], ◌∷◌, nat_eq, string_eq, ok, All,
}
use slc_central_admin_cursor.Integration.Credentials.{CredentialReference}
use slc_central_admin_cursor.Integration.Types.{
  staging, production, environment_eq, env, active, configured, ConfigureIntegrationInput,
  CredentialReferenceInput, Adapter, ConnectionTestResult,
}
use slc_central_admin_cursor.Integration.Adapters.{mock_adapter}
use slc_central_admin_cursor.Integration.Service.{
  IntegrationRow, State, kept_names, find_integration, write_references,
}
use slc_central_admin_cursor.Integration.Service.Connect.{
  ServicePlatform, IntegrationService, new_service, test_connection,
}
use slc_central_admin_cursor.Integration.Service.Gates.{
  Validated, test_connection-Validated, test_connection-gated,
}
use slc_central_admin_cursor.Integration.Service.References.{
  NamedIn, others, write_references-NamedIn,
}

-- The world counts the attempts of the mock.
abbrev platform : ServicePlatform ℕ
platform = record {
  clock = λ w. 0;
  sleep = λ ms w. w;
  random = λ n. 0;
  start_timer = λ ms w. w;
  clear_timer = λ w. w;
  aborted = λ w. false;
  random_uuid = λ w. "id";
  parse_url = λ t. none;
  process_env = λ name. some "secret";
}

abbrev mock : Adapter ℕ
mock =
    mock_adapter (λ w. w) (λ n w. n) (λ w. w)
      (record { behavior = none; capabilities = none; failures_before_success = none })

abbrev service : IntegrationService ℕ
service = new_service (mock ∷ []) staging []

abbrev reference : CredentialReference
reference = record {
  name = "key";
  provider = env;
  ref_key = "API_KEY";
  environment = staging;
  scopes = [];
  status = active;
}

abbrev row : IntegrationRow
row = record {
  id = 1;
  application_id = 7;
  environment = staging;
  adapter_type = some "mock";
  enabled = true;
  base_url = none;
  connection_status = configured;
  capabilities = [];
  timeout_ms = none;
  last_tested_at = none;
  last_error = none;
}

abbrev before : State ℕ
before = record {
  applications = 7 ∷ [];
  integrations = row ∷ record row { id = 2; environment = production } ∷ [];
  credentials =
      record { integration_id = 1; reference = reference }
      ∷ record { integration_id = 2; reference = reference }
      ∷ [];
  events = [];
  breakers = [];
  next_id = 3;
  outside = 0;
}

test_connection-Validated_example :
    (r : ConnectionTestResult) × (v : State ℕ) × (test_connection platform service 7 staging before
      ≡ ok r v)
    × (r.is_ok ≡ true → (adapter : Adapter ℕ) × Validated platform service before row adapter)
unfolding find_integration
test_connection-Validated_example =
    test_connection-Validated platform service 7 staging before row refl

test_connection-gated_example :
    (r : ConnectionTestResult) × (v : State ℕ) × (test_connection platform service 7 production
        before
      ≡ ok r v)
    × (r.is_ok ≡ false)
    × (v.outside ≡ 0)
    × (v.breakers ≡ [])
    × (v.credentials ≡ before.credentials)
unfolding find_integration new_service
test_connection-gated_example =
    test_connection-gated platform service 7 production before
      (record row { id = 2; environment = production }) refl refl

abbrev input : ConfigureIntegrationInput
input = record {
  adapter_type = none;
  enabled = some false;
  base_url = none;
  timeout_ms = some (some 900);
  credential_references = none;
}

abbrev new_reference : CredentialReferenceInput
new_reference = record {
  name = "token";
  provider = none;
  ref_key = "API_TOKEN";
  environment = staging;
  scopes = none;
  status = none;
}

write_references-NamedIn_example :
    All
      (NamedIn 1 (kept_names (new_reference ∷ [])))
      (write_references 1 (some (new_reference ∷ [])) before).credentials
    × (others 1 (write_references 1 (some (new_reference ∷ [])) before).credentials
        ≡ others 1 before.credentials)
write_references-NamedIn_example = write_references-NamedIn 1 (new_reference ∷ []) before
