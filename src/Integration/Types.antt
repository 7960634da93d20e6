-- ===== src/Integration/Types.antt =====
-- The vocabulary of integrations, packages/shared/src/index.ts, and the contract of adapters,
-- apps/api/src/integration/adapter/types.ts. An adapter changes a world `W`; the optional
-- operations of adapters are called by no code of the repository.
use slc_central_admin_cursor.Prelude.{
  ℕ, Bool, true, false, Option, String, List, Text, Eq, ◌==◌, nat_eq, Exec,
}
use slc_central_admin_cursor.Integration.Errors.{IntegrationErrorCode, Thrown}

pub data IntegrationEnvironment : Type 0 where
  development staging production : IntegrationEnvironment

abbrev pub environment_index : IntegrationEnvironment → ℕ
environment_index development = 0
environment_index staging = 1
environment_index production = 2

instance abbrev pub environment_eq : Eq IntegrationEnvironment
environment_eq = record { beq = λ a b. environment_index a == environment_index b }

pub data ConnectionStatus : Type 0 where
  not_configured configured testing connected degraded disconnected not_applicable :
      ConnectionStatus

-- Membership in `liveStatuses`, the list of `SYSTEM_ONLY_CONNECTION_STATUSES`.
abbrev pub is_live : ConnectionStatus → Bool
is_live testing = true
is_live connected = true
is_live degraded = true
is_live disconnected = true
is_live _ = false

pub data CredentialProvider : Type 0 where
  env secret_store secrets_manager encrypted_db : CredentialProvider

abbrev pub is_env : CredentialProvider → Bool
is_env env = true
is_env _ = false

pub data CredentialStatus : Type 0 where
  active rotating revoked : CredentialStatus

abbrev pub is_active : CredentialStatus → Bool
is_active active = true
is_active _ = false

pub data AdapterCapability : Type 0 where
  connection_validate application_info application_statistics : AdapterCapability
  users_list users_get users_disable users_enable : AdapterCapability

pub data IntegrationEventType : Type 0 where
  config_updated integration_enabled integration_disabled : IntegrationEventType
  credential_reference_updated credential_accessed : IntegrationEventType
  connection_test_started connection_test_succeeded connection_test_failed : IntegrationEventType

pub record CredentialReferenceInput : Type 0 where
  pub name : String
  pub provider : Option CredentialProvider
  pub ref_key : String
  pub environment : IntegrationEnvironment
  pub scopes : Option (List String)
  pub status : Option CredentialStatus

-- A field that is left out is `none`; one that is given as null is `some none`.
pub record ConfigureIntegrationInput : Type 0 where
  pub adapter_type : Option (Option String)
  pub enabled : Option Bool
  pub base_url : Option (Option Text)
  pub timeout_ms : Option (Option ℕ)
  pub credential_references : Option (List CredentialReferenceInput)

pub record ConnectionTestResult : Type 0 where
  pub connection_status : ConnectionStatus
  pub is_ok : Bool
  pub code : Option IntegrationErrorCode
  pub capabilities : List AdapterCapability
  pub correlation_id : String

pub record ResolvedCredential : Type 0 where
  pub value : String
  pub scopes : List String

-- `Record<string, ResolvedCredential>`.
abbrev pub ResolvedCredentialMap : Type 0
ResolvedCredentialMap = List (String × ResolvedCredential)

pub record AdapterContext : Type 0 where
  pub correlation_id : String
  pub environment : IntegrationEnvironment
  pub base_url : Option Text
  pub timeout_ms : ℕ
  pub credentials : ResolvedCredentialMap

-- The type of an adapter, what it can do, and `validateConnection`, whose detail no code reads.
pub record Adapter (W : Type 0) : Type 0 where
  pub adapter_type : String
  pub capabilities : List AdapterCapability
  pub validate_connection : AdapterContext → Exec W Thrown (Unit {0})
