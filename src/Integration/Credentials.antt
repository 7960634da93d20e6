-- ===== src/Integration/Credentials.antt =====
-- From references to secrets, apps/api/src/integration/credentials/resolver.ts, and the environment
-- of the server, apps/api/src/integration/runtimeEnv.ts. The variables of the process are a
-- parameter.
pub mod Guard
use slc_central_admin_cursor.Prelude.{
  Bool, not, Option, none, some, String, List, ◌==◌, nat_eq, if◌then◌else◌, Outcome, ok, err,
}
use slc_central_admin_cursor.AppErrors.{truthy}
use slc_central_admin_cursor.Integration.Errors.{
  IntegrationErrorCode, Thrown, integration, new_error, credential_revoked, environment_mismatch,
  not_supported, config_invalid,
}
use slc_central_admin_cursor.Integration.Types.{
  IntegrationEnvironment, development, staging, production, environment_eq, CredentialProvider,
  is_env, CredentialStatus, is_active, ResolvedCredential,
}

-- `config.nodeEnv`.
pub data NodeEnv : Type 0 where
  development_mode staging_mode production_mode test_mode : NodeEnv

unfoldable pub runtime_integration_environment : NodeEnv → IntegrationEnvironment
runtime_integration_environment production_mode = production
runtime_integration_environment staging_mode = staging
runtime_integration_environment _ = development

-- The reference: `CredentialRefLike`, as the row of the table has it.
pub record CredentialReference : Type 0 where
  pub name : String
  pub provider : CredentialProvider
  pub ref_key : String
  pub environment : IntegrationEnvironment
  pub scopes : List String
  pub status : CredentialStatus

-- What a resolver throws.
abbrev pub Resolved : Type 0
Resolved = Outcome (Unit {0}) IntegrationErrorCode ResolvedCredential

abbrev refuse : IntegrationErrorCode → Resolved
refuse code = err code tt

-- `guard`, and what follows it.
unfoldable pub guarded : CredentialReference → IntegrationEnvironment → Resolved → Resolved
guarded ref runtime_env next =
    if not (is_active ref.status)
    then refuse credential_revoked
    else if not (ref.environment == runtime_env)
    then refuse environment_mismatch
    else next

of_value : CredentialReference → Option String → Resolved
of_value ref none = refuse config_invalid
of_value ref (some value) = ok (record { value = value; scopes = ref.scopes }) tt

module _ (process_env : String → Option String) where
  -- `EnvCredentialResolver`.
  unfoldable pub resolve : CredentialReference → IntegrationEnvironment → Resolved
  unfolding of_value
  resolve ref runtime_env = guarded ref runtime_env (
      if not (is_env ref.provider)
      then refuse not_supported
      else of_value ref (truthy (process_env ref.ref_key)))

-- `FakeCredentialResolver`, with the map of its values.
unfoldable pub resolve_fake :
    (String → Option String) → CredentialReference → IntegrationEnvironment → Resolved
unfolding of_value
resolve_fake values ref runtime_env =
    guarded ref runtime_env (of_value ref (truthy (values ref.ref_key)))
