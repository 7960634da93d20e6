-- ===== src/Integration/Service/Status.antt =====
-- The status that a configuration leaves, and the gates that a test of a connection does not pass.
use slc_central_admin_cursor.Prelude.{
  List, [], filter, not, ◌≡◌, ℕ, false, Option, none, some, nat_eq,
}
use slc_central_admin_cursor.Integration.Types.{
  IntegrationEnvironment, environment_eq, ConfigureIntegrationInput,
}
use slc_central_admin_cursor.Integration.Service.{IntegrationRow, is_for}

-- A column after a write: the value given, else the one that was there, else that of a new row.
abbrev pub Written {ℓ} :
    {A : Type ℓ} → Option A → Option IntegrationRow → (IntegrationRow → A) → A → A → Type ℓ
Written (some x) existing f default now = now ≡ x
Written none (some r) f default now = now ≡ f r
Written none none f default now = now ≡ default

-- A row for an application and an environment with the columns that an input gives.
pub record IsConfigured (application_id : ℕ) (environment : IntegrationEnvironment)
    (input : ConfigureIntegrationInput) (existing : Option IntegrationRow) (row : IntegrationRow)
    : Type 0 where
  pub application : row.application_id ≡ application_id
  pub scope : row.environment ≡ environment
  pub adapter_type : Written input.adapter_type existing (λ r. r.adapter_type) none row.adapter_type
  pub enabled : Written input.enabled existing (λ r. r.enabled) false row.enabled
  pub base_url : Written input.base_url existing (λ r. r.base_url) none row.base_url
  pub timeout_ms : Written input.timeout_ms existing (λ r. r.timeout_ms) none row.timeout_ms
  pub capabilities : Written none existing (λ r. r.capabilities) [] row.capabilities
  pub last_tested_at : Written none existing (λ r. r.last_tested_at) none row.last_tested_at
  pub last_error : Written none existing (λ r. r.last_error) none row.last_error

-- The rows of other applications and environments.
abbrev pub other_rows : ℕ → IntegrationEnvironment → List IntegrationRow → List IntegrationRow
other_rows application_id environment rows =
    filter (λ r. not (is_for application_id environment r)) rows
