-- ===== src/Integration/Service.antt =====
-- The integration service, apps/api/src/integration/integration.service.ts: its tables, its
-- breakers, and the configuration of an integration. Ids are numbers; times are milliseconds. The
-- columns with the time of creation and of the last change are left out.
pub mod Connect
pub mod Status
pub mod Gates
pub mod References
use slc_central_admin_cursor.Prelude.{
  ◌≡◌, refl, ℕ, ◌+◌, Bool, true, false, not, ◌&&◌, Option, none, some, String, List, [], ◌∷◌, ◌++◌,
  map, Text, ◌==◌, nat_eq, string_eq, find, filter, any, includes, if◌then◌else◌, Outcome, ok, err,
  Exec, guard, modify, gets, ◌>>=◌, ◌>>◌,
}
use slc_central_admin_cursor.AppErrors.{AppError, app_error, ErrorCode, truthy}
use slc_central_admin_cursor.Rows.{update_where, delete_where}
use slc_central_admin_cursor.Integration.Errors.{IntegrationErrorCode}
use slc_central_admin_cursor.Integration.Breaker.{
  CircuitBreaker, CircuitBreakerOptions, new_breaker,
}
use slc_central_admin_cursor.Integration.Adapters.{or_else, is_some}
use slc_central_admin_cursor.Integration.Credentials.{CredentialReference}
use slc_central_admin_cursor.Integration.Types.{
  IntegrationEnvironment, environment_eq, ConnectionStatus, not_configured, configured, is_live,
  env, active, AdapterCapability, IntegrationEventType, credential_reference_updated,
  config_updated, CredentialReferenceInput, ConfigureIntegrationInput,
}

pub record IntegrationRow : Type 0 where
  pub id : ℕ
  pub application_id : ℕ
  pub environment : IntegrationEnvironment
  pub adapter_type : Option String
  pub enabled : Bool
  pub base_url : Option Text
  pub connection_status : ConnectionStatus
  pub capabilities : List AdapterCapability
  pub timeout_ms : Option ℕ
  pub last_tested_at : Option ℕ
  -- The code that the text begins with.
  pub last_error : Option IntegrationErrorCode

pub record CredentialRow : Type 0 where
  pub integration_id : ℕ
  pub reference : CredentialReference

-- What an event tells besides its type: a code, or the name of a credential.
pub data Detail : Type 0 where
  no_detail : Detail
  of_code : IntegrationErrorCode → Detail
  of_credential : String → Detail

pub record IntegrationEvent : Type 0 where
  pub integration_id : ℕ
  pub kind : IntegrationEventType
  pub detail : Detail

pub record State (W : Type 0) : Type 0 where
  pub applications : List ℕ
  pub integrations : List IntegrationRow
  pub credentials : List CredentialRow
  pub events : List IntegrationEvent
  pub breakers : List (ℕ × CircuitBreaker)
  pub next_id : ℕ
  pub outside : W

-- The row with its references, which is what the callers see.
pub record ApplicationIntegration : Type 0 where
  pub row : IntegrationRow
  pub credential_references : List CredentialReference

abbrev pub is_row : ℕ → IntegrationRow → Bool
is_row id r = r.id == id

abbrev pub is_for : ℕ → IntegrationEnvironment → IntegrationRow → Bool
is_for application_id environment r =
    r.application_id == application_id && r.environment == environment

abbrev pub belongs_to : ℕ → CredentialRow → Bool
belongs_to id c = c.integration_id == id

abbrev pub has_name : String → CredentialRow → Bool
has_name name c = c.reference.name == name

module _ {W : Type 0} where
  unfoldable pub add_event : ℕ → IntegrationEventType → Detail → State W → State W
  add_event id kind detail s = record s {
    events = s.events ++ record { integration_id = id; kind = kind; detail = detail } ∷ [];
  }

  abbrev pub references_of : ℕ → State W → List CredentialReference
  references_of id s = map (λ c. c.reference) (filter (belongs_to id) s.credentials)

  unfoldable pub to_dto : IntegrationRow → State W → ApplicationIntegration
  to_dto row s = record { row = row; credential_references = references_of row.id s }

  unfoldable pub assert_application_exists : ℕ → Exec (State W) AppError (Unit {0})
  assert_application_exists id s =
      guard (includes s.applications id) (app_error 404 ErrorCode.not_found) s

  unfoldable pub list_integrations : ℕ → Exec (State W) AppError (List ApplicationIntegration)
  list_integrations application_id = do
    assert_application_exists application_id
    gets (λ s.
        map (λ r. to_dto r s) (filter (λ r. r.application_id == application_id) s.integrations))

  unfoldable pub find_integration : ℕ → IntegrationEnvironment → State W → Option IntegrationRow
  find_integration application_id environment s =
      find (is_for application_id environment) s.integrations

  dto_of : Option IntegrationRow → Exec (State W) AppError ApplicationIntegration
  unfolding to_dto
  dto_of none s = err (app_error 404 ErrorCode.not_found) s
  dto_of (some row) s = ok (to_dto row s) s

  unfoldable pub get_integration :
      ℕ → IntegrationEnvironment → Exec (State W) AppError ApplicationIntegration
  unfolding dto_of
  get_integration application_id environment s =
      dto_of (find_integration application_id environment s) s

  pub get_integration-found :
      (application_id : ℕ) (environment : IntegrationEnvironment) (s : State W)
      (row : IntegrationRow)
      → find_integration application_id environment s ≡ some row
      → get_integration application_id environment s ≡ ok (to_dto row s) s
  unfolding get_integration
  get_integration-found application_id environment s row h = rw h refl

-- What the row says, if there is one.
abbrev pub column {ℓ} : {A : Type ℓ} → (IntegrationRow → A) → A → Option IntegrationRow → A
column f default none = default
column f default (some r) = f r

-- The status that a configuration gives: a live one is kept.
unfoldable pub configured_status : Option String → Option IntegrationRow → ConnectionStatus
configured_status adapter_type existing =
    if is_some (truthy adapter_type)
    then column (λ r. if is_live r.connection_status then r.connection_status else configured)
        configured existing
    else not_configured

-- The columns that are written; the others are those of before, or of a new row.
unfoldable pub configured_row :
    ℕ
    → ℕ
    → IntegrationEnvironment
    → ConfigureIntegrationInput
    → Option IntegrationRow
    → IntegrationRow
configured_row id application_id environment input existing =
    let adapter_type = or_else input.adapter_type (column (λ r. r.adapter_type) none existing) in
    record {
      id = column (λ r. r.id) id existing;
      application_id = application_id;
      environment = environment;
      adapter_type = adapter_type;
      enabled = or_else input.enabled (column (λ r. r.enabled) false existing);
      base_url = or_else input.base_url (column (λ r. r.base_url) none existing);
      connection_status = configured_status adapter_type existing;
      capabilities = column (λ r. r.capabilities) [] existing;
      timeout_ms = or_else input.timeout_ms (column (λ r. r.timeout_ms) none existing);
      last_tested_at = column (λ r. r.last_tested_at) none existing;
      last_error = column (λ r. r.last_error) none existing;
    }

module _ {W : Type 0} where
  -- The upsert: the row, and the table with it.
  unfoldable pub upsert_integration :
      ℕ → IntegrationEnvironment → IntegrationRow → Option IntegrationRow → State W → State W
  upsert_integration application_id environment row none s = record s {
    integrations = s.integrations ++ row ∷ [];
    next_id = s.next_id + 1;
  }
  upsert_integration application_id environment row (some r) s = record s {
    integrations = update_where (is_for application_id environment) (λ x. row) s.integrations;
  }

unfoldable pub reference_of : CredentialReferenceInput → CredentialReference
reference_of input = record {
  name = input.name;
  provider = or_else input.provider env;
  ref_key = input.ref_key;
  environment = input.environment;
  scopes = or_else input.scopes [];
  status = or_else input.status active;
}

-- One round of the loop over the references.
unfoldable pub upsert_reference :
    ℕ → List CredentialRow → CredentialReferenceInput → List CredentialRow
unfolding reference_of
upsert_reference id rows input =
    if any (λ c. belongs_to id c && has_name input.name c) rows
    then update_where (λ c. belongs_to id c && has_name input.name c)
        (λ c. record c { reference = reference_of input }) rows
    else rows ++ record { integration_id = id; reference = reference_of input } ∷ []

unfoldable pub upsert_references :
    ℕ → List CredentialRow → List CredentialReferenceInput → List CredentialRow
unfolding upsert_reference
upsert_references id rows [] = rows
upsert_references id rows (input ∷ inputs) =
    upsert_references id (upsert_reference id rows input) inputs

-- `notIn`, of the names or of `__none__`.
abbrev pub kept_names : List CredentialReferenceInput → List String
kept_names [] = "__none__" ∷ []
kept_names (i ∷ is) = map (λ c. c.name) (i ∷ is)

module _ {W : Type 0} where
  unfoldable pub write_references : ℕ → Option (List CredentialReferenceInput) → State W → State W
  unfolding upsert_references
  write_references id none s = s
  write_references id (some inputs) s =
      add_event id credential_reference_updated no_detail (record s {
        credentials =
            upsert_references id
              (delete_where
                (λ c. belongs_to id c && not (includes (kept_names inputs) c.reference.name))
                s.credentials)
              inputs;
      })

  unfoldable pub store_configuration :
      ℕ → IntegrationEnvironment → ConfigureIntegrationInput → State W → State W
  store_configuration application_id environment input s =
      let existing = find_integration application_id environment s in
      let row = configured_row s.next_id application_id environment input existing in
      add_event row.id config_updated no_detail (
        write_references row.id input.credential_references
          (upsert_integration application_id environment row existing s))

  unfoldable pub configure_integration :
      ℕ
      → IntegrationEnvironment
      → ConfigureIntegrationInput
      → Exec (State W) AppError ApplicationIntegration
  configure_integration application_id environment input = do
    assert_application_exists application_id
    modify (store_configuration application_id environment input)
    get_integration application_id environment

-- `breakerFor`; a breaker that is made on the way is stored with the first change.
unfoldable pub breaker_in : ℕ → List (ℕ × CircuitBreaker) → CircuitBreaker
unfolding new_breaker
breaker_in id [] = new_breaker
breaker_in id ((k, b) ∷ rest) = if k == id then b else breaker_in id rest

unfoldable pub set_breaker_in :
    ℕ → CircuitBreaker → List (ℕ × CircuitBreaker) → List (ℕ × CircuitBreaker)
set_breaker_in id b [] = (id, b) ∷ []
set_breaker_in id b ((k, c) ∷ rest) =
    if k == id then (k, b) ∷ rest else (k, c) ∷ set_breaker_in id b rest

module _ {W : Type 0} where
  unfoldable pub breaker_for : ℕ → State W → CircuitBreaker
  unfolding breaker_in
  breaker_for id s = breaker_in id s.breakers

  unfoldable pub set_breaker : ℕ → CircuitBreaker → State W → State W
  unfolding set_breaker_in
  set_breaker id b s = record s { breakers = set_breaker_in id b s.breakers }
