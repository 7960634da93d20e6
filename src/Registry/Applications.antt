-- ===== src/Registry/Applications.antt =====
-- The registry of applications, apps/api/src/modules/applications/applications.service.ts, with the
-- types of packages/shared/src/index.ts. The order that the database sorts by and its search in
-- texts are parameters. Ids are numbers, times milliseconds. `toDto` passes the columns on.
pub mod Store
pub mod Slugs
pub mod Listing
use slc_central_admin_cursor.Prelude.{
  ℕ, ◌+◌, Bool, true, false, not, ◌&&◌, ◌||◌, Option, none, some, String, List, [], ◌∷◌, ◌++◌,
  length, filter, find, includes, Eq, ◌==◌, nat_eq, string_eq, if◌then◌else◌, Outcome, ok, err,
  Exec,
}
use slc_central_admin_cursor.AppErrors.{AppError, app_error, ErrorCode, slug_taken, truthy}
use slc_central_admin_cursor.Rows.{update_where}
use slc_central_admin_cursor.Registry.Pages.{
  PaginatedResult, given, page_number, page_size_of, page_of,
}

pub data AppStatus : Type 0 where
  development staging production maintenance deprecated unknown : AppStatus

pub data DeploymentEnvironment : Type 0 where
  development staging production unknown : DeploymentEnvironment

pub data IntegrationType : Type 0 where
  api firebase_admin supabase registry_only pending no_type : IntegrationType

pub data IntegrationStatus : Type 0 where
  not_started planned configured testing connected degraded disconnected not_applicable :
      IntegrationStatus

-- The places in `APP_STATUSES`, `INTEGRATION_TYPES` and `INTEGRATION_STATUSES`.
abbrev pub status_index : AppStatus → ℕ
status_index development = 0
status_index staging = 1
status_index production = 2
status_index maintenance = 3
status_index deprecated = 4
status_index unknown = 5

abbrev pub type_index : IntegrationType → ℕ
type_index api = 0
type_index firebase_admin = 1
type_index supabase = 2
type_index registry_only = 3
type_index pending = 4
type_index no_type = 5

abbrev pub integration_index : IntegrationStatus → ℕ
integration_index not_started = 0
integration_index planned = 1
integration_index configured = 2
integration_index testing = 3
integration_index connected = 4
integration_index degraded = 5
integration_index disconnected = 6
integration_index not_applicable = 7

instance abbrev pub status_eq : Eq AppStatus
status_eq = record { beq = λ a b. status_index a == status_index b }

instance abbrev pub type_eq : Eq IntegrationType
type_eq = record { beq = λ a b. type_index a == type_index b }

instance abbrev pub integration_eq : Eq IntegrationStatus
integration_eq = record { beq = λ a b. integration_index a == integration_index b }

pub record Application : Type 0 where
  pub id : ℕ
  pub slug : String
  pub name : String
  pub description : Option String
  pub platform : Option String
  pub frontend_technology : Option String
  pub backend_technology : Option String
  pub database_technology : Option String
  pub authentication_technology : Option String
  pub repository_url : Option String
  pub production_url : Option String
  pub staging_url : Option String
  pub environment : DeploymentEnvironment
  pub integration_type : IntegrationType
  pub adapter_type : Option String
  pub integration_status : IntegrationStatus
  pub status : AppStatus
  pub version : Option String
  pub health_check_enabled : Bool
  pub created_at : ℕ
  pub updated_at : ℕ

-- What may be given besides slug and name; a field that is left out is `none`, one given as null
-- is `some none`.
pub record ApplicationDetails : Type 0 where
  pub description : Option (Option String)
  pub platform : Option (Option String)
  pub frontend_technology : Option (Option String)
  pub backend_technology : Option (Option String)
  pub database_technology : Option (Option String)
  pub authentication_technology : Option (Option String)
  pub repository_url : Option (Option String)
  pub production_url : Option (Option String)
  pub staging_url : Option (Option String)
  pub environment : Option DeploymentEnvironment
  pub integration_type : Option IntegrationType
  pub adapter_type : Option (Option String)
  pub integration_status : Option IntegrationStatus
  pub status : Option AppStatus
  pub version : Option (Option String)
  pub health_check_enabled : Option Bool

pub record UpdateApplicationInput : Type 0 where
  pub name : Option String
  pub details : ApplicationDetails

pub record CreateApplicationInput : Type 0 where
  pub slug : String
  pub name : String
  pub details : ApplicationDetails

pub record Registry : Type 0 where
  pub applications : List Application
  pub now : ℕ
  pub next_id : ℕ

abbrev pub or_keep {ℓ} : {A : Type ℓ} → Option A → A → A
or_keep none old = old
or_keep (some new) old = new

-- The columns with what is given.
unfoldable pub with_details : ApplicationDetails → Application → Application
with_details i a = record a {
  description = or_keep i.description a.description;
  platform = or_keep i.platform a.platform;
  frontend_technology = or_keep i.frontend_technology a.frontend_technology;
  backend_technology = or_keep i.backend_technology a.backend_technology;
  database_technology = or_keep i.database_technology a.database_technology;
  authentication_technology = or_keep i.authentication_technology a.authentication_technology;
  repository_url = or_keep i.repository_url a.repository_url;
  production_url = or_keep i.production_url a.production_url;
  staging_url = or_keep i.staging_url a.staging_url;
  environment = or_keep i.environment a.environment;
  integration_type = or_keep i.integration_type a.integration_type;
  adapter_type = or_keep i.adapter_type a.adapter_type;
  integration_status = or_keep i.integration_status a.integration_status;
  status = or_keep i.status a.status;
  version = or_keep i.version a.version;
  health_check_enabled = or_keep i.health_check_enabled a.health_check_enabled;
}

-- The defaults of the columns in prisma/schema.prisma.
unfoldable pub default_application : ℕ → ℕ → String → String → Application
default_application id now slug name = record {
  id = id;
  slug = slug;
  name = name;
  description = none;
  platform = none;
  frontend_technology = none;
  backend_technology = none;
  database_technology = none;
  authentication_technology = none;
  repository_url = none;
  production_url = none;
  staging_url = none;
  environment = unknown;
  integration_type = no_type;
  adapter_type = none;
  integration_status = not_started;
  status = unknown;
  version = none;
  health_check_enabled = false;
  created_at = now;
  updated_at = now;
}

abbrev pub has_slug : String → Application → Bool
has_slug slug a = a.slug == slug

abbrev pub is_application : ℕ → Application → Bool
is_application id a = a.id == id
