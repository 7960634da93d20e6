-- ===== src/Registry/Applications/Store.antt =====
-- The operations of the registry of applications.
use slc_central_admin_cursor.Prelude.{
  ℕ, ◌+◌, Bool, true, false, not, ◌&&◌, ◌||◌, Option, none, some, String, List, [], ◌∷◌, ◌++◌,
  length, filter, find, ◌==◌, nat_eq, string_eq, ok, err, Exec,
}
use slc_central_admin_cursor.AppErrors.{AppError, app_error, ErrorCode, slug_taken, truthy}
use slc_central_admin_cursor.Rows.{update_where}
use slc_central_admin_cursor.Registry.Pages.{PaginatedResult, page_number, page_size_of, page_of}
use slc_central_admin_cursor.Registry.Applications.{
  AppStatus, IntegrationType, IntegrationStatus, status_eq, type_eq, integration_eq, registry_only,
  no_type, connected, not_applicable, Application, UpdateApplicationInput, CreateApplicationInput,
  Registry, or_keep, with_details, default_application, has_slug, is_application,
}

pub data ApplicationSortField : Type 0 where
  by_name by_created_at by_status : ApplicationSortField

pub data SortDirection : Type 0 where
  asc desc : SortDirection

pub record ApplicationListQuery : Type 0 where
  pub page : Option ℕ
  pub page_size : Option ℕ
  pub q : Option String
  pub status : Option AppStatus
  pub integration_type : Option IntegrationType
  pub integration_status : Option IntegrationStatus
  pub platform : Option String
  pub sort_by : Option ApplicationSortField
  pub sort_dir : Option SortDirection

pub record ApplicationStats : Type 0 where
  pub total : ℕ
  pub production : ℕ
  pub development : ℕ
  pub registry_only : ℕ
  pub pending_integrations : ℕ

-- The search of the database: whether a text contains another one, case aside, and the order that it
-- gives the rows for the query of a page; it is free to order rows with equal columns in another way
-- for the next page.
pub record Search : Type 0 where
  pub contains : String → String → Bool
  pub order_by : ℕ → ApplicationSortField → SortDirection → List Application → List Application

abbrev or_default {ℓ} : {A : Type ℓ} → Option A → A → A
or_default none d = d
or_default (some a) d = a

module _ (search : Search) where
  abbrev column_contains : Option String → String → Bool
  column_contains none part = false
  column_contains (some s) part = search.contains s part

  fits_text : Option String → Application → Bool
  fits_text none a = true
  fits_text (some q) a =
      search.contains a.name q || search.contains a.slug q || column_contains a.description q

  fits_platform : Option String → Application → Bool
  fits_platform none a = true
  fits_platform (some part) a = column_contains a.platform part

  fits_status : Option AppStatus → Application → Bool
  fits_status none a = true
  fits_status (some s) a = a.status == s

  fits_type : Option IntegrationType → Application → Bool
  fits_type none a = true
  fits_type (some t) a = a.integration_type == t

  fits_integration : Option IntegrationStatus → Application → Bool
  fits_integration none a = true
  fits_integration (some s) a = a.integration_status == s

  -- `where`.
  unfoldable pub fits : ApplicationListQuery → Application → Bool
  unfolding fits_text fits_platform fits_status fits_type fits_integration
  fits query a =
      fits_text (truthy query.q) a
      && fits_status query.status a
      && fits_type query.integration_type a
      && fits_integration query.integration_status a
      && fits_platform (truthy query.platform) a

  unfoldable pub sorted : ApplicationListQuery → Registry → List Application
  sorted query s =
      search.order_by (page_number query.page) (or_default query.sort_by by_name)
        (or_default query.sort_dir asc) (filter (fits query) s.applications)

  unfoldable pub list_applications : ApplicationListQuery → Registry → PaginatedResult Application
  list_applications query s =
      page_of (page_number query.page) (page_size_of 100 20 query.page_size) (sorted query s)
        (length (filter (fits query) s.applications))

found_or_404 : Option Application → Exec Registry AppError Application
found_or_404 none s = err (app_error 404 ErrorCode.not_found) s
found_or_404 (some a) s = ok a s

unfoldable pub get_application : ℕ → Exec Registry AppError Application
unfolding found_or_404
get_application id s = found_or_404 (find (is_application id) s.applications) s

unfoldable pub new_application : CreateApplicationInput → Registry → Application
new_application input s =
    with_details input.details (default_application s.next_id s.now input.slug input.name)

insert_application :
    CreateApplicationInput → Option Application → Exec Registry AppError Application
insert_application input (some a) s = err (app_error 409 slug_taken) s
insert_application input none s =
    let a = new_application input s in
    ok a (record s { applications = s.applications ++ a ∷ []; next_id = s.next_id + 1 })

unfoldable pub create_application : CreateApplicationInput → Exec Registry AppError Application
unfolding insert_application
create_application input s = insert_application input (find (has_slug input.slug) s.applications) s

unfoldable pub updated : UpdateApplicationInput → ℕ → Application → Application
updated input now a =
    with_details input.details (record a { name = or_keep input.name a.name; updated_at = now })

update_listed : UpdateApplicationInput → ℕ → Option Application → Exec Registry AppError Application
update_listed input id none s = err (app_error 404 ErrorCode.not_found) s
update_listed input id (some a) s = ok (updated input s.now a) (record s {
  applications = update_where (is_application id) (updated input s.now) s.applications;
})

unfoldable pub update_application : ℕ → UpdateApplicationInput → Exec Registry AppError Application
unfolding update_listed
update_application id input s = update_listed input id (find (is_application id) s.applications) s

-- `notIn` twice.
abbrev is_pending : Application → Bool
is_pending a =
    not (a.integration_type == registry_only || a.integration_type == no_type)
    && not (a.integration_status == connected || a.integration_status == not_applicable)

unfoldable pub get_application_stats : Registry → ApplicationStats
get_application_stats s = record {
  total = length s.applications;
  production = length (filter (λ a. a.status == AppStatus.production) s.applications);
  development = length (filter (λ a. a.status == AppStatus.development) s.applications);
  registry_only = length (filter (λ a. a.integration_type == registry_only) s.applications);
  pending_integrations = length (filter is_pending s.applications);
}
