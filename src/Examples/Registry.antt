-- ===== src/Examples/Registry.antt =====
-- The registry of applications and the audit log at work.
use slc_central_admin_cursor.Prelude.{
  ◌↔◌, ℕ, ◌≡◌, refl, true, false, none, some, List, [], ◌∷◌, ◌++◌, codes, to_lower, starts_with,
  All, ◌==◌, string_eq, arith, state_of,
}
use slc_central_admin_cursor.Rows.{update_where}
use slc_central_admin_cursor.Registry.Applications.{
  ApplicationDetails, CreateApplicationInput, UpdateApplicationInput, Registry, with_details,
  default_application, production,
}
use slc_central_admin_cursor.Registry.Applications.Store.{
  ApplicationListQuery, Search, list_applications, create_application, new_application,
  update_application, updated, get_application_stats,
}
use slc_central_admin_cursor.Registry.Applications.Slugs.{
  HasUniqueSlugs, Steps, done, create, update, steps-HasUniqueSlugs,
}
use slc_central_admin_cursor.Registry.Applications.Listing.{IsPageOf, list_applications-page}
use slc_central_admin_cursor.Registry.AuditLog.{
  AuditEvent, AuditLog, AuditRow, write_audit_log, scrub_metadata, clean_fields, is_secret_key,
  contains,
}
use slc_central_admin_cursor.Registry.AuditLog.Scrubbed.{
  IsScrubbed, write_audit_log-IsScrubbed, NamesSecret, is_secret_key-NamesSecret,
}

abbrev nothing_given : ApplicationDetails
nothing_given = record {
  description = none;
  platform = none;
  frontend_technology = none;
  backend_technology = none;
  database_technology = none;
  authentication_technology = none;
  repository_url = none;
  production_url = none;
  staging_url = none;
  environment = none;
  integration_type = none;
  adapter_type = none;
  integration_status = none;
  status = none;
  version = none;
  health_check_enabled = none;
}

abbrev herd : CreateApplicationInput
herd = record { slug = "herd"; name = "Herd"; details = nothing_given }

abbrev dairy : CreateApplicationInput
dairy = record { slug = "dairy"; name = "Dairy"; details = nothing_given }

abbrev empty : Registry
empty = record { applications = []; now = 5; next_id = 1 }

abbrev with_herd : Registry
with_herd = state_of (create_application herd empty)

abbrev both : Registry
both = state_of (create_application dairy with_herd)

abbrev released : UpdateApplicationInput
released = record { name = none; details = record nothing_given { status = some production } }

abbrev after : Registry
after = state_of (update_application 1 released both)

changes : Steps empty after
unfolding create_application new_application with_details default_application update_application
    updated update_where
changes = create herd (new_application herd empty) empty with_herd after refl (
    create dairy (new_application dairy with_herd) with_herd both after refl (
      update 1 released (updated released 5 (new_application herd empty)) both after after refl
        (done after)))

in_production : (get_application_stats after).production ≡ 1
unfolding get_application_stats create_application new_application with_details default_application
    update_application updated update_where
in_production = refl

no_slugs : HasUniqueSlugs []
unfolding HasUniqueSlugs
no_slugs slug = omega arith

steps-HasUniqueSlugs_example : HasUniqueSlugs after.applications
steps-HasUniqueSlugs_example = steps-HasUniqueSlugs empty after changes no_slugs

abbrev as_stored : Search
as_stored = record { contains = λ s part. s == part; order_by = λ page field dir rows. rows }

abbrev all_by_one : ApplicationListQuery
all_by_one = record {
  page = none;
  page_size = some 1;
  q = none;
  status = none;
  integration_type = none;
  integration_status = none;
  platform = none;
  sort_by = none;
  sort_dir = none;
}

list_applications-page_example :
    IsPageOf as_stored all_by_one both (list_applications as_stored all_by_one both)
list_applications-page_example =
    list_applications-page as_stored all_by_one both (λ page field dir rows. refl)
      (λ page field dir rows h. h)

abbrev changed : AuditEvent ℕ
changed = record {
  action = "USER_CHANGED";
  actor_id = none;
  actor_email = some "ann@x";
  target_type = none;
  target_id = none;
  metadata =
      some ((codes "newPassword", some 1) ∷ (codes "fields", some 2) ∷ (codes "note", none) ∷ []);
  ip_address = none;
  user_agent = none;
}

abbrev empty_log : AuditLog ℕ
empty_log = record { rows = []; now = 5; next_id = 1 }

scrubbed : scrub_metadata changed.metadata ≡ some ((codes "fields", some 2) ∷ [])
unfolding scrub_metadata clean_fields is_secret_key contains to_lower starts_with
scrubbed = refl

write_audit_log-IsScrubbed_example :
    All (λ r. IsScrubbed r.event.metadata) (write_audit_log true false changed empty_log).rows
    × ((more : List (AuditRow ℕ)) × ((write_audit_log true false changed empty_log).rows
          ≡ [] ++ more))
write_audit_log-IsScrubbed_example = write_audit_log-IsScrubbed true false changed empty_log tt

is_secret_key-NamesSecret_example :
    (is_secret_key (codes "newPassword") ≡ true) ↔ NamesSecret (to_lower (codes "newPassword"))
is_secret_key-NamesSecret_example = is_secret_key-NamesSecret (codes "newPassword")
