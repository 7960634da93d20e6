-- ===== src/Registry/AuditLog.antt =====
-- The central audit log, apps/api/src/modules/audit/auditLog.service.ts. A value of the metadata is
-- of any type `V`. A failed write is logged and ignored; whether one fails is a parameter, and so are
-- the search of the database and its order by time.
pub mod Scrubbed
use slc_central_admin_cursor.Prelude.{
  ℕ, ◌+◌, Bool, true, false, not, ◌&&◌, ◌||◌, Option, none, some, String, List, [], ◌∷◌, ◌++◌, map,
  Text, codes, to_lower, starts_with, length, filter, ◌==◌, nat_eq, string_eq, if◌then◌else◌,
}
use slc_central_admin_cursor.AppErrors.{truthy}
use slc_central_admin_cursor.Registry.Pages.{
  take, PaginatedResult, page_number, page_size_of, page_of,
}

-- Whether a text contains another one.
unfoldable pub contains : Text → Text → Bool
contains part [] = starts_with part []
contains part (c ∷ s) = starts_with part (c ∷ s) || contains part s

-- `SECRET_KEY_PATTERN`, which sets no store by the case of ASCII letters.
unfoldable pub is_secret_key : Text → Bool
unfolding contains
is_secret_key key =
    let k = to_lower key in
    contains (codes "pass") k
    || contains (codes "secret") k
    || contains (codes "token") k
    || contains (codes "credential") k
    || contains (codes "authorization") k
    || contains (codes "cookie") k

module _ {V : Type 0} where
  -- The loop over the entries; a value may be `undefined`.
  unfoldable pub clean_fields : List (Text × Option V) → List (Text × Option V)
  clean_fields [] = []
  clean_fields ((key, none) ∷ rest) = clean_fields rest
  clean_fields ((key, some v) ∷ rest) =
      let more = clean_fields rest in if is_secret_key key then more else (key, some v) ∷ more

  if_any : List (Text × Option V) → Option (List (Text × Option V))
  if_any [] = none
  if_any (f ∷ rest) = some (f ∷ rest)

  unfoldable pub scrub_metadata : Option (List (Text × Option V)) → Option (List (Text × Option V))
  unfolding if_any
  scrub_metadata none = none
  scrub_metadata (some metadata) = if_any (clean_fields metadata)

pub record AuditEvent (V : Type 0) : Type 0 where
  pub action : String
  pub actor_id : Option String
  pub actor_email : Option String
  pub target_type : Option String
  pub target_id : Option String
  pub metadata : Option (List (Text × Option V))
  pub ip_address : Option String
  pub user_agent : Option Text

pub record AuditRow (V : Type 0) : Type 0 where
  pub id : ℕ
  pub created_at : ℕ
  pub event : AuditEvent V

pub record AuditLog (V : Type 0) : Type 0 where
  pub rows : List (AuditRow V)
  pub now : ℕ
  pub next_id : ℕ

pub record AuditLogQuery : Type 0 where
  pub page : Option ℕ
  pub page_size : Option ℕ
  pub action : Option String
  pub actor_email : Option String

abbrev shortened : Option Text → Option Text
shortened none = none
shortened (some t) = some (take 500 t)

module _ {V : Type 0} where
  unfoldable pub stored_event : AuditEvent V → AuditEvent V
  stored_event e = record e {
    metadata = scrub_metadata e.metadata;
    user_agent = shortened e.user_agent;
  }

  -- Without a database, or where the write fails, nothing is stored.
  unfoldable pub write_audit_log : Bool → Bool → AuditEvent V → AuditLog V → AuditLog V
  write_audit_log has_database fails event log =
      if not has_database || fails then log else record log {
        rows =
            log.rows
            ++ record { id = log.next_id; created_at = log.now; event = stored_event event } ∷ [];
        next_id = log.next_id + 1;
      }

  -- `contains` of the database, case aside, and the order by the time of creation, the last first.
  module _ (contains_text : String → String → Bool) (to_lower_case : String → String)
      (newest_first : List (AuditRow V) → List (AuditRow V)) where
    fits_action : Option String → AuditRow V → Bool
    fits_action none r = true
    fits_action (some action) r = r.event.action == action

    email_contains : Option String → String → Bool
    email_contains none part = false
    email_contains (some email) part = contains_text email part

    fits_email : Option String → AuditRow V → Bool
    unfolding email_contains
    fits_email none r = true
    fits_email (some part) r = email_contains r.event.actor_email (to_lower_case part)

    unfoldable pub fits_query : AuditLogQuery → AuditRow V → Bool
    unfolding fits_action fits_email
    fits_query query r =
        fits_action (truthy query.action) r && fits_email (truthy query.actor_email) r

    unfoldable pub list_audit_logs : AuditLogQuery → AuditLog V → PaginatedResult (AuditRow V)
    list_audit_logs query log =
        let found = filter (fits_query query) log.rows in
        page_of (page_number query.page) (page_size_of 100 25 query.page_size) (newest_first found)
          (length found)
