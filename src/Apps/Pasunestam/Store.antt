-- ===== src/Apps/Pasunestam/Store.antt =====
-- The operations of `FirestorePasunestamStore`. `localeCompare` is a parameter: whether the first
-- text stands before the second one, or beside it.
use slc_central_admin_cursor.Prelude.{
  ℕ, ◌+◌, Bool, true, Option, none, some, String, List, [], ◌∷◌, map, filter, find, length, ltb,
  sort_by, Text, codes, ◌==◌, nat_eq, string_eq, if◌then◌else◌, ok, err, Exec, modify, ◌>>◌,
}
use slc_central_admin_cursor.AppErrors.{truthy}
use slc_central_admin_cursor.Registry.Pages.{take}
use slc_central_admin_cursor.Apps.Firestore.{
  text, boolean, Entries, field, set_fields, Changes, Document, AuthUser, Firebase, str,
  str_or_null, to_iso,
}
use slc_central_admin_cursor.Apps.Pasunestam.{
  PnCaseStatus, PnCertificateStatus, issued, cancelled, draft, PnCase, PnCertificate, PnVet,
  PnTemplate, PnScheme, PnSchemeApplication, case_status_text, certificate_status_text, to_case,
  to_certificate, to_vet, to_template, to_scheme,
}
use slc_central_admin_cursor.Apps.Pasunestam.StorageUrls.{storage_location}

abbrev pub window : ℕ
window = 300

pub record PnSummary : Type 0 where
  pub vets : ℕ
  pub staff : ℕ
  pub certificates_issued : ℕ
  pub certificates_cancelled : ℕ
  pub certificates_draft : ℕ
  pub cases_awaiting_review : ℕ
  pub cases_published : ℕ
  pub templates : ℕ
  pub templates_published : ℕ
  pub schemes : ℕ
  pub scheme_applications : ℕ

pub data CancelResult : Type 0 where
  was_cancelled : PnCertificate → CancelResult
  not_found : CancelResult
  not_issued : PnCertificateStatus → CancelResult

pub record VetPage : Type 0 where
  pub items : List PnVet
  pub next_cursor : Option String

abbrev or_empty : Option String → String
or_empty none = ""
or_empty (some s) = s

abbrev last_id : List Document → Option String
last_id [] = none
last_id (d ∷ []) = some d.id
last_id (d ∷ e ∷ ds) = last_id (e ∷ ds)

abbrev email_of : Option AuthUser → Option String
email_of none = none
email_of (some u) = u.email

abbrev disabled_of : Option AuthUser → Option Bool
disabled_of none = none
disabled_of (some u) = some u.disabled

abbrev is_user : String → AuthUser → Bool
is_user uid u = u.uid == uid

-- `byUid`: the last of the users with a uid would win, and a uid names one user.
unfoldable pub with_account : List AuthUser → PnVet → PnVet
with_account users v =
    let found = find (is_user v.uid) users in
    record v { email = email_of found; disabled = disabled_of found }

unfoldable pub to_scheme_application : Document → PnSchemeApplication
to_scheme_application d = record {
  id = d.id;
  scheme_id = str (field "schemeId" d.data_of);
  applicant_name = str (field "applicantName" d.data_of);
  mobile = str (field "mobile" d.data_of);
  village = str (field "village" d.data_of);
  animal_count = str (field "animalCount" d.data_of);
  created_by = str_or_null (field "createdBy" d.data_of);
  created_at = to_iso (field "createdAt" d.data_of);
}

abbrev pub cancellation : String → String → String → Changes
cancellation reason cancelled_by now =
    ("status", text "cancelled")
    ∷ ("cancelledReason", text reason)
    ∷ ("cancelledAt", text now)
    ∷ ("updatedAt", text now)
    ∷ ("cancelledBy", text cancelled_by)
    ∷ []

module _ {W E : Type 0} (db : Firebase W E) where
  unfoldable pub summary : W → PnSummary
  summary w = record {
    vets = length (db.where_text "profiles" "role" "vet" none w);
    staff =
        length (db.where_text "profiles" "role" "editor" none w)
        + length (db.where_text "profiles" "role" "admin" none w);
    certificates_issued = length (db.where_text "certificates" "status" "issued" none w);
    certificates_cancelled = length (db.where_text "certificates" "status" "cancelled" none w);
    certificates_draft = length (db.where_text "certificates" "status" "draft" none w);
    cases_awaiting_review = length (db.where_text "cases" "status" "submitted" none w);
    cases_published = length (db.where_text "cases" "status" "published" none w);
    templates = length (db.all_of "certificateTemplates" w);
    templates_published = length (db.where_true "certificateTemplates" "published" w);
    schemes = length (db.all_of "schemes" w);
    scheme_applications = length (db.all_of "schemeApplications" w);
  }

  abbrev pub review : PnCaseStatus → String → W → Changes
  review status reviewer w =
      ("status", text (case_status_text status))
      ∷ ("reviewedAt", text (db.now w))
      ∷ ("reviewedBy", text reviewer)
      ∷ []

  has_status : Option PnCertificateStatus → PnCertificate → Bool
  has_status none c = true
  has_status (some status) c = certificate_status_text c.status == certificate_status_text status

  certificates_by : Option String → Option PnCertificateStatus → ℕ → W → List PnCertificate
  unfolding has_status
  certificates_by (some number) status limit w =
      map (λ d. to_certificate d.id d.data_of)
        (take 5 (db.where_text "certificates" "number" number none w))
  certificates_by none status limit w = take limit (
      filter (has_status status)
        (map (λ d. to_certificate d.id d.data_of) (take window (db.newest_of "certificates" w))))

  unfoldable pub find_certificates :
      Option String → Option PnCertificateStatus → ℕ → W → List PnCertificate
  unfolding certificates_by
  find_certificates number status limit w = certificates_by (truthy number) status limit w

  unfoldable pub cancel_current : String → String → String → PnCertificate → W → CancelResult × W
  cancel_current id reason cancelled_by current w = elim current.status [
    | issued ↦ (
      was_cancelled (record current {
        status = cancelled;
        cancelled_reason = some reason;
        cancelled_at = some (db.now w);
      }),
      db.update "certificates" id (cancellation reason cancelled_by (db.now w)) w,
    )
    | draft ↦ (not_issued draft, w)
    | cancelled ↦ (not_issued cancelled, w)
  ]

  unfoldable pub cancel_found : String → String → String → Option Entries → W → CancelResult × W
  cancel_found id reason cancelled_by none w = (not_found, w)
  cancel_found id reason cancelled_by (some d) w =
      cancel_current id reason cancelled_by (to_certificate id d) w

  -- The body of the transaction.
  unfoldable pub cancel_certificate : String → String → String → W → CancelResult × W
  cancel_certificate id reason cancelled_by w =
      cancel_found id reason cancelled_by (db.get "certificates" id w) w

  unfoldable pub list_vets : ℕ → Option String → W → VetPage
  list_vets limit after w =
      let found = take (limit + 1) (db.where_text "profiles" "role" "vet" (truthy after) w) in
      let docs = take limit found in
      let vets = map (λ d. to_vet d.id d.data_of) docs in
      record {
        items = map (with_account (db.get_users (map (λ v. v.uid) vets) w)) vets;
        next_cursor = if ltb limit (length found) then last_id docs else none;
      }

  vet_in : String → Option Entries → Option PnVet
  vet_in uid none = none
  vet_in uid (some d) = if str (field "role" d) == "vet" then some (to_vet uid d) else none

  unfoldable pub get_vet : String → W → Option PnVet
  unfolding vet_in
  get_vet uid w = vet_in uid (db.get "profiles" uid w)

  unfoldable pub set_account_disabled : String → Bool → Exec W E (Unit {0})
  set_account_disabled uid disabled =
      db.update_user uid disabled
      >> (if disabled then db.revoke_refresh_tokens uid else (λ w. ok tt w))

  published_in : String → Bool → Option Entries → W → Option PnTemplate × W
  published_in id value none w = (none, w)
  published_in id value (some d) w =
      let changes = ("published", boolean value) ∷ [] in
      (some (to_template id (set_fields changes d)), db.update "certificateTemplates" id changes w)

  unfoldable pub set_template_published : String → Bool → W → Option PnTemplate × W
  unfolding published_in
  set_template_published id value w = published_in id value (db.get "certificateTemplates" id w) w

  unfoldable pub list_scheme_applications : ℕ → W → List PnSchemeApplication
  list_scheme_applications limit w =
      map to_scheme_application (take limit (db.newest_of "schemeApplications" w))

module _ {W E : Type 0} (db : Firebase W E) (first : ℕ → String → String)
    (not_after : String → String → Bool) where
  -- `newestFirst`.
  newest_first : Option String → Option String → Bool
  newest_first a b = not_after (or_empty b) (or_empty a)

  unfoldable pub list_cases : PnCaseStatus → ℕ → W → List PnCase
  unfolding newest_first
  list_cases status limit w = take limit (
      sort_by (λ a b. newest_first a.created_at b.created_at)
        (map (λ d. to_case first d.id d.data_of)
          (take window (db.where_text "cases" "status" (case_status_text status) none w))))

  reviewed : String → Option Entries → Changes → W → Option PnCase × W
  reviewed id none changes w = (none, w)
  reviewed id (some d) changes w =
      (some (to_case first id (set_fields changes d)), db.update "cases" id changes w)

  -- The status is `published` or `rejected`.
  unfoldable pub set_case_status : String → PnCaseStatus → String → W → Option PnCase × W
  unfolding reviewed
  set_case_status id status reviewer w =
      reviewed id (db.get "cases" id w) (review db status reviewer w) w

  unfoldable pub list_templates : W → List PnTemplate
  list_templates w =
      sort_by (λ a b. not_after a.name b.name)
        (map (λ d. to_template d.id d.data_of) (db.all_of "certificateTemplates" w))

  unfoldable pub list_schemes : W → List PnScheme
  unfolding newest_first
  list_schemes w =
      sort_by (λ a b. newest_first a.created_at b.created_at)
        (map (λ d. to_scheme first d.id d.data_of) (take window (db.all_of "schemes" w)))

  -- `decodeURIComponent` throws where a text is not well-formed.
  module _ (decode_uri_component : Text → Option Text) (uri_error : E) where
    delete_at : Option (Option (Text × Text)) → Exec W E (Unit {0})
    delete_at none w = err uri_error w
    delete_at (some none) w = ok tt w
    delete_at (some (some (bucket, path))) w = db.delete_file bucket path w

    file_text : Option String → Text
    file_text none = []
    file_text (some url) = codes url

    delete_found : String → Option Entries → Exec W E (Option PnScheme)
    unfolding delete_at file_text
    delete_found id none w = ok none w
    delete_found id (some d) w =
        let scheme = to_scheme first id d in
        (modify (db.delete "schemes" id)
            >> (delete_at (storage_location decode_uri_component (file_text scheme.file_url))
                >> (λ v. ok (some scheme) v)))
          w

    unfoldable pub delete_scheme : String → Exec W E (Option PnScheme)
    unfolding delete_found
    delete_scheme id w = delete_found id (db.get "schemes" id w) w
