-- ===== src/Apps/Pasunestam.antt =====
-- What the administration reads of Pasunestam: the documents of
-- apps/api/src/modules/apps/pasunestam/pasunestam.store.ts and the address of a stored file. The
-- first units of a text are taken by a parameter.
pub mod Store
pub mod Laws
pub mod StorageUrls
use slc_central_admin_cursor.Prelude.{
  ℕ, Bool, true, false, Option, none, some, String, List, [], ◌∷◌, ◌++◌, Text, codes, ◌==◌, nat_eq,
  string_eq, if◌then◌else◌,
}
use slc_central_admin_cursor.Apps.Firestore.{
  Value, text, Entries, field, is_true_value, str, str_or_null, to_iso, entries_of,
}

pub data PnCaseStatus : Type 0 where
  submitted published rejected : PnCaseStatus

pub data PnCertificateStatus : Type 0 where
  draft issued cancelled : PnCertificateStatus

pub record PnCase : Type 0 where
  pub id : String
  pub title : String
  pub species : String
  pub body : String
  pub submitter_name : String
  pub submitted_by : String
  pub status : PnCaseStatus
  pub created_at : Option String
  pub reviewed_at : Option String
  pub reviewed_by : Option String

pub record PnCertificate : Type 0 where
  pub id : String
  pub number : Option String
  pub status : PnCertificateStatus
  pub template_id : String
  pub vet_name : Option String
  pub vet_institution : Option String
  pub vet_district : Option String
  pub issued_at : Option String
  pub created_at : Option String
  pub cancelled_reason : Option String
  pub cancelled_at : Option String

pub record PnVet : Type 0 where
  pub uid : String
  pub full_name : Option String
  pub designation : Option String
  pub registration_no : Option String
  pub institution : Option String
  pub district : Option String
  pub created_at : Option String
  pub email : Option String
  pub disabled : Option Bool

pub record PnTemplate : Type 0 where
  pub id : String
  pub key : String
  pub name : String
  pub number_prefix : String
  pub published : Bool

pub record PnScheme : Type 0 where
  pub id : String
  pub name : String
  pub tag : String
  pub description : String
  pub file_name : Option String
  pub file_url : Option String
  pub created_by : Option String
  pub created_at : Option String

pub record PnSchemeApplication : Type 0 where
  pub id : String
  pub scheme_id : String
  pub applicant_name : String
  pub mobile : String
  pub village : String
  pub animal_count : String
  pub created_by : Option String
  pub created_at : Option String

abbrev pub case_status_text : PnCaseStatus → String
case_status_text submitted = "submitted"
case_status_text published = "published"
case_status_text rejected = "rejected"

abbrev pub certificate_status_text : PnCertificateStatus → String
certificate_status_text draft = "draft"
certificate_status_text issued = "issued"
certificate_status_text cancelled = "cancelled"

unfoldable pub case_status : Option Value → PnCaseStatus
case_status (some (text s)) =
    if s == "published" then published else if s == "rejected" then rejected else submitted
case_status _ = submitted

unfoldable pub certificate_status : Option Value → PnCertificateStatus
certificate_status (some (text s)) =
    if s == "issued" then issued else if s == "cancelled" then cancelled else draft
certificate_status _ = draft

module _ (first : ℕ → String → String) where
  unfoldable pub to_case : String → Entries → PnCase
  to_case id d = record {
    id = id;
    title = str (field "title" d);
    species = str (field "species" d);
    body = first 8000 (str (field "body" d));
    submitter_name = str (field "submitterName" d);
    submitted_by = str (field "submittedBy" d);
    status = case_status (field "status" d);
    created_at = to_iso (field "createdAt" d);
    reviewed_at = to_iso (field "reviewedAt" d);
    reviewed_by = str_or_null (field "reviewedBy" d);
  }

  unfoldable pub to_scheme : String → Entries → PnScheme
  to_scheme id d = record {
    id = id;
    name = str (field "name" d);
    tag = str (field "tag" d);
    description = first 2000 (str (field "description" d));
    file_name = str_or_null (field "fileName" d);
    file_url = str_or_null (field "fileUrl" d);
    created_by = str_or_null (field "createdBy" d);
    created_at = to_iso (field "createdAt" d);
  }

unfoldable pub to_certificate : String → Entries → PnCertificate
to_certificate id d =
    let vet = entries_of (field "vet" d) in
    record {
      id = id;
      number = str_or_null (field "number" d);
      status = certificate_status (field "status" d);
      template_id = str (field "templateId" d);
      vet_name = str_or_null (field "fullName" vet);
      vet_institution = str_or_null (field "institution" vet);
      vet_district = str_or_null (field "district" vet);
      issued_at = to_iso (field "issuedAt" d);
      created_at = to_iso (field "createdAt" d);
      cancelled_reason = str_or_null (field "cancelledReason" d);
      cancelled_at = to_iso (field "cancelledAt" d);
    }

unfoldable pub to_vet : String → Entries → PnVet
to_vet uid d = record {
  uid = uid;
  full_name = str_or_null (field "fullName" d);
  designation = str_or_null (field "designation" d);
  registration_no = str_or_null (field "registrationNo" d);
  institution = str_or_null (field "institution" d);
  district = str_or_null (field "district" d);
  created_at = to_iso (field "createdAt" d);
  email = none;
  disabled = none;
}

unfoldable pub to_template : String → Entries → PnTemplate
to_template id d = record {
  id = id;
  key = str (field "key" d);
  name = str (field "name" d);
  number_prefix = str (field "numberPrefix" d);
  published = is_true_value (field "published" d);
}
