-- ===== src/Examples/Apps.antt =====
-- A database of documents held in memory, and Pasunestam's certificates and files on it.
use mathlib.Core.Option.{some-injective}
use slc_central_admin_cursor.Prelude.{
  Text, any, nat_eq, if◌then◌else◌, ◌≡◌, ◌↔◌, refl, ap, ◌∙◌, Bool, true, false, ◌&&◌, Option, none,
  some, String, List, [], ◌∷◌, codes, ◌==◌, string_eq, eq_iff, find, ok,
}
use slc_central_admin_cursor.Rows.{update_where, delete_where, find-update_where, find-holds, found}
use slc_central_admin_cursor.Apps.Firestore.{
  text, Entries, no_entries, entry, field, set_field, set_fields, Changes, Firebase, IsFirebase,
  str_or_null, to_iso, entries_of, str,
}
use slc_central_admin_cursor.Apps.Pasunestam.{
  PnCertificate, cancelled, to_certificate, certificate_status,
}
use slc_central_admin_cursor.Apps.Pasunestam.Store.{
  was_cancelled, not_issued, cancel_certificate, cancel_found, cancel_current,
}
use slc_central_admin_cursor.Apps.Pasunestam.Laws.{Cancelled, cancel_certificate-once}
use slc_central_admin_cursor.Apps.Pasunestam.StorageUrls.{storage_location}
use slc_central_admin_cursor.Apps.Pasunestam.StorageUrls.Matches.{
  IsStored, storage_location-IsStored,
}

record Stored : Type 0 where
  pub collection : String
  pub id : String
  pub data_of : Entries

abbrev is_at : String → String → Stored → Bool
is_at collection id d = d.collection == collection && d.id == id

abbrev data_in : Option Stored → Option Entries
data_in none = none
data_in (some d) = some d.data_of

abbrev changed : Changes → Stored → Stored
changed changes d = record d { data_of = set_fields changes d.data_of }

-- Of the queries none is used here.
abbrev memory : Firebase (List Stored) String
memory = record {
  now = λ w. "2026-01-01T00:00:00.000Z";
  get = λ collection id w. data_in (find (is_at collection id) w);
  update = λ collection id changes w. update_where (is_at collection id) (changed changes) w;
  delete = λ collection id w. delete_where (is_at collection id) w;
  where_text = λ collection name value after w. [];
  where_true = λ collection name w. [];
  all_of = λ collection w. [];
  newest_of = λ collection w. [];
  get_users = λ uids w. [];
  update_user = λ uid disabled w. ok tt w;
  revoke_refresh_tokens = λ uid w. ok tt w;
  delete_file = λ bucket path w. ok tt w;
}

update_one :
    (p : Stored → Bool) (changes : Changes) (o : Option Stored) (d : Entries)
    → ((a : Stored) → o ≡ some a → p a ≡ true)
    → data_in o ≡ some d
    → data_in (found p (changed changes) o) ≡ some (set_fields changes d)
update_one p changes none d holds h = cc
update_one p changes (some a) d holds h =
    rw (holds a refl) (ap (λ e. some (set_fields changes e)) (some-injective _ _ h))

update_far :
    (p : Stored → Bool) (changes : Changes) (o : Option Stored)
    → ((a : Stored) → o ≡ some a → p a ≡ false)
    → data_in (found p (changed changes) o) ≡ data_in o
update_far p changes none far = refl
update_far p changes (some a) far = rw (far a refl) refl

both_tests : (a b : Bool) → (a && b) ≡ true → b ≡ true
both_tests true b h = h
both_tests false b h = cc

and_no : (a b : Bool) → b ≡ false → (a && b) ≡ false
and_no true b h = h
and_no false b h = refl

far_apart :
    (collection id other : String) (a : Stored)
    → (other == id) ≡ false
    → is_at collection other a ≡ true
    → is_at collection id a ≡ false
far_apart collection id other a h k =
    let same : a.id ≡ other =
      (eq_iff a.id other).0 (both_tests (a.collection == collection) (a.id == other) k) in
    and_no (a.collection == collection) (a.id == id) (rw same h)

memory-IsFirebase : IsFirebase memory
memory-IsFirebase = record {
  get-update = λ collection id changes w d h.
      ap data_in (
        find-update_where (is_at collection id) (is_at collection id) (changed changes) (λ x. refl)
          w)
      ∙ update_one (is_at collection id) changes (find (is_at collection id) w) d
          (λ a e. find-holds (is_at collection id) w a e) h;
  get-update_other = λ collection id other changes w h.
      ap data_in (
        find-update_where (is_at collection other) (is_at collection id) (changed changes)
          (λ x. refl) w)
      ∙ update_far (is_at collection id) changes (find (is_at collection other) w)
          (λ a e. far_apart collection id other a h (find-holds (is_at collection other) w a e));
}

abbrev certificate : Entries
certificate = entry "number" (text "PN-1") (entry "status" (text "issued") no_entries)

abbrev certificates : List Stored
certificates = record { collection = "certificates"; id = "c1"; data_of = certificate } ∷ []

abbrev after : List Stored
after = (cancel_certificate memory "c1" "wrong animal" "ann@x" certificates).1

abbrev cancelled_certificate : PnCertificate
cancelled_certificate = record {
  id = "c1";
  number = some "PN-1";
  status = cancelled;
  template_id = "";
  vet_name = none;
  vet_institution = none;
  vet_district = none;
  issued_at = none;
  created_at = none;
  cancelled_reason = some "wrong animal";
  cancelled_at = some "2026-01-01T00:00:00.000Z";
}

is_cancelled :
    cancel_certificate memory "c1" "wrong animal" "ann@x" certificates
    ≡ (was_cancelled cancelled_certificate, after)
unfolding cancel_certificate cancel_found cancel_current to_certificate certificate_status field str
    str_or_null to_iso entries_of set_fields set_field update_where
is_cancelled = refl

cancel_certificate-once_example :
    Cancelled memory "c1" "wrong animal" "ann@x" certificates cancelled_certificate after
    × (cancel_certificate memory "c1" "again" "bob@x" after ≡ (not_issued cancelled, after))
    × (memory.get "certificates" "c2" after ≡ memory.get "certificates" "c2" certificates)
cancel_certificate-once_example =
    cancel_certificate-once memory memory-IsFirebase "c1" "wrong animal" "ann@x" "again" "bob@x"
      "c2" certificates after cancelled_certificate refl is_cancelled

-- `decodeURIComponent` on texts without escapes; those with one are left out.
abbrev plain_only : Text → Option Text
plain_only s = if any (λ c. c == b'%') s then none else some s

abbrev stored_file : Text
stored_file = codes "https://storage.googleapis.com/herd/schemes/a.pdf"

storage_location-IsStored_example :
    ((storage_location plain_only stored_file ≡ some (some (codes "herd", codes "schemes/a.pdf")))
      ↔ ((raw : Text) × IsStored stored_file (codes "herd") raw
          × (plain_only raw ≡ some (codes "schemes/a.pdf"))))
    × ((storage_location plain_only stored_file ≡ none)
        ↔ ((b : Text) × (raw : Text) × IsStored stored_file b raw × (plain_only raw ≡ none)))
storage_location-IsStored_example =
    storage_location-IsStored plain_only stored_file (codes "herd") (codes "schemes/a.pdf")
