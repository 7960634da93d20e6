-- ===== src/Apps/Pasunestam/Laws.antt =====
-- What the operations of the store leave behind.
use package.text.Mathlib.TextPositions.{eq_refl}
use slc_central_admin_cursor.Prelude.{
  ◌≡◌, refl, ap, sym, ◌∙◌, ◌⊎◌, inl, inr, Bool, true, false, Option, none, some, String, ◌==◌,
  string_eq, Bool-cases, eq_iff,
}
use slc_central_admin_cursor.Apps.Firestore.{
  no_entries, entry, Value, text, Entries, field, set_field, set_fields, Firebase, IsFirebase,
}
use slc_central_admin_cursor.Apps.Pasunestam.{
  PnCertificateStatus, draft, issued, cancelled, PnCertificate, to_certificate, certificate_status,
}
use slc_central_admin_cursor.Apps.Pasunestam.Store.{
  CancelResult, was_cancelled, not_found, not_issued, cancellation, cancel_current, cancel_found,
  cancel_certificate,
}

field-set_field :
    (name : String) (v : Value) (d : Entries) → field name (set_field name v d) ≡ some v
unfolding field set_field
field-set_field name v no_entries = rw (eq_refl name) refl
field-set_field name v (entry n old rest) = elim (Bool-cases (n == name)) [
  | inl e ↦ rw (e, e) refl
  | inr e ↦ rw (e, e) (field-set_field name v rest)
]

apart :
    (n name other : String) → (n == name) ≡ true → (name == other) ≡ false → (n == other) ≡ false
apart n name other e h = rw ((eq_iff n name).0 e) h

field-set_other :
    (name other : String) (v : Value) (d : Entries)
    → (name == other) ≡ false
    → field other (set_field name v d) ≡ field other d
unfolding field set_field
field-set_other name other v no_entries h = rw h refl
field-set_other name other v (entry n old rest) h = elim (Bool-cases (n == name)) [
  | inl e ↦ rw (e, apart n name other e h) refl
  | inr e ↦ elim (Bool-cases (n == other)) [
    | inl f ↦ rw (e, f) refl
    | inr f ↦ rw (e, f) (field-set_other name other v rest h)
  ]
]

-- After a cancellation the status is that of a cancelled certificate.
cancelled_status :
    (id reason cancelled_by now : String) (d : Entries)
    → (to_certificate id (set_fields (cancellation reason cancelled_by now) d)).status ≡ cancelled
unfolding to_certificate set_fields certificate_status
cancelled_status id reason cancelled_by now d =
    let d1 = set_field "status" (text "cancelled") d in
    let d2 = set_field "cancelledReason" (text reason) d1 in
    let d3 = set_field "cancelledAt" (text now) d2 in
    let d4 = set_field "updatedAt" (text now) d3 in
    ap certificate_status (
      field-set_other "cancelledBy" "status" (text cancelled_by) d4 refl
      ∙ field-set_other "updatedAt" "status" (text now) d3 refl
      ∙ field-set_other "cancelledAt" "status" (text now) d2 refl
      ∙ field-set_other "cancelledReason" "status" (text reason) d1 refl
      ∙ field-set_field "status" (text "cancelled") d)

status-cases : (s : PnCertificateStatus) → (s ≡ issued) ⊎ ((s ≡ draft) ⊎ (s ≡ cancelled))
status-cases issued = inl refl
status-cases draft = inr (inl refl)
status-cases cancelled = inr (inr refl)

certificate_of : CancelResult → Bool
certificate_of (was_cancelled c) = true
certificate_of _ = false

module _ {W E : Type 0} (db : Firebase W E) where
  again :
      (id reason cancelled_by : String) (w : W) (d : Entries)
      → db.get "certificates" id w ≡ some d
      → (to_certificate id d).status ≡ cancelled
      → cancel_certificate db id reason cancelled_by w ≡ (not_issued cancelled, w)
  unfolding cancel_certificate cancel_found cancel_current
  again id reason cancelled_by w d there status = rw (there, status) refl

  certificate_in : PnCertificate → CancelResult → PnCertificate
  certificate_in d (was_cancelled c) = c
  certificate_in d _ = d

  result-injective :
      (a c : PnCertificate) (w v : W)
      → ◌≡◌ {A = CancelResult × W} (was_cancelled a, w) (was_cancelled c, v)
      → (a ≡ c) × (w ≡ v)
  unfolding certificate_in
  result-injective a c w v h =
      (ap (λ (p : CancelResult × W). certificate_in a p.0) h, ap (λ (p : CancelResult × W). p.1) h)

  not_done :
      (r : CancelResult) (w : W) (c : PnCertificate) (v : W)
      → certificate_of r ≡ false
      → ◌≡◌ {A = CancelResult × W} (r, w) (was_cancelled c, v)
      → ⊥
  unfolding certificate_of
  not_done r w c v h e = let x = ap (λ (p : CancelResult × W). certificate_of p.0) e in cc

  -- What a cancellation that succeeds has found and written.
  pub record Cancelled (id reason cancelled_by : String) (w : W) (c : PnCertificate) (v : W)
      : Type 0 where
    pub before : Entries
    pub there : db.get "certificates" id w ≡ some before
    pub was_issued : (to_certificate id before).status ≡ issued
    pub now_cancelled : c.status ≡ cancelled
    pub with_reason : c.cancelled_reason ≡ some reason
    pub written : v ≡ db.update "certificates" id (cancellation reason cancelled_by (db.now w)) w

  abbrev marked : PnCertificate → String → W → PnCertificate
  marked current reason w = record current {
    status = cancelled;
    cancelled_reason = some reason;
    cancelled_at = some (db.now w);
  }

  issued-marked :
      (id reason cancelled_by : String) (current : PnCertificate) (w : W)
      → current.status ≡ issued
      → cancel_current db id reason cancelled_by current w ≡ (
        was_cancelled (marked current reason w),
        db.update "certificates" id (cancellation reason cancelled_by (db.now w)) w,
      )
  unfolding cancel_current
  issued-marked id reason cancelled_by current w e = rw e refl

  done-Cancelled :
      (id reason cancelled_by : String) (w : W) (c : PnCertificate) (v : W) (found : Option Entries)
      → db.get "certificates" id w ≡ found
      → cancel_found db id reason cancelled_by found w ≡ (was_cancelled c, v)
      → Cancelled id reason cancelled_by w c v
  unfolding cancel_found cancel_current certificate_of
  done-Cancelled id reason cancelled_by w c v none there h =
      absurd (not_done not_found w c v refl h)
  done-Cancelled id reason cancelled_by w c v (some d) there h =
      elim (status-cases (to_certificate id d).status) [
        | inr (inl e) ↦ absurd (not_done (not_issued draft) w c v refl (rw e at h))
        | inr (inr e) ↦ absurd (not_done (not_issued cancelled) w c v refl (rw e at h))
        | inl e ↦
            let (x, y) =
              result-injective _ c _ v
                (sym (issued-marked id reason cancelled_by (to_certificate id d) w e) ∙ h) in
            record {
              before = d;
              there = there;
              was_issued = e;
              now_cancelled = ap (λ c. c.status) (sym x);
              with_reason = ap (λ c. c.cancelled_reason) (sym x);
              written = sym y;
            }
      ]

  -- A certificate is cancelled only where it was issued; after it a cancellation of the same
  -- certificate, for whatever reason and by whom, is refused and changes nothing, and every other
  -- certificate is as before. This asks of the database that an update of a document is what the
  -- next read of it gives and that it touches no other document.
  pub cancel_certificate-once :
      (laws : IsFirebase db) (id reason cancelled_by reason2 cancelled_by2 other : String) (w v : W)
      (c : PnCertificate)
      → (other == id) ≡ false
      → cancel_certificate db id reason cancelled_by w ≡ (was_cancelled c, v)
      → Cancelled id reason cancelled_by w c v
        × (cancel_certificate db id reason2 cancelled_by2 v ≡ (not_issued cancelled, v))
        × (db.get "certificates" other v ≡ db.get "certificates" other w)
  unfolding cancel_certificate
  cancel_certificate-once laws id reason cancelled_by reason2 cancelled_by2 other w v c apart h =
      let done = done-Cancelled id reason cancelled_by w c v (db.get "certificates" id w) refl h in
      let changes = cancellation reason cancelled_by (db.now w) in
      let after : db.get "certificates" id v ≡ some (set_fields changes done.before) =
        ap (db.get "certificates" id) done.written
        ∙ laws.get-update "certificates" id changes w done.before done.there in
      (
        done,
        again id reason2 cancelled_by2 v (set_fields changes done.before) after
            (cancelled_status id reason cancelled_by (db.now w) done.before),
        ap (db.get "certificates" other) done.written
            ∙ laws.get-update_other "certificates" id other changes w apart,
      )
