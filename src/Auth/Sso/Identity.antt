-- ===== src/Auth/Sso/Identity.antt =====
-- Which account a token signs in to, and what the claims must have said for it.
use slc_central_admin_cursor.Prelude.{
  ◌≡◌, refl, ◌⊎◌, inl, inr, true, false, Option, none, some, nat_eq, string_eq, Outcome, ok, err,
  and_then, Bool-cases, Option-cases,
}
use slc_central_admin_cursor.AppErrors.{
  AppError, sso_login_error, sso_email_unverified, sso_email_conflict, truthy,
}
use slc_central_admin_cursor.Auth.Db.{
  Reason, admin_sso_login_failed, admin_sso_linked, email_not_verified_for_linking,
  email_linked_to_other_subject, AdminUser, World, has_subject, has_email, find_admin, update_admin,
  record_event,
}
use slc_central_admin_cursor.Auth.Sso.{
  TokenIdentity, sso_fail, is_other, link, link_by_email, find_linked, new_sso_admin, provision,
}

-- The account as the sign-in goes on with it.
pub data Linked (t : TokenIdentity) (w : World) : AdminUser → Type 0 where
  by_subject : (a : AdminUser) → find_admin (has_subject t.subject) w ≡ some a → Linked t w a
  by_email :
      (a : AdminUser)
      → find_admin (has_subject t.subject) w ≡ none
      → find_admin (has_email t.email) w ≡ some a
      → t.email_verified ≡ true
      → is_other t.subject (truthy a.oidc_subject) ≡ false
      → Linked t w (link t.subject a)
  provisioned :
      find_admin (has_subject t.subject) w ≡ none
      → find_admin (has_email t.email) w ≡ none
      → Linked t w (new_sso_admin t w.next_id)

-- The rows that a step does not touch.
pub record KeepsAccess (w v : World) : Type 0 where
  pub sessions : v.sessions ≡ w.sessions
  pub user_roles : v.user_roles ≡ w.user_roles
  pub roles : v.roles ≡ w.roles

pub kept_same : (w : World) → KeepsAccess w w
kept_same w = record { sessions = refl; user_roles = refl; roles = refl }

abbrev pub account : TokenIdentity → World → Outcome World AppError AdminUser
account t w = and_then (find_linked t (find_admin (has_subject t.subject) w) w) (λ l. provision t l)

abbrev refused : AdminUser → Reason → World → World
refused a reason w = record_event admin_sso_login_failed (some a.id) (some reason) w

kept_refused : (a : AdminUser) (reason : Reason) (w : World) → KeepsAccess w (refused a reason w)
unfolding record_event
kept_refused a reason w = record { sessions = refl; user_roles = refl; roles = refl }

abbrev linked_world : TokenIdentity → AdminUser → World → World
linked_world t a w =
    record_event admin_sso_linked (some a.id) none (update_admin a.id (link t.subject) w)

by_email-cases :
    (t : TokenIdentity) (w : World) (found : Option AdminUser)
    → find_admin (has_subject t.subject) w ≡ none
    → find_admin (has_email t.email) w ≡ found
    → ((e : AppError) × (v : World) × (and_then (link_by_email t found w) (λ l. provision t l)
          ≡ err e v)
        × KeepsAccess w v)
      ⊎ ((a : AdminUser) × (v : World) × (and_then (link_by_email t found w) (λ l. provision t l)
            ≡ ok a v)
          × Linked t w a
          × KeepsAccess w v)
unfolding link_by_email provision sso_fail record_event update_admin
by_email-cases t w none no_subject no_email = inr (
  _,
  _,
  refl,
  provisioned no_subject no_email,
  record { sessions = refl; user_roles = refl; roles = refl },
)
by_email-cases t w (some a) no_subject there = elim (Bool-cases t.email_verified) [
  | inr e ↦ inl (
    sso_login_error sso_email_unverified,
    refused a email_not_verified_for_linking w,
    rw e refl,
    kept_refused a email_not_verified_for_linking w,
  )
  | inl e ↦ elim (Bool-cases (is_other t.subject (truthy a.oidc_subject))) [
    | inl f ↦ inl (
      sso_login_error sso_email_conflict,
      refused a email_linked_to_other_subject w,
      rw (e, f) refl,
      kept_refused a email_linked_to_other_subject w,
    )
    | inr f ↦ inr (
      link t.subject a,
      linked_world t a w,
      rw (e, f) refl,
      by_email a no_subject there e f,
      record { sessions = refl; user_roles = refl; roles = refl },
    )
  ]
]

-- The search for the account either throws or finds one, and touches no session and no role.
pub account-cases :
    (t : TokenIdentity) (w : World)
    → ((e : AppError) × (v : World) × (account t w ≡ err e v) × KeepsAccess w v)
      ⊎ ((a : AdminUser) × (v : World) × (account t w ≡ ok a v) × Linked t w a × KeepsAccess w v)
unfolding find_linked provision
account-cases t w = elim (Option-cases (find_admin (has_subject t.subject) w)) [
  | inl e ↦ rw e (by_email-cases t w (find_admin (has_email t.email) w) e refl)
  | inr (a, e) ↦ inr (a, w, rw e refl, by_subject a e, kept_same w)
]
