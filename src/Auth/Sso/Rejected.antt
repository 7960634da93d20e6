-- ===== src/Auth/Sso/Rejected.antt =====
-- What a rejected sign-in through the provider leaves alone.
use slc_central_admin_cursor.Prelude.{
  sort_by, ℕ, ◌≡◌, ap, sym, ◌∙◌, inl, inr, Option, none, some, String, List, length, ◌==◌, nat_eq,
  string_eq, list_eq, Outcome, err, ok-not_err, and_then_assoc, and_then, and_then-err,
  err-injective, Bool-cases,
}
use slc_central_admin_cursor.Shared.{RoleKey, role_eq}
use slc_central_admin_cursor.AppErrors.{AppError, sso_login_error, SsoErrorCode}
use slc_central_admin_cursor.Auth.Db.{
  Reason, AdminUser, SessionContext, is_disabled, World, has_subject, find_admin, role_keys_of,
  record_event,
}
use slc_central_admin_cursor.Auth.Env.{Env}
use slc_central_admin_cursor.Auth.Sessions.{IssuedSession, SsoSessionData, create_session}
use slc_central_admin_cursor.Auth.Sessions.Laws.{create-cases}
use slc_central_admin_cursor.Auth.Permissions.{ResolvedAdmin}
use slc_central_admin_cursor.Auth.Login.{get_current_user}
use slc_central_admin_cursor.Auth.Claims.{Json, ClaimTexts, role_in_order}
use slc_central_admin_cursor.Auth.Sso.{
  SsoConfig, TokenIdentity, identity_of, sso_fail, find_linked, rows_of, sync_roles, sync_profile,
  finish_sso, admit_account, sign_in_as, complete_sso_login,
}
use slc_central_admin_cursor.Auth.Sso.Identity.{KeepsAccess, account, account-cases}

sync_roles-not_rejected :
    (id : ℕ) (roles : List RoleKey) (w v : World) (code : SsoErrorCode)
    → sync_roles id roles w ≡ err (sso_login_error code) v
    → ⊥
unfolding sync_roles
sync_roles-not_rejected id roles w v code h =
    elim (Bool-cases (sort_by role_in_order (role_keys_of id w) == roles)) [
      | inl e ↦ let x = rw e at h in cc
      | inr e ↦ elim (Bool-cases (length (rows_of roles w) == length roles)) [
        | inl f ↦ let x = rw (e, f) at h in cc
        | inr f ↦ let (x, y) = err-injective (rw (e, f) at h) in cc
      ]
    ]

finish_sso-not_rejected :
    (s : IssuedSession) (a : AdminUser) (u : Option ResolvedAdmin) (w v : World)
    (code : SsoErrorCode)
    → finish_sso s a u w ≡ err (sso_login_error code) v
    → ⊥
unfolding finish_sso
finish_sso-not_rejected s a none w v code h = let (x, y) = err-injective h in cc
finish_sso-not_rejected s a (some user) w v code h = cc

create_session-not_rejected :
    (env : Env) (id : ℕ) (ctx : SessionContext) (sso : SsoSessionData) (w v : World)
    (code : SsoErrorCode)
    → create_session env id ctx sso none w ≡ err (sso_login_error code) v
    → ⊥
create_session-not_rejected env id ctx sso w v code h = elim (create-cases env id ctx sso none w) [
  | inl e ↦ let (x, y) = err-injective (sym e ∙ h) in cc
  | inr (e, fresh) ↦ ok-not_err e h
]

module _ {A : Type 0} where
  sso_fail-kept :
      (code : SsoErrorCode) (reason : Reason) (id : Option ℕ) (w : World) {e : AppError} {v : World}
      → ◌≡◌ {A = Outcome World AppError A} (sso_fail code reason id w) (err e v)
      → KeepsAccess w v
  unfolding sso_fail record_event
  sso_fail-kept code reason id w h =
      let (x, y) = err-injective h in
      record {
        sessions = ap (λ (v : World). v.sessions) (sym y);
        user_roles = ap (λ (v : World). v.user_roles) (sym y);
        roles = ap (λ (v : World). v.roles) (sym y);
      }

module _ (env : Env) (t : TokenIdentity) (id_token : String) (ctx : SessionContext) where
  admit-rejected :
      (a : AdminUser) (w v : World) (code : SsoErrorCode)
      → admit_account env t id_token ctx a w ≡ err (sso_login_error code) v
      → KeepsAccess w v
  unfolding admit_account
  admit-rejected a w v code h = elim (Bool-cases (is_disabled a.status)) [
    | inl e ↦ sso_fail-kept _ _ _ w (rw e at h)
    | inr e ↦ elim (and_then-err (sync_roles a.id t.roles w) _ (rw e at h)) [
      | inl x ↦ absurd (sync_roles-not_rejected a.id t.roles w v code x)
      | inr (_, w1, _, rest) ↦
          elim (and_then-err (create_session env a.id ctx _ none (sync_profile t a w1)) _ rest) [
            | inl x ↦ absurd (create_session-not_rejected env a.id ctx _ _ v code x)
            | inr (s, w3, _, last) ↦
                absurd (finish_sso-not_rejected s a (get_current_user a.id w3) w3 v code last)
          ]
    ]
  ]

  after_account-rejected :
      (w v : World) (code : SsoErrorCode)
      → and_then (account t w) (λ a. admit_account env t id_token ctx a)
        ≡ err (sso_login_error code) v
      → KeepsAccess w v
  after_account-rejected w v code h = elim (account-cases t w) [
    | inl (e, u, q, kept) ↦
        let (x, y) =
          err-injective
            (ap (λ o. and_then o (λ a. admit_account env t id_token ctx a)) (sym q) ∙ h) in
        rw (← y) kept
    | inr (a, u, q, linked, kept) ↦
        let rest =
          admit-rejected a u v code
            (ap (λ o. and_then o (λ a. admit_account env t id_token ctx a)) (sym q) ∙ h) in
        record {
          sessions = rest.sessions ∙ kept.sessions;
          user_roles = rest.user_roles ∙ kept.user_roles;
          roles = rest.roles ∙ kept.roles;
        }
  ]

  sign_in_as-rejected :
      (w v : World) (code : SsoErrorCode)
      → sign_in_as env t id_token ctx w ≡ err (sso_login_error code) v
      → KeepsAccess w v
  unfolding sign_in_as
  sign_in_as-rejected w v code h = elim (Bool-cases (length t.roles == 0)) [
    | inl e ↦ sso_fail-kept _ _ _ w (rw e at h)
    | inr e ↦ elim (Bool-cases (t.email == "")) [
      | inl f ↦ sso_fail-kept _ _ _ w (rw (e, f) at h)
      | inr f ↦ after_account-rejected w v code (
          and_then_assoc (find_linked t (find_admin (has_subject t.subject) w) w) _ _
          ∙ (rw (e, f) at h))
    ]
  ]

-- A sign-in through the provider that is rejected with one of the codes for the login page leaves
-- the sessions, the roles of the accounts and the table of roles as they were.
pub complete_sso_login-rejected :
    (env : Env) (texts : ClaimTexts) (settings : SsoConfig) (subject : String) (claims : Json)
    (id_token : String)
    → (ctx : SessionContext) (w v : World) (code : SsoErrorCode)
    → complete_sso_login env texts (some settings) subject claims id_token ctx w
      ≡ err (sso_login_error code) v
    → KeepsAccess w v
unfolding complete_sso_login
complete_sso_login-rejected env texts settings subject claims id_token ctx w v code h =
    sign_in_as-rejected env (identity_of env texts settings subject claims) id_token ctx w v code h
