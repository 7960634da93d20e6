-- ===== src/Auth/Sso/SignIn.antt =====
-- What a sign-in through the provider has checked, and what it leaves.
use slc_central_admin_cursor.Prelude.{
  ℕ, ◌≡◌, refl, ap, sym, ◌∙◌, inl, inr, false, Option, none, some, String, length, ◌==◌, nat_eq,
  string_eq, ==_iff, find, ok, and_then, and_then-ok, ok-injective, ok-not_err, Bool-cases,
}
use slc_central_admin_cursor.Shared.{RoleKey, count}
use slc_central_admin_cursor.Rows.{find-holds}
use slc_central_admin_cursor.Auth.Db.{
  AdminUser, AdminSession, SessionContext, is_disabled, World, admin_sso_login, has_id, has_subject,
  find_admin, update_admin, role_keys_of, role_keys_in, record_event,
}
use slc_central_admin_cursor.Auth.Env.{Env}
use slc_central_admin_cursor.Auth.Sessions.{
  IssuedSession, SsoSessionData, find_session, new_session, create_session,
}
use slc_central_admin_cursor.Auth.Sessions.Laws.{create-cases, find-with_session}
use slc_central_admin_cursor.Auth.Permissions.{ResolvedAdmin, resolve_admin, resolved}
use slc_central_admin_cursor.Auth.Login.{LoginResult, get_current_user}
use slc_central_admin_cursor.Auth.Claims.{Json, ClaimTexts}
use slc_central_admin_cursor.Auth.Sso.{
  SsoConfig, TokenIdentity, identity_of, sso_fail, find_linked, provision, sync_roles, sync_profile,
  finish_sso, admit_account, sign_in_as, complete_sso_login,
}
use slc_central_admin_cursor.Auth.Sso.Identity.{Linked, account, account-cases}
use slc_central_admin_cursor.Auth.Sso.RoleSync.{HasUniqueKeys, sync_roles-count}

-- What a successful sign-in has checked and what it has written.
pub record SsoSignedIn (env : Env) (t : TokenIdentity) (w : World) (r : LoginResult) (v : World)
    : Type 0 where
  pub admin : AdminUser
  pub linked : Linked t w admin
  pub enabled : is_disabled admin.status ≡ false
  pub some_role : (length t.roles == 0) ≡ false
  pub some_email : (t.email == "") ≡ false
  pub roles : (k : RoleKey) → count k (role_keys_of admin.id v) ≡ count k t.roles
  pub session : AdminSession
  pub stored : find_session env r.token v ≡ some session
  pub owned : session.admin_user_id ≡ admin.id
  pub by_sid : session.oidc_sid ≡ t.sid
  pub user : r.user.id ≡ admin.id

id_or_zero : Option ResolvedAdmin → ℕ
id_or_zero none = 0
id_or_zero (some u) = u.id

resolved-id :
    (found : Option AdminUser) (id : ℕ) (w : World) (u : ResolvedAdmin)
    → ((a : AdminUser) → found ≡ some a → a.id ≡ id)
    → resolved found w ≡ some u
    → u.id ≡ id
unfolding resolved id_or_zero
resolved-id none id w u is h = cc
resolved-id (some a) id w u is h = ap id_or_zero (sym h) ∙ is a refl

current-id : (id : ℕ) (w : World) (u : ResolvedAdmin) → get_current_user id w ≡ some u → u.id ≡ id
unfolding get_current_user resolve_admin find_admin
current-id id w u h =
    resolved-id (find (has_id id) w.admins) id w u
      (λ a e. (==_iff a.id id).0 (find-holds (has_id id) w.admins a e)) h

finished :
    (s : IssuedSession) (a : AdminUser) (u : Option ResolvedAdmin) (w : World) {r : LoginResult}
    {v : World}
    → finish_sso s a u w ≡ ok r v
    → (r.token ≡ s.token)
      × (u ≡ some r.user)
      × (v ≡ record_event admin_sso_login (some a.id) none w)
unfolding finish_sso
finished s a none w h = cc
finished s a (some user) w h =
    let (x, y) = ok-injective h in (sym (ap (λ r. r.token) x), ap (λ r. some r.user) x, sym y)

account-Linked :
    (t : TokenIdentity) (w : World) {a : AdminUser} {m : World}
    → account t w ≡ ok a m
    → HasUniqueKeys w
    → Linked t w a × HasUniqueKeys m
account-Linked t w {a = a} {m = m} h unique = elim (account-cases t w) [
  | inl (e, v, q, kept) ↦ absurd (ok-not_err h q)
  | inr (b, v, q, linked, kept) ↦
      let (x, y) = ok-injective (sym q ∙ h) in
      (rw (← x) linked, λ k. rw (← y, kept.roles) (unique k))
]

module _ (env : Env) where
  created :
      (id : ℕ) (ctx : SessionContext) (sso : SsoSessionData) (w : World) {s : IssuedSession}
      {v : World}
      → create_session env id ctx sso none w ≡ ok s v
      → (find_session env s.token v ≡ some (new_session env id ctx sso none w))
        × (v.user_roles ≡ w.user_roles)
  unfolding find_session
  created id ctx sso w {v = v} h = elim (create-cases env id ctx sso none w) [
    | inl e ↦ absurd (ok-not_err h e)
    | inr (e, fresh) ↦
        let (x, y) = ok-injective (sym e ∙ h) in
        (
          ap (λ (t : String). find_session env t v) (sym (ap (λ s. s.token) x))
              ∙ ap (λ (v : World). find_session env (env.opaque_token w.tokens) v) (sym y)
              ∙ find-with_session env id ctx sso none w w.now fresh,
          sym (ap (λ (v : World). v.user_roles) y),
        )
  ]

  -- What is left to check once the account is known.
  record Admitted (t : TokenIdentity) (a : AdminUser) (w : World) (r : LoginResult) (v : World)
      : Type 0 where
    pub enabled : is_disabled a.status ≡ false
    pub roles : (k : RoleKey) → count k (role_keys_of a.id v) ≡ count k t.roles
    pub session : AdminSession
    pub stored : find_session env r.token v ≡ some session
    pub owned : session.admin_user_id ≡ a.id
    pub by_sid : session.oidc_sid ≡ t.sid
    pub user : r.user.id ≡ a.id

  enabled-Admitted :
      (t : TokenIdentity) (id_token : String) (ctx : SessionContext) (a : AdminUser) (w : World)
      {r : LoginResult} {v : World}
      → HasUniqueKeys w
      → is_disabled a.status ≡ false
      → admit_account env t id_token ctx a w ≡ ok r v
      → Admitted t a w r v
  unfolding admit_account sync_profile update_admin record_event role_keys_of find_session
      new_session
  enabled-Admitted t id_token ctx a w {r = r} {v = v} unique enabled h =
      let (_, w1, synced, rest) = and_then-ok (sync_roles a.id t.roles w) _ (rw enabled at h) in
      let w2 = sync_profile t a w1 in
      let sso : SsoSessionData = record { oidc_sid = t.sid; id_token_hint = some id_token } in
      let (s, w3, made, last) = and_then-ok (create_session env a.id ctx sso none w2) _ rest in
      let (token, user, world) = finished s a (get_current_user a.id w3) w3 last in
      let (stored, kept) = created a.id ctx sso w2 made in
      record {
        enabled = enabled;
        roles = λ k.
            ap (λ (v : World). count k (role_keys_in a.id v.user_roles)) world
            ∙ ap (λ l. count k (role_keys_in a.id l)) kept
            ∙ sync_roles-count a.id t.roles w w1 unique synced k;
        session = new_session env a.id ctx sso none w2;
        stored =
            ap (λ (x : String). find_session env x v) token
            ∙ ap (λ (x : World). find_session env s.token x) world
            ∙ stored;
        owned = refl;
        by_sid = refl;
        user = current-id a.id w3 r.user user;
      }

  admit-Admitted :
      (t : TokenIdentity) (id_token : String) (ctx : SessionContext) (a : AdminUser) (w : World)
      {r : LoginResult} {v : World}
      → HasUniqueKeys w
      → admit_account env t id_token ctx a w ≡ ok r v
      → Admitted t a w r v
  unfolding admit_account sso_fail
  admit-Admitted t id_token ctx a w unique h = elim (Bool-cases (is_disabled a.status)) [
    | inl e ↦ absurd (ok-not_err (rw e at h) refl)
    | inr e ↦ enabled-Admitted t id_token ctx a w unique e h
  ]

  sign_in_as-SsoSignedIn :
      (t : TokenIdentity) (id_token : String) (ctx : SessionContext) (w : World) {r : LoginResult}
      {v : World}
      → HasUniqueKeys w
      → sign_in_as env t id_token ctx w ≡ ok r v
      → SsoSignedIn env t w r v
  unfolding sign_in_as sso_fail
  sign_in_as-SsoSignedIn t id_token ctx w unique h = elim (Bool-cases (length t.roles == 0)) [
    | inl e ↦ absurd (ok-not_err (rw e at h) refl)
    | inr e ↦ elim (Bool-cases (t.email == "")) [
      | inl f ↦ absurd (ok-not_err (rw (e, f) at h) refl)
      | inr f ↦
          let (l, u, found, rest) =
            and_then-ok (find_linked t (find_admin (has_subject t.subject) w) w) _
              (rw (e, f) at h) in
          let (a, m, there, last) = and_then-ok (provision t l u) _ rest in
          let (linked, unique2) =
            account-Linked t w (ap (λ o. and_then o (λ l. provision t l)) found ∙ there) unique in
          let admitted = admit-Admitted t id_token ctx a m unique2 last in
          record {
            admin = a;
            linked = linked;
            enabled = admitted.enabled;
            some_role = e;
            some_email = f;
            roles = admitted.roles;
            session = admitted.session;
            stored = admitted.stored;
            owned = admitted.owned;
            by_sid = admitted.by_sid;
            user = admitted.user;
          }
    ]
  ]

  -- A sign-in through the provider that succeeds was for a token with a role and an email. Its account
  -- is not disabled and was linked to the subject of the token before, or has the email of the token,
  -- verified by the provider, and was linked to no other subject, or was made for the token. After it
  -- the account has each role as often as the token gives it, where the table of roles has each role
  -- once, and the token that is returned is that of a stored session of the account.
  pub complete_sso_login-SsoSignedIn :
      (texts : ClaimTexts) (settings : SsoConfig) (subject : String) (claims : Json)
      (id_token : String)
      → (ctx : SessionContext) (w : World) (r : LoginResult) (v : World) → HasUniqueKeys w
      → complete_sso_login env texts (some settings) subject claims id_token ctx w ≡ ok r v
      → SsoSignedIn env (identity_of env texts settings subject claims) w r v
  unfolding complete_sso_login
  complete_sso_login-SsoSignedIn texts settings subject claims id_token ctx w r v unique h =
      sign_in_as-SsoSignedIn (identity_of env texts settings subject claims) id_token ctx w unique h
