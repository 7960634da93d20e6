-- ===== src/Auth/Login/SignIn.antt =====
-- What a sign-in leaves behind, whether it succeeds or fails.
use slc_central_admin_cursor.Prelude.{
  ℕ, ◌≡◌, refl, ap, sym, ◌∙◌, ◌⊎◌, inl, inr, true, Option, none, some, String, [], ◌∷◌, ◌++◌,
  nat_eq, string_eq, find, if◌then◌else◌, arith, and_then, modify, ◌>>◌, ok, err,
}
use slc_central_admin_cursor.Rows.{update_where}
use slc_central_admin_cursor.Auth.Db.{
  AdminUser, AdminSession, SessionContext, World, has_email, has_id, find_admin, update_admin,
  record_event, admin_login, admin_login_failed, admin_break_glass_login,
}
use slc_central_admin_cursor.AppErrors.{AppError, app_error, other_error, invalid_credentials}
use slc_central_admin_cursor.Auth.Env.{Env}
use slc_central_admin_cursor.Rows.{find-exists, find-update_where, found}
use slc_central_admin_cursor.Auth.Sessions.{
  IssuedSession, no_sso, has_hash, find_session, create_session, new_session,
}
use slc_central_admin_cursor.Auth.Sessions.Laws.{create-cases, with_session, find-with_session}
use slc_central_admin_cursor.Auth.Permissions.{ResolvedAdmin, resolve_admin, resolved}
use slc_central_admin_cursor.Auth.Login.{
  LoginResult, normalize_email, login_ttl, get_current_user, finish_login, start_session, login,
}
use slc_central_admin_cursor.Auth.Login.Outcomes.{
  FirstFactor, SecondFactor, not_set_up, code_used, check_password-cases, second_factor-cases,
}

-- An administrator that is in the database has a current user.
pub current-known :
    (id : ℕ) (w : World) (a : AdminUser)
    → find_admin (has_id id) w ≡ some a
    → (u : ResolvedAdmin) × (get_current_user id w ≡ some u) × (u.id ≡ a.id)
unfolding get_current_user resolve_admin resolved
current-known id w a h = (_, ap (λ (o : Option AdminUser). resolved o w) h, refl)

abbrev pub sign_in_at : World → AdminUser → AdminUser
sign_in_at w r = record r { last_login_at = some w.now }

-- What a successful sign-in has checked and what it has written.
pub record SignedIn (env : Env) (email password : String) (otp : Option String) (w : World)
    (r : LoginResult) (v : World) : Type 0 where
  pub admin : AdminUser
  pub middle : World
  pub first : FirstFactor env email password w admin
  pub second : SecondFactor env admin otp w middle
  pub admins : v.admins ≡ update_where (has_id admin.id) (sign_in_at middle) middle.admins
  pub session : AdminSession
  pub stored : find_session env r.token v ≡ some session
  pub added : v.sessions ≡ w.sessions ++ session ∷ []
  pub unused : find_session env r.token w ≡ none
  pub owned : session.admin_user_id ≡ admin.id
  pub expiry : session.expires_at ≡ r.expires_at
  pub user : r.user.id ≡ admin.id

pub has_id_self : (a : AdminUser) → has_id a.id a ≡ true
has_id_self a = ground arith

id_kept :
    (a y : AdminUser) (v : World)
    → has_id a.id y ≡ true
    → (if has_id a.id y then sign_in_at v y else y).id ≡ a.id
id_kept a y v h = ground arith

module _ (env : Env) where
  -- The second factor keeps the sessions, and the administrators but for one step.
  middle-sessions :
      (a : AdminUser) (otp : Option String) (w v : World)
      → SecondFactor env a otp w v
      → v.sessions ≡ w.sessions
  unfolding update_admin
  middle-sessions a otp w v (not_set_up _ _ e) = ap (λ (x : World). x.sessions) e
  middle-sessions a otp w v (code_used _ _ _ _ _ _ _ _ _ _ e) = ap (λ (x : World). x.sessions) e

  middle-known :
      (a : AdminUser) (otp : Option String) (email : String) (w v : World)
      → SecondFactor env a otp w v
      → find_admin (has_email email) w ≡ some a
      → (b : AdminUser) × (find_admin (has_email email) v ≡ some b) × (b.id ≡ a.id)
  unfolding update_admin find_admin
  middle-known a otp email w v (not_set_up _ _ e) h =
      (a, ap (λ (x : World). find (has_email email) x.admins) e ∙ h, refl)
  middle-known a otp email w v (code_used _ _ _ _ step _ _ _ _ _ e) h =
      let f = λ (r : AdminUser). record r { mfa_last_used_step = some step } in
      (
        record a { mfa_last_used_step = some step },
        ap (λ (x : World). find (has_email email) x.admins) e
            ∙ find-update_where (has_email email) (has_id a.id) f (λ x. refl) w.admins
            ∙ ap (found (has_id a.id) f) h
            ∙ rw (has_id_self a),
        refl,
      )

  -- The administrator is still found after the update of the last sign-in.
  user-known :
      (a b : AdminUser) (email : String) (w v : World)
      → find_admin (has_email email) w ≡ some b
      → b.id ≡ a.id
      → v.admins ≡ w.admins
      → (u : ResolvedAdmin) × (get_current_user a.id (update_admin a.id (sign_in_at v) v) ≡ some u)
        × (u.id ≡ a.id)
  unfolding find_admin update_admin
  user-known a b email w v h same kept =
      let (y, at_id, is_it) =
        find-exists (has_email email) (has_id a.id) w.admins b h (rw same (has_id_self a)) in
      let e =
        find-update_where (has_id a.id) (has_id a.id) (sign_in_at v) (λ x. refl) v.admins
        ∙ ap (λ l. found (has_id a.id) (sign_in_at v) (find (has_id a.id) l)) kept
        ∙ ap (found (has_id a.id) (sign_in_at v)) at_id in
      let (u, known, its_id) = current-known a.id (update_admin a.id (sign_in_at v) v) _ e in
      (u, known, its_id ∙ id_kept a y v is_it)

  -- What the end of a sign-in does, from the world `w` that the second factor left.
  pub record Started (ctx : SessionContext) (a : AdminUser) (w : World) (r : LoginResult)
      (v : World) : Type 0 where
    pub admins : v.admins ≡ update_where (has_id a.id) (sign_in_at w) w.admins
    pub stored :
        find_session env r.token v ≡ some (new_session env a.id ctx no_sso (login_ttl env) w)
    pub added : v.sessions ≡ w.sessions ++ new_session env a.id ctx no_sso (login_ttl env) w ∷ []
    pub unused : find_session env r.token w ≡ none
    pub expiry : r.expires_at ≡ (new_session env a.id ctx no_sso (login_ttl env) w).expires_at
    pub user : r.user.id ≡ a.id

  abbrev issued_to : AdminUser → ResolvedAdmin → SessionContext → World → LoginResult
  issued_to a u ctx w = record {
    token = env.opaque_token w.tokens;
    expires_at = (new_session env a.id ctx no_sso (login_ttl env) w).expires_at;
    user = u;
  }

  abbrev signed_in : AdminUser → World → World
  signed_in a w1 =
      record_event (if env.config.oidc then admin_break_glass_login else admin_login) (some a.id)
        none (update_admin a.id (sign_in_at w1) w1)

  start-ok :
      (ctx : SessionContext) (a : AdminUser) (u : ResolvedAdmin) (s : IssuedSession) (w w1 : World)
      → create_session env a.id ctx no_sso (login_ttl env) w ≡ ok s w1
      → get_current_user a.id (update_admin a.id (sign_in_at w1) w1) ≡ some u
      → start_session env ctx a w
        ≡ ok (record { token = s.token; expires_at = s.expires_at; user = u }) (signed_in a w1)
  unfolding start_session
  start-ok ctx a u s w w1 e known =
      ap
        (λ o. and_then o (λ s.
          ◌>>◌ (modify (λ x. update_admin a.id (sign_in_at x) x))
            (λ x. finish_login env s a (get_current_user a.id x) x)))
        e
      ∙ ap (λ o. finish_login env s a o (update_admin a.id (sign_in_at w1) w1)) known

  start-cases :
      (ctx : SessionContext) (a b : AdminUser) (email : String) (w : World)
      → find_admin (has_email email) w ≡ some b
      → b.id ≡ a.id
      → ((e : AppError) × (v : World) × (start_session env ctx a w ≡ err e v)
          × (v.sessions ≡ w.sessions))
        ⊎ ((r : LoginResult) × (v : World) × (start_session env ctx a w ≡ ok r v)
            × Started ctx a w r v)
  unfolding start_session update_admin record_event find_session
  start-cases ctx a b email w h same = elim (create-cases env a.id ctx no_sso (login_ttl env) w) [
    | inl e ↦ inl (other_error, w, rw e, refl)
    | inr (e, fresh) ↦
        let w1 = with_session env a.id ctx no_sso (login_ttl env) w in
        let (u, known, its_id) = user-known a b email w w1 h same refl in
        inr (
          issued_to a u ctx w,
          signed_in a w1,
          start-ok ctx a u _ w w1 e known,
          record {
            admins = refl;
            stored = find-with_session env a.id ctx no_sso (login_ttl env) w w.now fresh;
            added = refl;
            unused = fresh;
            expiry = refl;
            user = its_id;
          },
        )
  ]

  finish-SignedIn :
      (email password : String) (otp : Option String) (ctx : SessionContext) (a : AdminUser)
      → (w m : World) (r : LoginResult) (v : World) → FirstFactor env email password w a
      → SecondFactor env a otp w m
      → Started ctx a m r v
      → SignedIn env email password otp w r v
  unfolding new_session find_session
  finish-SignedIn email password otp ctx a w m r v first second started = record {
    admin = a;
    middle = m;
    first = first;
    second = second;
    admins = started.admins;
    session = new_session env a.id ctx no_sso (login_ttl env) m;
    stored = started.stored;
    added =
        started.added
        ∙ ap (λ l. l ++ new_session env a.id ctx no_sso (login_ttl env) m ∷ [])
            (middle-sessions a otp w m second);
    unused =
        sym (ap (find (has_hash (env.hash_token r.token))) (middle-sessions a otp w m second))
        ∙ started.unused;
    owned = refl;
    expiry = sym started.expiry;
    user = started.user;
  }

  -- A sign-in throws and leaves the sessions as they were, or it returns, with all that it needs.
  pub login-cases :
      (email_input password : String) (ctx : SessionContext) (otp : Option String) (w : World)
      → ((e : AppError) × (v : World) × (login env email_input password ctx otp w ≡ err e v)
          × (v.sessions ≡ w.sessions))
        ⊎ ((r : LoginResult) × (v : World) × (login env email_input password ctx otp w ≡ ok r v)
            × SignedIn env (normalize_email env email_input) password otp w r v)
  unfolding login record_event
  login-cases email_input password ctx otp w =
      let email = normalize_email env email_input in
      elim (check_password-cases env email password w) [
        | inl (reason, id, e) ↦ inl (
          app_error 401 invalid_credentials,
          record_event admin_login_failed id (some reason) w,
          rw e refl,
          refl,
        )
        | inr (a, e, first) ↦ elim (second_factor-cases env a otp w) [
          | inl (x, m, f, kept) ↦ inl (x, m, rw (e, f) refl, kept.sessions)
          | inr (used, m, f, second) ↦
              let (b, there, same) = middle-known a otp email w m second first.known in
              elim (start-cases ctx a b email m there same) [
                | inl (x, v, s, kept) ↦
                    inl (x, v, rw (e, f) s, kept ∙ middle-sessions a otp w m second)
                | inr (r, v, s, started) ↦ inr (
                  r,
                  v,
                  rw (e, f) s,
                  finish-SignedIn email password otp ctx a w m r v first second started,
                )
              ]
        ]
      ]
