-- ===== src/Auth/Login/Security.antt =====
-- Password sign-in: its requirements, its errors, and the steps of the codes that it accepts.
use mathlib.Core.Path.{subst, subst₂}
use mathlib.Core.Option.{some-injective}
use slc_central_admin_cursor.Prelude.{
  ℕ, ◌<◌, ◌≡◌, refl, ap, sym, ◌∙◌, inl, inr, false, Option, none, some, String, nat_eq, string_eq,
  codes, arith, Outcome, state_of, ok, err, ok-injective,
}
use slc_central_admin_cursor.Rows.{update_where}
use slc_central_admin_cursor.Auth.Db.{
  AdminUser, SessionContext, World, Reason, has_email, has_id, find_admin, update_admin,
  record_event, admin_login_failed,
}
use slc_central_admin_cursor.AppErrors.{AppError, app_error, invalid_credentials}
use slc_central_admin_cursor.Auth.Env.{Env}
use slc_central_admin_cursor.Rows.{find-updated}
use slc_central_admin_cursor.Auth.Totp.{is_used}
use slc_central_admin_cursor.Auth.Totp.Window.{verify_totp-matched}
use slc_central_admin_cursor.Auth.Login.{mfa_secret_of, LoginResult, normalize_email, login}
use slc_central_admin_cursor.Auth.Login.Outcomes.{
  SecondFactor, not_set_up, code_used, FirstFactor, check_password-cases,
}
use slc_central_admin_cursor.Auth.Login.SignIn.{has_id_self, sign_in_at, SignedIn, login-cases}

module _ {ℓ} {S E A : Type ℓ} where
  not_both : {o : Outcome S E A} (e : E) (a : A) (x v : S) → o ≡ err e x → o ≡ ok a v → ⊥
  not_both e a x v p q = cc

  same_state : {o : Outcome S E A} (e d : E) (x v : S) → o ≡ err e x → o ≡ err d v → x ≡ v
  same_state e d x v p q = ap state_of (sym p ∙ q)

module _ (env : Env) (email_input password : String) (ctx : SessionContext)
    (otp : Option String) where
  -- A sign-in that succeeds was made with the address of an account that is not disabled, with a
  -- password that fits, and by an address on the break-glass list, if there is one. If the account
  -- has an authenticator, a code of it was accepted and its step stored; if not, none is required.
  -- That code was read with the secret that opens with the configured key. The token was no
  -- session's before; its session, of that account, is the one row that the sign-in adds to the
  -- sessions.
  pub login-needs :
      (w v : World) (r : LoginResult)
      → login env email_input password ctx otp w ≡ ok r v
      → SignedIn env (normalize_email env email_input) password otp w r v
  login-needs w v r h = elim (login-cases env email_input password ctx otp w) [
    | inl (e, x, q, kept) ↦ absurd (not_both e r x v q h)
    | inr (s, x, q, signed) ↦
        let (same, after) = ok-injective (sym q ∙ h) in
        subst₂ (λ p u. SignedIn env (normalize_email env email_input) password otp w p u) same after
          signed
  ]

  -- A sign-in that throws leaves every session as it was.
  pub login-throws :
      (w v : World) (e : AppError)
      → login env email_input password ctx otp w ≡ err e v
      → v.sessions ≡ w.sessions
  login-throws w v e h = elim (login-cases env email_input password ctx otp w) [
    | inl (d, x, q, kept) ↦ ap (λ (u : World). u.sessions) (same_state e d v x h q) ∙ kept
    | inr (s, x, q, signed) ↦ absurd (not_both e s v x h q)
  ]

  -- Where no account has the address, or it is disabled or off the list, or the password does not
  -- fit it, the caller sees one and the same error, and nothing but one event is written.
  pub login-rejects :
      (w : World)
      → ((a : AdminUser) → ¬ FirstFactor env (normalize_email env email_input) password w a)
      → (id : Option ℕ) × (reason : Reason) × (login env email_input password ctx otp w
          ≡ err
              (app_error 401 invalid_credentials)
              (record_event admin_login_failed id (some reason) w))
  unfolding login
  login-rejects w no_factor =
      elim (check_password-cases env (normalize_email env email_input) password w) [
        | inl (reason, id, q) ↦ (id, reason, rw q refl)
        | inr (a, q, first) ↦ absurd (no_factor a first)
      ]

later : (o : Option ℕ) (k s : ℕ) → o ≡ some k → is_used o s ≡ false → k < s
later none k s e h = cc
later (some n) k s e h = ground arith

-- The account that the address names after a sign-in with a code.
record Raised (email : String) (a : AdminUser) (v : World) : Type 0 where
  pub account : AdminUser
  pub step : ℕ
  pub known : find_admin (has_email email) v ≡ some account
  pub stored : account.mfa_last_used_step ≡ some step
  pub fresh : is_used a.mfa_last_used_step step ≡ false

module _ (env : Env) (email : String) where
  second-raises :
      (a : AdminUser) (otp : Option String) (sealed : String) (w m v : World)
      → mfa_secret_of env a ≡ some sealed
      → find_admin (has_email email) w ≡ some a
      → SecondFactor env a otp w m
      → v.admins ≡ update_where (has_id a.id) (sign_in_at m) m.admins
      → Raised email a v
  unfolding find_admin update_admin
  second-raises a otp sealed w m v enrolled known (not_set_up none_set r same) after = absurd (cc)
  second-raises a otp sealed w m v enrolled known (code_used se code key secret step s o g k q e)
        after =
      let f = λ (r : AdminUser). record r { mfa_last_used_step = some step } in
      let mid =
        find-updated (has_email email) (has_id a.id) f (λ x. refl) w.admins m.admins a known
          (has_id_self a) (ap (λ (u : World). u.admins) e) in
      record {
        account = sign_in_at m (record a { mfa_last_used_step = some step });
        step = step;
        known =
            find-updated (has_email email) (has_id a.id) (sign_in_at m) (λ x. refl) m.admins
              v.admins (record a { mfa_last_used_step = some step }) mid (has_id_self a) after;
        stored = refl;
        fresh =
            (verify_totp-matched env.hmac_sha1 secret (codes code) a.mfa_last_used_step w.now step
              q).0.2;
      }

  raised :
      (a : AdminUser) (password : String) (otp : Option String) (sealed : String)
      → (w v : World) (r : LoginResult) → mfa_secret_of env a ≡ some sealed
      → find_admin (has_email email) w ≡ some a
      → SignedIn env email password otp w r v
      → Raised email a v
  raised a password otp sealed w v r enrolled known signed =
      let same : signed.admin ≡ a = some-injective _ _ (sym signed.first.known ∙ known) in
      second-raises a otp sealed w signed.middle v enrolled known
        (subst (λ b. SecondFactor env b otp w signed.middle) same signed.second)
        (signed.admins
          ∙ ap
              (λ (b : AdminUser).
                update_where (has_id b.id) (sign_in_at signed.middle) signed.middle.admins)
              same)

-- A sign-in of an account that has an authenticator and has used a step of it before stores a later
-- step for the account.
pub login-raises_step :
    (env : Env) (email_input password : String) (ctx : SessionContext) (otp : Option String)
    → (w v : World) (r : LoginResult) (a : AdminUser) (sealed : String) (k : ℕ)
    → login env email_input password ctx otp w ≡ ok r v
    → find_admin (has_email (normalize_email env email_input)) w ≡ some a
    → mfa_secret_of env a ≡ some sealed
    → a.mfa_last_used_step ≡ some k
    → (b : AdminUser) × (step : ℕ) × (find_admin (has_email (normalize_email env email_input)) v
        ≡ some b)
      × (b.mfa_last_used_step ≡ some step)
      × (k < step)
login-raises_step env email_input password ctx otp w v r a sealed k h known enrolled used =
    let signed = login-needs env email_input password ctx otp w v r h in
    let up =
      raised env (normalize_email env email_input) a password otp sealed w v r enrolled known
        signed in
    (up.account, up.step, up.known, up.stored, later a.mfa_last_used_step k up.step used up.fresh)
