-- ===== src/Auth/Login/Outcomes.antt =====
-- What a sign-in needs, part by part.
use slc_central_admin_cursor.Prelude.{
  ℕ, ◌≡◌, refl, ap, ◌∙◌, ◌⊎◌, inl, inr, Bool, true, false, not, ◌||◌, Option, none, some, String,
  Text, codes, nat_eq, string_eq, if◌then◌else◌, arith, Outcome, ok, err, Bool-cases, Option-cases,
}
use slc_central_admin_cursor.Auth.Db.{
  AdminUser, is_disabled, AuthEventType, admin_login_failed, World, Reason, mfa_code_missing,
  bad_mfa_code, mfa_not_set_up, has_email, find_admin, update_admin, record_event,
}
use slc_central_admin_cursor.AppErrors.{
  AppError, app_error, other_error, invalid_credentials, mfa_required, mfa_not_configured,
  invalid_code, mfa_setup_required, truthy,
}
use slc_central_admin_cursor.Auth.Env.{Env}
use slc_central_admin_cursor.Auth.Totp.{Verdict, matched, unmatched, threw, verify_totp}
use slc_central_admin_cursor.Auth.Login.{
  or_dummy, not_on_list, accepted, failure_reason, id_of, check_password, fail_mfa, use_code,
  opened, with_key, with_code, by_secret, mfa_secret_of, second_factor,
}

-- The rows of administrators and of sessions are those of before.
pub record IsUnchanged (w v : World) : Type 0 where
  pub admins : v.admins ≡ w.admins
  pub sessions : v.sessions ≡ w.sessions

pub same : (w : World) → IsUnchanged w w
same w = record { admins = refl; sessions = refl }

pub recorded :
    (kind : AuthEventType) (id : Option ℕ) (reason : Option Reason) (w : World)
    → IsUnchanged w (record_event kind id reason w)
unfolding record_event
recorded kind id reason w = record { admins = refl; sessions = refl }

gate {ℓ} :
    {A : Type ℓ} (d v o : Bool) (a b : A)
    → (if d || not v || o then none else some b) ≡ some a
    → (b ≡ a) × (d ≡ false) × (v ≡ true) × (o ≡ false)
gate true v o a b h = cc
gate false false o a b h = cc
gate false true true a b h = cc
gate false true false a b h = (ground arith, refl, refl, refl)

module _ (env : Env) where
  -- What the first factor has checked.
  pub record FirstFactor (email password : String) (w : World) (a : AdminUser) : Type 0 where
    pub known : find_admin (has_email email) w ≡ some a
    pub enabled : is_disabled a.status ≡ false
    pub password_ok : env.verify_password (or_dummy (truthy a.password_hash)) password ≡ true
    pub listed : not_on_list env email ≡ false

  accepted-FirstFactor :
      (email password : String) (w : World) (o : Option AdminUser) (a : AdminUser)
      → find_admin (has_email email) w ≡ o
      → accepted env o password (not_on_list env email) ≡ some a
      → FirstFactor email password w a
  unfolding accepted
  accepted-FirstFactor email password w none a q h = cc
  accepted-FirstFactor email password w (some b) a q h =
      let (same, enabled, password_ok, listed) =
        gate (is_disabled b.status)
          (env.verify_password (or_dummy (truthy b.password_hash)) password) (not_on_list env email)
          a b h in
      record {
        known = q ∙ ap some same;
        enabled = rw (← same) enabled;
        password_ok = rw (← same) password_ok;
        listed = listed;
      }

  pub check_password-cases :
      (email password : String) (w : World)
      → ((reason : Reason) × (id : Option ℕ) × (check_password env email password w
            ≡ err
                (app_error 401 invalid_credentials)
                (record_event admin_login_failed id (some reason) w)))
        ⊎ ((a : AdminUser) × (check_password env email password w ≡ ok a w)
            × FirstFactor email password w a)
  unfolding check_password
  check_password-cases email password w =
      let admin = find_admin (has_email email) w in
      elim (Option-cases (accepted env admin password (not_on_list env email))) [
        | inl e ↦ inl (failure_reason env admin password, id_of env admin, rw (e, check_password))
        | inr (a, e) ↦
            inr (a, rw (e, check_password), accepted-FirstFactor email password w admin a refl e)
      ]

  -- What the second factor has checked, and what it has written: nothing, where the account has no
  -- authenticator and none is required; else the step of the code.
  pub data SecondFactor (a : AdminUser) (otp : Option String) (w v : World) : Type 0 where
    not_set_up :
        mfa_secret_of env a ≡ none
        → env.config.break_glass.require_mfa ≡ false
        → v ≡ w
        → SecondFactor a otp w v
    code_used :
        (sealed code key : String) (secret : Text) (step : ℕ)
        → mfa_secret_of env a ≡ some sealed
        → truthy otp ≡ some code
        → truthy env.config.break_glass.mfa_key ≡ some key
        → env.open_sealed sealed key ≡ some secret
        → verify_totp env.hmac_sha1 secret (codes code) a.mfa_last_used_step w.now ≡ matched step
        → v ≡ update_admin a.id (λ r. record r { mfa_last_used_step = some step }) w
        → SecondFactor a otp w v

  abbrev pub Second : AdminUser → Option String → World → Outcome World AppError Bool → Type 0
  Second a otp w r =
      ((e : AppError) × (v : World) × (r ≡ err e v) × IsUnchanged w v)
      ⊎ ((used : Bool) × (v : World) × (r ≡ ok used v) × SecondFactor a otp w v)

  failed :
      (a : AdminUser) (otp : Option String) (reason : Reason) (e : AppError) (w : World)
      → Second a otp w (fail_mfa env a reason e w)
  unfolding fail_mfa
  failed a otp reason e w =
      inl (e, _, refl, recorded admin_login_failed (some a.id) (some reason) w)

  use_code-Second :
      (a : AdminUser) (otp : Option String) (sealed code key : String) (secret : Text) (w : World)
      → mfa_secret_of env a ≡ some sealed
      → truthy otp ≡ some code
      → truthy env.config.break_glass.mfa_key ≡ some key
      → env.open_sealed sealed key ≡ some secret
      → (verdict : Verdict)
      → verify_totp env.hmac_sha1 secret (codes code) a.mfa_last_used_step w.now ≡ verdict
      → Second a otp w (use_code env a verdict w)
  unfolding use_code
  use_code-Second a otp sealed code key secret w s o g k (matched step) h =
      inr (true, _, refl, code_used sealed code key secret step s o g k h refl)
  use_code-Second a otp sealed code key secret w s o g k unmatched h =
      failed a otp bad_mfa_code (app_error 401 invalid_code) w
  use_code-Second a otp sealed code key secret w s o g k threw h =
      inl (other_error, w, refl, same w)

  opened-Second :
      (a : AdminUser) (otp : Option String) (sealed code key : String) (w : World)
      → mfa_secret_of env a ≡ some sealed
      → truthy otp ≡ some code
      → truthy env.config.break_glass.mfa_key ≡ some key
      → (secret : Option Text) → env.open_sealed sealed key ≡ secret
      → Second a otp w (opened env a code secret w)
  unfolding opened
  opened-Second a otp sealed code key w s o g none h = inl (other_error, w, refl, same w)
  opened-Second a otp sealed code key w s o g (some secret) h =
      use_code-Second a otp sealed code key secret w s o g h _ refl

  with_key-Second :
      (a : AdminUser) (otp : Option String) (sealed code : String) (w : World)
      → mfa_secret_of env a ≡ some sealed
      → truthy otp ≡ some code
      → (key : Option String) → truthy env.config.break_glass.mfa_key ≡ key
      → Second a otp w (with_key env a sealed code key w)
  unfolding with_key
  with_key-Second a otp sealed code w s o none g =
      inl (app_error 500 mfa_not_configured, w, refl, same w)
  with_key-Second a otp sealed code w s o (some key) g =
      opened-Second a otp sealed code key w s o g _ refl

  with_code-Second :
      (a : AdminUser) (otp : Option String) (sealed : String) (w : World)
      → mfa_secret_of env a ≡ some sealed
      → (given : Option String) → truthy otp ≡ given
      → Second a otp w (with_code env a sealed given w)
  unfolding with_code
  with_code-Second a otp sealed w s none h =
      failed a otp mfa_code_missing (app_error 401 mfa_required) w
  with_code-Second a otp sealed w s (some code) h = with_key-Second a otp sealed code w s h _ refl

  by_secret-Second :
      (a : AdminUser) (otp : Option String) (w : World) (secret : Option String)
      → mfa_secret_of env a ≡ secret
      → Second a otp w (by_secret env a otp secret w)
  unfolding by_secret
  by_secret-Second a otp w (some sealed) e = with_code-Second a otp sealed w e _ refl
  by_secret-Second a otp w none e = elim (Bool-cases env.config.break_glass.require_mfa) [
    | inl r ↦ simp r (failed a otp mfa_not_set_up (app_error 403 mfa_setup_required) w)
    | inr r ↦ simp r (inr (false, w, refl, not_set_up e r refl))
  ]

  pub second_factor-cases :
      (a : AdminUser) (otp : Option String) (w : World) → Second a otp w (second_factor env a otp w)
  unfolding second_factor
  second_factor-cases a otp w = by_secret-Second a otp w (mfa_secret_of env a) refl
