-- ===== src/Examples/SignIn.antt =====
-- Sign-in, sessions and authenticator codes at work.
use mathlib.Core.Path.{subst, sym}
use mathlib.Core.Option.{some-injective}
use slc_central_admin_cursor.Prelude.{
  ℕ, zero, suc, ◌+◌, ◌*◌, ◌≤◌, ◌<◌, ◌≡◌, ◌≢◌, refl, true, false, not, Option, none, some, String,
  [], ◌∷◌, ◌==◌, nat_eq, string_eq, filter, length, codes, arith, ok, err, state_of,
}
use slc_central_admin_cursor.Examples.Accounts.{constant_hmac, one_hour, ann, nowhere, start}
use slc_central_admin_cursor.Shared.{super_admin, permissions}
use slc_central_admin_cursor.Rows.{update_where}
use slc_central_admin_cursor.Auth.Db.{
  AdminUser, active, AdminSession, World, Reason, bad_password, has_email, find_admin, record_event,
  admin_login_failed, update_admin, role_keys_of,
}
use slc_central_admin_cursor.AppErrors.{app_error, invalid_credentials, truthy}
use slc_central_admin_cursor.Auth.Sessions.{
  no_sso, is_owned_by, create_session, find_session, session_hours, new_session, resolve_session,
  revoke_all_sessions,
}
use slc_central_admin_cursor.Auth.Sessions.Laws.{create_session-lifetime, revoke_all_sessions-ends}
use slc_central_admin_cursor.Auth.Totp.{
  matched, time_step, totp_at, verify_totp, tried, try_steps, base32_decode, decode_from, index_of,
  counter_bytes, six_digits, base32_encode, encode_from, drain, alphabet,
}
use slc_central_admin_cursor.Auth.Totp.Window.{IsFresh, verify_totp-matched, verify_totp-accepts}
use slc_central_admin_cursor.Auth.Permissions.{
  permissions_of, resolve_admin, resolved, parse_app_roles,
}
use slc_central_admin_cursor.Auth.Login.{
  LoginResult, or_dummy, normalize_email, not_on_list, accepted, check_password, second_factor,
  login_ttl, get_current_user, start_session, login,
}
use slc_central_admin_cursor.Auth.Login.Outcomes.{FirstFactor}
use slc_central_admin_cursor.Auth.Login.SignIn.{SignedIn}
use slc_central_admin_cursor.Auth.Login.Security.{
  login-needs, login-throws, login-rejects, login-raises_step,
}

encodes : base32_encode (codes "foobar") ≡ codes "MZXW6YTBOI"
unfolding base32_encode encode_from drain alphabet
encodes = refl

decodes : base32_decode (codes "mzxw-6ytb oi==") ≡ some (codes "foobar")
unfolding base32_decode decode_from index_of
decodes = refl

create_session-lifetime_example :
    let v = state_of (create_session one_hour 1 nowhere no_sso none start) in
    (3660000 ≤ 60000 + 1 * 60 * 60 * 1000)
    × (3659999 < 3660000
        → (s : AdminSession) × ((resolve_session one_hour "token" (record v { now = 3659999 })).0
            ≡ some s)
          × (s.admin_user_id ≡ 1))
    × (3660000 ≤ 3659999 → (resolve_session one_hour "token" (record v { now = 3659999 })).0 ≡ none)
unfolding create_session find_session session_hours new_session
create_session-lifetime_example =
    create_session-lifetime one_hour 1 nowhere no_sso none start
      (state_of (create_session one_hour 1 nowhere no_sso none start))
      (record { token = "token"; expires_at = 3660000 }) 3659999 refl

revoke_all_sessions-ends_example :
    let (count, v) = revoke_all_sessions 1 start in
    (v.sessions ≡ filter (λ s. not (is_owned_by 1 s)) start.sessions)
    × (length v.sessions + count ≡ length start.sessions)
    × ((token : String) (s : AdminSession)
        → (resolve_session one_hour token v).0 ≡ some s
        → (s.admin_user_id == 1) ≡ false)
revoke_all_sessions-ends_example = revoke_all_sessions-ends one_hour 1 start

verify_totp-matched_example :
    IsFresh (some 0) 2 1 × (totp_at constant_hmac (codes "AAAA") 1 ≡ some (codes "000000"))
unfolding verify_totp try_steps tried totp_at base32_decode decode_from index_of counter_bytes
    six_digits time_step
verify_totp-matched_example =
    verify_totp-matched constant_hmac (codes "AAAA") (codes "000000") (some 0) 60000 1 refl

shown : (k : ℕ) → k ≤ time_step 60000 + 1 → totp_at constant_hmac (codes "AAAA") k ≢ none
unfolding totp_at base32_decode decode_from index_of counter_bytes six_digits time_step
shown zero h e = cc
shown (suc zero) h e = cc
shown (suc (suc zero)) h e = cc
shown (suc (suc (suc zero))) h e = cc
shown (suc (suc (suc (suc k)))) h e = absurd (omega arith)

verify_totp-accepts_example :
    (r : ℕ) × (verify_totp constant_hmac (codes "AAAA") (codes "000000") (some 0) 60000 ≡ matched r)
unfolding totp_at base32_decode decode_from index_of counter_bytes six_digits time_step
verify_totp-accepts_example =
    verify_totp-accepts constant_hmac (codes "AAAA") (codes "000000") (some 0) 60000 1 (omega arith)
      (omega arith, omega arith, refl) refl shown

abbrev otp : Option String
otp = some "000000"

abbrev after : World
after = state_of (login one_hour "ann@x" "pw" nowhere otp start)

abbrev signed_in_ann : LoginResult
signed_in_ann = record {
  token = "token";
  expires_at = 3660000;
  user = record {
    id = 1;
    email = "ann@x";
    name = none;
    status = active;
    mfa_enabled = true;
    roles = super_admin ∷ [];
    permissions = permissions;
    app_roles = [];
  };
}

ann_signs_in : login one_hour "ann@x" "pw" nowhere otp start ≡ ok signed_in_ann after
unfolding login normalize_email check_password not_on_list accepted second_factor start_session
    login_ttl get_current_user resolve_admin resolved parse_app_roles permissions_of role_keys_of
    find_admin update_admin update_where record_event create_session find_session session_hours
    new_session verify_totp try_steps tried totp_at base32_decode decode_from index_of counter_bytes
    six_digits time_step
ann_signs_in = refl

login-needs_example : SignedIn one_hour "ann@x" "pw" otp start signed_in_ann after
unfolding normalize_email
login-needs_example =
    login-needs one_hour "ann@x" "pw" nowhere otp start after signed_in_ann ann_signs_in

wrong_password :
    login one_hour "ann@x" "pass" nowhere otp start
    ≡ err
        (app_error 401 invalid_credentials)
        (record_event admin_login_failed (some 1) (some bad_password) start)
unfolding login normalize_email check_password not_on_list accepted find_admin
wrong_password = refl

login-throws_example :
    (record_event admin_login_failed (some 1) (some bad_password) start).sessions ≡ start.sessions
login-throws_example =
    login-throws one_hour "ann@x" "pass" nowhere otp start
      (record_event admin_login_failed (some 1) (some bad_password) start)
      (app_error 401 invalid_credentials) wrong_password

not_the_password :
    (a : AdminUser) → ¬ FirstFactor one_hour (normalize_email one_hour "ann@x") "pass" start a
unfolding normalize_email find_admin
not_the_password a first =
    let same : ann ≡ a = some-injective _ _ first.known in
    let bad : false ≡ true =
      subst (λ (b : AdminUser). (or_dummy (truthy b.password_hash) == "pass") ≡ true) (sym same)
        first.password_ok in
    cc

login-rejects_example :
    (id : Option ℕ) × (reason : Reason) × (login one_hour "ann@x" "pass" nowhere otp start
      ≡ err
          (app_error 401 invalid_credentials)
          (record_event admin_login_failed id (some reason) start))
login-rejects_example = login-rejects one_hour "ann@x" "pass" nowhere otp start not_the_password

login-raises_step_example :
    (b : AdminUser) × (step : ℕ) × (find_admin (has_email (normalize_email one_hour "ann@x")) after
      ≡ some b)
    × (b.mfa_last_used_step ≡ some step)
    × (0 < step)
unfolding normalize_email find_admin
login-raises_step_example =
    login-raises_step one_hour "ann@x" "pw" nowhere otp start after signed_in_ann ann "sealed" 0
      ann_signs_in refl refl refl
