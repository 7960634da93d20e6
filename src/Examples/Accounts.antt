-- ===== src/Examples/Accounts.antt =====
-- A configuration, an account and a database to try the sign-in code on.
use slc_central_admin_cursor.Prelude.{
  ℕ, true, none, some, List, [], ◌∷◌, ◌==◌, string_eq, length, codes,
}
use slc_central_admin_cursor.Shared.{super_admin, permissions}
use slc_central_admin_cursor.Auth.Db.{AdminUser, active, SessionContext, AdminSession, World}
use slc_central_admin_cursor.Auth.Env.{Env}

abbrev pub zeros : List ℕ
zeros = 0 ∷ 0 ∷ 0 ∷ 0 ∷ 0 ∷ 0 ∷ 0 ∷ 0 ∷ 0 ∷ 0 ∷ 0 ∷ 0 ∷ 0 ∷ 0 ∷ 0 ∷ 0 ∷ 0 ∷ 0 ∷ 0 ∷ 0 ∷ []

abbrev pub constant_hmac : List ℕ → List ℕ → List ℕ
constant_hmac key message = zeros

abbrev pub one_hour : Env
one_hour = record {
  config = record {
    ttl_hours = 1;
    oidc = true;
    break_glass = record {
      allowed_emails = "ann@x" ∷ [];
      require_mfa = true;
      session_hours = 8;
      mfa_key = some "key";
    };
  };
  trim = λ s. s;
  to_lower_case = λ s. s;
  text_length = λ s. length (codes s);
  verify_password = λ hash password. hash == password;
  hash_password = λ password. password;
  hash_token = λ token. token;
  opaque_token = λ n. "token";
  open_sealed = λ sealed key. some (codes "AAAA");
  hmac_sha1 = constant_hmac;
}

abbrev pub ann : AdminUser
ann = record {
  id = 1;
  email = "ann@x";
  password_hash = some "pw";
  oidc_subject = none;
  app_roles = [];
  name = none;
  status = active;
  mfa_enabled = true;
  mfa_secret = some "sealed";
  mfa_last_used_step = some 0;
  last_login_at = none;
}

abbrev pub nowhere : SessionContext
nowhere = record { ip_address = none; user_agent = none }

abbrev pub old_session : AdminSession
old_session = record {
  id = 7;
  admin_user_id = 1;
  token_hash = "old";
  expires_at = 90000;
  last_used_at = 0;
  oidc_sid = some "sid";
  id_token_hint = none;
  context = nowhere;
}

abbrev pub start : World
start = record {
  admins = ann ∷ [];
  roles = record { key = super_admin; permissions = permissions } ∷ [];
  user_roles = record { admin_user_id = 1; role_key = super_admin } ∷ [];
  sessions = old_session ∷ [];
  events = [];
  now = 60000;
  tokens = 0;
  next_id = 10;
}
