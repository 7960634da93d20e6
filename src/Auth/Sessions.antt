-- ===== src/Auth/Sessions.antt =====
-- Server-side sessions, apps/api/src/modules/auth/session.service.ts. Only the hash of a token is
-- stored. A failed update or delete of a session is ignored by the source, and so is not modelled;
-- a new row whose hash is taken violates the unique index and throws.
pub mod Laws
pub mod Kept
use slc_central_admin_cursor.Prelude.{
  ℕ, zero, suc, ◌+◌, ◌*◌, min, Bool, true, false, Option, none, some, String, List, [], ◌∷◌, ◌++◌,
  leb, ◌==◌, nat_eq, string_eq, find, filter, length, if◌then◌else◌, Outcome, ok, err, Exec,
}
use slc_central_admin_cursor.Rows.{update_where, delete_where}
use slc_central_admin_cursor.Auth.Db.{AdminSession, SessionContext, World}
use slc_central_admin_cursor.AppErrors.{AppError, other_error}
use slc_central_admin_cursor.Auth.Env.{Env}

-- What a session made through SSO carries.
pub record SsoSessionData : Type 0 where
  pub oidc_sid : Option String
  pub id_token_hint : Option String

abbrev pub no_sso : SsoSessionData
no_sso = record { oidc_sid = none; id_token_hint = none }

pub record IssuedSession : Type 0 where
  pub token : String
  pub expires_at : ℕ

abbrev pub has_hash : String → AdminSession → Bool
has_hash hash s = s.token_hash == hash

abbrev pub is_owned_by : ℕ → AdminSession → Bool
is_owned_by id s = s.admin_user_id == id

abbrev pub is_sid : String → Option String → Bool
is_sid sid none = false
is_sid sid (some s) = s == sid

-- `Math.min(ttlHours ?? config, config)`.
unfoldable pub session_hours : Env → Option ℕ → ℕ
session_hours env none = min env.config.ttl_hours env.config.ttl_hours
session_hours env (some hours) = min hours env.config.ttl_hours

module _ (env : Env) where
  unfoldable pub find_session : String → World → Option AdminSession
  find_session token w = find (has_hash (env.hash_token token)) w.sessions

  unfoldable pub new_session : ℕ → SessionContext → SsoSessionData → Option ℕ → World → AdminSession
  new_session admin_user_id ctx sso ttl_hours w = record {
    id = w.next_id;
    admin_user_id = admin_user_id;
    token_hash = env.hash_token (env.opaque_token w.tokens);
    expires_at = w.now + session_hours env ttl_hours * 60 * 60 * 1000;
    last_used_at = w.now;
    oidc_sid = sso.oidc_sid;
    id_token_hint = sso.id_token_hint;
    context = ctx;
  }

  insert_session : AdminSession → Option AdminSession → Exec World AppError (Unit {0})
  insert_session s (some clash) w = err other_error w
  insert_session s none w =
      ok tt (record w {
        sessions = w.sessions ++ s ∷ [];
        tokens = w.tokens + 1;
        next_id = w.next_id + 1;
      })

  unfoldable pub create_session :
      ℕ → SessionContext → SsoSessionData → Option ℕ → Exec World AppError IssuedSession
  unfolding insert_session
  create_session admin_user_id ctx sso ttl_hours w =
      let s = new_session admin_user_id ctx sso ttl_hours w in
      elim (insert_session s (find_session (env.opaque_token w.tokens) w) w) [
        | err e v ↦ err e v
        | ok u v ↦ ok (record { token = env.opaque_token w.tokens; expires_at = s.expires_at }) v
      ]

  -- An expired session is deleted, a live one is marked as used.
  touch_session : Option AdminSession → World → Option AdminSession × World
  touch_session none w = (none, w)
  touch_session (some s) w =
      if leb s.expires_at w.now
      then (none, record w { sessions = delete_where (λ r. r.id == s.id) w.sessions })
      else (
        some s,
        record w {
          sessions =
              update_where (λ r. r.id == s.id) (λ r. record r { last_used_at = w.now }) w.sessions;
        },
      )

  unfoldable pub resolve_session : String → World → Option AdminSession × World
  unfolding touch_session
  resolve_session token w = touch_session (find_session token w) w

  hint_of : Option AdminSession → Option String
  hint_of none = none
  hint_of (some s) = s.id_token_hint

  unfoldable pub get_id_token_hint : String → World → Option String
  unfolding hint_of
  get_id_token_hint token w = hint_of (find_session token w)

  unfoldable pub revoke_session_by_token : String → World → World
  revoke_session_by_token token w = record w {
    sessions = delete_where (has_hash (env.hash_token token)) w.sessions;
  }

-- `deleteMany` returns how many rows there were.
unfoldable pub revoke_sessions_by_oidc_sid : String → World → ℕ × World
revoke_sessions_by_oidc_sid sid w = (
  length (filter (λ s. is_sid sid s.oidc_sid) w.sessions),
  record w { sessions = delete_where (λ s. is_sid sid s.oidc_sid) w.sessions },
)

unfoldable pub revoke_all_sessions : ℕ → World → ℕ × World
revoke_all_sessions id w = (
  length (filter (is_owned_by id) w.sessions),
  record w { sessions = delete_where (is_owned_by id) w.sessions },
)
