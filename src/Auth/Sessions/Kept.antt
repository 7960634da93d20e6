-- ===== src/Auth/Sessions/Kept.antt =====
-- The administrators before and after a lookup of a session.
use slc_central_admin_cursor.Prelude.{
  ℕ, ◌≡◌, refl, inl, inr, Option, none, some, String, nat_eq, string_eq, Bool-cases, leb, List,
}
use slc_central_admin_cursor.Auth.Db.{AdminSession, World}
use slc_central_admin_cursor.Auth.Permissions.{resolve_admin, resolved, permissions_of}
use slc_central_admin_cursor.Auth.Db.{AdminUser, has_id, role_keys_of, find_admin}
use slc_central_admin_cursor.Auth.Env.{Env}
use slc_central_admin_cursor.Auth.Sessions.{find_session, touch_session, resolve_session}

resolved_sessions :
    (o : Option AdminUser) (w : World) (rows : List AdminSession)
    → resolved o (record w { sessions = rows }) ≡ resolved o w
unfolding resolved permissions_of role_keys_of
resolved_sessions none w rows = refl
resolved_sessions (some a) w rows = refl

touched_admin :
    (env : Env) (o : Option AdminSession) (w : World) (id : ℕ)
    → resolve_admin id (touch_session env o w).1 ≡ resolve_admin id w
unfolding touch_session resolve_admin find_admin
touched_admin env none w id = refl
touched_admin env (some s) w id = elim (Bool-cases (leb s.expires_at w.now)) [
  | inl e ↦ rw e (resolved_sessions (find_admin (has_id id) w) w _)
  | inr e ↦ rw e (resolved_sessions (find_admin (has_id id) w) w _)
]

-- A lookup of a session changes no administrator.
pub resolved_admin :
    (env : Env) (token : String) (w : World) (id : ℕ)
    → resolve_admin id (resolve_session env token w).1 ≡ resolve_admin id w
unfolding resolve_session
resolved_admin env token w id = touched_admin env (find_session env token w) w id
