-- ===== src/Auth/Access.antt =====
-- What a request passes on its way to a handler: apps/api/src/middleware/csrf.ts, requireAuth.ts and
-- requirePermission.ts. `next(error)` is the error, `next()` is `none` or the result. The state of
-- `requireAuth` is the database with a flag that says whether the response clears the cookie.
pub mod Checks
use slc_central_admin_cursor.Prelude.{
  ℕ, Bool, true, false, not, ◌&&◌, ◌||◌, Option, none, some, String, List, [], ◌∷◌, ◌==◌, string_eq,
  if◌then◌else◌, any, includes, Outcome, ok, err, Exec,
}
use slc_central_admin_cursor.Shared.{Permission}
use slc_central_admin_cursor.Auth.Db.{
  AdminSession, World, is_disabled, record_event, admin_disabled,
}
use slc_central_admin_cursor.AppErrors.{
  AppError, app_error, unauthenticated, forbidden, csrf_failed, truthy,
}
use slc_central_admin_cursor.Auth.Env.{Env}
use slc_central_admin_cursor.Auth.Sessions.{resolve_session, revoke_all_sessions}
use slc_central_admin_cursor.Auth.Permissions.{
  ResolvedAdmin, resolve_admin, has_permission, has_app_role,
}

-- `MUTATING_METHODS`.
abbrev pub mutating_methods : List String
mutating_methods = "POST" ∷ "PUT" ∷ "PATCH" ∷ "DELETE" ∷ []

-- `safeEqual` of lib/tokens.ts compares the bytes of two texts.
unfoldable pub csrf_tokens_fit : Option String → Option String → Bool
csrf_tokens_fit none header = false
csrf_tokens_fit (some cookie) none = false
csrf_tokens_fit (some cookie) (some header) = cookie == header

csrf_by_session : Option String → Option String → Option String → Option AppError
csrf_by_session none cookie header = none
csrf_by_session (some session) cookie header =
    if csrf_tokens_fit (truthy cookie) (truthy header)
    then none
    else some (app_error 403 csrf_failed)

-- The method, the session cookie, the cookie with the token, and the header.
unfoldable pub csrf_protection :
    String → Option String → Option String → Option String → Option AppError
unfolding csrf_by_session
csrf_protection method session cookie header =
    if not (includes mutating_methods method)
    then none
    else csrf_by_session (truthy session) cookie header

-- What `requireAuth` attaches to the request.
pub record Attached : Type 0 where
  pub admin : ResolvedAdmin
  pub session_id : ℕ
  pub session_token : String

abbrev unauthenticated_error : AppError
unauthenticated_error = app_error 401 unauthenticated

module _ (env : Env) where
  auth_admin : String → AdminSession → Option ResolvedAdmin → Exec (World × Bool) AppError Attached
  auth_admin token s none (w, cleared) = err unauthenticated_error (w, true)
  auth_admin token s (some admin) (w, cleared) =
      if is_disabled admin.status
      then err unauthenticated_error (
        record_event admin_disabled (some admin.id) none (revoke_all_sessions admin.id w).1,
        true,
      )
      else ok (record { admin = admin; session_id = s.id; session_token = token }) (w, cleared)

  auth_session : String → Option AdminSession → Exec (World × Bool) AppError Attached
  unfolding auth_admin
  auth_session token none (w, cleared) = err unauthenticated_error (w, true)
  auth_session token (some s) (w, cleared) =
      auth_admin token s (resolve_admin s.admin_user_id w) (w, cleared)

  auth_token : Option String → Exec (World × Bool) AppError Attached
  unfolding auth_session
  auth_token none state = err unauthenticated_error state
  auth_token (some token) (w, cleared) =
      let found = resolve_session env token w in auth_session token found.0 (found.1, cleared)

  unfoldable pub require_auth : Option String → Exec (World × Bool) AppError Attached
  unfolding auth_token
  require_auth cookie state = auth_token (truthy cookie) state

-- The check of the administrator that the request carries, if any.
unfoldable pub authorize : (ResolvedAdmin → Bool) → Option ResolvedAdmin → Option AppError
authorize allowed none = some (app_error 401 unauthenticated)
authorize allowed (some admin) =
    if not (allowed admin) then some (app_error 403 forbidden) else none

unfoldable pub require_permission : Permission → Option ResolvedAdmin → Option AppError
require_permission p = authorize (λ admin. has_permission admin p)

unfoldable pub require_any_permission : List Permission → Option ResolvedAdmin → Option AppError
require_any_permission ps = authorize (λ admin. any (has_permission admin) ps)

unfoldable pub require_app_role : String → List String → Option ResolvedAdmin → Option AppError
require_app_role client_id roles = authorize (λ admin. has_app_role admin client_id roles)
