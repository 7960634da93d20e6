-- ===== src/Auth/Account.antt =====
-- The end of a session and the change of a password: apps/api/src/modules/auth/auth.service.ts, with
-- the password policy of apps/api/src/lib/password.ts.
pub mod Change
use slc_central_admin_cursor.Prelude.{
  ℕ, Bool, true, false, not, ◌&&◌, Option, none, some, String, List, [], ◌∷◌, ◌++◌, ◌==◌, nat_eq,
  string_eq, ltb, if◌then◌else◌, Outcome, ok, err, Exec, guard, ◌>>=◌, ◌>>◌,
}
use slc_central_admin_cursor.Shared.{password_min_length, password_max_length}
use slc_central_admin_cursor.Auth.Db.{
  AdminUser, World, has_id, find_admin, update_admin, record_event, admin_logout, password_changed,
}
use slc_central_admin_cursor.AppErrors.{
  AppError, app_error, not_found, sso_account, invalid_credentials, validation_error, truthy,
}
use slc_central_admin_cursor.Auth.Env.{Env}
use slc_central_admin_cursor.Auth.Sessions.{revoke_session_by_token, revoke_all_sessions}

-- The messages of `validatePasswordPolicy`.
pub data PolicyProblem : Type 0 where
  too_short too_long blank same_as_email : PolicyProblem

-- A problem, where the test finds it.
abbrev pub problem_if : Bool → PolicyProblem → List PolicyProblem
problem_if true p = p ∷ []
problem_if false p = []

module _ (env : Env) where
  -- `email && password.toLowerCase() === email.toLowerCase()`.
  abbrev pub is_email : String → Option String → Bool
  is_email password none = false
  is_email password (some email) = env.to_lower_case password == env.to_lower_case email

  unfoldable pub validate_password_policy : String → Option String → List PolicyProblem
  validate_password_policy password email =
      problem_if (ltb (env.text_length password) password_min_length) too_short
      ++ problem_if (ltb password_max_length (env.text_length password)) too_long
      ++ problem_if (env.text_length (env.trim password) == 0) blank
      ++ problem_if (is_email password (truthy email)) same_as_email

  unfoldable pub logout : String → Option ℕ → World → World
  logout token id w = record_event admin_logout id none (revoke_session_by_token env token w)

  -- The writes at the end of `changePassword`.
  unfoldable pub store_password : AdminUser → String → World → World
  store_password a password w =
      let stored =
        update_admin a.id (λ r. record r { password_hash = some (env.hash_password password) }) w in
      record_event password_changed (some a.id) none (revoke_all_sessions a.id stored).1

  change_with : AdminUser → String → List PolicyProblem → Exec World AppError (Unit {0})
  change_with a new_password [] w = ok tt (store_password a new_password w)
  change_with a new_password (p ∷ ps) w = err (app_error 422 validation_error) w

  change_of : AdminUser → String → String → Option String → Exec World AppError (Unit {0})
  unfolding change_with
  change_of a current new_password none w = err (app_error 409 sso_account) w
  change_of a current new_password (some hash) w =
      if env.verify_password hash current
      then change_with a new_password (validate_password_policy new_password (some a.email)) w
      else err (app_error 401 invalid_credentials) w

  change_for : String → String → Option AdminUser → Exec World AppError (Unit {0})
  unfolding change_of
  change_for current new_password none w = err (app_error 404 not_found) w
  change_for current new_password (some a) w =
      change_of a current new_password (truthy a.password_hash) w

  unfoldable pub change_password : ℕ → String → String → Exec World AppError (Unit {0})
  unfolding change_for
  change_password id current new_password w =
      change_for current new_password (find_admin (has_id id) w) w
