-- ===== src/Auth/Access/Checks.antt =====
-- Who passes the checks before a handler.
use mathlib.Core.Path.{subst}
use slc_central_admin_cursor.Prelude.{
  ◌<◌, ◌≡◌, ◌≢◌, refl, ap, sym, ◌∙◌, inl, inr, Bool, true, false, not, Option, none, some, String,
  nat_eq, string_eq, eq_iff, includes, if◌then◌else◌, Outcome, ok, err, ok-injective, Bool-cases,
}
use slc_central_admin_cursor.Shared.{Permission}
use slc_central_admin_cursor.Auth.Db.{AdminSession, World, is_disabled, role_keys_of}
use slc_central_admin_cursor.AppErrors.{AppError, truthy}
use slc_central_admin_cursor.Auth.Env.{Env}
use slc_central_admin_cursor.Auth.Sessions.{resolve_session, find_session}
use slc_central_admin_cursor.Auth.Sessions.Laws.{resolved_row, resolved_live}
use slc_central_admin_cursor.Auth.Sessions.Kept.{resolved_admin}
use slc_central_admin_cursor.Auth.Permissions.{ResolvedAdmin, resolve_admin, has_permission}
use slc_central_admin_cursor.Auth.Permissions.Grants.{is_granted, has_permission-is_granted}
use slc_central_admin_cursor.Auth.Access.{
  mutating_methods, csrf_tokens_fit, csrf_by_session, csrf_protection, Attached, auth_admin,
  auth_session, auth_token, require_auth, authorize, require_permission,
}

fit-equal :
    (c h : Option String)
    → csrf_tokens_fit c h ≡ true
    → (token : String) × (c ≡ some token) × (h ≡ some token)
unfolding csrf_tokens_fit
fit-equal none h e = cc
fit-equal (some c) none e = cc
fit-equal (some c) (some h) e = (h, ap some ((eq_iff c h).0 e), refl)

if_passed : (fits : Bool) (e : AppError) → (if fits then none else some e) ≡ none → fits ≡ true
if_passed true e h = refl
if_passed false e h = cc

by_session-passed :
    (session : Option String) (cookie header : Option String) (token : String)
    → session ≡ some token
    → csrf_by_session session cookie header ≡ none
    → (t : String) × (truthy cookie ≡ some t) × (truthy header ≡ some t)
unfolding csrf_by_session
by_session-passed none cookie header token q h = cc
by_session-passed (some s) cookie header token q h =
    fit-equal (truthy cookie) (truthy header)
      (if_passed (csrf_tokens_fit (truthy cookie) (truthy header)) _ h)

refused : (b : Bool) (e : AppError) → b ≡ false → (if not b then some e else none) ≢ none
refused true e f h = cc
refused false e f h = cc

unless : (b : Bool) (o : Option AppError) → b ≡ true → (if not b then none else o) ≡ none → o ≡ none
unless true o e h = h
unless false o e h = cc

-- A request that may change state and carries a session passes only if the cookie and the header
-- carry the same token, which is not empty.
pub csrf_protection-passed :
    (method : String) (session cookie header : Option String) (token : String)
    → includes mutating_methods method ≡ true
    → truthy session ≡ some token
    → csrf_protection method session cookie header ≡ none
    → (t : String) × (truthy cookie ≡ some t) × (truthy header ≡ some t)
unfolding csrf_protection
csrf_protection-passed method session cookie header token mutates carries passed =
    by_session-passed (truthy session) cookie header token carries
      (unless (includes mutating_methods method) _ mutates passed)

-- A session that is live, of an administrator that is not disabled.
pub record Authenticated (env : Env) (cookie : Option String) (w : World) (r : Attached)
    : Type 0 where
  pub session : AdminSession
  pub token : truthy cookie ≡ some r.session_token
  pub stored : find_session env r.session_token w ≡ some session
  pub live : w.now < session.expires_at
  pub known : resolve_admin session.admin_user_id w ≡ some r.admin
  pub enabled : is_disabled r.admin.status ≡ false

when_ok :
    {S E A : Type 0} (b : Bool) (e : E) (x y z : S) (r q : A)
    → ◌≡◌ {A = Outcome S E A} (if b then err e x else ok r y) (ok q z)
    → (b ≡ false) × (r ≡ q)
when_ok true e x y z r q h = absurd (cc)
when_ok false e x y z r q h = (refl, (ok-injective h).0)

module _ (env : Env) where
  admin-ok :
      (token : String) (s : AdminSession) (o : Option ResolvedAdmin) (w : World) (v : World × Bool)
      (c : Bool) (r : Attached)
      → auth_admin env token s o (w, c) ≡ ok r v
      → (o ≡ some r.admin) × (is_disabled r.admin.status ≡ false) × (r.session_token ≡ token)
  unfolding auth_admin
  admin-ok token s none w v c r h = cc
  admin-ok token s (some a) w v c r h =
      let (enabled, same) = when_ok (is_disabled a.status) _ _ _ v _ r h in
      rw (← same) (refl, enabled, refl)

  session-ok :
      (token : String) (o : Option AdminSession) (w : World) (v : World × Bool) (c : Bool)
      (r : Attached)
      → auth_session env token o (w, c) ≡ ok r v
      → (s : AdminSession) × (o ≡ some s)
        × (resolve_admin s.admin_user_id w ≡ some r.admin)
        × (is_disabled r.admin.status ≡ false)
        × (r.session_token ≡ token)
  unfolding auth_session
  session-ok token none w v c r h = cc
  session-ok token (some s) w v c r h =
      let (known, enabled, same) = admin-ok token s (resolve_admin s.admin_user_id w) w v c r h in
      (s, refl, known, enabled, same)

  token-ok :
      (cookie given : Option String) (w : World) (v : World × Bool) (c : Bool) (r : Attached)
      → truthy cookie ≡ given
      → auth_token env given (w, c) ≡ ok r v
      → Authenticated env cookie w r
  unfolding auth_token
  token-ok cookie none w v c r q h = cc
  token-ok cookie (some token) w v c r q h =
      let (s, found, admin, enabled, same) =
        session-ok token (resolve_session env token w).0 (resolve_session env token w).1 v c r h in
      record {
        session = s;
        token = q ∙ ap some (sym same);
        stored =
            subst (λ t. find_session env t w ≡ some s) (sym same)
              (resolved_row env token w s found);
        live = resolved_live env token w s found;
        known = sym (resolved_admin env token w s.admin_user_id) ∙ admin;
        enabled = enabled;
      }

  -- A request is let in only with the token of a session that is stored and has not expired, and
  -- whose administrator is in the database and not disabled.
  pub require_auth-ok :
      (cookie : Option String) (w : World) (c : Bool) (v : World × Bool) (r : Attached)
      → require_auth env cookie (w, c) ≡ ok r v
      → Authenticated env cookie w r
  unfolding require_auth
  require_auth-ok cookie w c v r h = token-ok cookie (truthy cookie) w v c r refl h

  passes :
      (allowed : ResolvedAdmin → Bool) (a : ResolvedAdmin)
      → authorize allowed (some a) ≡ none
      → allowed a ≡ true
  unfolding authorize
  passes allowed a h = elim (Bool-cases (allowed a)) [
    | inl e ↦ e
    | inr e ↦ absurd (refused (allowed a) _ e h)
  ]

  -- A handler behind `requireAuth` and `requirePermission` runs only for the token of a session that
  -- is stored and has not expired, of an administrator that is not disabled and holds, as the
  -- database stands at this request, a role that grants the permission.
  pub access-is_granted :
      (cookie : Option String) (w : World) (c : Bool) (v : World × Bool) (r : Attached)
      (p : Permission)
      → require_auth env cookie (w, c) ≡ ok r v
      → require_permission p (some r.admin) ≡ none
      → Authenticated env cookie w r × (is_granted w.roles (role_keys_of r.admin.id w) p ≡ true)
  unfolding require_permission
  access-is_granted cookie w c v r p h allowed =
      let a = require_auth-ok cookie w c v r h in
      (
        a,
        sym (has_permission-is_granted a.session.admin_user_id w r.admin p a.known)
            ∙ passes (λ admin. has_permission admin p) r.admin allowed,
      )
