-- ===== src/Auth/Sessions/Laws.antt =====
-- How long a session lives, and what ends it.
use slc_central_admin_cursor.Prelude.{
  ℕ, ◌+◌, ◌*◌, ◌≤◌, ◌<◌, ◌≡◌, refl, sym, ◌∙◌, ◌⊎◌, inl, inr, false, not, Option, none, some, String,
  [], ◌∷◌, ◌++◌, ◌==◌, nat_eq, string_eq, filter, length, arith, ok-injective, ok, err,
  Option-cases,
}
use text.Mathlib.TextPositions.{eq_refl}
use slc_central_admin_cursor.Auth.Db.{AdminSession, SessionContext, World}
use slc_central_admin_cursor.AppErrors.{other_error}
use slc_central_admin_cursor.Auth.Env.{Env}
use slc_central_admin_cursor.Rows.{
  find-append_last, find-delete_where, find-kept, delete_where-filter, length-delete_where,
}
use slc_central_admin_cursor.Auth.Sessions.{
  SsoSessionData, IssuedSession, has_hash, is_owned_by, session_hours, find_session, new_session,
  create_session, touch_session, resolve_session, revoke_session_by_token, revoke_all_sessions,
}

-- A session lives no longer than the configured time.
pub session_hours-le :
    (env : Env) (hours : Option ℕ) → session_hours env hours ≤ env.config.ttl_hours
unfolding session_hours
session_hours-le env none = omega arith
session_hours-le env (some h) = omega arith

abbrev at_time : World → ℕ → World
at_time w t = record w { now = t }

module _ (env : Env) (id : ℕ) (ctx : SessionContext) (sso : SsoSessionData) (ttl : Option ℕ) where
  abbrev made : World → AdminSession
  made w = new_session env id ctx sso ttl w

  abbrev issued : World → IssuedSession
  issued w = record { token = env.opaque_token w.tokens; expires_at = (made w).expires_at }

  -- The world with the new row.
  abbrev pub with_session : World → World
  with_session w = record w {
    sessions = w.sessions ++ made w ∷ [];
    tokens = w.tokens + 1;
    next_id = w.next_id + 1;
  }

  pub create-cases :
      (w : World)
      → (create_session env id ctx sso ttl w ≡ err other_error w)
        ⊎ ((create_session env id ctx sso ttl w ≡ ok (issued w) (with_session w))
            × (find_session env (env.opaque_token w.tokens) w ≡ none))
  unfolding create_session
  create-cases w = elim (Option-cases (find_session env (env.opaque_token w.tokens) w)) [
    | inl e ↦ inr (rw (e, create_session), e)
    | inr (clash, e) ↦ inl (rw (e, create_session))
  ]

  pub find-with_session :
      (w : World) (t : ℕ)
      → find_session env (env.opaque_token w.tokens) w ≡ none
      → find_session env (env.opaque_token w.tokens) (at_time (with_session w) t) ≡ some (made w)
  unfolding find_session new_session
  find-with_session w t h =
      find-append_last (has_hash (env.hash_token (env.opaque_token w.tokens))) w.sessions (made w) h
        (eq_refl (env.hash_token (env.opaque_token w.tokens)))

  resolve-live :
      (token : String) (s : AdminSession) (w : World)
      → find_session env token w ≡ some s
      → w.now < s.expires_at
      → (resolve_session env token w).0 ≡ some s
  unfolding resolve_session
  resolve-live token s w e h = rw (e, resolve_session) (ground arith)

  resolve-expired :
      (token : String) (s : AdminSession) (w : World)
      → find_session env token w ≡ some s
      → s.expires_at ≤ w.now
      → (resolve_session env token w).0 ≡ none
  unfolding resolve_session
  resolve-expired token s w e h = rw (e, resolve_session) (ground arith)

  expires-le : (w : World) → (made w).expires_at ≤ w.now + env.config.ttl_hours * 60 * 60 * 1000
  unfolding new_session
  expires-le w = omega (arith, session_hours-le env ttl)

  owner : (w : World) → (made w).admin_user_id ≡ id
  unfolding new_session
  owner w = refl

  -- The token of a new session resolves to a session of its administrator exactly while the clock
  -- stands before the expiry, which is at most the configured time after the sign-in.
  pub create_session-lifetime :
      (w v : World) (r : IssuedSession) (t : ℕ)
      → create_session env id ctx sso ttl w ≡ ok r v
      → (r.expires_at ≤ w.now + env.config.ttl_hours * 60 * 60 * 1000)
        × (t < r.expires_at
            → (s : AdminSession) × ((resolve_session env r.token (at_time v t)).0 ≡ some s)
              × (s.admin_user_id ≡ id))
        × (r.expires_at ≤ t → (resolve_session env r.token (at_time v t)).0 ≡ none)
  create_session-lifetime w v r t h = elim (create-cases w) [
    | inl e ↦ absurd (cc)
    | inr (e, fresh) ↦
        let (same, after) = ok-injective (sym e ∙ h) in
        let found = find-with_session w t fresh in
        rw (← same, ← after)
          (
            expires-le w,
            λ live. (made w, resolve-live _ (made w) _ found live, owner w),
            λ late. resolve-expired _ (made w) _ found late,
          )
  ]

-- After `logout` the token resolves to no session, and the sessions of other tokens are kept.
pub revoke_session_by_token-ends :
    (env : Env) (token : String) (w : World)
    → let v = revoke_session_by_token env token w in
      ((resolve_session env token v).0 ≡ none)
      × (v.sessions ≡ filter (λ s. not (has_hash (env.hash_token token) s)) w.sessions)
unfolding revoke_session_by_token resolve_session find_session
revoke_session_by_token-ends env token w =
    let p = has_hash (env.hash_token token) in
    (rw (find-delete_where p w.sessions, resolve_session), delete_where-filter p w.sessions)

touched :
    (env : Env) (o : Option AdminSession) (w : World) (s : AdminSession)
    → (touch_session env o w).0 ≡ some s
    → o ≡ some s
unfolding touch_session
touched env none w s h = cc
touched env (some r) w s h = ground arith

pub resolved_row :
    (env : Env) (token : String) (w : World) (s : AdminSession)
    → (resolve_session env token w).0 ≡ some s
    → find_session env token w ≡ some s
unfolding resolve_session
resolved_row env token w s h = touched env (find_session env token w) w s h

touched_live :
    (env : Env) (o : Option AdminSession) (w : World) (s : AdminSession)
    → (touch_session env o w).0 ≡ some s
    → w.now < s.expires_at
unfolding touch_session
touched_live env none w s h = cc
touched_live env (some r) w s h = ground arith

pub resolved_live :
    (env : Env) (token : String) (w : World) (s : AdminSession)
    → (resolve_session env token w).0 ≡ some s
    → w.now < s.expires_at
unfolding resolve_session
resolved_live env token w s h = touched_live env (find_session env token w) w s h

-- Revoking the sessions of an administrator removes exactly those rows and returns their number,
-- and no token resolves to a session of that administrator any more.
pub revoke_all_sessions-ends :
    (env : Env) (id : ℕ) (w : World)
    → let (count, v) = revoke_all_sessions id w in
      (v.sessions ≡ filter (λ s. not (is_owned_by id s)) w.sessions)
      × (length v.sessions + count ≡ length w.sessions)
      × ((token : String) (s : AdminSession)
          → (resolve_session env token v).0 ≡ some s
          → (s.admin_user_id == id) ≡ false)
unfolding revoke_all_sessions resolve_session find_session
revoke_all_sessions-ends env id w =
    let p = is_owned_by id in
    (
      delete_where-filter p w.sessions,
      length-delete_where p w.sessions,
      λ token s h.
          find-kept p (has_hash (env.hash_token token)) w.sessions s
            (resolved_row env token (revoke_all_sessions id w).1 s h),
    )
