-- ===== src/Auth/Admins/Disable.antt =====
-- What disabling an account ends.
use mathlib.Core.Path.{subst}
use slc_central_admin_cursor.Prelude.{
  ℕ, ◌≡◌, ap, sym, ◌∙◌, inl, inr, false, some, String, ◌==◌, nat_eq, Outcome, ok, err, state_of,
}
use slc_central_admin_cursor.Auth.Db.{disabled, AdminSession, World, update_admin, record_event}
use slc_central_admin_cursor.Auth.Env.{Env}
use slc_central_admin_cursor.Rows.{find-kept}
use slc_central_admin_cursor.Auth.Sessions.{
  has_hash, is_owned_by, find_session, resolve_session, revoke_all_sessions,
}
use slc_central_admin_cursor.Auth.Sessions.Laws.{resolved_row}
use slc_central_admin_cursor.Auth.Admins.{AdminUserSummary, after_status, set_admin_user_status}
use slc_central_admin_cursor.Auth.Admins.LastSuper.{with_status, status-ends}

with_status-signs_out :
    (env : Env) (id : ℕ) (w : World) (token : String) (s : AdminSession)
    → (resolve_session env token (with_status id disabled w)).0 ≡ some s
    → (s.admin_user_id == id) ≡ false
unfolding after_status record_event revoke_all_sessions update_admin find_session
with_status-signs_out env id w token s h =
    find-kept (is_owned_by id) (has_hash (env.hash_token token)) w.sessions s
      (resolved_row env token (with_status id disabled w) s h)

ok-not_err {ℓ} :
    {S E A : Type ℓ} {o : Outcome S E A} (a : A) (v : S) (e : E) (w : S)
    → o ≡ ok a v
    → o ≡ err e w
    → ⊥
ok-not_err a v e w p q = cc

-- Once an account is disabled, no token resolves to a session of it any more.
pub disable-signs_out :
    (env : Env) (id : ℕ) (w v : World) (r : AdminUserSummary) (token : String) (s : AdminSession)
    → set_admin_user_status id disabled w ≡ ok r v
    → (resolve_session env token v).0 ≡ some s
    → (s.admin_user_id == id) ≡ false
disable-signs_out env id w v r token s h live = elim (status-ends id disabled w) [
  | inl (e, q) ↦ absurd (ok-not_err r v e w h q)
  | inr (q, allowed) ↦
      let same : v ≡ with_status id disabled w = ap state_of (sym h) ∙ q in
      with_status-signs_out env id w token s
        (subst (λ u. (resolve_session env token u).0 ≡ some s) same live)
]
