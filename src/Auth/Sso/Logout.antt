-- ===== src/Auth/Sso/Logout.antt =====
-- What the identity provider's logout ends, `applyBackchannelLogout` of
-- apps/api/src/modules/auth/oidc/oidc.service.ts.
use slc_central_admin_cursor.Prelude.{
  ℕ, ◌+◌, ◌≡◌, refl, ap, sym, ◌∙◌, Bool, false, not, Option, none, some, String, List, [], ◌∷◌,
  nat_eq, string_eq, filter, find, length,
}
use slc_central_admin_cursor.AppErrors.{truthy}
use slc_central_admin_cursor.Rows.{
  delete_where, delete_where-filter, length-delete_where, find-kept,
}
use slc_central_admin_cursor.Auth.Db.{
  AdminUser, AdminSession, World, has_subject, find_admin, record_event,
}
use slc_central_admin_cursor.Auth.Env.{Env}
use slc_central_admin_cursor.Auth.Sessions.{
  has_hash, is_owned_by, is_sid, find_session, resolve_session, revoke_sessions_by_oidc_sid,
  revoke_all_sessions,
}
use slc_central_admin_cursor.Auth.Sessions.Laws.{resolved_row}
use slc_central_admin_cursor.Auth.Sso.{revoke_found, by_subject, by_sid, apply_backchannel_logout}

abbrev is_owned_by_found : Option AdminUser → AdminSession → Bool
is_owned_by_found none s = false
is_owned_by_found (some a) s = is_owned_by a.id s

abbrev is_of_subject : Option String → World → AdminSession → Bool
is_of_subject none w s = false
is_of_subject (some subject) w s = is_owned_by_found (find_admin (has_subject subject) w) s

-- The sessions that a token names: those of the provider's session, where it has one that is not
-- empty, else those of the administrator who is linked to its subject.
abbrev pub is_named : Option String → Option String → World → AdminSession → Bool
is_named (some sid) subject w s = is_sid sid s.oidc_sid
is_named none subject w s = is_of_subject subject w s

-- Just the sessions of a kind are gone, their number is returned, and no token resolves to one.
pub record Ended (env : Env) (p : AdminSession → Bool) (w : World) (count : ℕ) (v : World)
    : Type 0 where
  pub kept : v.sessions ≡ filter (λ s. not (p s)) w.sessions
  pub counted : length v.sessions + count ≡ length w.sessions
  pub admins : v.admins ≡ w.admins
  pub resolves :
      (token : String) (s : AdminSession) → (resolve_session env token v).0 ≡ some s → p s ≡ false

delete_none : (l : List AdminSession) → delete_where (λ s. false) l ≡ l
unfolding delete_where
delete_none [] = refl
delete_none (s ∷ l) = ap (λ l. s ∷ l) (delete_none l)

count_none : (l : List AdminSession) → length (filter (λ s. false) l) ≡ 0
count_none [] = refl
count_none (s ∷ l) = count_none l

deleted :
    (env : Env) (p : AdminSession → Bool) (w v : World) (count : ℕ)
    → v.sessions ≡ delete_where p w.sessions
    → count ≡ length (filter p w.sessions)
    → v.admins ≡ w.admins
    → Ended env p w count v
unfolding find_session
deleted env p w v count rows number admins = record {
  kept = rows ∙ delete_where-filter p w.sessions;
  counted = rw (rows, number) (length-delete_where p w.sessions);
  admins = admins;
  resolves = λ token s h. find-kept p (has_hash (env.hash_token token)) w.sessions s (
      ap (λ l. find (has_hash (env.hash_token token)) l) (sym rows) ∙ resolved_row env token v s h);
}

found_rows :
    (found : Option AdminUser) (w : World)
    → ((revoke_found found w).1.sessions ≡ delete_where (is_owned_by_found found) w.sessions)
      × ((revoke_found found w).0 ≡ length (filter (is_owned_by_found found) w.sessions))
      × ((revoke_found found w).1.admins ≡ w.admins)
unfolding revoke_found revoke_all_sessions
found_rows none w = (sym (delete_none w.sessions), sym (count_none w.sessions), refl)
found_rows (some a) w = (refl, refl, refl)

by_subject-Ended :
    (env : Env) (subject : Option String) (w : World)
    → Ended env (is_of_subject subject w) w (by_subject subject w).0 (by_subject subject w).1
unfolding by_subject record_event
by_subject-Ended env none w =
    deleted env (λ s. false) w _ 0 (sym (delete_none w.sessions)) (sym (count_none w.sessions)) refl
by_subject-Ended env (some subject) w =
    let (rows, number, admins) = found_rows (find_admin (has_subject subject) w) w in
    deleted env (is_owned_by_found (find_admin (has_subject subject) w)) w _ _ rows number admins

by_sid-Ended :
    (env : Env) (sid subject : Option String) (w : World)
    → Ended env (is_named sid subject w) w (by_sid sid subject w).0 (by_sid sid subject w).1
unfolding by_sid record_event revoke_sessions_by_oidc_sid
by_sid-Ended env (some sid) subject w =
    deleted env (λ s. is_sid sid s.oidc_sid) w _ _ refl refl refl
by_sid-Ended env none subject w = by_subject-Ended env subject w

-- A logout by the provider ends exactly the sessions that it names: those made through the
-- provider's session, where a session that is not empty is named, and else all sessions of the
-- administrator who is linked to the subject, if there is one. It returns their number, no token
-- resolves to one of them any more, and the administrators stay as they were.
pub apply_backchannel_logout-ends :
    (env : Env) (subject sid : Option String) (w : World)
    → Ended env
        (is_named (truthy sid) (truthy subject) w)
        w
        (apply_backchannel_logout subject sid w).0
        (apply_backchannel_logout subject sid w).1
unfolding apply_backchannel_logout
apply_backchannel_logout-ends env subject sid w = by_sid-Ended env (truthy sid) (truthy subject) w
