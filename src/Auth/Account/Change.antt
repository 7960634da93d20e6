-- ===== src/Auth/Account/Change.antt =====
-- What a change of the password does on every branch.
use slc_central_admin_cursor.Prelude.{
  ℕ, ◌≡◌, refl, ap, ◌∙◌, ◌⊎◌, inl, inr, true, false, Option, none, some, String, List, [], ◌∷◌,
  ◌==◌, nat_eq, string_eq, ==_iff, find, Outcome, ok, err, Bool-cases,
}
use slc_central_admin_cursor.Auth.Db.{
  AdminUser, AdminSession, World, has_id, find_admin, update_admin, record_event,
}
use slc_central_admin_cursor.AppErrors.{AppError, truthy}
use slc_central_admin_cursor.Auth.Env.{Env}
use slc_central_admin_cursor.Rows.{find-updated, find-holds, find-kept}
use slc_central_admin_cursor.Auth.Sessions.{
  resolve_session, revoke_all_sessions, find_session, has_hash, is_owned_by,
}
use slc_central_admin_cursor.Auth.Sessions.Laws.{resolved_row}
use slc_central_admin_cursor.Auth.Login.SignIn.{has_id_self}
use slc_central_admin_cursor.Auth.Account.{
  PolicyProblem, validate_password_policy, store_password, change_with, change_of, change_for,
  change_password,
}

-- A password that was changed: what was checked, and what holds afterwards.
pub record Changed (env : Env) (id : ℕ) (current new_password : String) (w v : World) : Type 0 where
  pub admin : AdminUser
  pub hash : String
  pub known : find_admin (has_id id) w ≡ some admin
  pub has_hash : truthy admin.password_hash ≡ some hash
  pub verified : env.verify_password hash current ≡ true
  pub valid : validate_password_policy env new_password (some admin.email) ≡ []
  pub stored :
      find_admin (has_id admin.id) v
      ≡ some (record admin { password_hash = some (env.hash_password new_password) })
  pub signed_out :
      (token : String) (s : AdminSession)
      → (resolve_session env token v).0 ≡ some s
      → (s.admin_user_id == admin.id) ≡ false

signed_out_after :
    (env : Env) (a : AdminUser) (password : String) (w : World) (token : String) (s : AdminSession)
    → (resolve_session env token (store_password env a password w)).0 ≡ some s
    → (s.admin_user_id == a.id) ≡ false
unfolding store_password record_event revoke_all_sessions update_admin find_session
signed_out_after env a password w token s h =
    find-kept (is_owned_by a.id) (has_hash (env.hash_token token)) w.sessions s
      (resolved_row env token (store_password env a password w) s h)

own_row :
    (id : ℕ) (w : World) (a : AdminUser)
    → find_admin (has_id id) w ≡ some a
    → find_admin (has_id a.id) w ≡ some a
unfolding find_admin
own_row id w a h =
    let same : a.id ≡ id = (==_iff _ _).0 (find-holds (has_id id) w.admins a h) in
    ap (λ i. find (has_id i) w.admins) same ∙ h

module _ (env : Env) (id : ℕ) (current new_password : String) (w : World) where
  abbrev Ends : Outcome World AppError (Unit {0}) → Type 0
  Ends r =
      ((e : AppError) × (r ≡ err e w))
      ⊎ ((v : World) × (r ≡ ok tt v) × Changed env id current new_password w v)

  with-Ends :
      (a : AdminUser) (hash : String)
      → find_admin (has_id id) w ≡ some a
      → find_admin (has_id a.id) w ≡ some a
      → truthy a.password_hash ≡ some hash
      → env.verify_password hash current ≡ true
      → (problems : List PolicyProblem)
      → validate_password_policy env new_password (some a.email) ≡ problems
      → Ends (change_with env a new_password problems w)
  unfolding change_with store_password record_event find_admin update_admin revoke_all_sessions
  with-Ends a hash known own has_one verified (p ∷ ps) valid = inl (_, refl)
  with-Ends a hash known own has_one verified [] valid =
      let f =
        λ (r : AdminUser). record r { password_hash = some (env.hash_password new_password) } in
      inr (
        _,
        refl,
        record {
          admin = a;
          hash = hash;
          known = known;
          has_hash = has_one;
          verified = verified;
          valid = valid;
          stored =
              find-updated (has_id a.id) (has_id a.id) f (λ x. refl) w.admins _ a own
                (has_id_self a) refl;
          signed_out = signed_out_after env a new_password w;
        },
      )

  of-Ends :
      (a : AdminUser)
      → find_admin (has_id id) w ≡ some a
      → (hash : Option String) → truthy a.password_hash ≡ hash
      → Ends (change_of env a current new_password hash w)
  unfolding change_of
  of-Ends a known none h = inl (_, refl)
  of-Ends a known (some hash) h = elim (Bool-cases (env.verify_password hash current)) [
    | inr wrong ↦ simp wrong (inl (_, refl))
    | inl right ↦ simp right (with-Ends a hash known (own_row id w a known) h right _ refl)
  ]

  for-Ends :
      (o : Option AdminUser)
      → find_admin (has_id id) w ≡ o
      → Ends (change_for env current new_password o w)
  unfolding change_for
  for-Ends none h = inl (_, refl)
  for-Ends (some a) h = of-Ends a h _ refl

  -- A change of the password throws and changes nothing. Or the current password fitted the stored
  -- hash and the new one has no problem: then the hash of the new one is stored, and no token
  -- resolves to a session of that administrator, the session that asked included.
  pub change_password-ends :
      ((e : AppError) × (change_password env id current new_password w ≡ err e w))
      ⊎ ((v : World) × (change_password env id current new_password w ≡ ok tt v)
          × Changed env id current new_password w v)
  unfolding change_password
  change_password-ends = for-Ends _ refl
