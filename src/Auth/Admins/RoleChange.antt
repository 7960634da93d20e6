-- ===== src/Auth/Admins/RoleChange.antt =====
-- The roles of administrators and the guard of the last active super administrator.
use slc_central_admin_cursor.Prelude.{
  append_nil, ℕ, ◌≡◌, refl, ap, ◌∙◌, ◌⊎◌, inl, inr, Bool, true, false, not, ◌&&◌, Option, none,
  some, List, [], ◌∷◌, ◌++◌, ◌==◌, nat_eq, ==_iff, any, length, find, includes, Bool-cases,
  state_of, modify, ◌>>◌,
}
use slc_central_admin_cursor.Shared.{RoleKey, role_eq, super_admin, system_manage}
use slc_central_admin_cursor.Rows.{delete_where}
use slc_central_admin_cursor.Auth.Db.{
  is_disabled, AdminUser, Role, World, has_id, find_admin, role_keys_in, role_keys_of, record_event,
  role_changed,
}
use slc_central_admin_cursor.Auth.Permissions.{ResolvedAdmin, has_permission}
use slc_central_admin_cursor.Auth.Admins.{
  is_active_super, assert_not_last_super_admin, assert_may_assign_super_admin, to_summary,
  roles_with, given_to, replace_roles, assert_roles_exist, set_admin_user_roles,
}
use slc_central_admin_cursor.Auth.Admins.RoleRows.{
  role_keys_in-append, role_keys_in-deleted, role_keys_in-given_far, given_super,
  includes-append_right, super_found,
}
use slc_central_admin_cursor.Auth.Admins.LastSuper.{
  IsDistinct, has_super, is_other_super, is_last, any-implies, of_and_not, others_remain,
  state_of-to_summary, and_right,
}

-- The role table has the row of SUPER_ADMIN, as the seed writes it.
abbrev pub is_seeded : World → Bool
is_seeded w = any (λ r. r.key == super_admin) w.roles

abbrev with_rows : ℕ → World → List Role → World
with_rows id w roles = record_event role_changed (some id) none (record w {
  user_roles = delete_where (λ r. r.admin_user_id == id) w.user_roles ++ given_to id roles;
})

replace-ends :
    (id : ℕ) (o : Option AdminUser) (roles : List Role) (w : World)
    → let r =
        ◌>>◌
          (replace_roles o id roles)
          (◌>>◌ (modify (record_event role_changed (some id) none)) (to_summary id))
          w in
      (state_of r ≡ w) ⊎ (state_of r ≡ with_rows id w roles)
unfolding replace_roles
replace-ends id none [] w = inr (state_of-to_summary id _)
replace-ends id none (r ∷ rs) w = inl refl
replace-ends id (some a) [] w = inr (state_of-to_summary id _)
replace-ends id (some a) (r ∷ rs) w = inr (state_of-to_summary id _)

-- What happens behind the guards.
tail-ends :
    (id : ℕ) (keys : List RoleKey) (w : World)
    → let r =
        ◌>>◌
          (assert_roles_exist keys)
          (◌>>◌
            (λ w. replace_roles (find_admin (has_id id) w) id (roles_with keys w) w)
            (◌>>◌ (modify (record_event role_changed (some id) none)) (to_summary id)))
          w in
      (state_of r ≡ w) ⊎ (state_of r ≡ with_rows id w (roles_with keys w))
unfolding assert_roles_exist
tail-ends id keys w = elim (Bool-cases (length (roles_with keys w) == length keys)) [
  | inr e ↦ inl (rw e refl)
  | inl e ↦ elim (replace-ends id (find_admin (has_id id) w) (roles_with keys w) w) [
    | inl t ↦ inl (rw e t)
    | inr t ↦ inr (rw e t)
  ]
]

-- The database after the call: as before, or with the roles, which the guard allowed.
roles-ends :
    (id : ℕ) (keys : List RoleKey) (actor : ResolvedAdmin) (w : World)
    → (state_of (set_admin_user_roles id keys actor w) ≡ w)
      ⊎ ((state_of (set_admin_user_roles id keys actor w) ≡ with_rows id w (roles_with keys w))
          × (includes keys super_admin ≡ false → is_last id w ≡ false))
unfolding set_admin_user_roles assert_not_last_super_admin assert_may_assign_super_admin
roles-ends id keys actor w =
    elim (Bool-cases (includes keys super_admin && not (has_permission actor system_manage))) [
      | inl e ↦ inl (rw e refl)
      | inr e ↦ elim (Bool-cases (includes keys super_admin)) [
        | inl s ↦ elim (tail-ends id keys w) [
          | inl t ↦ inl (rw (e, s) t)
          | inr t ↦ inr (rw (e, s) t, λ n. absurd (cc))
        ]
        | inr s ↦ elim (Bool-cases (is_last id w)) [
          | inl last ↦ inl (rw (e, s, last) refl)
          | inr free ↦ elim (tail-ends id keys w) [
            | inl t ↦ inl (rw (e, s, free) t)
            | inr t ↦ inr (rw (e, s, free) t, λ n. free)
          ]
        ]
      ]
    ]

-- The administrators other than the target keep their roles.
roles_kept :
    (id t : ℕ) (w : World) (roles : List Role)
    → (id == t) ≡ false
    → role_keys_of id (with_rows t w roles) ≡ role_keys_of id w
unfolding role_keys_of record_event
roles_kept id t w roles far =
    role_keys_in-append id (delete_where (λ r. r.admin_user_id == t) w.user_roles)
      (given_to t roles)
    ∙ rw (role_keys_in-deleted id t w.user_roles far, role_keys_in-given_far id t roles far)
        (append_nil (role_keys_in id w.user_roles))

target_roles :
    (t : ℕ) (w : World) (roles : List Role)
    → any (λ r. r.key == super_admin) roles ≡ true
    → includes (role_keys_of t (with_rows t w roles)) super_admin ≡ true
unfolding role_keys_of record_event
target_roles t w roles h =
    rw
      (role_keys_in-append t (delete_where (λ r. r.admin_user_id == t) w.user_roles)
        (given_to t roles))
      (includes-append_right
        (role_keys_in t (delete_where (λ r. r.admin_user_id == t) w.user_roles))
        (role_keys_in t (given_to t roles)) (given_super t roles h))

and_both : (a b c : Bool) → (a && b) ≡ true → c ≡ true → (a && c) ≡ true
and_both true b c h k = k
and_both false b c h k = cc

far_kept :
    (t : ℕ) (w : World) (roles : List Role) (x : AdminUser)
    → (x.id == t) ≡ false
    → is_active_super w x ≡ true
    → is_active_super (with_rows t w roles) x ≡ true
far_kept t w roles x far h = and_both (not (is_disabled x.status)) _ _ h (
    ap (λ l. includes l super_admin) (roles_kept x.id t w roles far)
    ∙ and_right (not (is_disabled x.status)) _ h)

near_kept :
    (t : ℕ) (w : World) (roles : List Role) (x : AdminUser)
    → any (λ r. r.key == super_admin) roles ≡ true
    → (x.id == t) ≡ true
    → is_active_super w x ≡ true
    → is_active_super (with_rows t w roles) x ≡ true
near_kept t w roles x given near h = and_both (not (is_disabled x.status)) _ _ h (
    ap (λ i. includes (role_keys_of i (with_rows t w roles)) super_admin) ((==_iff x.id t).0 near)
    ∙ target_roles t w roles given)

with_rows-has_super :
    (t : ℕ) (keys : List RoleKey) (w : World)
    → IsDistinct w
    → is_seeded w ≡ true
    → has_super w ≡ true
    → (includes keys super_admin ≡ false → is_last t w ≡ false)
    → has_super (with_rows t w (roles_with keys w)) ≡ true
unfolding record_event
with_rows-has_super t keys w d seeded h g =
    let rows = roles_with keys w in
    let v = with_rows t w rows in
    elim (Bool-cases (includes keys super_admin)) [
      | inl s ↦
          any-implies (λ (a : AdminUser). find (has_id a.id) w.admins ≡ some a) (is_active_super w)
            (is_active_super v)
            (λ x own super. elim (Bool-cases (x.id == t)) [
              | inl near ↦ near_kept t w rows x (super_found keys w.roles s seeded) near super
              | inr far ↦ far_kept t w rows x far super
            ])
            w.admins d h
      | inr s ↦
          any-implies (λ (a : AdminUser). find (has_id a.id) w.admins ≡ some a) (is_other_super t w)
            (is_active_super v)
            (λ x own other.
              let (super, far) = of_and_not (is_active_super w x) (x.id == t) other in
              far_kept t w rows x far super)
            w.admins d (others_remain t w d h (g s))
    ]

-- Setting the roles of an administrator, whether it succeeds or throws, leaves an active super
-- administrator, if there was one before, each row has its own id, and the role table has
-- SUPER_ADMIN.
pub set_admin_user_roles-has_super :
    (id : ℕ) (keys : List RoleKey) (actor : ResolvedAdmin) (w : World)
    → IsDistinct w
    → is_seeded w ≡ true
    → has_super w ≡ true
    → has_super (state_of (set_admin_user_roles id keys actor w)) ≡ true
set_admin_user_roles-has_super id keys actor w d seeded h = elim (roles-ends id keys actor w) [
  | inl e ↦ rw e h
  | inr (e, allowed) ↦ rw e (with_rows-has_super id keys w d seeded h allowed)
]
