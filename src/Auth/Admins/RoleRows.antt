-- ===== src/Auth/Admins/RoleRows.antt =====
-- The roles that the rows of an administrator give, when the rows of one are replaced.
use slc_central_admin_cursor.Prelude.{
  ℕ, ◌≡◌, refl, ap, ◌∙◌, inl, inr, Bool, true, false, ◌||◌, List, [], ◌∷◌, ◌++◌, ◌==◌, nat_eq, any,
  filter, includes, arith, Bool-cases,
}
use slc_central_admin_cursor.Shared.{
  RoleKey, role_eq, super_admin, app_admin, content_admin, support_admin, report_viewer,
}
use slc_central_admin_cursor.Rows.{delete_where}
use slc_central_admin_cursor.Auth.Db.{AdminUserRole, Role, role_keys_in}
use slc_central_admin_cursor.Auth.Admins.{given_to}

pub or_second : (a b : Bool) → a ≡ false → (a || b) ≡ true → b ≡ true
or_second true b e h = cc
or_second false b e h = h

pub role_keys_in-append :
    (id : ℕ) (rs ss : List AdminUserRole)
    → role_keys_in id (rs ++ ss) ≡ role_keys_in id rs ++ role_keys_in id ss
unfolding role_keys_in
role_keys_in-append id [] ss = refl
role_keys_in-append id (r ∷ rs) ss = elim (Bool-cases (r.admin_user_id == id)) [
  | inl e ↦ rw e (ap (λ l. r.role_key ∷ l) (role_keys_in-append id rs ss))
  | inr e ↦ rw e (role_keys_in-append id rs ss)
]

pub not_both_ids : (a id t : ℕ) → (id == t) ≡ false → (a == t) ≡ true → (a == id) ≡ false
not_both_ids a id t h k = ground arith

pub role_keys_in-deleted :
    (id t : ℕ) (rs : List AdminUserRole)
    → (id == t) ≡ false
    → role_keys_in id (delete_where (λ r. r.admin_user_id == t) rs) ≡ role_keys_in id rs
unfolding role_keys_in delete_where
role_keys_in-deleted id t [] far = refl
role_keys_in-deleted id t (r ∷ rs) far = elim (Bool-cases (r.admin_user_id == t)) [
  | inl e ↦ rw (e, not_both_ids r.admin_user_id id t far e) (role_keys_in-deleted id t rs far)
  | inr e ↦ elim (Bool-cases (r.admin_user_id == id)) [
    | inl i ↦ rw (e, i) (ap (λ l. r.role_key ∷ l) (role_keys_in-deleted id t rs far))
    | inr i ↦ rw (e, i) (role_keys_in-deleted id t rs far)
  ]
]

pub apart : (id t : ℕ) → (id == t) ≡ false → (t == id) ≡ false
apart id t h = ground arith

pub role_keys_in-given_far :
    (id t : ℕ) (roles : List Role) → (id == t) ≡ false → role_keys_in id (given_to t roles) ≡ []
unfolding role_keys_in
role_keys_in-given_far id t [] far = refl
role_keys_in-given_far id t (r ∷ rs) far = rw (apart id t far) (role_keys_in-given_far id t rs far)

pub same_id : (t : ℕ) → (t == t) ≡ true
same_id t = ground arith

pub given_super :
    (t : ℕ) (roles : List Role)
    → any (λ r. r.key == super_admin) roles ≡ true
    → includes (role_keys_in t (given_to t roles)) super_admin ≡ true
unfolding role_keys_in
given_super t [] h = h
given_super t (r ∷ rs) h = rw (same_id t) (elim (Bool-cases (r.key == super_admin)) [
  | inl e ↦ rw e refl
  | inr e ↦ rw e (given_super t rs (or_second (r.key == super_admin) _ e h))
])

pub includes-append_right :
    (xs ys : List RoleKey) → includes ys super_admin ≡ true → includes (xs ++ ys) super_admin ≡ true
includes-append_right [] ys h = h
includes-append_right (x ∷ xs) ys h = elim (Bool-cases (x == super_admin)) [
  | inl e ↦ rw e refl
  | inr e ↦ rw e (includes-append_right xs ys h)
]

pub is_super_admin : (k : RoleKey) → (k == super_admin) ≡ true → k ≡ super_admin
is_super_admin super_admin h = refl
is_super_admin app_admin h = cc
is_super_admin content_admin h = cc
is_super_admin support_admin h = cc
is_super_admin report_viewer h = cc

-- The row of SUPER_ADMIN is among the rows of the keys.
pub super_found :
    (keys : List RoleKey) (rs : List Role)
    → includes keys super_admin ≡ true
    → any (λ r. r.key == super_admin) rs ≡ true
    → any (λ r. r.key == super_admin) (filter (λ r. includes keys r.key) rs) ≡ true
super_found keys [] k h = h
super_found keys (r ∷ rs) k h = elim (Bool-cases (r.key == super_admin)) [
  | inl e ↦
      let wanted : includes keys r.key ≡ true = ap (includes keys) (is_super_admin r.key e) ∙ k in
      rw wanted (rw e refl)
  | inr e ↦
      let rest = super_found keys rs k (or_second (r.key == super_admin) _ e h) in
      elim (Bool-cases (includes keys r.key)) [ inl i ↦ rw i (rw e rest) | inr i ↦ rw i rest ]
]
