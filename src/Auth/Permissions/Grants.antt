-- ===== src/Auth/Permissions/Grants.antt =====
-- Which permissions an administrator has.
use slc_central_admin_cursor.Prelude.{
  or_false, or_assoc, ℕ, ◌≡◌, refl, ap, sym, ◌∙◌, Bool, true, false, ◌||◌, inl, inr, Option-cases,
  some, List, [], ◌∷◌, ◌++◌, ◌==◌, nat_eq, find, any, includes, Eq, arith, Bool-cases,
}
use mathlib.Core.Option.{some-injective}
use slc_central_admin_cursor.Shared.{Permission, permission_index, permission_eq, RoleKey, role_eq}
use slc_central_admin_cursor.Auth.Db.{Role, World, role_keys_of, has_id, find_admin}
use slc_central_admin_cursor.Auth.Permissions.{
  ResolvedAdmin, add_permission, add_permissions, granted_by, add_roles, permissions_of,
  resolve_admin, resolved, has_permission,
}

-- Some role of the list grants the permission in the role table.
abbrev pub is_granted : List Role → List RoleKey → Permission → Bool
is_granted roles keys p = any (λ k. includes (granted_by (find (λ r. r.key == k) roles)) p) keys

or_right : (a b : Bool) → b ≡ true → (a || b) ≡ true
or_right true b h = refl
or_right false b h = h

or_drop : (a b : Bool) → a ≡ false → (a || b) ≡ true → b ≡ true
or_drop true b h k = cc
or_drop false b h k = k

module _ {A : Type 0} ⦃e : Eq A⦄ where
  includes-append_last :
      (acc : List A) (q p : A) → includes (acc ++ q ∷ []) p ≡ (includes acc p || q == p)
  includes-append_last [] q p = elim (Bool-cases (q == p)) [ inl y ↦ rw y | inr n ↦ rw n ]
  includes-append_last (x ∷ acc) q p = elim (Bool-cases (x == p)) [
    | inl y ↦ rw y
    | inr n ↦ rw n (includes-append_last acc q p)
  ]

  -- What is included, and equal to something else, makes that included.
  includes-same :
      ((x q p : A) → (x == q) ≡ true → (q == p) ≡ true → (x == p) ≡ true)
      → (acc : List A) (q p : A) → includes acc q ≡ true
      → (q == p) ≡ true
      → includes acc p ≡ true
  includes-same trans [] q p h same = cc
  includes-same trans (x ∷ acc) q p h same = elim (Bool-cases (x == q)) [
    | inl y ↦ rw (trans x q p y same)
    | inr n ↦
        or_right (x == p) (includes acc p)
          (includes-same trans acc q p (or_drop (x == q) (includes acc q) n h) same)
  ]

same_index : (a b c : ℕ) → (a == b) ≡ true → (b == c) ≡ true → (a == c) ≡ true
same_index a b c h k = ground arith

same_permission : (x q p : Permission) → (x == q) ≡ true → (q == p) ≡ true → (x == p) ≡ true
same_permission x q p h k =
    same_index (permission_index x) (permission_index q) (permission_index p) h k

includes-add_permission :
    (acc : List Permission) (q p : Permission)
    → includes (add_permission acc q) p ≡ (includes acc p || q == p)
unfolding add_permission
includes-add_permission acc q p = elim (Bool-cases (includes acc q)) [
  | inr new ↦ rw new (includes-append_last acc q p)
  | inl old ↦ elim (Bool-cases (q == p)) [
    | inl y ↦ rw (old, includes-same same_permission acc q p old y)
    | inr n ↦ rw (old, n) (or_false _)
  ]
]

includes-add_permissions :
    (ps acc : List Permission) (p : Permission)
    → includes (add_permissions acc ps) p ≡ (includes acc p || includes ps p)
unfolding add_permissions
includes-add_permissions [] acc p = or_false _
includes-add_permissions (q ∷ ps) acc p =
    includes-add_permissions ps (add_permission acc q) p
    ∙ ap (λ b. b || includes ps p) (includes-add_permission acc q p)
    ∙ or_assoc (includes acc p) (q == p) (includes ps p)

includes-add_roles :
    (roles : List Role) (keys : List RoleKey) (acc : List Permission) (p : Permission)
    → includes (add_roles roles acc keys) p ≡ (includes acc p || is_granted roles keys p)
unfolding add_roles
includes-add_roles roles [] acc p = or_false _
includes-add_roles roles (k ∷ keys) acc p =
    let ps = granted_by (find (λ r. r.key == k) roles) in
    includes-add_roles roles keys (add_permissions acc ps) p
    ∙ ap (λ b. b || is_granted roles keys p) (includes-add_permissions ps acc p)
    ∙ or_assoc (includes acc p) (includes ps p) (is_granted roles keys p)

-- An administrator has a permission exactly if one of its roles grants it in the role table, as
-- both stand in the database when it is resolved.
pub has_permission-is_granted :
    (id : ℕ) (w : World) (a : ResolvedAdmin) (p : Permission)
    → resolve_admin id w ≡ some a
    → has_permission a p ≡ is_granted w.roles (role_keys_of a.id w) p
unfolding resolve_admin has_permission permissions_of resolved
has_permission-is_granted id w a p h = elim (Option-cases (find_admin (has_id id) w)) [
  | inl e ↦ absurd (cc (h, ap (λ o. resolved o w) e))
  | inr (r, e) ↦
      let same = some-injective _ _ (sym (ap (λ o. resolved o w) e) ∙ h) in
      rw (← same) (includes-add_roles w.roles (role_keys_of r.id w) [] p)
]
