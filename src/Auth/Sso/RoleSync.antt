-- ===== src/Auth/Sso/RoleSync.antt =====
-- The roles that `syncRoles` leaves.
use slc_central_admin_cursor.Prelude.{
  sort_by, ℕ, suc, ◌+◌, ◌≤◌, ◌≡◌, refl, ap, sym, ◌∙◌, inl, inr, true, List, [], ◌∷◌, map, length,
  ◌==◌, ==_iff, nat_eq, list_eq, list_beq, filter, includes, if◌then◌else◌, ok, ok-injective,
  Bool-cases, arith,
}
use slc_central_admin_cursor.Shared.{
  RoleKey, role_eq, super_admin, app_admin, content_admin, support_admin, report_viewer, count,
  same_key, count-included,
}
use slc_central_admin_cursor.Rows.{delete_where}
use slc_central_admin_cursor.Auth.Db.{
  AdminUserRole, Role, World, role_keys_in, role_keys_of, record_event,
}
use slc_central_admin_cursor.Auth.Admins.RoleRows.{role_keys_in-append, same_id}
use slc_central_admin_cursor.Auth.Claims.Sorted.{count-sort_by}
use slc_central_admin_cursor.Auth.Claims.{role_in_order}
use slc_central_admin_cursor.Auth.Sso.{rows_of, assigned, assign_exactly, sync_roles}

-- A number for each key, added up.
abbrev total : (RoleKey → ℕ) → ℕ
total f = f super_admin + f app_admin + f content_admin + f support_admin + f report_viewer

total-equal :
    (f g : RoleKey → ℕ)
    → ((k : RoleKey) → f k ≤ g k)
    → total f ≡ total g
    → (k : RoleKey) → f k ≡ g k
total-equal f g le h k =
    let a = le super_admin in
    let b = le app_admin in
    let c = le content_admin in
    let d = le support_admin in
    let e = le report_viewer in
    elim k as (λ k. f k ≡ g k) [
      | super_admin ↦ omega arith
      | app_admin ↦ omega arith
      | content_admin ↦ omega arith
      | support_admin ↦ omega arith
      | report_viewer ↦ omega arith
    ]

length-count : (xs : List RoleKey) → length xs ≡ total (λ k. count k xs)
unfolding count
length-count [] = refl
length-count (super_admin ∷ xs) = omega (arith, length-count xs)
length-count (app_admin ∷ xs) = omega (arith, length-count xs)
length-count (content_admin ∷ xs) = omega (arith, length-count xs)
length-count (support_admin ∷ xs) = omega (arith, length-count xs)
length-count (report_viewer ∷ xs) = omega (arith, length-count xs)

same_keys : (xs ys : List RoleKey) → list_beq xs ys ≡ true → xs ≡ ys
same_keys [] [] h = refl
same_keys [] (y ∷ ys) h = cc
same_keys (x ∷ xs) [] h = cc
same_keys (x ∷ xs) (y ∷ ys) h = ground (arith, same_key x y, same_keys xs ys)

-- The keys of the rows that are asked for.
count-keys :
    (k : RoleKey) (roles : List RoleKey) (table : List Role)
    → count k (map (λ r. r.key) (filter (λ r. includes roles r.key) table))
      ≡ (if includes roles k then count k (map (λ r. r.key) table) else 0)
unfolding count
count-keys k roles [] = elim (Bool-cases (includes roles k)) [
  | inl i ↦ rw i refl
  | inr i ↦ rw i refl
]
count-keys k roles (r ∷ table) = elim (Bool-cases (r.key == k)) [
  | inl e ↦
      let same : includes roles r.key ≡ includes roles k =
        ap (includes roles) (same_key r.key k e) in
      let rest = count-keys k roles table in
      elim (Bool-cases (includes roles k)) [
        | inl i ↦ rw (same, i, e) (ap suc (rest ∙ rw i refl))
        | inr i ↦ rw (same, i) (rest ∙ rw i refl)
      ]
  | inr e ↦
      let rest = count-keys k roles table in
      elim (Bool-cases (includes roles r.key)) [ inl i ↦ rw (i, e) rest | inr i ↦ rw (i, e) rest ]
]

-- Each role stands once in the table of roles, as its unique index has it.
abbrev pub HasUniqueKeys : World → Type 0
HasUniqueKeys w = (k : RoleKey) → count k (map (λ r. r.key) w.roles) ≤ 1

keys-le :
    (k : RoleKey) (roles : List RoleKey) (w : World)
    → HasUniqueKeys w
    → count k (map (λ r. r.key) (rows_of roles w)) ≤ count k roles
keys-le k roles w unique = elim (Bool-cases (includes roles k)) [
  | inl i ↦
      let a : count k (map (λ r. r.key) (rows_of roles w)) ≡ count k (map (λ r. r.key) w.roles) =
        count-keys k roles w.roles ∙ rw i refl in
      omega (arith, a, unique k, count-included k roles i)
  | inr i ↦
      let a : count k (map (λ r. r.key) (rows_of roles w)) ≡ 0 =
        count-keys k roles w.roles ∙ rw i refl in
      omega (arith, a)
]

length-map : (rows : List Role) → length (map (λ r. r.key) rows) ≡ length rows
length-map [] = refl
length-map (r ∷ rows) = ap suc (length-map rows)

-- As many rows as keys asked for are those of the keys.
keys-counted :
    (k : RoleKey) (roles : List RoleKey) (w : World)
    → HasUniqueKeys w
    → (length (rows_of roles w) == length roles) ≡ true
    → count k (map (λ r. r.key) (rows_of roles w)) ≡ count k roles
keys-counted k roles w unique h =
    let same = (==_iff (length (rows_of roles w)) (length roles)).0 h in
    total-equal (λ k. count k (map (λ r. r.key) (rows_of roles w))) (λ k. count k roles)
      (λ k. keys-le k roles w unique)
      (sym (length-count (map (λ r. r.key) (rows_of roles w)))
        ∙ length-map (rows_of roles w)
        ∙ same
        ∙ length-count roles)
      k

role_keys_in-deleted_self :
    (id : ℕ) (rs : List AdminUserRole)
    → role_keys_in id (delete_where (λ r. r.admin_user_id == id) rs) ≡ []
unfolding role_keys_in delete_where
role_keys_in-deleted_self id [] = refl
role_keys_in-deleted_self id (r ∷ rs) = elim (Bool-cases (r.admin_user_id == id)) [
  | inl e ↦ rw e (role_keys_in-deleted_self id rs)
  | inr e ↦ rw (e, e) (role_keys_in-deleted_self id rs)
]

role_keys_in-assigned :
    (id : ℕ) (rows : List Role) → role_keys_in id (assigned id rows) ≡ map (λ r. r.key) rows
unfolding role_keys_in
role_keys_in-assigned id [] = refl
role_keys_in-assigned id (r ∷ rows) =
    rw (same_id id) (ap (λ l. r.key ∷ l) (role_keys_in-assigned id rows))

pub role_keys_of-assign_exactly :
    (id : ℕ) (rows : List Role) (w : World)
    → role_keys_of id (assign_exactly id rows w) ≡ map (λ r. r.key) rows
unfolding role_keys_of assign_exactly
role_keys_of-assign_exactly id rows w =
    role_keys_in-append id (delete_where (λ r. r.admin_user_id == id) w.user_roles)
      (assigned id rows)
    ∙ rw (role_keys_in-deleted_self id w.user_roles) (role_keys_in-assigned id rows)

-- Where the roles of an account are brought in step and each role has one row, the account then has
-- each role as often as it was asked for.
pub sync_roles-count :
    (id : ℕ) (roles : List RoleKey) (w v : World)
    → HasUniqueKeys w
    → sync_roles id roles w ≡ ok tt v
    → (k : RoleKey) → count k (role_keys_of id v) ≡ count k roles
unfolding sync_roles record_event assign_exactly count role_keys_of
sync_roles-count id roles w v unique h k =
    elim (Bool-cases (sort_by role_in_order (role_keys_of id w) == roles)) [
      | inl e ↦
          let (x, y) = ok-injective (rw e at h) in
          ap (λ v. count k (role_keys_of id v)) (sym y)
          ∙ sym (count-sort_by k role_in_order (role_keys_of id w))
          ∙ ap (count k) (same_keys _ roles e)
      | inr e ↦ elim (Bool-cases (length (rows_of roles w) == length roles)) [
        | inl f ↦
            let (x, y) = ok-injective (rw (e, f) at h) in
            ap (λ v. count k (role_keys_of id v)) (sym y)
            ∙ ap (count k) (role_keys_of-assign_exactly id (rows_of roles w) w)
            ∙ keys-counted k roles w unique f
        | inr f ↦ let no = rw (e, f) at h in cc
      ]
    ]
