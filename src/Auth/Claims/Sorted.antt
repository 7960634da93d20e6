-- ===== src/Auth/Claims/Sorted.antt =====
-- Sorting keeps how often a key stands in a list.
use slc_central_admin_cursor.Prelude.{
  sort_by, insert_by, suc, ◌≡◌, refl, ap, ◌∙◌, inl, inr, Bool, List, [], ◌∷◌, ◌==◌, nat_eq,
  if◌then◌else◌, Bool-cases, arith,
}
use slc_central_admin_cursor.Shared.{RoleKey, role_eq, count}

count-insert_by :
    (k : RoleKey) (le : RoleKey → RoleKey → Bool) (x : RoleKey) (xs : List RoleKey)
    → count k (insert_by le x xs) ≡ count k (x ∷ xs)
unfolding count insert_by
count-insert_by k le x [] = refl
count-insert_by k le x (y ∷ ys) = elim (Bool-cases (le x y)) [
  | inl e ↦ rw e refl
  | inr e ↦ rw e (ground (arith, count-insert_by k le x ys))
]

pub count-sort_by :
    (k : RoleKey) (le : RoleKey → RoleKey → Bool) (xs : List RoleKey)
    → count k (sort_by le xs) ≡ count k xs
unfolding count sort_by
count-sort_by k le [] = refl
count-sort_by k le (x ∷ xs) =
    count-insert_by k le x (sort_by le xs)
    ∙ ap (λ n. if x == k then suc n else n) (count-sort_by k le xs)
