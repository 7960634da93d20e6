-- ===== src/Prelude/Sort.antt =====
-- Sorting by an order, as the stable `sort` of arrays does it.
use mathlib.Core.Bool.{Bool}
use mathlib.Core.List.{List, [], ◌∷◌}
use slc_central_admin_cursor.Prelude.Tests.{if◌then◌else◌}

unfoldable pub insert_by : {A : Type 0} → (A → A → Bool) → A → List A → List A
insert_by le x [] = x ∷ []
insert_by le x (y ∷ ys) = let rest = insert_by le x ys in if le x y then x ∷ y ∷ ys else y ∷ rest

unfoldable pub sort_by : {A : Type 0} → (A → A → Bool) → List A → List A
unfolding insert_by
sort_by le [] = []
sort_by le (x ∷ xs) = insert_by le x (sort_by le xs)
