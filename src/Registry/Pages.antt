-- ===== src/Registry/Pages.antt =====
-- Lists cut into pages, as the services of applications and of the audit log do it:
-- `PaginatedResult` of packages/shared/src/index.ts, and `skip` and `take` of the database client.
pub mod Partition
use slc_central_admin_cursor.Prelude.{
  ℕ, zero, suc, ◌+◌, ◌-◌, ◌*◌, ◌/◌, min, max, Option, none, some, List, [], ◌∷◌, length,
}

module _ {ℓ} {A : Type ℓ} where
  abbrev pub take : ℕ → List A → List A
  take zero xs = []
  take (suc n) [] = []
  take (suc n) (x ∷ xs) = x ∷ take n xs

  abbrev pub drop : ℕ → List A → List A
  drop zero xs = xs
  drop (suc n) [] = []
  drop (suc n) (x ∷ xs) = drop n xs

pub record PaginatedResult (A : Type 0) : Type 0 where
  pub items : List A
  pub page : ℕ
  pub page_size : ℕ
  pub total : ℕ
  pub total_pages : ℕ

abbrev pub given : Option ℕ → ℕ → ℕ
given none d = d
given (some n) d = n

unfoldable pub page_number : Option ℕ → ℕ
page_number page = max 1 (given page 1)

unfoldable pub page_size_of : ℕ → ℕ → Option ℕ → ℕ
page_size_of limit default size = min limit (max 1 (given size default))

-- `Math.max(1, Math.ceil(total / pageSize))`, for a size that is not 0.
unfoldable pub page_count : ℕ → ℕ → ℕ
page_count total size = max 1 ((total + (size - 1)) / size)

-- The page, its size, the rows that fit in their order, and how many of them were counted.
unfoldable pub page_of : {A : Type 0} → ℕ → ℕ → List A → ℕ → PaginatedResult A
page_of page size rows total = record {
  items = take size (drop ((page - 1) * size) rows);
  page = page;
  page_size = size;
  total = total;
  total_pages = page_count total size;
}
