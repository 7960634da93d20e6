-- ===== src/Registry/Applications/Listing.antt =====
-- The page of a list of applications, `listApplications` of
-- apps/api/src/modules/applications/applications.service.ts.
use slc_central_admin_cursor.Prelude.{
  ℕ, zero, suc, ◌-◌, ◌*◌, ◌≤◌, ◌≡◌, refl, ap, ◌∙◌, min, true, List, [], ◌∷◌, length, filter, All,
  Bool, inl, inr, Bool-cases, arith, Option,
}
use slc_central_admin_cursor.Registry.Pages.{
  PaginatedResult, take, drop, page_number, page_size_of, page_of,
}
use slc_central_admin_cursor.Registry.Pages.Partition.{
  page_size_of-positive, page_size_of-le, count-covers,
}
use slc_central_admin_cursor.Registry.Applications.{Application, Registry}
use slc_central_admin_cursor.Registry.Applications.Store.{
  ApplicationSortField, SortDirection, ApplicationListQuery, Search, fits, sorted,
  list_applications,
}

module _ {A : Type 0} where
  length-take-min : (n : ℕ) (xs : List A) → length (take n xs) ≡ min n (length xs)
  length-take-min zero xs = omega arith
  length-take-min (suc n) [] = omega arith
  length-take-min (suc n) (x ∷ xs) = omega (arith, length-take-min n xs)

  length-drop : (n : ℕ) (xs : List A) → length (drop n xs) ≡ length xs - n
  length-drop zero xs = omega arith
  length-drop (suc n) [] = omega arith
  length-drop (suc n) (x ∷ xs) = omega (arith, length-drop n xs)

  module _ (P : A → Type 0) where
    All-take : (n : ℕ) (xs : List A) → All P xs → All P (take n xs)
    All-take zero xs h = tt
    All-take (suc n) [] h = tt
    All-take (suc n) (x ∷ xs) (p, h) = (p, All-take n xs h)

    All-drop : (n : ℕ) (xs : List A) → All P xs → All P (drop n xs)
    All-drop zero xs h = h
    All-drop (suc n) [] h = tt
    All-drop (suc n) (x ∷ xs) (p, h) = All-drop n xs h

  All-filter : (p : A → Bool) (xs : List A) → All (λ x. p x ≡ true) (filter p xs)
  All-filter p [] = tt
  All-filter p (x ∷ xs) = elim (Bool-cases (p x)) [
    | inl e ↦ rw e (e, All-filter p xs)
    | inr e ↦ rw e (All-filter p xs)
  ]

-- What a page promises: the number of all rows that fit, pages enough for them, at most 100 rows on
-- the page, just as many as are left for it, and all of them fit.
pub record IsPageOf (search : Search) (query : ApplicationListQuery) (s : Registry)
    (r : PaginatedResult Application) : Type 0 where
  pub total : r.total ≡ length (filter (fits search query) s.applications)
  pub enough : r.total ≤ r.total_pages * r.page_size
  pub first : 1 ≤ r.page
  pub some_row : 1 ≤ r.page_size
  pub small : r.page_size ≤ 100
  pub filled : length r.items ≡ min r.page_size (r.total - (r.page - 1) * r.page_size)
  pub fitting : All (λ a. fits search query a ≡ true) r.items

page_number-positive : (page : Option ℕ) → 1 ≤ page_number page
unfolding page_number
page_number-positive page = omega arith

-- Where the order of the database loses and adds no row, a page of the list of applications announces
-- how many applications fit the query and pages enough for them, and holds applications that fit: at
-- most 100, and exactly as many as the pages before it have left for it.
pub list_applications-page :
    (search : Search) (query : ApplicationListQuery) (s : Registry)
    → ((page : ℕ) (field : ApplicationSortField) (dir : SortDirection) (rows : List Application)
        → length (search.order_by page field dir rows) ≡ length rows)
    → ((page : ℕ) (field : ApplicationSortField) (dir : SortDirection) (rows : List Application)
        → All (λ a. fits search query a ≡ true) rows
        → All (λ a. fits search query a ≡ true) (search.order_by page field dir rows))
    → IsPageOf search query s (list_applications search query s)
unfolding list_applications sorted page_of
list_applications-page search query s keeps given =
    let found = filter (fits search query) s.applications in
    let rows = sorted search query s in
    let page = page_number query.page in
    let size = page_size_of 100 20 query.page_size in
    let positive = page_size_of-positive 100 20 query.page_size (omega arith) in
    record {
      total = refl;
      enough = count-covers (length found) size positive;
      first = page_number-positive query.page;
      some_row = positive;
      small = page_size_of-le 100 20 query.page_size;
      filled =
          length-take-min size (drop ((page - 1) * size) rows)
          ∙ ap (min size) (
              length-drop ((page - 1) * size) rows
              ∙ ap (λ n. n - (page - 1) * size) (keeps page _ _ found));
      fitting = All-take _ size _ (
          All-drop _ ((page - 1) * size) rows
            (given page _ _ found (All-filter (fits search query) s.applications)));
    }
