-- ===== src/Rows.antt =====
-- The calls of the database client on the rows of a table, as lists: `findUnique` is `find`,
-- `deleteMany` is `delete_where`, `update` is `update_where`.
use slc_central_admin_cursor.Prelude.{
  ◌+◌, ◌≡◌, ◌∙◌, ap, refl, inl, inr, Bool-cases, Bool, true, false, not, Option, none, some, List,
  [], ◌∷◌, ◌++◌, find, filter, length, if◌then◌else◌, arith,
}

-- `updateMany`, and `update` where one row fits.
unfoldable pub update_where {ℓ} : {A : Type ℓ} → (A → Bool) → (A → A) → List A → List A
update_where p f [] = []
update_where p f (x ∷ xs) = (if p x then f x else x) ∷ update_where p f xs

-- `deleteMany`.
unfoldable pub delete_where {ℓ} : {A : Type ℓ} → (A → Bool) → List A → List A
delete_where p [] = []
delete_where p (x ∷ xs) = let rest = delete_where p xs in if p x then rest else x ∷ rest

module _ {ℓ} {A : Type ℓ} (p : A → Bool) where
  pub find-append_last :
      (xs : List A) (x : A) → find p xs ≡ none → p x ≡ true → find p (xs ++ x ∷ []) ≡ some x
  find-append_last [] x h t = rw t
  find-append_last (y ∷ xs) x h t = ground (arith, find-append_last xs x)

  pub find-true : (xs : List A) (x : A) → find p xs ≡ some x → p x ≡ true
  find-true [] x h = cc
  find-true (y ∷ xs) x h = ground (arith, find-true xs x)

  -- `deleteMany` keeps the other rows in their order, and its count is what is gone.
  pub delete_where-filter : (xs : List A) → delete_where p xs ≡ filter (λ x. not (p x)) xs
  unfolding delete_where
  delete_where-filter [] = refl
  delete_where-filter (x ∷ xs) = ground (arith, delete_where-filter xs)

  pub length-delete_where :
      (xs : List A) → length (delete_where p xs) + length (filter p xs) ≡ length xs
  unfolding delete_where
  length-delete_where [] = omega arith
  length-delete_where (x ∷ xs) = ground (arith, length-delete_where xs)

  pub find-delete_where : (xs : List A) → find p (delete_where p xs) ≡ none
  unfolding delete_where
  find-delete_where [] = refl
  find-delete_where (x ∷ xs) = ground (arith, find-delete_where xs)

  -- A row found after a deletion is none of the deleted ones.
  pub find-kept :
      (q : A → Bool) (xs : List A) (x : A) → find q (delete_where p xs) ≡ some x → p x ≡ false
  unfolding delete_where
  find-kept q [] x h = cc
  find-kept q (y ∷ xs) x h = ground (arith, find-kept q xs x)

abbrev pub found {ℓ} : {A : Type ℓ} → (A → Bool) → (A → A) → Option A → Option A
found q f none = none
found q f (some x) = some (if q x then f x else x)

module _ {ℓ} {A : Type ℓ} where
  -- What one search finds another one for it finds too.
  pub find-exists :
      (p q : A → Bool) (xs : List A) (x : A)
      → find p xs ≡ some x
      → q x ≡ true
      → (y : A) × (find q xs ≡ some y) × (q y ≡ true)
  find-exists p q [] x h t = cc
  find-exists p q (z ∷ xs) x h t = elim (Bool-cases (q z)) [
    | inl e ↦ (z, rw e, e)
    | inr e ↦ elim (Bool-cases (p z)) [
      | inl f ↦ let same : z ≡ x = ground arith in cc (ap q same, t, e)
      | inr f ↦
          let (y, found, holds) = find-exists p q xs x (ground arith) t in (y, rw e found, holds)
    ]
  ]

  -- An update that keeps what the search tests finds the row updated.
  pub find-update_where :
      (p q : A → Bool) (f : A → A)
      → ((x : A) → p (f x) ≡ p x)
      → (xs : List A) → find p (update_where q f xs) ≡ found q f (find p xs)
  unfolding update_where
  find-update_where p q f keeps [] = refl
  find-update_where p q f keeps (x ∷ xs) = ground (arith, keeps x, find-update_where p q f keeps xs)

  pub find-updated :
      (p q : A → Bool) (f : A → A)
      → ((x : A) → p (f x) ≡ p x)
      → (xs ys : List A) (a : A) → find p xs ≡ some a
      → q a ≡ true
      → ys ≡ update_where q f xs
      → find p ys ≡ some (f a)
  find-updated p q f keeps xs ys a h t e =
      ap (find p) e ∙ find-update_where p q f keeps xs ∙ ap (found q f) h ∙ rw t

  pub find-holds : (p : A → Bool) (xs : List A) (a : A) → find p xs ≡ some a → p a ≡ true
  find-holds p [] a h = cc
  find-holds p (x ∷ xs) a h = elim (Bool-cases (p x)) [
    | inl e ↦ ground arith
    | inr e ↦ find-holds p xs a (ground arith)
  ]

  -- Where the rows that a test picks are replaced by one that passes it, the search finds that one.
  pub find-replaced :
      (p : A → Bool) (row : A)
      → p row ≡ true
      → (xs : List A) (a : A) → find p xs ≡ some a
      → find p (update_where p (λ x. row) xs) ≡ some row
  unfolding update_where
  find-replaced p row t [] a h = cc
  find-replaced p row t (x ∷ xs) a h = elim (Bool-cases (p x)) [
    | inl e ↦ rw (e, t) refl
    | inr e ↦ rw (e, e) (find-replaced p row t xs a (ground arith))
  ]
