-- ===== src/Registry/Applications/Slugs.antt =====
-- The slugs of the registry stay unique.
use slc_central_admin_cursor.Prelude.{
  ℕ, ◌+◌, ◌≤◌, ◌≡◌, refl, ap, sym, ◌∙◌, inl, inr, Bool, none, String, List, [], ◌∷◌, ◌++◌, length,
  filter, find, ◌==◌, nat_eq, string_eq, eq_iff, if◌then◌else◌, ok, ok-injective, ok-not_err,
  Bool-cases, Option-cases, arith,
}
use slc_central_admin_cursor.Rows.{update_where}
use slc_central_admin_cursor.Registry.Applications.{
  Application, UpdateApplicationInput, CreateApplicationInput, Registry, with_details,
  default_application, has_slug, is_application,
}
use slc_central_admin_cursor.Registry.Applications.Store.{
  create_application, new_application, update_application, updated,
}

-- No two rows have the same slug.
unfoldable pub HasUniqueSlugs : List Application → Type 0
HasUniqueSlugs rows = (slug : String) → length (filter (has_slug slug) rows) ≤ 1

-- What a sequence of creations and updates that succeed makes of a registry.
pub data Steps : Registry → Registry → Type 0 where
  done : (s : Registry) → Steps s s
  create :
      (input : CreateApplicationInput) (a : Application) (s u v : Registry)
      → create_application input s ≡ ok a u
      → Steps u v
      → Steps s v
  update :
      (id : ℕ) (input : UpdateApplicationInput) (a : Application) (s u v : Registry)
      → update_application id input s ≡ ok a u
      → Steps u v
      → Steps s v

module _ (p : Application → Bool) where
  length-filter_append :
      (rows : List Application) (a : Application)
      → length (filter p (rows ++ a ∷ [])) ≡ length (filter p rows) + (if p a then 1 else 0)
  length-filter_append [] a = elim (Bool-cases (p a)) [ inl e ↦ rw e refl | inr e ↦ rw e refl ]
  length-filter_append (r ∷ rows) a = elim (Bool-cases (p r)) [
    | inl e ↦ rw e (omega (arith, length-filter_append rows a))
    | inr e ↦ rw e (length-filter_append rows a)
  ]

  length-filter-none : (rows : List Application) → find p rows ≡ none → length (filter p rows) ≡ 0
  length-filter-none [] h = refl
  length-filter-none (r ∷ rows) h = elim (Bool-cases (p r)) [
    | inl e ↦ let no = rw e at h in cc
    | inr e ↦ rw e (length-filter-none rows (rw e at h))
  ]

  length-filter_updated :
      (q : Application → Bool) (f : Application → Application)
      → ((a : Application) → p (f a) ≡ p a)
      → (rows : List Application)
      → length (filter p (update_where q f rows)) ≡ length (filter p rows)
  unfolding update_where
  length-filter_updated q f keeps [] = refl
  length-filter_updated q f keeps (r ∷ rows) =
      ground (arith, keeps r, length-filter_updated q f keeps rows)

slug_of_new :
    (input : CreateApplicationInput) (s : Registry) → (new_application input s).slug ≡ input.slug
unfolding new_application with_details default_application
slug_of_new input s = refl

created_unique :
    (input : CreateApplicationInput) (a : Application) (s v : Registry)
    → HasUniqueSlugs s.applications
    → create_application input s ≡ ok a v
    → HasUniqueSlugs v.applications
unfolding create_application HasUniqueSlugs
created_unique input a s v unique h slug =
    elim (Option-cases (find (has_slug input.slug) s.applications)) [
      | inr (b, e) ↦ absurd (ok-not_err (rw e at h) refl)
      | inl e ↦
          let (x, y) = ok-injective (rw e at h) in
          let more =
            ap (λ (u : Registry). length (filter (has_slug slug) u.applications)) (sym y)
            ∙ length-filter_append (has_slug slug) s.applications (new_application input s) in
          elim (Bool-cases ((new_application input s).slug == slug)) [
            | inl f ↦
                let same : input.slug ≡ slug =
                  (eq_iff input.slug slug).0 (rw (slug_of_new input s) at f) in
                let fresh : length (filter (has_slug slug) s.applications) ≡ 0 =
                  ap (λ x. length (filter (has_slug x) s.applications)) (sym same)
                  ∙ length-filter-none (has_slug input.slug) s.applications e in
                let one = rw f at more in omega (arith, one, fresh)
            | inr f ↦ let as_before = rw f at more in omega (arith, as_before, unique slug)
          ]
    ]

updated_unique :
    (id : ℕ) (input : UpdateApplicationInput) (a : Application) (s v : Registry)
    → HasUniqueSlugs s.applications
    → update_application id input s ≡ ok a v
    → HasUniqueSlugs v.applications
unfolding update_application HasUniqueSlugs updated with_details
updated_unique id input a s v unique h slug =
    elim (Option-cases (find (is_application id) s.applications)) [
      | inl e ↦ absurd (ok-not_err (rw e at h) refl)
      | inr (b, e) ↦
          let (x, y) = ok-injective (rw e at h) in
          let same =
            ap (λ (u : Registry). length (filter (has_slug slug) u.applications)) (sym y)
            ∙ length-filter_updated (has_slug slug) (is_application id) (updated input s.now)
                (λ a. refl) s.applications in
          omega (arith, same, unique slug)
    ]

-- Creations and updates that succeed keep the slugs of the registry unique, in any order.
pub steps-HasUniqueSlugs :
    (s v : Registry) → Steps s v → HasUniqueSlugs s.applications → HasUniqueSlugs v.applications
steps-HasUniqueSlugs s v (done _) unique = unique
steps-HasUniqueSlugs s v (create input a _ u _ made steps) unique =
    steps-HasUniqueSlugs u v steps (created_unique input a s u unique made)
steps-HasUniqueSlugs s v (update id input a _ u _ made steps) unique =
    steps-HasUniqueSlugs u v steps (updated_unique id input a s u unique made)
