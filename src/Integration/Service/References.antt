-- ===== src/Integration/Service/References.antt =====
-- The references to credentials that a configuration leaves.
use text.Mathlib.TextPositions.{eq_refl}
use slc_central_admin_cursor.Prelude.{
  ◌≡◌, refl, ◌∙◌, inl, inr, ℕ, Bool, true, not, ◌&&◌, some, String, List, [], ◌∷◌, ◌++◌, nat_eq,
  string_eq, All, All-append, any, map, filter, includes, Bool-cases, arith,
}
use slc_central_admin_cursor.Rows.{update_where, delete_where}
use slc_central_admin_cursor.Integration.Types.{CredentialReferenceInput}
use slc_central_admin_cursor.Integration.Service.{
  CredentialRow, State, belongs_to, has_name, kept_names, reference_of, upsert_reference,
  upsert_references, write_references, add_event,
}

-- A reference to be stored for an integration has one of the names, and so have the stored ones.
abbrev pub NamedIn : ℕ → List String → CredentialRow → Type 0
NamedIn id names c = belongs_to id c ≡ true → includes names c.reference.name ≡ true

deleted-NamedIn :
    (id : ℕ) (names : List String) (rows : List CredentialRow)
    → All
        (NamedIn id names)
        (delete_where (λ c. belongs_to id c && not (includes names c.reference.name)) rows)
unfolding delete_where
deleted-NamedIn id names [] = tt
deleted-NamedIn id names (c ∷ rows) =
    elim (Bool-cases (belongs_to id c && not (includes names c.reference.name))) [
      | inl e ↦ rw e (deleted-NamedIn id names rows)
      | inr e ↦ rw e ((λ b. ground arith), deleted-NamedIn id names rows)
    ]

updated-NamedIn :
    (id : ℕ) (names : List String) (p : CredentialRow → Bool) (input : CredentialReferenceInput)
    → includes names input.name ≡ true
    → (rows : List CredentialRow) → All (NamedIn id names) rows
    → All
        (NamedIn id names)
        (update_where p (λ c. record c { reference = reference_of input }) rows)
unfolding update_where reference_of
updated-NamedIn id names p input named [] h = tt
updated-NamedIn id names p input named (c ∷ rows) (k, h) = elim (Bool-cases (p c)) [
  | inl e ↦ rw e ((λ b. named), updated-NamedIn id names p input named rows h)
  | inr e ↦ rw e (k, updated-NamedIn id names p input named rows h)
]

upsert_reference-NamedIn :
    (id : ℕ) (names : List String) (rows : List CredentialRow) (input : CredentialReferenceInput)
    → includes names input.name ≡ true
    → All (NamedIn id names) rows
    → All (NamedIn id names) (upsert_reference id rows input)
unfolding upsert_reference reference_of
upsert_reference-NamedIn id names rows input named h =
    elim (Bool-cases (any (λ c. belongs_to id c && has_name input.name c) rows)) [
      | inl e ↦ rw e (updated-NamedIn id names _ input named rows h)
      | inr e ↦ rw e (All-append _ rows _ h ((λ b. named), tt))
    ]

upsert_references-NamedIn :
    (id : ℕ) (names : List String) (inputs : List CredentialReferenceInput)
    (rows : List CredentialRow)
    → All (λ i. includes names i.name ≡ true) inputs
    → All (NamedIn id names) rows
    → All (NamedIn id names) (upsert_references id rows inputs)
unfolding upsert_references
upsert_references-NamedIn id names [] rows named h = h
upsert_references-NamedIn id names (i ∷ is) rows (k, named) h =
    upsert_references-NamedIn id names is (upsert_reference id rows i) named
      (upsert_reference-NamedIn id names rows i k h)

-- The rows of the other integrations.
abbrev pub others : ℕ → List CredentialRow → List CredentialRow
others id rows = filter (λ c. not (belongs_to id c)) rows

deleted_others :
    (id : ℕ) (p : CredentialRow → Bool) (rows : List CredentialRow)
    → others id (delete_where (λ c. belongs_to id c && p c) rows) ≡ others id rows
unfolding delete_where
deleted_others id p [] = refl
deleted_others id p (c ∷ rows) = ground (arith, deleted_others id p rows)

updated_others :
    (id : ℕ) (p : CredentialRow → Bool) (input : CredentialReferenceInput)
    (rows : List CredentialRow)
    → others id (
        update_where
          (λ c. belongs_to id c && p c)
          (λ c. record c { reference = reference_of input })
          rows)
      ≡ others id rows
unfolding update_where
updated_others id p input [] = refl
updated_others id p input (c ∷ rows) = ground (arith, updated_others id p input rows)

added_others :
    (id : ℕ) (row : CredentialRow) (rows : List CredentialRow)
    → belongs_to id row ≡ true
    → others id (rows ++ row ∷ []) ≡ others id rows
added_others id row [] h = rw h refl
added_others id row (c ∷ rows) h = ground (arith, added_others id row rows)

upsert_references-others :
    (id : ℕ) (inputs : List CredentialReferenceInput) (rows : List CredentialRow)
    → others id (upsert_references id rows inputs) ≡ others id rows
unfolding upsert_references upsert_reference
upsert_references-others id [] rows = refl
upsert_references-others id (i ∷ is) rows =
    upsert_references-others id is (upsert_reference id rows i)
    ∙ elim (Bool-cases (any (λ c. belongs_to id c && has_name i.name c) rows)) [
      | inl e ↦ rw e (updated_others id (has_name i.name) i rows)
      | inr e ↦ rw e (added_others id _ rows (ground arith))
    ]

included :
    (names : List String) (inputs : List CredentialReferenceInput)
    → ((n : String) → includes (map (λ i. i.name) inputs) n ≡ true → includes names n ≡ true)
    → All (λ i. includes names i.name ≡ true) inputs
included names [] sub = tt
included names (i ∷ is) sub =
    (sub i.name (rw (eq_refl i.name) refl), included names is (λ n h. sub n (ground arith)))

kept_names-named :
    (inputs : List CredentialReferenceInput)
    → All (λ i. includes (kept_names inputs) i.name ≡ true) inputs
kept_names-named [] = tt
kept_names-named (i ∷ is) = included (kept_names (i ∷ is)) (i ∷ is) (λ n h. h)

-- After the references of an integration were written from a list, each row of it has a name of the
-- list, or `__none__` where the list is empty, and the rows of the other integrations are as before,
-- in their order.
pub write_references-NamedIn :
    {W : Type 0} (id : ℕ) (inputs : List CredentialReferenceInput) (s : State W)
    → All (NamedIn id (kept_names inputs)) (write_references id (some inputs) s).credentials
      × (others id (write_references id (some inputs) s).credentials ≡ others id s.credentials)
unfolding write_references add_event
write_references-NamedIn id inputs s = (
  upsert_references-NamedIn id (kept_names inputs) inputs _ (kept_names-named inputs)
      (deleted-NamedIn id (kept_names inputs) s.credentials),
  upsert_references-others id inputs _ ∙ deleted_others id _ s.credentials,
)
