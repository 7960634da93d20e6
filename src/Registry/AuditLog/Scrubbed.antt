-- ===== src/Registry/AuditLog/Scrubbed.antt =====
-- What the rows of the audit log carry.
use slc_central_admin_cursor.Prelude.{
  ◌⊎◌, ◌↔◌, ap, ◌∙◌, true, codes, to_lower, starts_with, ◌==◌, nat_eq, arith, ◌≡◌, refl, sym,
  append_nil, inl, inr, Bool, false, not, ◌||◌, Option, none, some, List, [], ◌∷◌, ◌++◌, Text, All,
  All-append, Bool-cases,
}
use slc_central_admin_cursor.Registry.AuditLog.{
  contains, is_secret_key, clean_fields, if_any, scrub_metadata, AuditEvent, AuditRow, AuditLog,
  stored_event, write_audit_log,
}

-- The words that tell of a secret.
abbrev pub IsSecretWord : Text → Type 0
IsSecretWord word =
    (word ≡ codes "pass")
    ⊎ ((word ≡ codes "secret")
        ⊎ ((word ≡ codes "token")
            ⊎ ((word ≡ codes "credential")
                ⊎ ((word ≡ codes "authorization") ⊎ (word ≡ codes "cookie")))))

-- A text with such a word somewhere in it.
pub record NamesSecret (key : Text) : Type 0 where
  pub before : Text
  pub word : Text
  pub after : Text
  pub listed : IsSecretWord word
  pub whole : key ≡ before ++ (word ++ after)

starts_with-whole : (p s : Text) → starts_with p s ≡ true → (r : Text) × (s ≡ p ++ r)
unfolding starts_with
starts_with-whole [] s h = (s, refl)
starts_with-whole (c ∷ p) [] h = cc
starts_with-whole (c ∷ p) (d ∷ s) h = elim (Bool-cases (c == d)) [
  | inl e ↦
      let (r, q) = starts_with-whole p s (ground arith) in
      let same : d ≡ c = ground arith in (r, rw (same, q) refl)
  | inr e ↦ absurd (ground arith)
]

starts_with-append : (p r : Text) → starts_with p (p ++ r) ≡ true
unfolding starts_with
starts_with-append [] r = refl
starts_with-append (c ∷ p) r = ground (arith, starts_with-append p r)

contains-whole :
    (part s : Text)
    → contains part s ≡ true
    → (before : Text) × (after : Text) × (s ≡ before ++ (part ++ after))
unfolding contains
contains-whole part [] h = let (r, q) = starts_with-whole part [] h in ([], r, q)
contains-whole part (c ∷ s) h = elim (Bool-cases (starts_with part (c ∷ s))) [
  | inl e ↦ let (r, q) = starts_with-whole part (c ∷ s) e in ([], r, q)
  | inr e ↦
      let (before, after, q) = contains-whole part s (rw e at h) in
      (c ∷ before, after, ap (λ l. c ∷ l) q)
]

contains-here : (part s : Text) → starts_with part s ≡ true → contains part s ≡ true
unfolding contains
contains-here part [] h = h
contains-here part (c ∷ s) h = rw h refl

contains-append : (part before after : Text) → contains part (before ++ (part ++ after)) ≡ true
unfolding contains
contains-append part [] after = contains-here part (part ++ after) (starts_with-append part after)
contains-append part (c ∷ before) after = ground (arith, contains-append part before after)

named : (word key : Text) → IsSecretWord word → contains word key ≡ true → NamesSecret key
named word key listed h =
    let (before, after, whole) = contains-whole word key h in
    record { before = before; word = word; after = after; listed = listed; whole = whole }

contained : (word key : Text) (n : NamesSecret key) → n.word ≡ word → contains word key ≡ true
contained word key n same =
    ap (contains word) n.whole
    ∙ ap (λ w. contains word (n.before ++ (w ++ n.after))) same
    ∙ contains-append word n.before n.after

one_of_six :
    (a b c d e f : Bool)
    → (a || b || c || d || e || f) ≡ true
    → (a ≡ true) ⊎ ((b ≡ true) ⊎ ((c ≡ true) ⊎ ((d ≡ true) ⊎ ((e ≡ true) ⊎ (f ≡ true)))))
one_of_six a b c d e f h = ground arith

six_of_one :
    (a b c d e f : Bool)
    → (a ≡ true) ⊎ ((b ≡ true) ⊎ ((c ≡ true) ⊎ ((d ≡ true) ⊎ ((e ≡ true) ⊎ (f ≡ true)))))
    → (a || b || c || d || e || f) ≡ true
six_of_one a b c d e f h = ground arith

first_word : (key : Text) → is_secret_key key ≡ true → NamesSecret (to_lower key)
unfolding is_secret_key
first_word key h =
    let k = to_lower key in
    elim (one_of_six (contains (codes "pass") k) _ _ _ _ _ h) [
      | inl e ↦ named (codes "pass") k (inl refl) e
      | inr (inl e) ↦ named (codes "secret") k (inr (inl refl)) e
      | inr (inr (inl e)) ↦ named (codes "token") k (inr (inr (inl refl))) e
      | inr (inr (inr (inl e))) ↦ named (codes "credential") k (inr (inr (inr (inl refl)))) e
      | inr (inr (inr (inr (inl e)))) ↦
          named (codes "authorization") k (inr (inr (inr (inr (inl refl))))) e
      | inr (inr (inr (inr (inr e)))) ↦
          named (codes "cookie") k (inr (inr (inr (inr (inr refl))))) e
    ]

word_found : (key : Text) (n : NamesSecret (to_lower key)) → is_secret_key key ≡ true
unfolding is_secret_key
word_found key n =
    let k = to_lower key in
    six_of_one (contains (codes "pass") k) (contains (codes "secret") k)
      (contains (codes "token") k) (contains (codes "credential") k)
      (contains (codes "authorization") k) (contains (codes "cookie") k)
      (elim n.listed [
        | inl e ↦ inl (contained _ k n e)
        | inr (inl e) ↦ inr (inl (contained _ k n e))
        | inr (inr (inl e)) ↦ inr (inr (inl (contained _ k n e)))
        | inr (inr (inr (inl e))) ↦ inr (inr (inr (inl (contained _ k n e))))
        | inr (inr (inr (inr (inl e)))) ↦ inr (inr (inr (inr (inl (contained _ k n e)))))
        | inr (inr (inr (inr (inr e)))) ↦ inr (inr (inr (inr (inr (contained _ k n e)))))
      ])

-- A key is taken for a secret's exactly where one of the words pass, secret, token, credential,
-- authorization and cookie occurs somewhere in it, case aside.
pub is_secret_key-NamesSecret :
    (key : Text) → (is_secret_key key ≡ true) ↔ NamesSecret (to_lower key)
is_secret_key-NamesSecret key = (first_word key, word_found key)

not_secret : (key : Text) → is_secret_key key ≡ false → ¬ NamesSecret (to_lower key)
not_secret key h n = let yes = (is_secret_key-NamesSecret key).1 n in cc

module _ {V : Type 0} where
  -- A field that may be stored: a value under a name that holds no such word, case aside.
  abbrev pub IsPublic : Text × Option V → Type 0
  IsPublic (key, value) = (¬ NamesSecret (to_lower key)) × ((v : V) × (value ≡ some v))

  -- Metadata that is left out, or has fields, all of which may be stored.
  abbrev pub IsScrubbed : Option (List (Text × Option V)) → Type 0
  IsScrubbed none = Unit
  IsScrubbed (some []) = ⊥
  IsScrubbed (some (f ∷ fields)) = All IsPublic (f ∷ fields)

  clean_fields-IsPublic : (fields : List (Text × Option V)) → All IsPublic (clean_fields fields)
  unfolding clean_fields
  clean_fields-IsPublic [] = tt
  clean_fields-IsPublic ((key, none) ∷ rest) = clean_fields-IsPublic rest
  clean_fields-IsPublic ((key, some v) ∷ rest) = elim (Bool-cases (is_secret_key key)) [
    | inl e ↦ rw e (clean_fields-IsPublic rest)
    | inr e ↦ rw e ((not_secret key e, (v, refl)), clean_fields-IsPublic rest)
  ]

  if_any-IsScrubbed :
      (fields : List (Text × Option V)) → All IsPublic fields → IsScrubbed (if_any fields)
  unfolding if_any
  if_any-IsScrubbed [] h = tt
  if_any-IsScrubbed (f ∷ fields) h = h

  scrub_metadata-IsScrubbed :
      (metadata : Option (List (Text × Option V))) → IsScrubbed (scrub_metadata metadata)
  unfolding scrub_metadata
  scrub_metadata-IsScrubbed none = tt
  scrub_metadata-IsScrubbed (some fields) =
      if_any-IsScrubbed (clean_fields fields) (clean_fields-IsPublic fields)

  -- A log whose rows carry no metadata, or only values under names in which none of pass, secret,
  -- token, credential, authorization and cookie occurs, case aside, is still one after a write,
  -- whatever the event carries, and the rows that were there stay, in their order, before what is
  -- added.
  pub write_audit_log-IsScrubbed :
      (has_database fails : Bool) (event : AuditEvent V) (log : AuditLog V)
      → All (λ r. IsScrubbed r.event.metadata) log.rows
      → All (λ r. IsScrubbed r.event.metadata) (write_audit_log has_database fails event log).rows
        × ((more : List (AuditRow V)) × ((write_audit_log has_database fails event log).rows
              ≡ log.rows ++ more))
  unfolding write_audit_log stored_event
  write_audit_log-IsScrubbed has_database fails event log h =
      elim (Bool-cases (not has_database || fails)) [
        | inl e ↦ rw e (h, ([], sym (append_nil log.rows)))
        | inr e ↦
            rw e
              (All-append _ log.rows _ h (scrub_metadata-IsScrubbed event.metadata, tt), (_, refl))
      ]
