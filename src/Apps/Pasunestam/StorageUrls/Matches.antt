-- ===== src/Apps/Pasunestam/StorageUrls/Matches.antt =====
-- Which addresses are those of stored files.
use mathlib.Core.Path.{ap₂}
use mathlib.Core.Option.{some-injective}
use slc_central_admin_cursor.Prelude.{
  ℕ, ◌≡◌, ◌↔◌, refl, ap, sym, ◌∙◌, inl, inr, Bool, true, false, Option, none, some, [], ◌∷◌, ◌++◌,
  Text, any, ◌==◌, nat_eq, Bool-cases, Option-cases, arith,
}
use slc_central_admin_cursor.Apps.Pasunestam.StorageUrls.{
  after_prefix, until_slash, is_end, host, folder, path_of, bucket_of, located, match_location,
  decoded, storage_location,
}

abbrev pub is_slash : ℕ → Bool
is_slash c = c == b'/'

abbrev pub is_given : Text → Bool
is_given [] = false
is_given (c ∷ s) = true

-- An address of the host with a bucket and, in its folder, a file.
pub record IsStored (url bucket path : Text) : Type 0 where
  pub file : Text
  pub whole : url ≡ host ++ (bucket ++ (b'/' ∷ path))
  pub in_folder : path ≡ folder ++ file
  pub some_bucket : is_given bucket ≡ true
  pub one_segment : any is_slash bucket ≡ false
  pub some_file : is_given file ≡ true
  pub no_end : any is_end file ≡ false

after_prefix-append : (ps s : Text) → after_prefix ps (ps ++ s) ≡ some s
unfolding after_prefix
after_prefix-append [] s = refl
after_prefix-append (p ∷ ps) s = ground (arith, after_prefix-append ps s)

after_prefix-whole : (ps s r : Text) → after_prefix ps s ≡ some r → s ≡ ps ++ r
unfolding after_prefix
after_prefix-whole [] s r h = ground arith
after_prefix-whole (p ∷ ps) [] r h = cc
after_prefix-whole (p ∷ ps) (c ∷ s) r h = ground (arith, after_prefix-whole ps s r)

until_slash-append :
    (bucket s : Text)
    → any is_slash bucket ≡ false
    → until_slash (bucket ++ (b'/' ∷ s)) ≡ (bucket, b'/' ∷ s)
unfolding until_slash
until_slash-append [] s h = refl
until_slash-append (c ∷ bucket) s h = elim (Bool-cases (is_slash c)) [
  | inl e ↦ let no = rw e at h in cc
  | inr e ↦
      rw e (ap (λ (p : Text × Text). (c ∷ p.0, p.1)) (until_slash-append bucket s (rw e at h)))
]

until_slash-whole :
    (s : Text)
    → (s ≡ (until_slash s).0 ++ (until_slash s).1) × (any is_slash (until_slash s).0 ≡ false)
unfolding until_slash
until_slash-whole [] = (refl, refl)
until_slash-whole (c ∷ s) = elim (Bool-cases (is_slash c)) [
  | inl e ↦ rw e (refl, refl)
  | inr e ↦
      let (whole, none_there) = until_slash-whole s in rw (e, e) (ap (λ l. c ∷ l) whole, none_there)
]

path_of-given :
    (bucket file : Text)
    → is_given file ≡ true
    → any is_end file ≡ false
    → path_of bucket (some file) ≡ some (bucket, folder ++ file)
unfolding path_of
path_of-given bucket [] given h = cc
path_of-given bucket (c ∷ s) given h = rw h refl

bucket_of-given :
    (bucket rest : Text)
    → is_given bucket ≡ true
    → bucket_of (bucket, rest) ≡ path_of bucket (after_prefix (b'/' ∷ folder) rest)
unfolding bucket_of
bucket_of-given [] rest given = cc
bucket_of-given (b ∷ bucket) rest given = refl

IsStored-located :
    (url bucket path : Text) → IsStored url bucket path → match_location url ≡ some (bucket, path)
unfolding match_location located
IsStored-located url bucket path h =
    let whole = h.whole ∙ ap (λ p. host ++ (bucket ++ (b'/' ∷ p))) h.in_folder in
    ap (λ u. located (after_prefix host u)) whole
    ∙ ap located (after_prefix-append host (bucket ++ (b'/' ∷ (folder ++ h.file))))
    ∙ ap bucket_of (until_slash-append bucket (folder ++ h.file) h.one_segment)
    ∙ bucket_of-given bucket (b'/' ∷ (folder ++ h.file)) h.some_bucket
    ∙ ap (path_of bucket) (after_prefix-append (b'/' ∷ folder) h.file)
    ∙ path_of-given bucket h.file h.some_file h.no_end
    ∙ ap (λ p. some (bucket, p)) (sym h.in_folder)

pair-injective :
    {a b c d : Text}
    → ◌≡◌ {A = Option (Text × Text)} (some (a, b)) (some (c, d))
    → (a ≡ c) × (b ≡ d)
pair-injective h =
    let p = some-injective _ _ h in
    (ap (λ (p : Text × Text). p.0) p, ap (λ (p : Text × Text). p.1) p)

path_of-file :
    (bucket : Text) (rest : Option Text) (b path : Text)
    → path_of bucket rest ≡ some (b, path)
    → (file : Text) × (rest ≡ some file)
      × (bucket ≡ b)
      × (path ≡ folder ++ file)
      × (is_given file ≡ true)
      × (any is_end file ≡ false)
unfolding path_of
path_of-file bucket none b path h = cc
path_of-file bucket (some []) b path h = cc
path_of-file bucket (some (c ∷ s)) b path h = elim (Bool-cases (any is_end (c ∷ s))) [
  | inl e ↦ let no = rw e at h in cc
  | inr e ↦ let (x, y) = pair-injective (rw e at h) in (c ∷ s, refl, x, sym y, refl, e)
]

bucket_of-parts :
    (parts : Text × Text) (bucket path : Text)
    → bucket_of parts ≡ some (bucket, path)
    → (parts.0 ≡ bucket)
      × (is_given parts.0 ≡ true)
      × ((file : Text) × (parts.1 ≡ (b'/' ∷ folder) ++ file)
          × (path ≡ folder ++ file)
          × (is_given file ≡ true)
          × (any is_end file ≡ false))
unfolding bucket_of
bucket_of-parts ([], rest) bucket path h = cc
bucket_of-parts (b ∷ bs, rest) bucket path h =
    let (file, there, same, in_folder, given, no_end) =
      path_of-file (b ∷ bs) (after_prefix (b'/' ∷ folder) rest) bucket path h in
    (
      same,
      refl,
      (file, after_prefix-whole (b'/' ∷ folder) rest file there, in_folder, given, no_end),
    )

located-IsStored :
    (url bucket path : Text) (after : Option Text)
    → after_prefix host url ≡ after
    → located after ≡ some (bucket, path)
    → IsStored url bucket path
unfolding located
located-IsStored url bucket path none e h = cc
located-IsStored url bucket path (some s) e h =
    let (same, given, (file, rest, in_folder, some_file, no_end)) =
      bucket_of-parts (until_slash s) bucket path h in
    let (parts, one_segment) = until_slash-whole s in
    record {
      file = file;
      whole =
          after_prefix-whole host url s e
          ∙ ap (λ l. host ++ l)
              (parts ∙ ap₂ (λ l r. l ++ r) same (rest ∙ ap (λ p. b'/' ∷ p) (sym in_folder)));
      in_folder = in_folder;
      some_bucket = ap is_given (sym same) ∙ given;
      one_segment = ap (any is_slash) (sym same) ∙ one_segment;
      some_file = some_file;
      no_end = no_end;
    }

match_location-IsStored :
    (url bucket path : Text) → (match_location url ≡ some (bucket, path)) ↔ IsStored url bucket path
unfolding match_location
match_location-IsStored url bucket path = (
  located-IsStored url bucket path (after_prefix host url) refl,
  IsStored-located url bucket path,
)

module _ (decode_uri_component : Text → Option Text) where
  decoded-given :
      (o : Option (Text × Text)) (bucket path : Text)
      → decoded decode_uri_component o ≡ some (some (bucket, path))
      → (raw : Text) × (o ≡ some (bucket, raw)) × (decode_uri_component raw ≡ some path)
  decoded-given none bucket path h = let no = some-injective _ _ h in cc
  decoded-given (some (b, raw)) bucket path h = elim (Option-cases (decode_uri_component raw)) [
    | inl e ↦ let no = rw (e, decoded) at h in cc
    | inr (p, e) ↦
        let (same, there) = pair-injective (some-injective _ _ (rw (e, decoded) at h)) in
        (raw, ap (λ b. some (b, raw)) same, e ∙ ap some there)
  ]

  decoded-thrown :
      (o : Option (Text × Text))
      → decoded decode_uri_component o ≡ none
      → (bucket : Text) × (raw : Text) × (o ≡ some (bucket, raw))
        × (decode_uri_component raw ≡ none)
  decoded-thrown none h = cc
  decoded-thrown (some (b, raw)) h = elim (Option-cases (decode_uri_component raw)) [
    | inl e ↦ (b, raw, refl, e)
    | inr (p, e) ↦ let no = rw (e, decoded) at h in cc
  ]

  -- An address gives a bucket and a path exactly where it is the storage host, the bucket, which is
  -- one segment, a slash and a file of the folder of schemes with no query and no fragment, and the
  -- path is what `decodeURIComponent` makes of that file with its folder. It throws exactly where the
  -- address is of that form and `decodeURIComponent` throws on it.
  pub storage_location-IsStored :
      (url bucket path : Text)
      → ((storage_location decode_uri_component url ≡ some (some (bucket, path)))
          ↔ ((raw : Text) × IsStored url bucket raw × (decode_uri_component raw ≡ some path)))
        × ((storage_location decode_uri_component url ≡ none)
            ↔ ((b : Text) × (raw : Text) × IsStored url b raw × (decode_uri_component raw ≡ none)))
  unfolding storage_location
  storage_location-IsStored url bucket path = (
    (
      λ h.
          let (raw, there, it) = decoded-given (match_location url) bucket path h in
          (raw, (match_location-IsStored url bucket raw).0 there, it),
      λ (raw, stored, it). rw ((match_location-IsStored url bucket raw).1 stored, decoded, it) refl,
    ),
    (
      λ h.
          let (b, raw, there, it) = decoded-thrown (match_location url) h in
          (b, raw, (match_location-IsStored url b raw).0 there, it),
      λ (b, raw, stored, it). rw ((match_location-IsStored url b raw).1 stored, decoded, it) refl,
    ),
  )
