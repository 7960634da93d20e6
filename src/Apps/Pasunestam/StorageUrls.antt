-- ===== src/Apps/Pasunestam/StorageUrls.antt =====
-- The address of a stored file, `storageLocation` of pasunestam.store.ts. `decodeURIComponent` is a
-- parameter; `none` is where it throws.
pub mod Matches
use slc_central_admin_cursor.Prelude.{
  ℕ, ◌≡◌, refl, ap, sym, ◌∙◌, inl, inr, Bool, true, false, not, ◌&&◌, ◌||◌, Option, none, some,
  List, [], ◌∷◌, ◌++◌, Text, codes, any, ◌==◌, ==_iff, nat_eq, if◌then◌else◌, Bool-cases, arith,
}

-- What follows a prefix.
unfoldable pub after_prefix : Text → Text → Option Text
after_prefix [] s = some s
after_prefix (p ∷ ps) [] = none
after_prefix (p ∷ ps) (c ∷ s) = let rest = after_prefix ps s in if p == c then rest else none

-- The units before the first slash, and those from it on.
unfoldable pub until_slash : Text → Text × Text
until_slash [] = ([], [])
until_slash (c ∷ s) =
    let (bucket, rest) = until_slash s in if c == b'/' then ([], c ∷ s) else (c ∷ bucket, rest)

abbrev pub is_end : ℕ → Bool
is_end c = c == b'?' || c == b'#'

abbrev pub host : Text
host = codes "https://storage.googleapis.com/"

abbrev pub folder : Text
folder = codes "schemes/"

-- The file below `schemes/`, of one unit or more, none of which ends a path.
path_of : Text → Option Text → Option (Text × Text)
path_of bucket none = none
path_of bucket (some []) = none
path_of bucket (some (c ∷ s)) = if any is_end (c ∷ s) then none else some (bucket, folder ++ c ∷ s)

bucket_of : Text × Text → Option (Text × Text)
unfolding path_of
bucket_of ([], rest) = none
bucket_of (b ∷ bucket, rest) = path_of (b ∷ bucket) (after_prefix (b'/' ∷ folder) rest)

located : Option Text → Option (Text × Text)
unfolding bucket_of
located none = none
located (some s) = bucket_of (until_slash s)

-- The regular expression: the bucket, and the path as it stands in the address.
unfoldable pub match_location : Text → Option (Text × Text)
unfolding located
match_location url = located (after_prefix host url)

abbrev pub decoded : (Text → Option Text) → Option (Text × Text) → Option (Option (Text × Text))
decoded decode_uri_component none = some none
decoded decode_uri_component (some (bucket, path)) = elim (decode_uri_component path) [
  | none ↦ none
  | some p ↦ some (some (bucket, p))
]

-- `none` is an exception, `some none` is `null`.
unfoldable pub storage_location : (Text → Option Text) → Text → Option (Option (Text × Text))
storage_location decode_uri_component url = decoded decode_uri_component (match_location url)
