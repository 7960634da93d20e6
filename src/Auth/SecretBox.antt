-- ===== src/Auth/SecretBox.antt =====
-- Sealed values, apps/api/src/lib/secretBox.ts: `v1.<iv>.<tag>.<ciphertext>`. The cipher, AES-256-GCM,
-- and base64url are those of the platform. Bytes are numbers.
pub mod RoundTrip
use slc_central_admin_cursor.Prelude.{
  ℕ, Bool, not, ◌||◌, Option, none, some, List, [], ◌∷◌, ◌++◌, map, Text, codes, split, length,
  ◌==◌, nat_eq, list_eq, if◌then◌else◌,
}

abbrev pub Bytes : Type 0
Bytes = List ℕ

-- `encrypt` gives the ciphertext and the tag; `decrypt` is `none` where the tag does not fit or the
-- value cannot be read, which throws.
pub record Cipher : Type 0 where
  pub encrypt : Bytes → Bytes → Text → Bytes × Bytes
  pub decrypt : Bytes → Bytes → Bytes → Bytes → Option Text
  pub from_base64 : Text → Bytes
  pub base64url : Bytes → Text
  pub from_base64url : Text → Bytes

-- `join('.')`.
unfoldable pub join_dots : List Text → Text
join_dots [] = []
join_dots (part ∷ []) = part
join_dots (part ∷ next ∷ parts) = part ++ (b'.' ∷ join_dots (next ∷ parts))

module _ (cipher : Cipher) where
  unfoldable pub parse_key : Text → Option Bytes
  parse_key base64_key =
      let key = cipher.from_base64 base64_key in if length key == 32 then some key else none

  -- With the random bytes that were drawn.
  unfoldable pub seal : Text → Bytes → Bytes → Text
  seal plaintext key iv =
      let (ciphertext, tag) = cipher.encrypt key iv plaintext in
      join_dots (codes "v1" ∷ map cipher.base64url (iv ∷ tag ∷ ciphertext ∷ []))

  -- `const [version, iv, tag, ciphertext]`, which passes over further parts.
  open_parts : List Text → Bytes → Option Text
  open_parts (version ∷ iv ∷ tag ∷ ciphertext ∷ rest) key =
      if not (version == codes "v1") || (iv == [] || tag == [])
      then none
      else cipher.decrypt key (cipher.from_base64url iv) (cipher.from_base64url tag)
          (cipher.from_base64url ciphertext)
  open_parts _ key = none

  unfoldable pub open_sealed : Text → Bytes → Option Text
  unfolding open_parts
  open_sealed sealed key = open_parts (split b'.' sealed) key
