-- ===== src/Auth/SecretBox/RoundTrip.antt =====
-- What was sealed opens again.
use slc_central_admin_cursor.Prelude.{
  ltb, leb, length, all, not, true, ◌&&◌, if◌then◌else◌, arith, ℕ, ◌≡◌, refl, ap, ◌∙◌, inl, inr,
  Bool, false, some, [], ◌∷◌, ◌++◌, Text, codes, split, extend, any, ◌==◌, nat_eq, list_eq,
  Bool-cases,
}
use slc_central_admin_cursor.Auth.SecretBox.{
  Bytes, Cipher, join_dots, seal, open_sealed, open_parts,
}

abbrev pub is_dot : ℕ → Bool
is_dot c = c == b'.'

abbrev pub is_byte : ℕ → Bool
is_byte b = ltb b 256

abbrev pub AreBytes : Bytes → Type 0
AreBytes bytes = all is_byte bytes ≡ true

abbrev is_high : ℕ → Bool
is_high c = leb 0xd800 c && ltb c 0xdc00

abbrev is_low : ℕ → Bool
is_low c = leb 0xdc00 c && ltb c 0xe000

-- Units of 16 bits in which each high surrogate, and nothing else, has a low one behind it, so that
-- UTF-8 keeps them. The flag says whether a low one must come.
unfoldable pub is_well_formed : Bool → Text → Bool
is_well_formed pending [] = not pending
is_well_formed pending (c ∷ s) =
    let rest = is_well_formed (is_high c) s in
    ltb c 65536 && (if is_low c then pending else not pending) && rest

-- What the cipher takes: a key of 32 bytes, 12 random bytes, and a well-formed text.
pub record IsSealable (plaintext : Text) (key iv : Bytes) : Type 0 where
  pub key_size : length key ≡ 32
  pub key_bytes : AreBytes key
  pub iv_size : length iv ≡ 12
  pub iv_bytes : AreBytes iv
  pub text : is_well_formed false plaintext ≡ true

-- What the platform promises: of such a key, random bytes and text, the encryption gives bytes, a
-- tag that is not empty, and what the decryption with them opens again; and base64url, of bytes, is
-- read back, writes no dot, and writes something where there are any.
pub record IsCipher (cipher : Cipher) : Type 0 where
  pub decrypt-encrypt :
      (key iv : Bytes) (plaintext : Text)
      → IsSealable plaintext key iv
      → cipher.decrypt key iv
          (cipher.encrypt key iv plaintext).1
          (cipher.encrypt key iv plaintext).0
        ≡ some plaintext
  pub encrypted :
      (key iv : Bytes) (plaintext : Text)
      → IsSealable plaintext key iv
      → AreBytes (cipher.encrypt key iv plaintext).0
        × AreBytes (cipher.encrypt key iv plaintext).1
        × (((cipher.encrypt key iv plaintext).1 == []) ≡ false)
  pub from-base64url :
      (bytes : Bytes) → AreBytes bytes → cipher.from_base64url (cipher.base64url bytes) ≡ bytes
  pub no_dot : (bytes : Bytes) → AreBytes bytes → any is_dot (cipher.base64url bytes) ≡ false
  pub some_text :
      (bytes : Bytes)
      → AreBytes bytes
      → (bytes == []) ≡ false
      → (cipher.base64url bytes == []) ≡ false

split-part :
    (part rest : Text)
    → any is_dot part ≡ false
    → split b'.' (part ++ (b'.' ∷ rest)) ≡ part ∷ split b'.' rest
unfolding split
split-part [] rest h = refl
split-part (c ∷ part) rest h = elim (Bool-cases (is_dot c)) [
  | inl e ↦ let no = rw e at h in cc
  | inr e ↦ rw e (ap (extend c) (split-part part rest (rw e at h)))
]

split-last : (part : Text) → any is_dot part ≡ false → split b'.' part ≡ part ∷ []
unfolding split
split-last [] h = refl
split-last (c ∷ part) h = elim (Bool-cases (is_dot c)) [
  | inl e ↦ let no = rw e at h in cc
  | inr e ↦ rw e (ap (extend c) (split-last part (rw e at h)))
]

-- Texts without dots are what they are joined from.
split-join :
    (a b c d : Text)
    → any is_dot a ≡ false
    → any is_dot b ≡ false
    → any is_dot c ≡ false
    → any is_dot d ≡ false
    → split b'.' (join_dots (a ∷ b ∷ c ∷ d ∷ [])) ≡ a ∷ b ∷ c ∷ d ∷ []
unfolding join_dots
split-join a b c d ha hb hc hd =
    split-part a _ ha
    ∙ ap (λ l. a ∷ l)
        (split-part b _ hb
          ∙ ap (λ l. b ∷ l) (split-part c _ hc ∙ ap (λ l. c ∷ l) (split-last d hd)))

drawn : (iv : Bytes) → length iv ≡ 12 → (iv == []) ≡ false
drawn [] h = absurd (omega arith)
drawn (b ∷ iv) h = refl

-- A well-formed text that was sealed with a key of 32 bytes and 12 random bytes opens with the same
-- key to that text, where the cipher and base64url do what the platform promises.
pub open_sealed-seal :
    (cipher : Cipher) (laws : IsCipher cipher) (plaintext : Text) (key iv : Bytes)
    → IsSealable plaintext key iv
    → open_sealed cipher (seal cipher plaintext key iv) key ≡ some plaintext
unfolding open_sealed seal open_parts
open_sealed-seal cipher laws plaintext key iv h =
    let (ciphertext, tag) = cipher.encrypt key iv plaintext in
    let (bytes, tag_bytes, some_tag) = laws.encrypted key iv plaintext h in
    ap (λ parts. open_parts cipher parts key)
      (split-join (codes "v1") (cipher.base64url iv) (cipher.base64url tag)
        (cipher.base64url ciphertext) refl (laws.no_dot iv h.iv_bytes) (laws.no_dot tag tag_bytes)
        (laws.no_dot ciphertext bytes))
    ∙ rw
        (
          laws.some_text iv h.iv_bytes (drawn iv h.iv_size),
          laws.some_text tag tag_bytes some_tag,
          laws.from-base64url iv h.iv_bytes,
          laws.from-base64url tag tag_bytes,
          laws.from-base64url ciphertext bytes,
        )
        (laws.decrypt-encrypt key iv plaintext h)
