-- ===== src/Examples/Sealed.antt =====
-- A sealed value, with a cipher that writes each unit as two bytes.
use mathlib.Core.Path.{ap₂}
use slc_central_admin_cursor.Prelude.{
  ℕ, zero, suc, ap, ◌+◌, ◌-◌, ◌*◌, ◌/◌, ◌%◌, ◌≡◌, refl, Bool, true, false, ◌&&◌, some, [], ◌∷◌, map,
  Text, codes, any, all, ltb, leb, ◌==◌, nat_eq, list_eq, arith,
}
use slc_central_admin_cursor.Auth.SecretBox.{Bytes, Cipher, seal, open_sealed}
use slc_central_admin_cursor.Auth.SecretBox.RoundTrip.{
  is_dot, AreBytes, is_byte, is_well_formed, IsSealable, IsCipher, open_sealed-seal,
}

abbrev shift : ℕ → ℕ
shift b = b + 100

abbrev shift_back : ℕ → ℕ
shift_back c = c - 100

abbrev to_bytes : Text → Bytes
to_bytes [] = []
to_bytes (c ∷ s) = c / 256 ∷ c % 256 ∷ to_bytes s

abbrev from_bytes : Bytes → Text
from_bytes (a ∷ b ∷ s) = (a * 256 + b) ∷ from_bytes s
from_bytes _ = []

abbrev plain : Cipher
plain = record {
  encrypt = λ key iv text. (to_bytes text, 7 ∷ []);
  decrypt = λ key iv tag ciphertext. some (from_bytes ciphertext);
  from_base64 = λ text. text;
  base64url = map shift;
  from_base64url = map shift_back;
}

back : (b : ℕ) → shift_back (shift b) ≡ b
back b = omega arith

all_back : (bytes : Bytes) → map shift_back (map shift bytes) ≡ bytes
all_back [] = refl
all_back (b ∷ bytes) = ap₂ (λ b bytes. b ∷ bytes) (back b) (all_back bytes)

not_dot : (b : ℕ) → is_dot (shift b) ≡ false
not_dot b = ground arith

no_dots : (bytes : Bytes) → any is_dot (map shift bytes) ≡ false
no_dots [] = refl
no_dots (b ∷ bytes) = rw (not_dot b) (no_dots bytes)

some_units : (bytes : Bytes) → (bytes == []) ≡ false → (map shift bytes == []) ≡ false
some_units [] h = h
some_units (b ∷ bytes) h = refl

same_unit : (c : ℕ) → c / 256 * 256 + c % 256 ≡ c
same_unit c = omega arith

opens : (text : Text) → from_bytes (to_bytes text) ≡ text
opens [] = refl
opens (c ∷ s) = ap₂ (λ c s. c ∷ s) (same_unit c) (opens s)

both_parts : (a b c : Bool) → (a && b && c) ≡ true → (a ≡ true) × (c ≡ true)
both_parts a b c h = ground arith

two_bytes :
    (c : ℕ) (rest : Bool)
    → ltb c 65536 ≡ true
    → rest ≡ true
    → (is_byte (c / 256) && (is_byte (c % 256) && rest)) ≡ true
two_bytes c rest h e = ground arith

are_bytes :
    (text : Text) (pending : Bool) → is_well_formed pending text ≡ true → AreBytes (to_bytes text)
unfolding is_well_formed
are_bytes [] pending h = refl
are_bytes (c ∷ s) pending h =
    let (unit, rest) = both_parts _ _ _ h in
    two_bytes c (all is_byte (to_bytes s)) unit (are_bytes s (leb 0xd800 c && ltb c 0xdc00) rest)

plain-IsCipher : IsCipher plain
plain-IsCipher = record {
  decrypt-encrypt = λ key iv plaintext h. ap some (opens plaintext);
  encrypted = λ key iv plaintext h. (are_bytes plaintext false h.text, refl, refl);
  from-base64url = λ bytes h. all_back bytes;
  no_dot = λ bytes h. no_dots bytes;
  some_text = λ bytes h. some_units bytes;
}

abbrev key_of : ℕ → Bytes
key_of zero = []
key_of (suc n) = n ∷ key_of n

secret-IsSealable : IsSealable (codes "JBSWY3DP") (key_of 32) (key_of 12)
unfolding is_well_formed
secret-IsSealable = record {
  key_size = refl;
  key_bytes = refl;
  iv_size = refl;
  iv_bytes = refl;
  text = refl;
}

open_sealed-seal_example :
    open_sealed plain (seal plain (codes "JBSWY3DP") (key_of 32) (key_of 12)) (key_of 32)
    ≡ some (codes "JBSWY3DP")
open_sealed-seal_example =
    open_sealed-seal plain plain-IsCipher (codes "JBSWY3DP") (key_of 32) (key_of 12)
      secret-IsSealable
