-- ===== src/Auth/Totp.antt =====
-- Authenticator codes, apps/api/src/lib/totp.ts. HMAC-SHA1 is a parameter. The bit buffers are the
-- source's 32-bit integers as bit patterns: `<<` wraps at 2^32 and leaves low bits 0, so `|` with
-- what fits into them is `+`, and a mask of k ones is `% 2 ^ k`. Letters are raised as
-- `toUpperCase` does in ASCII.
pub mod Window
use slc_central_admin_cursor.Prelude.{
  ℕ, zero, suc, ◌+◌, ◌-◌, ◌*◌, ◌/◌, ◌%◌, ◌^◌, ◌<◌, Bool, true, false, not, ◌&&◌, ◌||◌, Option, none,
  some, List, [], ◌∷◌, ◌++◌, map, Text, ltb, leb, ◌==◌, nat_eq, list_eq, filter, all, length,
  is_digit, is_space, if◌then◌else◌,
}

-- `ALPHABET[i]`.
unfoldable pub alphabet : ℕ → ℕ
alphabet i = if ltb i 26 then b'A' + i else b'2' + (i - 26)

-- `ALPHABET.indexOf(char)`; `none` is -1.
unfoldable pub index_of : ℕ → Option ℕ
index_of c =
    if leb b'A' c && leb c b'Z'
    then some (c - b'A')
    else if leb b'2' c && leb c b'7'
    then some (c - b'2' + 26)
    else none

-- The inner loop of `base32Encode`: the characters that it writes, and the bits that it leaves. It
-- makes fewer rounds than there are bits.
unfoldable pub drain : ℕ → ℕ → ℕ → Text × ℕ
drain zero value bits = ([], bits)
drain (suc fuel) value bits =
    let (out, left) = drain fuel value (bits - 5) in
    if leb 5 bits then (alphabet (value / 2 ^ (bits - 5) % 32) ∷ out, left) else ([], bits)

unfoldable pub encode_from : ℕ → ℕ → List ℕ → Text
encode_from value bits [] =
    if ltb 0 bits then alphabet (value * 2 ^ (5 - bits) % 2 ^ 32 % 32) ∷ [] else []
encode_from value bits (byte ∷ bytes) =
    let value' = value * 2 ^ 8 % 2 ^ 32 + byte in
    let (out, left) = drain (bits + 8) value' (bits + 8) in out ++ encode_from value' left bytes

unfoldable pub base32_encode : List ℕ → Text
base32_encode bytes = encode_from 0 0 bytes

-- A byte before what follows it; `none` where the source throws.
abbrev pub emit : ℕ → Option (List ℕ) → Option (List ℕ)
emit byte none = none
emit byte (some bytes) = some (byte ∷ bytes)

unfoldable pub decode_from : ℕ → ℕ → Text → Option (List ℕ)
decode_from value bits [] = some []
decode_from value bits (c ∷ s) = elim (index_of c) [
  | none ↦ none
  | some i ↦
      let value' = value * 2 ^ 5 % 2 ^ 32 + i in
      elim (leb 8 (bits + 5)) [
        | true ↦ emit (value' / 2 ^ (bits + 5 - 8) % 256) (decode_from value' (bits + 5 - 8) s)
        | false ↦ decode_from value' (bits + 5) s
      ]
]

abbrev pub to_upper_unit : ℕ → ℕ
to_upper_unit c = if leb b'a' c && leb c b'z' then c - 32 else c

-- What `replace(/[\s=-]/g, '')` keeps.
abbrev pub is_kept : ℕ → Bool
is_kept c = not (is_space c || c == b'=' || c == b'-')

unfoldable pub base32_decode : Text → Option (List ℕ)
base32_decode input = decode_from 0 0 (filter is_kept (map to_upper_unit input))

unfoldable pub time_step : ℕ → ℕ
time_step now_ms = now_ms / 1000 / 30

-- Eight bytes, the highest first.
unfoldable pub counter_bytes : ℕ → List ℕ
counter_bytes n =
    n / 2 ^ 56 % 256
    ∷ n / 2 ^ 48 % 256
    ∷ n / 2 ^ 40 % 256
    ∷ n / 2 ^ 32 % 256
    ∷ n / 2 ^ 24 % 256
    ∷ n / 2 ^ 16 % 256
    ∷ n / 2 ^ 8 % 256
    ∷ n % 256
    ∷ []

-- `padStart(6, '0')` of a number below 10^6.
unfoldable pub six_digits : ℕ → Text
six_digits n =
    (b'0' + n / 100000 % 10)
    ∷ (b'0' + n / 10000 % 10)
    ∷ (b'0' + n / 1000 % 10)
    ∷ (b'0' + n / 100 % 10)
    ∷ (b'0' + n / 10 % 10)
    ∷ (b'0' + n % 10)
    ∷ []

last_byte : List ℕ → Option ℕ
last_byte [] = none
last_byte (b ∷ []) = some b
last_byte (b ∷ c ∷ bs) = last_byte (c ∷ bs)

-- `digest.readUInt32BE(offset) & 0x7fffffff`; `none` out of range.
read_31 : ℕ → List ℕ → Option ℕ
read_31 zero (a ∷ b ∷ c ∷ d ∷ bs) = some ((a * 2 ^ 24 + b * 2 ^ 16 + c * 2 ^ 8 + d) % 2 ^ 31)
read_31 (suc k) (a ∷ bs) = read_31 k bs
read_31 _ _ = none

infixl 5 ◌>>=◌
abbrev ◌>>=◌ : {A B : Type 0} → Option A → (A → Option B) → Option B
none >>= f = none
some a >>= f = f a

module _ (hmac_sha1 : List ℕ → List ℕ → List ℕ) where
  -- `none` where the source throws: on a secret that is no base32, or a step of 2^64 and more.
  unfoldable pub totp_at : Text → ℕ → Option Text
  unfolding last_byte read_31
  totp_at secret step = do
    key ← base32_decode secret
    counter ← if ltb step (2 ^ 64) then some (counter_bytes step) else none
    last ← last_byte (hmac_sha1 key counter)
    binary ← read_31 (last % 16) (hmac_sha1 key counter)
    some (six_digits (binary % 10 ^ 6))

-- The matched step, `null`, or an exception.
pub data Verdict : Type 0 where
  matched : ℕ → Verdict
  unmatched threw : Verdict

-- `notAfterStep != null && step <= notAfterStep`.
abbrev pub is_used : Option ℕ → ℕ → Bool
is_used none step = false
is_used (some last) step = leb step last

-- `/^\d{6}$/`.
abbrev pub is_code : Text → Bool
is_code code = length code == 6 && all is_digit code

module _ (hmac_sha1 : List ℕ → List ℕ → List ℕ) (secret code : Text) (not_after : Option ℕ) where
  unfoldable pub tried : Option Text → ℕ → Verdict → Verdict
  tried none step rest = threw
  tried (some expected) step rest = if expected == code then matched step else rest

  -- The loop over the steps.
  unfoldable pub try_steps : List ℕ → Verdict
  try_steps [] = unmatched
  try_steps (step ∷ steps) =
      let rest = try_steps steps in
      if is_used not_after step then rest else tried (totp_at hmac_sha1 secret step) step rest

  -- In the first 30 s of the clock the loop begins at the step -1, which is skipped if a step was
  -- used before, and else throws.
  first_steps : Option ℕ → Verdict
  first_steps none = threw
  first_steps (some last) = try_steps (0 ∷ 1 ∷ [])

  window_steps : ℕ → Verdict
  unfolding first_steps
  window_steps zero = first_steps not_after
  window_steps (suc before) = try_steps (before ∷ suc before ∷ suc (suc before) ∷ [])

  unfoldable pub verify_totp : ℕ → Verdict
  unfolding window_steps
  verify_totp now_ms = if is_code code then window_steps (time_step now_ms) else unmatched
