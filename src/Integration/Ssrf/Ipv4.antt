-- ===== src/Integration/Ssrf/Ipv4.antt =====
-- `isBlockedIpv4` of apps/api/src/integration/ssrf.ts. What `Number` makes of a text that is not a
-- run of digits is a parameter.
use slc_central_admin_cursor.Prelude.{
  ℕ, Bool, true, false, ◌&&◌, Option, none, some, List, [], ◌∷◌, map, Text, ltb, leb, ◌==◌, nat_eq,
  if◌then◌else◌, all, is_digit, split, decimal_from,
}

-- `Number(p)`, where the integers from 0 are told from all else: NaN, fractions and negative
-- numbers are `none`, and the code treats them alike.
unfoldable pub number : (Text → Option ℕ) → Text → Option ℕ
number other [] = other []
number other (c ∷ s) = if all is_digit (c ∷ s) then some (decimal_from 0 (c ∷ s)) else other (c ∷ s)

-- The ranges by the first two numbers of an IPv4 address.
unfoldable pub is_blocked_range : ℕ → ℕ → Bool
is_blocked_range a b =
    if a == 0
    then true
    else if a == 10
    then true
    else if a == 127
    then true
    else if a == 169 && b == 254
    then true
    else if a == 172 && leb 16 b && leb b 31
    then true
    else if a == 192 && b == 168
    then true
    else if a == 100 && leb 64 b && leb b 127
    then true
    else false

-- `!Number.isInteger(n) || n < 0 || n > 255`, negated.
abbrev pub octet : Option ℕ → Option ℕ
octet none = none
octet (some n) = if ltb 255 n then none else some n

abbrev pub is_blocked_parts : List (Option ℕ) → Bool
is_blocked_parts (some a ∷ some b ∷ some c ∷ some d ∷ []) = is_blocked_range a b
is_blocked_parts _ = true

unfoldable pub is_blocked_ipv4 : (Text → Option ℕ) → Text → Bool
is_blocked_ipv4 other ip = is_blocked_parts (map (λ p. octet (number other p)) (split b'.' ip))
