-- ===== src/Integration/Ssrf/Ipv6.antt =====
-- The reading of IPv6 addresses in apps/api/src/integration/ssrf.ts: `expandIpv6`,
-- `isBlockedIpv6` and `isBlockedIp`. `net.isIP` is a parameter.
use slc_central_admin_cursor.Prelude.{
  ℕ, zero, suc, ◌+◌, ◌-◌, ◌*◌, ◌/◌, ◌%◌, ◌^◌, Bool, true, false, ◌&&◌, ◌||◌, Option, none, some,
  List, [], ◌∷◌, ◌++◌, map, Text, ltb, leb, ◌==◌, nat_eq, if◌then◌else◌, all, length, is_digit,
  split, decimal_from, show_small, to_lower, trim, extend,
}
use Prim.Native.Nat.{bit_and}
use slc_central_admin_cursor.Integration.Ssrf.Ipv4.{is_blocked_ipv4}

-- `embeddedIpv4`: the two hextets as a dotted address.
unfoldable pub embedded_ipv4 : ℕ → ℕ → Text
embedded_ipv4 hi lo =
    show_small (bit_and (hi / 2 ^ 8) 0xff)
    ++ b'.'
      ∷ (show_small (bit_and hi 0xff)
          ++ b'.' ∷ (show_small (bit_and (lo / 2 ^ 8) 0xff) ++ b'.' ∷ show_small (bit_and lo 0xff)))

-- The eight hextets of an address.
pub record Hextets : Type 0 where
  pub h0 : ℕ
  pub h1 : ℕ
  pub h2 : ℕ
  pub h3 : ℕ
  pub h4 : ℕ
  pub h5 : ℕ
  pub h6 : ℕ
  pub h7 : ℕ

-- `(h[6] << 16) | h[7]`: the halves share no bit, so `|` is `+`. The code compares the 32 bits with
-- 0 and 1 alone, for which their sign does not matter.
abbrev pub low_bits : Hextets → ℕ
low_bits h = h.h6 * 2 ^ 16 % 2 ^ 32 + h.h7

unfoldable pub is_blocked_ipv6 : (Text → Option ℕ) → Hextets → Bool
is_blocked_ipv6 other h =
    let high_zero = h.h0 == 0 && h.h1 == 0 && h.h2 == 0 && h.h3 == 0 && h.h4 == 0 in
    if high_zero && h.h5 == 0xffff
    then is_blocked_ipv4 other (embedded_ipv4 h.h6 h.h7)
    else if high_zero && h.h5 == 0
    then (if low_bits h == 0 || low_bits h == 1
        then true
        else is_blocked_ipv4 other (embedded_ipv4 h.h6 h.h7))
    else if bit_and h.h0 0xffc0 == 0xfe80
    then true
    else if bit_and h.h0 0xfe00 == 0xfc00
    then true
    else false

abbrev is_hex : ℕ → Bool
is_hex c = is_digit c || (leb b'a' c && leb c b'f')

hex_from : ℕ → Text → ℕ
hex_from n [] = n
hex_from n (c ∷ s) = hex_from (n * 16 + (if is_digit c then c - b'0' else c - b'a' + 10)) s

-- `parseGroup`: one to four hexadecimal digits; `none` is NaN.
parse_group : Text → Option ℕ
unfolding hex_from
parse_group g =
    if leb 1 (length g) && leb (length g) 4 && all is_hex g then some (hex_from 0 g) else none

abbrev hex_digit : ℕ → ℕ
hex_digit n = if ltb n 10 then b'0' + n else b'a' + (n - 10)

-- `n.toString(16)` for n < 2^16.
show_hex : ℕ → Text
show_hex n =
    if ltb n 0x10
    then hex_digit n ∷ []
    else if ltb n 0x100
    then hex_digit (n / 0x10) ∷ hex_digit (n % 0x10) ∷ []
    else if ltb n 0x1000
    then hex_digit (n / 0x100) ∷ hex_digit (n / 0x10 % 0x10) ∷ hex_digit (n % 0x10) ∷ []
    else hex_digit (n / 0x1000)
      ∷ hex_digit (n / 0x100 % 0x10)
      ∷ hex_digit (n / 0x10 % 0x10)
      ∷ hex_digit (n % 0x10)
      ∷ []

-- `s.split('::')`, left to right.
split_double_colon : Text → List Text
split_double_colon [] = [] ∷ []
split_double_colon (c ∷ []) = (c ∷ []) ∷ []
split_double_colon (c ∷ d ∷ s) =
    let closed = [] ∷ split_double_colon s in
    let longer = extend c (split_double_colon (d ∷ s)) in
    if c == b':' && d == b':' then closed else longer

-- What stands up to the last colon, and what stands behind it.
abbrev or_here : ℕ → Text → Option (Text × Text) → Option (Text × Text)
or_here c s (some (before, after)) = some (c ∷ before, after)
or_here c s none = if c == b':' then some (c ∷ [], s) else none

at_last_colon : Text → Option (Text × Text)
at_last_colon [] = none
at_last_colon (c ∷ s) = or_here c s (at_last_colon s)

-- `\d{1,3}`.
abbrev is_short_number : Text → Bool
is_short_number g = leb 1 (length g) && leb (length g) 3 && all is_digit g

-- The dotted suffix as two groups; `none` where a number is above 255.
dotted_groups : Text → List Text → Option Text
dotted_groups before (a ∷ b ∷ c ∷ d ∷ []) =
    let value = decimal_from 0 in
    if ltb 255 (value a) || ltb 255 (value b) || ltb 255 (value c) || ltb 255 (value d)
    then none
    else some (
        before
        ++ show_hex (value a * 2 ^ 8 + value b)
        ++ b':' ∷ show_hex (value c * 2 ^ 8 + value d))
dotted_groups before _ = none

abbrev is_dotted : List Text → Bool
is_dotted groups = length groups == 4 && all is_short_number groups

-- The address with a trailing dotted IPv4 turned into two groups; `none` is `return null`.
undotted : Text → Option (Text × Text) → Option Text
unfolding dotted_groups
undotted input none = some input
undotted input (some (before, after)) =
    if is_dotted (split b'.' after) then dotted_groups before (split b'.' after) else some input

-- The groups of a part beside `::`; an empty part has none.
groups_of : Text → List Text
groups_of [] = []
groups_of (c ∷ s) = split b':' (c ∷ s)

zeros : ℕ → List Text
zeros zero = []
zeros (suc n) = (b'0' ∷ []) ∷ zeros n

-- `none` is `return null`; `missing < 1` is tested without the subtraction.
all_groups : Text → List Text → Option (List Text)
all_groups s (whole ∷ []) = if length (split b':' s) == 8 then some (split b':' s) else none
all_groups s (a ∷ b ∷ []) =
    let given = length (groups_of a) + length (groups_of b) in
    if leb 8 given then none else some (groups_of a ++ zeros (8 - given) ++ groups_of b)
all_groups s _ = none

to_hextets : List (Option ℕ) → Option Hextets
to_hextets (some a ∷ some b ∷ some c ∷ some d ∷ some e ∷ some f ∷ some g ∷ some h ∷ []) =
    some (record { h0 = a; h1 = b; h2 = c; h3 = d; h4 = e; h5 = f; h6 = g; h7 = h })
to_hextets _ = none

abbrev and_then_maybe : {A B : Type 0} → Option A → (A → Option B) → Option B
and_then_maybe none f = none
and_then_maybe (some a) f = f a

unfoldable pub expand_ipv6 : Text → Option Hextets
unfolding at_last_colon undotted split_double_colon all_groups groups_of zeros parse_group
    to_hextets show_hex
expand_ipv6 input = and_then_maybe (undotted input (at_last_colon input)) λ s.
    and_then_maybe (all_groups s (split_double_colon s))
      λ groups. to_hextets (map parse_group groups)

drop_open : Text → Text
drop_open [] = []
drop_open (c ∷ s) = if c == b'[' then s else c ∷ s

drop_close : Text → Text
drop_close [] = []
drop_close (c ∷ []) = if c == b']' then [] else c ∷ []
drop_close (c ∷ d ∷ s) = c ∷ drop_close (d ∷ s)

-- `s.replace(/^\[|\]$/g, '')`.
unfoldable pub strip_brackets : Text → Text
unfolding drop_open drop_close
strip_brackets s = drop_close (drop_open s)

-- `s.split('%')[0]`.
before_percent : Text → Text
before_percent [] = []
before_percent (c ∷ s) = let rest = before_percent s in if c == b'%' then [] else c ∷ rest

abbrev is_blocked_hextets : (Text → Option ℕ) → Option Hextets → Bool
is_blocked_hextets other none = true
is_blocked_hextets other (some h) = is_blocked_ipv6 other h

unfoldable pub is_blocked_ip : (Text → ℕ) → (Text → Option ℕ) → Text → Bool
unfolding strip_brackets before_percent
is_blocked_ip is_ip other ip =
    let addr = before_percent (strip_brackets (to_lower (trim ip))) in
    if is_ip addr == 4
    then is_blocked_ipv4 other addr
    else if is_ip addr == 6
    then is_blocked_hextets other (expand_ipv6 addr)
    else true
