-- ===== src/Integration/Ssrf/Ranges.antt =====
-- Which addresses are blocked, by arithmetic on the numbers of the address.
use slc_central_admin_cursor.Prelude.{
  ℕ, ◌+◌, ◌*◌, ◌/◌, ◌%◌, ◌^◌, ◌<◌, ◌≡◌, refl, ap, ◌∙◌, Bool, true, false, ◌&&◌, ◌||◌, Option, some,
  [], ◌∷◌, ◌++◌, map, arith, Text, leb, ◌==◌, nat_eq, if◌then◌else◌, all, is_digit, split,
  decimal_from, show_small,
}
use Prim.Native.Nat.{bit_and}
use slc_central_admin_cursor.Integration.Ssrf.Ipv4.{
  number, octet, is_blocked_parts, is_blocked_range, is_blocked_ipv4,
}
use slc_central_admin_cursor.Integration.Ssrf.Cidr.{address, is_listed, is_blocked_range-listed}
use slc_central_admin_cursor.Integration.Ssrf.Ipv6.{
  Hextets, embedded_ipv4, is_blocked_ipv6, low_bits,
}
use slc_central_admin_cursor.Integration.Ssrf.Masks.{
  bit_and_byte, bit_and-link_local, bit_and-unique_local,
}

-- The digits before a dot are the first piece.
split-digits :
    (s rest : Text) → all is_digit s ≡ true → split b'.' (s ++ b'.' ∷ rest) ≡ s ∷ split b'.' rest
unfolding split
split-digits [] rest h = refl
split-digits (c ∷ s) rest h = ground (arith, split-digits s rest)

split-digits_last : (s : Text) → all is_digit s ≡ true → split b'.' s ≡ s ∷ []
unfolding split
split-digits_last [] h = refl
split-digits_last (c ∷ s) h = ground (arith, split-digits_last s)

show_small-digits : (n : ℕ) → n < 256 → all is_digit (show_small n) ≡ true
unfolding show_small
show_small-digits n h = ground arith

number-show_small :
    (other : Text → Option ℕ) (n : ℕ) → n < 256 → number other (show_small n) ≡ some n
unfolding show_small number decimal_from
number-show_small other n h = ground arith

octet-number :
    (other : Text → Option ℕ) (n : ℕ) → n < 256 → octet (number other (show_small n)) ≡ some n
octet-number other n h = rw (number-show_small other n h) (ground arith)

blocked_parts :
    (p q r s : Option ℕ) (a b c d : ℕ)
    → p ≡ some a
    → q ≡ some b
    → r ≡ some c
    → s ≡ some d
    → is_blocked_parts (p ∷ q ∷ r ∷ s ∷ []) ≡ is_blocked_range a b
blocked_parts p q r s a b c d hp hq hr hs = ground arith

-- An address as text, from its four numbers.
abbrev pub dotted : ℕ → ℕ → ℕ → ℕ → Text
dotted a b c d =
    show_small a ++ b'.' ∷ (show_small b ++ b'.' ∷ (show_small c ++ b'.' ∷ show_small d))

split-dotted :
    (a b c d : ℕ)
    → a < 256
    → b < 256
    → c < 256
    → d < 256
    → split b'.' (dotted a b c d) ≡ show_small a ∷ show_small b ∷ show_small c ∷ show_small d ∷ []
split-dotted a b c d ha hb hc hd = rw (split-digits (show_small a) _ (show_small-digits a ha)) (
    rw (split-digits (show_small b) _ (show_small-digits b hb)) (
      rw (split-digits (show_small c) _ (show_small-digits c hc))
        (rw (split-digits_last (show_small d) (show_small-digits d hd)))))

-- An IPv4 address, written with dots, is blocked just if it lies in one of 0.0.0.0/8, 10.0.0.0/8,
-- 127.0.0.0/8, 169.254.0.0/16, 172.16.0.0/12, 192.168.0.0/16 and 100.64.0.0/10, taken as 32 bits,
-- whatever `Number` makes of other texts.
pub is_blocked_ipv4-dotted :
    (other : Text → Option ℕ) (a b c d : ℕ)
    → a < 256
    → b < 256
    → c < 256
    → d < 256
    → is_blocked_ipv4 other (dotted a b c d) ≡ is_listed (address a b c d)
unfolding is_blocked_ipv4
is_blocked_ipv4-dotted other a b c d ha hb hc hd =
    ap (λ l. is_blocked_parts (map (λ p. octet (number other p)) l))
      (split-dotted a b c d ha hb hc hd)
    ∙ blocked_parts _ _ _ _ a b c d (octet-number other a ha) (octet-number other b hb)
        (octet-number other c hc) (octet-number other d hd)
    ∙ is_blocked_range-listed a b c d hb hc hd

embedded_ipv4-dotted :
    (hi lo : ℕ)
    → hi < 65536
    → lo < 65536
    → embedded_ipv4 hi lo ≡ dotted (hi / 256) (hi % 256) (lo / 256) (lo % 256)
unfolding embedded_ipv4
embedded_ipv4-dotted hi lo hhi hlo =
    let ehi : bit_and (hi / 256) 0xff ≡ hi / 256 =
      bit_and_byte (hi / 256) (omega arith) ∙ omega arith in
    let elo : bit_and (lo / 256) 0xff ≡ lo / 256 =
      bit_and_byte (lo / 256) (omega arith) ∙ omega arith in
    rw (ehi, elo, bit_and_byte hi hhi, bit_and_byte lo hlo)

-- An IPv4 address inside an IPv6 address is blocked by the ranges of IPv4.
embedded-blocked :
    (other : Text → Option ℕ) (hi lo : ℕ)
    → hi < 65536
    → lo < 65536
    → is_blocked_ipv4 other (embedded_ipv4 hi lo) ≡ is_listed (hi * 2 ^ 16 + lo)
embedded-blocked other hi lo hhi hlo =
    ap (is_blocked_ipv4 other) (embedded_ipv4-dotted hi lo hhi hlo)
    ∙ is_blocked_ipv4-dotted other _ _ _ _ (omega arith) (omega arith) (omega arith) (omega arith)
    ∙ ap is_listed (omega arith)

-- Every hextet is a number of 16 bits.
pub record IsAddress (h : Hextets) : Type 0 where
  pub bound0 : h.h0 < 65536
  pub bound5 : h.h5 < 65536
  pub bound6 : h.h6 < 65536
  pub bound7 : h.h7 < 65536

abbrev pub in_range : ℕ → ℕ → ℕ → Bool
in_range lo hi n = leb lo n && leb n hi

-- The IPv6 ranges: ::ffff:0:0/96 and ::/96 where the last 32 bits lie in a blocked range of IPv4,
-- and fe80::/10 and fc00::/7.
unfoldable pub ipv6_ranges : Hextets → Bool
ipv6_ranges h =
    let low_part = h.h0 == 0 && h.h1 == 0 && h.h2 == 0 && h.h3 == 0 && h.h4 == 0 in
    let inner = is_listed (h.h6 * 2 ^ 16 + h.h7) in
    if low_part && (h.h5 == 0xffff || h.h5 == 0)
    then inner
    else in_range 0xfe80 0xfebf h.h0 || in_range 0xfc00 0xfdff h.h0

-- The addresses 0.0.0.0 and 0.0.0.1 are blocked.
listed_zero : (n : ℕ) → n < 2 → is_listed n ≡ true
unfolding is_listed
listed_zero n h = let e : n / 2 ^ 24 ≡ 0 = omega arith in rw e refl

below_two :
    (hi lo : ℕ)
    → (hi * 2 ^ 16 % 2 ^ 32 + lo == 0 || hi * 2 ^ 16 % 2 ^ 32 + lo == 1) ≡ true
    → hi < 65536
    → hi * 2 ^ 16 + lo < 2
below_two hi lo e h = ground arith

low_blocked :
    (h : Hextets)
    → IsAddress h
    → (low_bits h == 0 || low_bits h == 1) ≡ true
    → is_listed (h.h6 * 2 ^ 16 + h.h7) ≡ true
low_blocked h a e = listed_zero _ (below_two h.h6 h.h7 e a.bound6)

branches :
    (low mapped compatible one inner x y : Bool)
    → (one ≡ true → inner ≡ true)
    → (if low && mapped
        then inner
        else if low && compatible
        then (if one then true else inner)
        else if x
        then true
        else if y
        then true
        else false)
      ≡ (if low && (mapped || compatible) then inner else x || y)
branches low mapped compatible one inner x y h = ground arith

-- An IPv6 address, as eight groups of 16 bits, is blocked just if it lies in fe80::/10 or fc00::/7,
-- or in ::ffff:0:0/96 or ::/96 with its last 32 bits in a blocked range of IPv4.
pub is_blocked_ipv6-ranges :
    (other : Text → Option ℕ) (h : Hextets) → IsAddress h → is_blocked_ipv6 other h ≡ ipv6_ranges h
unfolding is_blocked_ipv6 ipv6_ranges
is_blocked_ipv6-ranges other h a =
    let low_part = h.h0 == 0 && h.h1 == 0 && h.h2 == 0 && h.h3 == 0 && h.h4 == 0 in
    rw (bit_and-link_local h.h0 a.bound0) (
      rw (bit_and-unique_local h.h0 a.bound0) (
        rw (embedded-blocked other h.h6 h.h7 a.bound6 a.bound7) (
          branches low_part (h.h5 == 0xffff) (h.h5 == 0) (low_bits h == 0 || low_bits h == 1)
            (is_listed (h.h6 * 2 ^ 16 + h.h7)) (in_range 0xfe80 0xfebf h.h0)
            (in_range 0xfc00 0xfdff h.h0) (low_blocked h a))))
