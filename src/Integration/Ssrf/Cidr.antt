-- ===== src/Integration/Ssrf/Cidr.antt =====
-- The blocked ranges of `isBlockedIpv4` in apps/api/src/integration/ssrf.ts as its comments name
-- them: a first address and the number of its bits that count.
use slc_central_admin_cursor.Prelude.{
  ℕ, ◌+◌, ◌-◌, ◌*◌, ◌/◌, ◌^◌, ◌<◌, ◌≡◌, refl, Bool, true, false, ◌&&◌, if◌then◌else◌, ◌||◌, List,
  [], ◌∷◌, leb, ◌==◌, nat_eq, any, arith,
}
use slc_central_admin_cursor.Integration.Ssrf.Ipv4.{is_blocked_range}

-- The 32 bits of a dotted address.
abbrev pub address : ℕ → ℕ → ℕ → ℕ → ℕ
address a b c d = a * 2 ^ 24 + b * 2 ^ 16 + c * 2 ^ 8 + d

-- The addresses whose first `bits` bits are those of `base`.
abbrev pub in_cidr : ℕ → ℕ × ℕ → Bool
in_cidr n (base, bits) = n / 2 ^ (32 - bits) == base / 2 ^ (32 - bits)

-- 0.0.0.0/8, 10.0.0.0/8, 127.0.0.0/8, 169.254.0.0/16, 172.16.0.0/12, 192.168.0.0/16 and
-- 100.64.0.0/10.
abbrev pub blocked_ranges : List (ℕ × ℕ)
blocked_ranges =
    (address 0 0 0 0, 8)
    ∷ (address 10 0 0 0, 8)
    ∷ (address 127 0 0 0, 8)
    ∷ (address 169 254 0 0, 16)
    ∷ (address 172 16 0 0, 12)
    ∷ (address 192 168 0 0, 16)
    ∷ (address 100 64 0 0, 10)
    ∷ []

unfoldable pub is_listed : ℕ → Bool
is_listed n = any (in_cidr n) blocked_ranges

module _ (a b : ℕ) (hb : b < 256) where
  sixteen : (x y : ℕ) → y < 256 → (a * 256 + b == x * 256 + y) ≡ (a == x && b == y)
  sixteen x y hy = ground arith

  twelve : (a * 16 + b / 16 == 2753) ≡ (a == 172 && leb 16 b && leb b 31)
  twelve = ground arith

  ten : (a * 4 + b / 64 == 401) ≡ (a == 100 && leb 64 b && leb b 127)
  ten = ground arith

chain :
    (p q r s t u v : Bool)
    → (if p
        then true
        else if q
        then true
        else if r
        then true
        else if s
        then true
        else if t
        then true
        else if u
        then true
        else if v
        then true
        else false)
      ≡ (p || (q || (r || (s || (t || (u || (v || false)))))))
chain true q r s t u v = refl
chain false true r s t u v = refl
chain false false true s t u v = refl
chain false false false s t u v = ground arith

-- The tests on the first two numbers say whether the address lies in a listed range.
pub is_blocked_range-listed :
    (a b c d : ℕ) → b < 256 → c < 256 → d < 256 → is_blocked_range a b ≡ is_listed (address a b c d)
unfolding is_blocked_range is_listed
is_blocked_range-listed a b c d hb hc hd =
    let e8 : address a b c d / 2 ^ 24 ≡ a = omega arith in
    let e16 : address a b c d / 2 ^ 16 ≡ a * 256 + b = omega arith in
    let e12 : address a b c d / 2 ^ 20 ≡ a * 16 + b / 16 = omega arith in
    let e10 : address a b c d / 2 ^ 22 ≡ a * 4 + b / 64 = omega arith in
    rw (e8, e16, e12, e10)
      (rw
        (
          sixteen a b hb 169 254 (omega arith),
          sixteen a b hb 192 168 (omega arith),
          twelve a b hb,
          ten a b hb,
        )
        (chain (a == 0) (a == 10) (a == 127) (a == 169 && b == 254)
          (a == 172 && leb 16 b && leb b 31) (a == 192 && b == 168)
          (a == 100 && leb 64 b && leb b 127)))
