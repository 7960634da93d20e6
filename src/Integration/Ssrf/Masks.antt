-- ===== src/Integration/Ssrf/Masks.antt =====
-- The masks of the address checks, on 16 bits, as arithmetic: every value is evaluated once.
use slc_central_admin_cursor.Prelude.{
  ℕ, zero, suc, ◌*◌, ◌^◌, ◌/◌, ◌%◌, ◌<◌, ◌≡◌, refl, Bool, true, ◌&&◌, arith, leb, ◌==◌, nat_eq,
}
use Prim.Native.Nat.{bit_and}

-- Two functions take the same values on all numbers below a bound.
agree : (f g : ℕ → ℕ) → (bound : ℕ) → Bool
agree f g zero = true
agree f g (suc last) = f last == g last && agree f g last

agree-value : (f g : ℕ → ℕ) (bound : ℕ) → agree f g bound ≡ true → (x : ℕ) → x < bound → f x ≡ g x
unfolding agree
agree-value f g zero same x inside = absurd (omega arith)
agree-value f g (suc last) same x inside = ground (arith, agree-value f g last (ground arith) x)

abbrev word : ℕ
word = 2 ^ 16

bytes_agree : agree (λ x. bit_and x 0xff) (λ x. x % 256) word ≡ true
unfolding agree
bytes_agree = refl

link_local_agree : agree (λ x. bit_and x 0xffc0) (λ x. x / 64 * 64) word ≡ true
unfolding agree
link_local_agree = refl

unique_local_agree : agree (λ x. bit_and x 0xfe00) (λ x. x / 512 * 512) word ≡ true
unfolding agree
unique_local_agree = refl

pub bit_and_byte : (x : ℕ) → x < 65536 → bit_and x 0xff ≡ x % 256
bit_and_byte x h = agree-value (λ y. bit_and y 0xff) (λ y. y % 256) word bytes_agree x h

-- `(x & 0xffc0) === 0xfe80` is the range fe80::/10.
pub bit_and-link_local :
    (x : ℕ) → x < 65536 → (bit_and x 0xffc0 == 0xfe80) ≡ (leb 0xfe80 x && leb x 0xfebf)
bit_and-link_local x h =
    let e : bit_and x 0xffc0 ≡ x / 64 * 64 =
      agree-value (λ y. bit_and y 0xffc0) (λ y. y / 64 * 64) word link_local_agree x h in
    rw e (ground arith)

-- `(x & 0xfe00) === 0xfc00` is the range fc00::/7.
pub bit_and-unique_local :
    (x : ℕ) → x < 65536 → (bit_and x 0xfe00 == 0xfc00) ≡ (leb 0xfc00 x && leb x 0xfdff)
bit_and-unique_local x h =
    let e : bit_and x 0xfe00 ≡ x / 512 * 512 =
      agree-value (λ y. bit_and y 0xfe00) (λ y. y / 512 * 512) word unique_local_agree x h in
    rw e (ground arith)
