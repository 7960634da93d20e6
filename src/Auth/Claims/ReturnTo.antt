-- ===== src/Auth/Claims/ReturnTo.antt =====
-- Where a sign-in may send the browser to.
use slc_central_admin_cursor.Prelude.{
  ℕ, ◌≤◌, ◌≡◌, refl, sym, ◌∙◌, ◌⊎◌, inl, inr, Bool, true, false, not, ◌||◌, some, [], ◌∷◌, Text,
  codes, ltb, length, ◌==◌, ==_iff, nat_eq, any, starts_with, Bool-cases, arith,
}
use slc_central_admin_cursor.Auth.Claims.{is_break, sanitize_return_to}

-- The root, or a path whose second unit makes no browser read a host: neither a slash nor a
-- backslash.
pub data LocalPath : Text → Type 0 where
  root : LocalPath (b'/' ∷ [])
  under :
      (c : ℕ) (rest : Text)
      → (c == b'/') ≡ false
      → (c == b'\\') ≡ false
      → LocalPath (b'/' ∷ c ∷ rest)

off_site : Text → Bool
off_site value =
    not (starts_with (codes "/") value)
    || starts_with (codes "//") value
    || starts_with (codes "/\\") value

is_slash : (c : ℕ) → (b'/' == c) ≡ true → c ≡ b'/'
is_slash c h = sym ((==_iff b'/' c).0 h)

other_unit : (d c : ℕ) → (d == c) ≡ false → (c == d) ≡ false
other_unit d c h = ground arith

local : (value : Text) → off_site value ≡ false → LocalPath value
unfolding off_site starts_with
local [] h = cc
local (c ∷ []) h = elim (Bool-cases (b'/' == c)) [
  | inl e ↦ rw (is_slash c e) root
  | inr e ↦ let no = rw e at h in cc
]
local (c ∷ d ∷ rest) h = elim (Bool-cases (b'/' == c)) [
  | inl e ↦ elim (Bool-cases (b'/' == d)) [
    | inl f ↦ let no = rw (e, f) at h in cc
    | inr f ↦ elim (Bool-cases (b'\\' == d)) [
      | inl g ↦ let no = rw (e, f, g) at h in cc
      | inr g ↦ rw (is_slash c e) (under d rest (other_unit b'/' d f) (other_unit b'\\' d g))
    ]
  ]
  | inr e ↦ let no = rw e at h in cc
]

-- A path that the sign-in may go to.
pub record IsSafePath (path : Text) : Type 0 where
  pub stays : LocalPath path
  pub short : length path ≤ 512
  pub one_line : any is_break path ≡ false
  pub no_api : starts_with (codes "/api/") path ≡ false

safe_root : IsSafePath (codes "/")
unfolding starts_with
safe_root = record { stays = root; short = omega arith; one_line = refl; no_api = refl }

or_none : (a b : Bool) → (a || b) ≡ false → (a ≡ false) × (b ≡ false)
or_none true b h = cc
or_none false b h = (refl, h)

on_site : (value : Text) → LocalPath value → off_site value ≡ false
unfolding off_site starts_with
on_site value root = refl
on_site value (under c rest e f) = rw (other_unit c b'/' e, other_unit c b'\\' f) refl

some_length : (value : Text) → LocalPath value → (length value == 0) ≡ false
some_length value root = refl
some_length value (under c rest e f) = ground arith

too_long :
    (value : Text) → (length value == 0 || ltb 512 (length value)) ≡ true → IsSafePath value → ⊥
too_long value e h =
    let some_text = some_length value h.stays in let short = h.short in ground arith

-- Where a sign-in goes to afterwards is always a path on the same site, of one line and at most 512
-- units, that is not of the API. A text that is such a path is given back as it is, and every other
-- text is replaced by the root.
pub sanitize_return_to-IsSafePath :
    (value : Text)
    → IsSafePath (sanitize_return_to (some value))
      × ((IsSafePath value × (sanitize_return_to (some value) ≡ value))
          ⊎ ((¬ IsSafePath value) × (sanitize_return_to (some value) ≡ codes "/")))
unfolding sanitize_return_to off_site
sanitize_return_to-IsSafePath value =
    elim (Bool-cases (length value == 0 || ltb 512 (length value))) [
      | inl e ↦ rw e (safe_root, inr (λ h. too_long value e h, refl))
      | inr e ↦ elim (Bool-cases (off_site value)) [
        | inl f ↦
            rw (e, f) (safe_root, inr (λ h. let no = sym f ∙ on_site value h.stays in cc, refl))
        | inr f ↦ elim (Bool-cases (any is_break value || starts_with (codes "/api/") value)) [
          | inl g ↦
              rw (e, f, g)
                (safe_root, inr (λ h. let no = rw (h.one_line, h.no_api) at g in cc, refl))
          | inr g ↦
              let (one_line, no_api) = or_none _ _ g in
              let safe : IsSafePath value = record {
                stays = local value f;
                short = ground arith;
                one_line = one_line;
                no_api = no_api;
              } in
              rw (e, f, g) (safe, inl (safe, refl))
        ]
      ]
    ]
