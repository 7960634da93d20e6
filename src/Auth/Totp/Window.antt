-- ===== src/Auth/Totp/Window.antt =====
-- Which codes are accepted.
use mathlib.Core.Option.{some-injective}
use slc_central_admin_cursor.Prelude.{
  ◌%◌, ◌^◌, sym, ◌∙◌, Option-cases, ltb, list_beq-eq, list_beq_refl, ℕ, zero, suc, ◌+◌, ◌≤◌, ◌<◌,
  ◌≡◌, ◌≢◌, refl, ap, ◌⊎◌, inl, inr, true, false, Option, none, some, List, [], ◌∷◌, Text, ◌==◌,
  list_eq, nat_eq, arith, All, Bool-cases,
}
use slc_central_admin_cursor.Auth.Totp.{
  six_digits, base32_decode, counter_bytes, last_byte, read_31, Verdict, matched, is_used, is_code,
  tried, time_step, totp_at, try_steps, first_steps, window_steps, verify_totp,
}

-- A step at most one away from the current one, later than the step used last.
abbrev pub IsFresh : Option ℕ → ℕ → ℕ → Type 0
IsFresh not_after current step =
    (current ≤ step + 1) × (step ≤ current + 1) × (is_used not_after step ≡ false)

six_digits-is_code : (n : ℕ) → is_code (six_digits n) ≡ true
unfolding six_digits
six_digits-is_code n = ground arith

-- What is computed for a step has the shape of a code: six digits.
totp_at-is_code :
    (hmac_sha1 : List ℕ → List ℕ → List ℕ) (secret code : Text) (s : ℕ)
    → totp_at hmac_sha1 secret s ≡ some code
    → is_code code ≡ true
unfolding totp_at
totp_at-is_code hmac_sha1 secret code s h = elim (Option-cases (base32_decode secret)) [
  | inl e ↦ let no = rw e at h in cc
  | inr (key, e) ↦ elim (Bool-cases (ltb s (2 ^ 64))) [
    | inl f ↦
        let digest = hmac_sha1 key (counter_bytes s) in
        elim (Option-cases (last_byte digest)) [
          | inl g ↦ let no = rw (e, f, g) at h in cc
          | inr (last, g) ↦ elim (Option-cases (read_31 (last % 16) digest)) [
            | inl k ↦ let no = rw (e, f, g, k) at h in cc
            | inr (binary, k) ↦
                ap is_code (sym (some-injective _ _ (rw (e, f, g, k) at h)))
                ∙ six_digits-is_code (binary % 10 ^ 6)
          ]
        ]
    | inr f ↦ let no = rw (e, f) at h in cc
  ]
]

module _ (hmac_sha1 : List ℕ → List ℕ → List ℕ) (secret code : Text) (not_after : Option ℕ) where
  tried-matched :
      (o : Option Text) (k s : ℕ) (rest : Verdict)
      → tried hmac_sha1 secret code not_after o k rest ≡ matched s
      → (rest ≡ matched s) ⊎ ((k ≡ s) × (o ≡ some code))
  unfolding tried
  tried-matched none k s rest h = cc
  tried-matched (some e) k s rest h = elim (Bool-cases (e == code)) [
    | inl same ↦ inr (ground arith, ap some (list_beq-eq e code same))
    | inr new ↦ inl (ground arith)
  ]

  try-matched :
      (current : ℕ) (steps : List ℕ) (s : ℕ)
      → All (λ k. (current ≤ k + 1) × (k ≤ current + 1)) steps
      → try_steps hmac_sha1 secret code not_after steps ≡ matched s
      → IsFresh not_after current s × (totp_at hmac_sha1 secret s ≡ some code)
  unfolding try_steps
  try-matched current [] s near h = cc
  try-matched current (k ∷ steps) s near h = elim (Bool-cases (is_used not_after k)) [
    | inl u ↦ try-matched current steps s near.1 (ground arith)
    | inr u ↦
        elim (tried-matched (totp_at hmac_sha1 secret k) k s
          (try_steps hmac_sha1 secret code not_after steps) (ground arith)) [
            | inl later ↦ try-matched current steps s near.1 later
            | inr (same, shown) ↦ rw (← same) ((near.0.0, near.0.1, u), shown)
          ]
  ]

  first-matched :
      (o : Option ℕ) (s : ℕ)
      → first_steps hmac_sha1 secret code not_after o ≡ matched s
      → try_steps hmac_sha1 secret code not_after (0 ∷ 1 ∷ []) ≡ matched s
  unfolding first_steps
  first-matched none s h = cc
  first-matched (some l) s h = h

  window-matched :
      (current s : ℕ)
      → window_steps hmac_sha1 secret code not_after current ≡ matched s
      → IsFresh not_after current s × (totp_at hmac_sha1 secret s ≡ some code)
  unfolding window_steps
  window-matched zero s h = try-matched 0 (0 ∷ 1 ∷ []) s (omega arith) (first-matched not_after s h)
  window-matched (suc n) s h = try-matched (suc n) (n ∷ suc n ∷ suc (suc n) ∷ []) s (omega arith) h

  -- A code that is accepted is the code of the step returned, which is the current step or one
  -- beside it and is later than the step used last.
  pub verify_totp-matched :
      (now_ms s : ℕ)
      → verify_totp hmac_sha1 secret code not_after now_ms ≡ matched s
      → IsFresh not_after (time_step now_ms) s × (totp_at hmac_sha1 secret s ≡ some code)
  unfolding verify_totp
  verify_totp-matched now_ms s h = window-matched (time_step now_ms) s (ground arith)

  -- The step occurs in the list.
  abbrev Occurs : ℕ → List ℕ → Type 0
  Occurs s [] = ⊥
  Occurs s (k ∷ ks) = (k ≡ s) ⊎ Occurs s ks

  shown_tried :
      (o : Option Text) (k : ℕ) (rest : Verdict)
      → o ≢ none
      → ((o ≡ some code) ⊎ ((s : ℕ) × (rest ≡ matched s)))
      → (s : ℕ) × (tried hmac_sha1 secret code not_after o k rest ≡ matched s)
  unfolding tried
  shown_tried none k rest h d = absurd (h refl)
  shown_tried (some e) k rest h d = elim (Bool-cases (e == code)) [
    | inl same ↦ (k, rw same)
    | inr new ↦ elim d [
      | inr (s, r) ↦ (s, rw new r)
      | inl shown ↦ let same : e ≡ code = ground arith in cc (list_beq_refl code, same, new)
    ]
  ]

  try-accepts :
      (steps : List ℕ) (s : ℕ)
      → Occurs s steps
      → is_used not_after s ≡ false
      → totp_at hmac_sha1 secret s ≡ some code
      → All (λ k. totp_at hmac_sha1 secret k ≢ none) steps
      → (r : ℕ) × (try_steps hmac_sha1 secret code not_after steps ≡ matched r)
  unfolding try_steps
  try-accepts [] s o u shown valid = absurd o
  try-accepts (k ∷ steps) s (inr o) u shown valid =
      let (r, found) = try-accepts steps s o u shown valid.1 in
      elim (Bool-cases (is_used not_after k)) [
        | inl used ↦ (r, rw used found)
        | inr fresh ↦
            let (q, e) =
              shown_tried (totp_at hmac_sha1 secret k) k
                (try_steps hmac_sha1 secret code not_after steps) valid.0 (inr (r, found)) in
            (q, rw fresh e)
      ]
  try-accepts (k ∷ steps) s (inl same) u shown valid =
      let (q, e) =
        shown_tried (totp_at hmac_sha1 secret k) k (try_steps hmac_sha1 secret code not_after steps)
          valid.0 (inl (rw same shown)) in
      let unused : is_used not_after k ≡ false = rw same u in (q, rw unused e)

  occurs : (n s : ℕ) → suc n ≤ s + 1 → s ≤ suc n + 1 → Occurs s (n ∷ suc n ∷ suc (suc n) ∷ [])
  occurs n s h k = grind arith

  window-accepts :
      (current s : ℕ)
      → 0 < current
      → IsFresh not_after current s
      → totp_at hmac_sha1 secret s ≡ some code
      → ((k : ℕ) → k ≤ current + 1 → totp_at hmac_sha1 secret k ≢ none)
      → (r : ℕ) × (window_steps hmac_sha1 secret code not_after current ≡ matched r)
  unfolding window_steps
  window-accepts zero s later fresh shown valid = absurd (omega arith)
  window-accepts (suc n) s later fresh shown valid =
      try-accepts (n ∷ suc n ∷ suc (suc n) ∷ []) s (occurs n s fresh.0 fresh.1) fresh.2 shown (
        valid n (omega arith),
        (valid (suc n) (omega arith), (valid (suc (suc n)) (omega arith), tt)),
      )

  -- For a secret whose codes can be computed, and once the clock is 30 s past its start, the code of
  -- any step that is at most one away from the current step and later than the step used last is
  -- accepted.
  pub verify_totp-accepts :
      (now_ms s : ℕ)
      → 0 < time_step now_ms
      → IsFresh not_after (time_step now_ms) s
      → totp_at hmac_sha1 secret s ≡ some code
      → ((k : ℕ) → k ≤ time_step now_ms + 1 → totp_at hmac_sha1 secret k ≢ none)
      → (r : ℕ) × (verify_totp hmac_sha1 secret code not_after now_ms ≡ matched r)
  unfolding verify_totp
  verify_totp-accepts now_ms s later fresh shown valid =
      rw (totp_at-is_code hmac_sha1 secret code s shown)
        (window-accepts (time_step now_ms) s later fresh shown valid)
