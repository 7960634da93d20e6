-- ===== src/Auth/Env.antt =====
-- What the sign-in code is given: its configuration (apps/api/src/config/env.ts), the functions of
-- packages that it calls (argon2, SHA-256, AES, HMAC-SHA1, random bytes) and those of the platform
-- on whole texts.
use slc_central_admin_cursor.Prelude.{ℕ, Bool, Option, String, List, Text, string_eq}

pub record BreakGlass : Type 0 where
  pub allowed_emails : List String
  pub require_mfa : Bool
  pub session_hours : ℕ
  pub mfa_key : Option String

pub record Config : Type 0 where
  pub ttl_hours : ℕ
  pub oidc : Bool
  pub break_glass : BreakGlass

pub record Env : Type 0 where
  pub config : Config
  pub trim : String → String
  pub to_lower_case : String → String
  -- `length` of a text.
  pub text_length : String → ℕ
  pub verify_password : String → String → Bool
  pub hash_password : String → String
  pub hash_token : String → String
  pub opaque_token : ℕ → String
  -- A sealed value opened with the key's text; `none` where that throws.
  pub open_sealed : String → String → Option Text
  pub hmac_sha1 : List ℕ → List ℕ → List ℕ
