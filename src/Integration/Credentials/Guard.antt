-- ===== src/Integration/Credentials/Guard.antt =====
-- Which references a resolver reads.
use slc_central_admin_cursor.Prelude.{
  ◌≡◌, refl, Bool, true, false, not, ◌&&◌, Option, none, some, String, ◌==◌, nat_eq, if◌then◌else◌,
  ok,
}
use slc_central_admin_cursor.AppErrors.{truthy}
use slc_central_admin_cursor.Integration.Errors.{IntegrationErrorCode}
use slc_central_admin_cursor.Integration.Types.{
  IntegrationEnvironment, environment_eq, is_env, is_active, ResolvedCredential,
}
use slc_central_admin_cursor.Integration.Credentials.{
  CredentialReference, Resolved, refuse, guarded, of_value, resolve,
}

abbrev is_given : Option String → Bool
is_given none = false
is_given (some value) = true

-- A reference whose secret may be read, and is there: active, of the environment of the server, and
-- naming a variable of the process that is set and not empty.
abbrev pub is_usable :
    (String → Option String) → IntegrationEnvironment → CredentialReference → Bool
is_usable process_env runtime_env ref =
    is_active ref.status
    && (ref.environment == runtime_env
        && (is_env ref.provider && is_given (truthy (process_env ref.ref_key))))

unless_refused :
    (b : Bool) (code : IntegrationErrorCode) (next : Resolved) {c : ResolvedCredential}
    {u : Unit {0}}
    → (if not b then refuse code else next) ≡ ok c u
    → (b ≡ true) × (next ≡ ok c u)
unless_refused true code next h = (refl, h)
unless_refused false code next h = absurd (cc)

and_all :
    (a b c d : Bool) → a ≡ true → b ≡ true → c ≡ true → d ≡ true → (a && (b && (c && d))) ≡ true
and_all a b c d h k l m = rw (h, k, l, m) refl

value-is_given :
    (ref : CredentialReference) (o : Option String) {c : ResolvedCredential} {u : Unit {0}}
    → of_value ref o ≡ ok c u
    → is_given o ≡ true
unfolding of_value
value-is_given ref none h = absurd (cc)
value-is_given ref (some value) h = refl

-- A secret is read only for a reference that is active, belongs to the environment of the server
-- and names a variable of the process that is set and not empty.
pub resolve-is_usable :
    (process_env : String → Option String) (ref : CredentialReference) (e : IntegrationEnvironment)
    → {c : ResolvedCredential} {u : Unit {0}} → resolve process_env ref e ≡ ok c u
    → is_usable process_env e ref ≡ true
unfolding resolve guarded
resolve-is_usable process_env ref e h =
    let (a, next) = unless_refused (is_active ref.status) _ _ h in
    let (b, last) = unless_refused (ref.environment == e) _ _ next in
    let (c, value) = unless_refused (is_env ref.provider) _ _ last in
    and_all (is_active ref.status) (ref.environment == e) (is_env ref.provider)
      (is_given (truthy (process_env ref.ref_key))) a b c
      (value-is_given ref (truthy (process_env ref.ref_key)) value)
