-- ===== src/Integration/Stock.antt =====
-- The adapter of Stock Management, apps/api/src/integration/adapter/stock-management:
-- stockManagementAdapter.ts and auth.ts. The guarded client is a parameter, as are `JSON.parse` with
-- the schemas of schemas.ts and the text of a login body. One call of the adapter is made at a time,
-- so no login is in flight when a token is asked for.
pub mod Operations
pub mod Bounded
use slc_central_admin_cursor.Prelude.{
  ℕ, zero, suc, ◌+◌, ◌*◌, Bool, true, false, not, ◌&&◌, ◌||◌, Option, none, some, String, List, [],
  ◌∷◌, ◌++◌, Text, codes, ltb, leb, length, ◌==◌, nat_eq, string_eq, map, if◌then◌else◌, Outcome,
  ok, err, Exec, throw, ◌>>=◌,
}
use slc_central_admin_cursor.AppErrors.{truthy}
use slc_central_admin_cursor.Integration.Errors.{
  IntegrationErrorCode, unauthorized, forbidden, IntegrationErrorCode.not_found, rate_limited,
  upstream_5xx, malformed_response, config_invalid, IntegrationError, Thrown, integration,
  new_error,
}
use slc_central_admin_cursor.Integration.Http.{get, post, SafeRequest, SafeResponse}
use slc_central_admin_cursor.Integration.Types.{
  AdapterCapability, connection_validate, application_statistics, users_list, application_info,
  ResolvedCredential, ResolvedCredentialMap, AdapterContext,
}

-- `errorForStatus`.
unfoldable pub error_for_status : ℕ → IntegrationError
error_for_status status =
    if status == 401
    then record { code = unauthorized; retryable = false }
    else if status == 403
    then record { code = forbidden; retryable = false }
    else if status == 404
    then record { code = IntegrationErrorCode.not_found; retryable = false }
    else if status == 429
    then record { code = rate_limited; retryable = true }
    else new_error upstream_5xx

-- The providers of a token; a login keeps its token in memory until it expires.
pub record PasswordLogin : Type 0 where
  pub email : String
  pub password : String
  pub token : Option Text
  pub expires_at : ℕ

pub data AuthProvider : Type 0 where
  no_auth : AuthProvider
  static_token : Text → AuthProvider
  password_login : PasswordLogin → AuthProvider

pub record StockUser : Type 0 where
  pub id : String
  pub is_active : Bool
  pub org_id : Option String

pub data UserStatus : Type 0 where
  active inactive : UserStatus

pub record UserSummary : Type 0 where
  pub id : String
  pub status : UserStatus
  pub org_id : Option String

-- What a body holds: not JSON, JSON of another shape, or a value.
pub data Parsed (A : Type 0) : Type 0 where
  invalid_json : Parsed A
  other_shape : Parsed A
  parsed : A → Parsed A

pub record StockPlatform (W : Type 0) : Type 0 where
  pub request : SafeRequest → Exec W Thrown SafeResponse
  pub now : W → ℕ
  -- `JSON.stringify` of the email and the password.
  pub login_body : String → String → Text
  -- `data.accessToken`, where it is a text.
  pub access_token : Text → Parsed Text
  pub health : Text → Parsed Text
  pub users : Text → Parsed (List StockUser)
  -- The statistics, and the organisations, as they are passed on.
  pub monitoring : Text → Parsed Text
  pub organisations : Text → Parsed Text

abbrev pub ttl_ms : ℕ
ttl_ms = 13 * 60 * 1000

abbrev pub fail_with : {S A : Type 0} → IntegrationErrorCode → S → Outcome S Thrown A
fail_with code s = err (integration (new_error code)) s

drop_slash : Text → Text
drop_slash [] = []
drop_slash (c ∷ []) = if c == b'/' then [] else c ∷ []
drop_slash (c ∷ d ∷ s) = c ∷ drop_slash (d ∷ s)

-- `baseUrl`, without the slash at its end.
unfoldable pub base_url_of : AdapterContext → Option Text
unfolding drop_slash
base_url_of ctx = elim ctx.base_url [
  | none ↦ none
  | some [] ↦ none
  | some (c ∷ s) ↦ some (drop_slash (c ∷ s))
]

abbrev credential : String → ResolvedCredentialMap → Option String
credential name [] = none
credential name ((n, c) ∷ rest) =
    let found = credential name rest in if n == name then truthy (some c.value) else found

login_with : Option String → Option String → AuthProvider
login_with (some email) (some password) =
    password_login (record { email = email; password = password; token = none; expires_at = 0 })
login_with _ _ = no_auth

token_or_login : Option String → Option String → Option String → AuthProvider
unfolding login_with
token_or_login (some api_token) email password = static_token (codes api_token)
token_or_login none email password = login_with email password

-- `authProvider`.
unfoldable pub auth_provider : AdapterContext → AuthProvider
unfolding token_or_login
auth_provider ctx =
    token_or_login (credential "api_token" ctx.credentials) (credential "email" ctx.credentials)
      (credential "password" ctx.credentials)

-- `onUnauthorized`.
unfoldable pub on_unauthorized : AuthProvider → AuthProvider
on_unauthorized (password_login l) = password_login (record l { token = none; expires_at = 0 })
on_unauthorized provider = provider

abbrev pub accept_json : List (Text × Text)
accept_json = (codes "accept", codes "application/json") ∷ []

abbrev has_token : Option Text → Bool
has_token none = false
has_token (some []) = false
has_token (some (c ∷ token)) = true

abbrev pub refused : ℕ → Bool
refused status = leb 400 status

module _ {W : Type 0} (p : StockPlatform W) where
  keep_token : PasswordLogin → Parsed Text → W → Outcome (AuthProvider × W) Thrown (Option Text)
  keep_token l (parsed (c ∷ token)) w =
      ok (some (c ∷ token))
        (password_login (record l { token = some (c ∷ token); expires_at = p.now w + ttl_ms }), w)
  keep_token l _ w = fail_with malformed_response (password_login l, w)

  logged_in :
      PasswordLogin
      → Outcome W Thrown SafeResponse
      → Outcome (AuthProvider × W) Thrown (Option Text)
  unfolding keep_token
  logged_in l (err e w) = err e (password_login l, w)
  logged_in l (ok res w) =
      if res.status == 401
      then err (integration (record { code = unauthorized; retryable = false }))
          (password_login l, w)
      else if not (res.status == 200)
      then fail_with upstream_5xx (password_login l, w)
      else keep_token l (p.access_token res.body_text) w

  unfoldable pub login_request : Text → Text → PasswordLogin → SafeRequest
  login_request base_url correlation_id l = record {
    method = post;
    url = base_url ++ codes "/api/auth/login";
    headers = (codes "content-type", codes "application/json") ∷ [];
    body = some (p.login_body l.email l.password);
    timeout_ms = 10_000;
    correlation_id = correlation_id;
  }

  unfoldable pub login :
      Text → Text → PasswordLogin → W → Outcome (AuthProvider × W) Thrown (Option Text)
  unfolding logged_in
  login base_url correlation_id l w =
      logged_in l (p.request (login_request base_url correlation_id l) w)

  cached : PasswordLogin → ℕ → Option Text
  cached l now = elim l.token [
    | none ↦ none
    | some token ↦ if ltb now l.expires_at then some token else none
  ]

  fresh :
      Text
      → Text
      → PasswordLogin
      → Option Text
      → W
      → Outcome (AuthProvider × W) Thrown (Option Text)
  fresh base_url correlation_id l (some token) w = ok (some token) (password_login l, w)
  fresh base_url correlation_id l none w = login base_url correlation_id l w

  unfoldable pub get_access_token : Text → Text → Exec (AuthProvider × W) Thrown (Option Text)
  unfolding cached fresh
  get_access_token base_url correlation_id (no_auth, w) = ok none (no_auth, w)
  get_access_token base_url correlation_id (static_token token, w) =
      ok (some token) (static_token token, w)
  get_access_token base_url correlation_id (password_login l, w) =
      fresh base_url correlation_id l (cached l (p.now w)) w

  bearer : Option Text → List (Text × Text)
  bearer none = accept_json
  bearer (some []) = accept_json
  bearer (some (c ∷ token)) =
      accept_json ++ (codes "authorization", codes "Bearer " ++ c ∷ token) ∷ []

  -- A call of the client beside the state of the provider.
  beside :
      AuthProvider → Outcome W Thrown SafeResponse → Outcome (AuthProvider × W) Thrown SafeResponse
  beside provider (ok res v) = ok res (provider, v)
  beside provider (err e v) = err e (provider, v)

  send : SafeRequest → Exec (AuthProvider × W) Thrown SafeResponse
  unfolding beside
  send req (provider, w) = beside provider (p.request req w)

  -- The end of a round that makes no other.
  answer : SafeResponse → Exec (AuthProvider × W) Thrown SafeResponse
  answer res s =
      if refused res.status then err (integration (error_for_status res.status)) s else ok res s

  -- The rounds of `get` that are left: where a first round with a token is answered by 401, the
  -- token is forgotten and another one follows.
  unfoldable pub get_rounds : ℕ → SafeRequest → Text → Exec (AuthProvider × W) Thrown SafeResponse
  unfolding bearer send answer
  get_rounds zero req base_url = throw (integration (error_for_status 401))
  get_rounds (suc left) req base_url =
      let rest = get_rounds left req base_url in
      do
        token ← get_access_token base_url req.correlation_id
        res ← send (record req { headers = bearer token })
        (if res.status == 401 && ltb 0 left && has_token token
            then (λ s. rest (on_unauthorized s.0, s.1))
            else answer res)

  -- The provider is forgotten with the call that made it.
  without_provider : {A : Type 0} → Outcome (AuthProvider × W) Thrown A → Outcome W Thrown A
  without_provider (ok res (provider, v)) = ok res v
  without_provider (err e (provider, v)) = err e v

  get_request : Text → AdapterContext → Text → SafeRequest
  get_request base_url ctx path = record {
    method = get;
    url = base_url ++ path;
    headers = accept_json;
    body = none;
    timeout_ms = ctx.timeout_ms;
    correlation_id = codes ctx.correlation_id;
  }

  get_at : Option Text → AdapterContext → Text → Exec W Thrown SafeResponse
  unfolding without_provider get_request
  get_at none ctx path w = fail_with config_invalid w
  get_at (some base_url) ctx path w =
      without_provider
        (get_rounds 2 (get_request base_url ctx path) base_url (auth_provider ctx, w))

  unfoldable pub stock_get : AdapterContext → Text → Exec W Thrown SafeResponse
  unfolding get_at
  stock_get ctx path = get_at (base_url_of ctx) ctx path
