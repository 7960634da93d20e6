-- ===== src/Integration/Adapters.antt =====
-- The registry of adapters and the adapters without a network, apps/api/src/integration/adapter:
-- registry.ts, mockAdapter.ts, noopAdapter.ts. A registry is a map from types, in the order of
-- registration, where a second registration of a type replaces the first one in its place.
use slc_central_admin_cursor.Prelude.{
  ℕ, ◌+◌, Bool, true, false, Option, none, some, String, List, [], ◌∷◌, map, ◌==◌, nat_eq,
  string_eq, ltb, find, if◌then◌else◌, ok, err, Exec,
}
use slc_central_admin_cursor.AppErrors.{truthy}
use slc_central_admin_cursor.Integration.Errors.{
  Thrown, integration, abort_error, new_error, unauthorized, upstream_5xx, not_supported,
}
use slc_central_admin_cursor.Integration.Types.{
  AdapterCapability, connection_validate, application_info, Adapter,
}

abbrev pub is_some : {A : Type 0} → Option A → Bool
is_some none = false
is_some (some a) = true

module _ {W : Type 0} where
  abbrev pub has_type : String → Adapter W → Bool
  has_type type a = a.adapter_type == type

  unfoldable pub register : Adapter W → List (Adapter W) → List (Adapter W)
  register a [] = a ∷ []
  register a (b ∷ bs) = if has_type a.adapter_type b then a ∷ bs else b ∷ register a bs

  get_typed : Option String → List (Adapter W) → Option (Adapter W)
  get_typed none adapters = none
  get_typed (some type) adapters = find (has_type type) adapters

  unfoldable pub get : Option String → List (Adapter W) → Option (Adapter W)
  unfolding get_typed
  get type adapters = get_typed (truthy type) adapters

  unfoldable pub has : Option String → List (Adapter W) → Bool
  unfolding get
  has type adapters = is_some (get type adapters)

  unfoldable pub list : List (Adapter W) → List String
  list adapters = map (λ a. a.adapter_type) adapters

pub data MockBehavior : Type 0 where
  succeed fail timeout flaky : MockBehavior

pub record MockAdapterOptions : Type 0 where
  pub behavior : Option MockBehavior
  pub capabilities : Option (List AdapterCapability)
  pub failures_before_success : Option ℕ

abbrev pub or_else {ℓ} : {A : Type ℓ} → Option A → A → A
or_else none a = a
or_else (some b) a = b

-- The attempts of the mock are part of the world; so is waiting until the call is aborted.
module _ {W : Type 0} (attempts : W → ℕ) (set_attempts : ℕ → W → W) (until_aborted : W → W) where
  validate_mock : MockBehavior → ℕ → Exec W Thrown (Unit {0})
  validate_mock succeed failures w = ok tt w
  validate_mock timeout failures w = err abort_error (until_aborted w)
  validate_mock fail failures w =
      err (integration (record { code = unauthorized; retryable = false })) w
  validate_mock flaky failures w =
      if ltb (attempts w) failures
      then err (integration (record { code = upstream_5xx; retryable = true }))
          (set_attempts (attempts w + 1) w)
      else ok tt w

  unfoldable pub mock_adapter : MockAdapterOptions → Adapter W
  unfolding validate_mock
  mock_adapter options = record {
    adapter_type = "mock";
    capabilities = or_else options.capabilities (connection_validate ∷ application_info ∷ []);
    validate_connection = λ ctx.
        validate_mock (or_else options.behavior succeed)
          (or_else options.failures_before_success 1);
  }

unfoldable pub noop_adapter : {W : Type 0} → Adapter W
noop_adapter = record {
  adapter_type = "noop";
  capabilities = [];
  validate_connection = λ ctx w. err (integration (new_error not_supported)) w;
}
