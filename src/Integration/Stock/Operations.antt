-- ===== src/Integration/Stock/Operations.antt =====
-- The operations of the adapter of Stock Management.
use slc_central_admin_cursor.Prelude.{
  Option, none, some, List, [], ◌∷◌, ◌++◌, map, Text, codes, if◌then◌else◌, ok, err, Exec, ◌>>=◌,
  ◌>>◌,
}
use slc_central_admin_cursor.Integration.Errors.{
  malformed_response, config_invalid, Thrown, integration,
}
use slc_central_admin_cursor.Integration.Http.{get, SafeResponse}
use slc_central_admin_cursor.Integration.Types.{
  connection_validate, application_statistics, users_list, application_info, AdapterContext,
  Adapter,
}
use slc_central_admin_cursor.Integration.Stock.{
  StockPlatform, StockUser, UserSummary, active, inactive, Parsed, parsed, error_for_status,
  base_url_of, accept_json, fail_with, refused, stock_get,
}

module _ {W : Type 0} (p : StockPlatform W) where
  -- `parseJson` and the schema.
  unfoldable pub read_body : {A : Type 0} → (Text → Parsed A) → SafeResponse → Exec W Thrown A
  read_body parse res w = elim (parse res.body_text) [
    | parsed a ↦ ok a w
    | _ ↦ fail_with malformed_response w
  ]

  health_at : Option Text → AdapterContext → Exec W Thrown (Unit {0})
  unfolding read_body
  health_at none ctx = (λ w. fail_with config_invalid w)
  health_at (some base_url) ctx = do
    res ← p.request (record {
      method = get;
      url = base_url ++ codes "/health";
      headers = accept_json;
      body = none;
      timeout_ms = ctx.timeout_ms;
      correlation_id = codes ctx.correlation_id;
    })
    (if refused res.status
        then (λ w. err (integration (error_for_status res.status)) w)
        else (λ w. ok tt w))
    status ← read_body p.health res
    (λ w. ok tt w)

  unfoldable pub validate_connection : AdapterContext → Exec W Thrown (Unit {0})
  unfolding health_at
  validate_connection ctx = health_at (base_url_of ctx) ctx

  unfoldable pub get_statistics : AdapterContext → Exec W Thrown Text
  get_statistics ctx = stock_get p ctx (codes "/api/monitoring") >>= read_body p.monitoring

  summary_of : StockUser → UserSummary
  summary_of u = record {
    id = u.id;
    status = if u.is_active then active else inactive;
    org_id = u.org_id;
  }

  unfoldable pub get_users : AdapterContext → Exec W Thrown (List UserSummary)
  unfolding summary_of
  get_users ctx = do
    res ← stock_get p ctx (codes "/api/users")
    users ← read_body p.users res
    (λ w. ok (map summary_of users) w)

  unfoldable pub get_application_info : AdapterContext → Exec W Thrown Text
  get_application_info ctx =
      stock_get p ctx (codes "/api/organisations") >>= read_body p.organisations

  unfoldable pub stock_adapter : Adapter W
  stock_adapter = record {
    adapter_type = "stock-management-http";
    capabilities =
        connection_validate ∷ application_statistics ∷ users_list ∷ application_info ∷ [];
    validate_connection = validate_connection;
  }
