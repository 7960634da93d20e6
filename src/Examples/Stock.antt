-- ===== src/Examples/Stock.antt =====
-- Stock Management refuses every token: the login and the resource are each asked for twice.
use slc_central_admin_cursor.Prelude.{
  ℕ, ◌+◌, ◌≤◌, ◌≡◌, refl, false, none, some, [], ◌∷◌, codes, ok, err, state_of, string_eq,
}
use slc_central_admin_cursor.Integration.Errors.{unauthorized, integration}
use slc_central_admin_cursor.Integration.Types.{staging, AdapterContext}
use slc_central_admin_cursor.Integration.Stock.{
  StockPlatform, parsed, other_shape, error_for_status, base_url_of, auth_provider, on_unauthorized,
  login_request, login, get_access_token, get_rounds, stock_get,
}
use slc_central_admin_cursor.Integration.Stock.Bounded.{IsCounted, stock_get_le}

-- A login is answered by a token, a resource by 401; the world counts the requests.
abbrev refusing : StockPlatform ℕ
refusing = record {
  request = λ req w.
      ok (record { status = elim req.body [ none ↦ 401 | some b ↦ 200 ]; body_text = [] }) (w + 1);
  now = λ w. 0;
  login_body = λ email password. codes "{}";
  access_token = λ body. parsed (codes "jwt");
  health = λ body. other_shape;
  users = λ body. other_shape;
  monitoring = λ body. other_shape;
  organisations = λ body. other_shape;
}

abbrev context : AdapterContext
context = record {
  correlation_id = "id";
  environment = staging;
  base_url = some (codes "https://stock.example/");
  timeout_ms = 5000;
  credentials =
      ("email", record { value = "ann@x"; scopes = [] })
      ∷ ("password", record { value = "pw"; scopes = [] })
      ∷ [];
}

four_requests :
    stock_get refusing context (codes "/api/users") 0
    ≡ err (integration (record { code = unauthorized; retryable = false })) 4
unfolding stock_get base_url_of auth_provider get_rounds get_access_token login login_request
    on_unauthorized error_for_status
four_requests = refl

refusing-IsCounted : IsCounted refusing (λ w. w)
refusing-IsCounted = record { counts = λ req w. refl }

stock_get_le_example : state_of (stock_get refusing context (codes "/api/users") 0) ≤ 0 + 4
stock_get_le_example =
    stock_get_le refusing (λ w. w) refusing-IsCounted context (codes "/api/users") 0
