-- ===== src/Integration/Stock/Bounded.antt =====
-- How many requests a read of Stock Management makes.
use slc_central_admin_cursor.Prelude.{
  ℕ, zero, suc, ◌+◌, ◌*◌, ◌≤◌, ◌≡◌, refl, ap, ◌∙◌, inl, inr, ◌&&◌, Option, none, some, [], ◌∷◌,
  Text, ◌==◌, nat_eq, ltb, Outcome, ok, err, state_of, Bool-cases, Outcome-cases, arith,
}
use slc_central_admin_cursor.Integration.Errors.{Thrown}
use slc_central_admin_cursor.Integration.Http.{SafeRequest, SafeResponse}
use slc_central_admin_cursor.Integration.Types.{AdapterContext}
use slc_central_admin_cursor.Integration.Stock.{
  StockPlatform, PasswordLogin, AuthProvider, no_auth, static_token, password_login, Parsed,
  invalid_json, other_shape, parsed, auth_provider, base_url_of, on_unauthorized, has_token,
  keep_token, logged_in, login, cached, fresh, get_access_token, bearer, refused, login_request,
  beside, send, answer, get_rounds, without_provider, get_request, get_at, stock_get,
}

-- Each request of the client is counted, whichever way it ends.
pub record IsCounted {W : Type 0} (p : StockPlatform W) (requests : W → ℕ) : Type 0 where
  pub counts : (req : SafeRequest) (w : W) → requests (state_of (p.request req w)) ≡ requests w + 1

module _ {W : Type 0} (p : StockPlatform W) (requests : W → ℕ)
    (counted : IsCounted p requests) where
  keep_token-state :
      (l : PasswordLogin) (o : Parsed Text) (w : W) → (state_of (keep_token p l o w)).1 ≡ w
  unfolding keep_token
  keep_token-state l invalid_json w = refl
  keep_token-state l other_shape w = refl
  keep_token-state l (parsed []) w = refl
  keep_token-state l (parsed (c ∷ token)) w = refl

  logged_in-state :
      (l : PasswordLogin) (o : Outcome W Thrown SafeResponse)
      → (state_of (logged_in p l o)).1 ≡ state_of o
  unfolding logged_in
  logged_in-state l (err e w) = refl
  logged_in-state l (ok res w) = elim (Bool-cases (res.status == 401)) [
    | inl e ↦ rw e refl
    | inr e ↦ elim (Bool-cases (res.status == 200)) [
      | inl f ↦ rw (e, f) (keep_token-state l (p.access_token res.body_text) w)
      | inr f ↦ rw (e, f) refl
    ]
  ]

  fresh_le :
      (base_url correlation_id : Text) (l : PasswordLogin) (o : Option Text) (w : W)
      → requests (state_of (fresh p base_url correlation_id l o w)).1 ≤ requests w + 1
  unfolding fresh login
  fresh_le base_url correlation_id l (some token) w = omega arith
  fresh_le base_url correlation_id l none w =
      let req = login_request p base_url correlation_id l in
      let same = ap requests (logged_in-state l (p.request req w)) in
      omega (arith, same, counted.counts req w)

  token_le :
      (base_url correlation_id : Text) (provider : AuthProvider) (w : W)
      → requests (state_of (get_access_token p base_url correlation_id (provider, w))).1
        ≤ requests w + 1
  unfolding get_access_token
  token_le base_url correlation_id no_auth w = omega arith
  token_le base_url correlation_id (static_token token) w = omega arith
  token_le base_url correlation_id (password_login l) w =
      fresh_le base_url correlation_id l (cached p l (p.now w)) w

  beside-state :
      (provider : AuthProvider) (o : Outcome W Thrown SafeResponse)
      → (state_of (beside p provider o)).1 ≡ state_of o
  unfolding beside
  beside-state provider (ok res v) = refl
  beside-state provider (err e v) = refl

  send_counts :
      (req : SafeRequest) (provider : AuthProvider) (w : W)
      → requests (state_of (send p req (provider, w))).1 ≡ requests w + 1
  unfolding send
  send_counts req provider w =
      ap requests (beside-state provider (p.request req w)) ∙ counted.counts req w

  answer-state : (res : SafeResponse) (s : AuthProvider × W) → state_of (answer p res s) ≡ s
  unfolding answer
  answer-state res s = elim (Bool-cases (refused res.status)) [
    | inl e ↦ rw e refl
    | inr e ↦ rw e refl
  ]

  rounds_le :
      (left : ℕ) (req : SafeRequest) (base_url : Text) (provider : AuthProvider) (w : W)
      → requests (state_of (get_rounds p left req base_url (provider, w))).1 ≤ requests w + 2 * left
  unfolding get_rounds
  rounds_le zero req base_url provider w = omega arith
  rounds_le (suc left) req base_url provider w =
      let first = token_le base_url req.correlation_id provider w in
      elim (Outcome-cases (get_access_token p base_url req.correlation_id (provider, w))) [
        | inr (x, v, e) ↦ rw e (omega (arith, rw e at first))
        | inl (token, (q, v), e) ↦
            let asked = rw e at first in
            let r2 = record req { headers = bearer p token } in
            let second = send_counts r2 q v in
            elim (Outcome-cases (send p r2 (q, v))) [
              | inr (x, u, f) ↦ rw (e, f) (omega (arith, asked, rw f at second))
              | inl (res, (q3, u), f) ↦
                  let sent_one = rw f at second in
                  elim (Bool-cases (res.status == 401 && ltb 0 left && has_token token)) [
                    | inl g ↦
                        let more = rounds_le left req base_url (on_unauthorized q3) u in
                        rw (e, f, g) (omega (arith, asked, sent_one, more))
                    | inr g ↦
                        let ends =
                          ap (λ (s : AuthProvider × W). requests s.1) (answer-state res (q3, u)) in
                        rw (e, f, g) (omega (arith, asked, sent_one, ends))
                  ]
            ]
      ]

  without_provider-state :
      (o : Outcome (AuthProvider × W) Thrown SafeResponse)
      → state_of (without_provider p o) ≡ (state_of o).1
  unfolding without_provider
  without_provider-state (ok res (provider, v)) = refl
  without_provider-state (err e (provider, v)) = refl

  get_at_le :
      (base_url : Option Text) (ctx : AdapterContext) (path : Text) (w : W)
      → requests (state_of (get_at p base_url ctx path w)) ≤ requests w + 4
  unfolding get_at
  get_at_le none ctx path w = omega arith
  get_at_le (some base_url) ctx path w =
      let rounds =
        get_rounds p 2 (get_request p base_url ctx path) base_url (auth_provider ctx, w) in
      let same = ap requests (without_provider-state rounds) in
      omega
        (arith, same, rounds_le 2 (get_request p base_url ctx path) base_url (auth_provider ctx) w)

  -- Where each call of the client makes one request, a read of Stock Management makes at most four,
  -- whatever is answered: two for the resource, and a login before each of them.
  pub stock_get_le :
      (ctx : AdapterContext) (path : Text) (w : W)
      → requests (state_of (stock_get p ctx path w)) ≤ requests w + 4
  unfolding stock_get
  stock_get_le ctx path w = get_at_le (base_url_of ctx) ctx path w
