-- ===== src/Integration/Http/Safety.antt =====
-- What may leave through the client: every request that it hands to the transport.
use mathlib.Core.Path.{subst}
use mathlib.Core.List.{append_assoc}
use slc_central_admin_cursor.Prelude.{
  ℕ, zero, suc, ◌+◌, ◌≤◌, ◌≡◌, refl, sym, ap, ◌∙◌, ◌⊎◌, inl, inr, false, Option, none, some, List,
  [], ◌∷◌, ◌++◌, Text, any, length, length-append, All, All-append, arith, Outcome, ok, err, Exec,
  state_of, Bool-cases, Outcome-cases,
}
use slc_central_admin_cursor.Integration.Errors.{Thrown, other}
use slc_central_admin_cursor.Integration.Ssrf.Hosts.{Url, blocked, assert_resolved_ips_allowed}
use slc_central_admin_cursor.Integration.Ssrf.Guards.{IsAllowed, assert_url-cases, assert_ips-cases}
use slc_central_admin_cursor.Integration.Http.{
  network_error, Platform, SafeHttpClient, SafeRequest, SafeResponse, TransportRequest,
  TransportResponse, is_blocked, pin_destination, one_hop, hop_request, sent, finish,
  redirect_target, is_redirect, after_hop, request_loop, request,
}

-- A request to an allowed URL, sent to the first of the addresses that its host name resolved to,
-- none of which is blocked.
pub record IsSafe {W : Type 0} (p : Platform W) (c : SafeHttpClient) (q : TransportRequest)
    : Type 0 where
  pub url : Url
  pub parsed : p.parse_url q.url ≡ some url
  pub allowed : IsAllowed c.allowlist url
  pub same_host : q.hostname ≡ url.hostname
  pub before : W
  pub after : W
  pub others : List Text
  pub resolution : p.resolve_host q.hostname before ≡ ok (q.pinned_ip ∷ others) after
  pub unblocked : any (is_blocked p c) (q.pinned_ip ∷ others) ≡ false

-- From the world `w` to the world `v` at most `n` requests were sent, all of them safe.
pub record Sends {W : Type 0} (p : Platform W) (c : SafeHttpClient)
    (log : W → List TransportRequest) (n : ℕ) (w v : W) : Type 0 where
  pub sent : List TransportRequest
  pub logged : log v ≡ sent ++ log w
  pub safe : All (IsSafe p c) sent
  pub few : length sent ≤ n

module _ {W : Type 0} (p : Platform W) (c : SafeHttpClient) (log : W → List TransportRequest)
    (transport_logs : (q : TransportRequest) (w : W) → log (state_of (p.transport q w)) ≡ q ∷ log w)
    (resolve_logs : (host : Text) (w : W) → log (state_of (p.resolve_host host w)) ≡ log w) where
  Sends-none : (n : ℕ) (w v : W) → log v ≡ log w → Sends p c log n w v
  Sends-none n w v e = record { sent = []; logged = e; safe = tt; few = omega arith }

  Sends-trans :
      (m n : ℕ) (u v w : W) → Sends p c log m u v → Sends p c log n v w → Sends p c log (m + n) u w
  Sends-trans m n u v w s t = record {
    sent = t.sent ++ s.sent;
    logged = t.logged ∙ ap (λ l. t.sent ++ l) s.logged ∙ sym (append_assoc t.sent s.sent (log u));
    safe = All-append (IsSafe p c) t.sent s.sent t.safe s.safe;
    few = omega (arith, length-append t.sent s.sent, s.few, t.few);
  }

  abbrev Pinned : Url → W → Type 0
  Pinned url w =
      ((e : Thrown) × (v : W) × (pin_destination p c url w ≡ err e v) × (log v ≡ log w))
      ⊎ ((ip : Text) × (others : List Text) × (v : W) × (pin_destination p c url w ≡ ok ip v)
          × (p.resolve_host url.hostname w ≡ ok (ip ∷ others) v)
          × (any (is_blocked p c) (ip ∷ others) ≡ false)
          × (log v ≡ log w))

  resolved_logs :
      (url : Url) (w v : W) (r : Outcome W Thrown (List Text))
      → p.resolve_host url.hostname w ≡ r
      → state_of r ≡ v
      → log v ≡ log w
  resolved_logs url w v r q s =
      ap log (sym s) ∙ ap (λ x. log (state_of x)) (sym q) ∙ resolve_logs url.hostname w

  pin_resolved :
      (url : Url) (w v : W) (ips : List Text)
      → p.resolve_host url.hostname w ≡ ok ips v
      → assert_resolved_ips_allowed (is_blocked p c) ips v ≡ ok tt v
      → any (is_blocked p c) ips ≡ false
      → Pinned url w
  unfolding pin_destination
  pin_resolved url w v [] q e un = inl (other, v, rw (q, e), resolved_logs url w v (ok [] v) q refl)
  pin_resolved url w v (ip ∷ others) q e un =
      inr (ip, others, v, rw (q, e), q, un, resolved_logs url w v (ok (ip ∷ others) v) q refl)

  -- The pinned address is the first one resolved; otherwise nothing is pinned.
  pin-cases : (url : Url) (w : W) → Pinned url w
  unfolding pin_destination
  pin-cases url w = elim (Outcome-cases (p.resolve_host url.hostname w)) [
    | inr (e, v, q) ↦ inl (network_error, v, rw q, resolved_logs url w v (err e v) q refl)
    | inl (ips, v, q) ↦ elim (assert_ips-cases (is_blocked p c) ips v) [
      | inl e ↦ inl (blocked, v, rw (q, e), resolved_logs url w v (ok ips v) q refl)
      | inr (e, un) ↦ pin_resolved url w v ips q e un
    ]
  ]

  state-sent : (r : Outcome W Thrown TransportResponse) → state_of (sent p c r) ≡ state_of r
  unfolding sent
  state-sent (ok res w) = refl
  state-sent (err e w) = refl

  transport-Sends :
      (req : SafeRequest) (current_url : Text) (url : Url) (ip : Text) (others : List Text)
      (w v : W)
      → p.parse_url current_url ≡ some url
      → IsAllowed c.allowlist url
      → p.resolve_host url.hostname w ≡ ok (ip ∷ others) v
      → any (is_blocked p c) (ip ∷ others) ≡ false
      → log v ≡ log w
      → Sends p c log 1 w
          (state_of (sent p c (p.transport (hop_request p c req current_url url ip) v)))
  unfolding hop_request
  transport-Sends req current_url url ip others w v parsed allowed q un same =
      let r = hop_request p c req current_url url ip in
      record {
        sent = r ∷ [];
        logged = ap log (state-sent (p.transport r v)) ∙ transport_logs r v ∙ ap (λ l. r ∷ l) same;
        safe = (
          record {
            url = url;
            parsed = parsed;
            allowed = allowed;
            same_host = refl;
            before = w;
            after = v;
            others = others;
            resolution = q;
            unblocked = un;
          },
          tt,
        );
        few = omega arith;
      }

  hop-Sends :
      (req : SafeRequest) (current_url : Text) (w : W)
      → Sends p c log 1 w (state_of (one_hop p c req current_url w))
  unfolding one_hop
  hop-Sends req current_url w = elim (assert_url-cases c.allowlist p.parse_url current_url w) [
    | inl e ↦ rw e (Sends-none 1 w w refl)
    | inr (url, e, parsed, allowed) ↦ elim (pin-cases url w) [
      | inl (x, v, q, same) ↦ rw (e, q) (Sends-none 1 w v same)
      | inr (ip, others, v, q, resolution, un, same) ↦
          rw (e, q)
            (transport-Sends req current_url url ip others w v parsed allowed resolution un same)
    ]
  ]

  state-finish : (res : TransportResponse) (w : W) → state_of (finish p c res w) ≡ w
  unfolding finish
  state-finish res w = ground arith

  state-redirect_target :
      (hop : ℕ) (current_url : Text) (location : Option Text) (w : W)
      → state_of (redirect_target p c hop current_url location w) ≡ w
  unfolding redirect_target
  state-redirect_target hop current_url none w = refl
  state-redirect_target hop current_url (some []) w = refl
  state-redirect_target hop current_url (some (x ∷ xs)) w = ground arith

  from_hop :
      (req : SafeRequest) (current_url : Text) (w v : W) (r : Outcome W Thrown TransportResponse)
      → one_hop p c req current_url w ≡ r
      → state_of r ≡ v
      → Sends p c log 1 w v
  from_hop req current_url w v r q s =
      subst (λ x. Sends p c log 1 w x) (ap state_of q ∙ s) (hop-Sends req current_url w)

  more : (n : ℕ) (w v : W) → Sends p c log 1 w v → Sends p c log (suc n) w v
  more n w v s = record {
    sent = s.sent;
    logged = s.logged;
    safe = s.safe;
    few = omega (arith, s.few);
  }

  add_hop :
      (n : ℕ) (w v x : W) → Sends p c log 1 w v → Sends p c log n v x → Sends p c log (suc n) w x
  add_hop n w v x s t =
      let u = Sends-trans 1 n w v x s t in
      record { sent = u.sent; logged = u.logged; safe = u.safe; few = omega (arith, u.few) }

  redirect-cases :
      (hop : ℕ) (current_url : Text) (location : Option Text) (w : W)
      → ((e : Thrown) × (redirect_target p c hop current_url location w ≡ err e w))
        ⊎ ((next : Text) × (redirect_target p c hop current_url location w ≡ ok next w))
  redirect-cases hop current_url location w =
      let same = state-redirect_target hop current_url location w in
      elim (Outcome-cases (redirect_target p c hop current_url location w)) [
        | inl (next, v, q) ↦ inr (next, q ∙ ap (ok next) (ap state_of (sym q) ∙ same))
        | inr (e, v, q) ↦ inl (e, q ∙ ap (err e) (ap state_of (sym q) ∙ same))
      ]

  after_hop-Sends :
      (next_round : Text → Exec W Thrown SafeResponse)
      → (left hop : ℕ) (current_url : Text) (res : TransportResponse) (w v : W)
      → Sends p c log 1 w v
      → ((next : Text) → Sends p c log left v (state_of (next_round next v)))
      → Sends p c log (suc left) w (state_of (after_hop p c next_round hop current_url res v))
  unfolding after_hop
  after_hop-Sends next_round left hop current_url res w v first rest =
      elim (Bool-cases (is_redirect res.status)) [
        | inr final ↦ rw (final, state-finish res v) (more left w v first)
        | inl moved ↦ elim (redirect-cases hop current_url res.location_header v) [
          | inl (e, x) ↦ rw (moved, x) (more left w v first)
          | inr (next, x) ↦ rw (moved, x) (add_hop left w v _ first (rest next))
        ]
      ]

  loop-Sends :
      (left hop : ℕ) (req : SafeRequest) (current_url : Text) (w : W)
      → Sends p c log left w (state_of (request_loop p c left hop req current_url w))
  unfolding request_loop
  loop-Sends zero hop req current_url w = Sends-none 0 w w refl
  loop-Sends (suc left) hop req current_url w =
      elim (Outcome-cases (one_hop p c req current_url w)) [
        | inr (e, v, q) ↦ rw q (more left w v (from_hop req current_url w v (err e v) q refl))
        | inl (res, v, q) ↦ rw q (
            after_hop-Sends (λ next. request_loop p c left (hop + 1) req next) left hop current_url
              res w v (from_hop req current_url w v (ok res v) q refl)
              (λ next. loop-Sends left (hop + 1) req next v))
      ]

  -- Whatever the answers, every request that the client hands to the transport goes to an allowed
  -- URL and to the first address of a resolution of its host none of whose addresses is blocked,
  -- and one call sends `maxRedirects + 1` requests at most.
  pub request-IsSafe :
      (req : SafeRequest) (w : W)
      → (fresh : List TransportRequest) × (log (state_of (request p c req w)) ≡ fresh ++ log w)
        × All (IsSafe p c) fresh
        × (length fresh ≤ c.max_redirects + 1)
  unfolding request
  request-IsSafe req w =
      let s = loop-Sends (c.max_redirects + 1) 0 req req.url w in (s.sent, s.logged, s.safe, s.few)
