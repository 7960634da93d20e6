-- ===== src/Integration/Http.antt =====
-- The guarded HTTP client, apps/api/src/integration/http/safeHttpClient.ts. The world `W` holds
-- what the network and the timer do: name resolution, the transport and the abort signal are
-- parameters, as are the platform's URL parser, the size of a text in UTF-8 and `net.isIP`. The
-- headers are built by `build_outbound_headers` inside the transport.
pub mod Safety
pub mod Headers
use slc_central_admin_cursor.Prelude.{
  ℕ, zero, suc, ◌+◌, ◌-◌, Bool, true, false, not, ◌&&◌, Option, none, some, List, [], ◌∷◌, ◌++◌,
  Text, codes, ltb, leb, ◌==◌, nat_eq, list_eq, if◌then◌else◌, includes, filter, to_lower, Outcome,
  ok, err, Exec, throw, ◌>>=◌, ◌>>◌,
}
use slc_central_admin_cursor.Integration.Errors.{
  Thrown, integration, abort_error, other, new_error, timeout, network, malformed_response,
}
use slc_central_admin_cursor.Integration.Ssrf.Hosts.{
  Url, assert_resolved_ips_allowed, assert_allowed_outbound_url,
}
use slc_central_admin_cursor.Integration.Ssrf.Ipv6.{is_blocked_ip}

pub data Method : Type 0 where
  get head post : Method

abbrev pub HeaderMap : Type 0
HeaderMap = List (Text × Text)

-- `headers[key] = value`: an old value is replaced where it stands, a new key comes last.
unfoldable pub set_header : Text → Text → HeaderMap → HeaderMap
set_header key value [] = (key, value) ∷ []
set_header key value ((k, v) ∷ rest) =
    if k == key then (key, value) ∷ rest else (k, v) ∷ set_header key value rest

unfoldable pub build_outbound_headers : HeaderMap → Text → HeaderMap
unfolding set_header
build_outbound_headers headers hostname =
    set_header (codes "host") hostname (filter (λ h. not (to_lower h.0 == codes "host")) headers)

pub record SafeRequest : Type 0 where
  pub method : Method
  pub url : Text
  pub headers : HeaderMap
  pub body : Option Text
  pub timeout_ms : ℕ
  pub correlation_id : Text

pub record SafeResponse : Type 0 where
  pub status : ℕ
  pub body_text : Text

pub record TransportRequest : Type 0 where
  pub method : Method
  pub url : Text
  pub hostname : Text
  pub pinned_ip : Text
  pub pinned_family : ℕ
  pub headers : HeaderMap
  pub body : Option Text
  pub timeout_ms : ℕ
  pub max_bytes : ℕ

pub record TransportResponse : Type 0 where
  pub status : ℕ
  pub location_header : Option Text
  pub body_text : Text

-- What the client calls and does not implement.
pub record Platform (W : Type 0) : Type 0 where
  pub resolve_host : Text → Exec W Thrown (List Text)
  pub transport : TransportRequest → Exec W Thrown TransportResponse
  pub aborted : W → Bool
  pub parse_url : Text → Option Url
  pub resolve_url : Text → Text → Option Text
  pub byte_length : Text → ℕ
  pub is_ip : Text → ℕ
  pub other_number : Text → Option ℕ

pub record SafeHttpClient : Type 0 where
  pub allowlist : List Text
  pub max_redirects : ℕ
  pub max_bytes : ℕ

-- The constructor with no options but the allow-list.
unfoldable pub new_client : List Text → SafeHttpClient
new_client allowlist = record { allowlist = allowlist; max_redirects = 3; max_bytes = 1_048_576 }

-- `throw new IntegrationError('NETWORK', …)`.
abbrev pub network_error : Thrown
network_error = integration (new_error network)

unfoldable pub is_redirect : ℕ → Bool
is_redirect status = leb 300 status && ltb status 400

module _ {W : Type 0} (p : Platform W) (c : SafeHttpClient) where
  abbrev pub is_blocked : Text → Bool
  is_blocked = is_blocked_ip p.is_ip p.other_number

  -- The `catch` around `resolveHost`.
  resolved : Outcome W Thrown (List Text) → Outcome W Thrown (List Text)
  resolved (ok ips w) = ok ips w
  resolved (err e w) = err network_error w

  -- `ips[0]`; the list is not empty once it has passed the check.
  first_ip : List Text → Exec W Thrown Text
  first_ip [] w = err other w
  first_ip (ip ∷ ips) w = ok ip w

  unfoldable pub pin_destination : Url → Exec W Thrown Text
  unfolding resolved first_ip
  pin_destination url w =
      (do
        ips ← (λ v. resolved (p.resolve_host url.hostname v))
        assert_resolved_ips_allowed is_blocked ips
        first_ip ips)
        w

  -- The `catch` around the transport.
  sent_error : Thrown → W → Thrown
  sent_error (integration e) w = integration e
  sent_error _ w = if p.aborted w then integration (new_error timeout) else network_error

  unfoldable pub sent : Outcome W Thrown TransportResponse → Outcome W Thrown TransportResponse
  unfolding sent_error
  sent (ok res w) = ok res w
  sent (err e w) = err (sent_error e w) w

  -- The request of one hop, to the pinned address.
  unfoldable pub hop_request : SafeRequest → Text → Url → Text → TransportRequest
  hop_request req current_url url ip = record {
    method = req.method;
    url = current_url;
    hostname = url.hostname;
    pinned_ip = ip;
    pinned_family = if includes ip b':' then 6 else 4;
    headers = set_header (codes "x-correlation-id") req.correlation_id req.headers;
    body = req.body;
    timeout_ms = req.timeout_ms;
    max_bytes = c.max_bytes;
  }

  -- The checks, the resolution and the transport of one hop.
  unfoldable pub one_hop : SafeRequest → Text → Exec W Thrown TransportResponse
  one_hop req current_url = do
    url ← assert_allowed_outbound_url p.parse_url current_url c.allowlist
    ip ← pin_destination url
    (λ w. sent (p.transport (hop_request req current_url url ip) w))

  unfoldable pub finish : TransportResponse → Exec W Thrown SafeResponse
  finish res =
      if ltb c.max_bytes (p.byte_length res.body_text)
      then throw (integration (new_error malformed_response))
      else (λ w. ok (record { status = res.status; body_text = res.body_text }) w)

  -- Where a redirect leads, from the hop with the given number.
  unfoldable pub redirect_target : ℕ → Text → Option Text → Exec W Thrown Text
  redirect_target hop current_url none = throw network_error
  redirect_target hop current_url (some []) = throw network_error
  redirect_target hop current_url (some (c1 ∷ cs)) =
      if hop == c.max_redirects then throw network_error else (λ w.
        elim (p.resolve_url (c1 ∷ cs) current_url) [ none ↦ err other w | some next ↦ ok next w ])

  -- What follows the transport in a round: a redirect goes to the next round.
  unfoldable pub after_hop :
      (Text → Exec W Thrown SafeResponse)
      → ℕ
      → Text
      → TransportResponse
      → Exec W Thrown SafeResponse
  after_hop next_round hop current_url res =
      if is_redirect res.status
      then redirect_target hop current_url res.location_header >>= next_round
      else finish res

  -- The `for` loop with `left` rounds to go, of which it makes `maxRedirects + 1`.
  unfoldable pub request_loop : ℕ → ℕ → SafeRequest → Text → Exec W Thrown SafeResponse
  request_loop zero hop req current_url = throw network_error
  request_loop (suc left) hop req current_url = do
    res ← one_hop req current_url
    after_hop (λ next. request_loop left (hop + 1) req next) hop current_url res

  unfoldable pub request : SafeRequest → Exec W Thrown SafeResponse
  request req = request_loop (c.max_redirects + 1) 0 req req.url
