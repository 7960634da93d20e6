-- ===== src/Examples/Outbound.antt =====
-- The address checks and the HTTP client at work.
use slc_central_admin_cursor.Prelude.{
  ℕ, ◌≤◌, ◌≡◌, refl, true, false, Option, none, some, List, [], ◌∷◌, ◌++◌, Text, codes, split,
  to_lower, starts_with, decimal_from, length, All, arith, ok, state_of, nat_eq,
}
use slc_central_admin_cursor.Integration.Ssrf.Ipv4.{number, is_blocked_range, is_blocked_ipv4}
use slc_central_admin_cursor.Integration.Ssrf.Ipv6.{
  Hextets, expand_ipv6, is_blocked_ipv6, strip_brackets,
}
use slc_central_admin_cursor.Integration.Ssrf.Hosts.{is_blocked_host}
use slc_central_admin_cursor.Integration.Ssrf.Cidr.{address, is_listed}
use slc_central_admin_cursor.Integration.Ssrf.Ranges.{
  dotted, is_blocked_ipv4-dotted, ipv6_ranges, is_blocked_ipv6-ranges,
}
use slc_central_admin_cursor.Integration.Http.{
  Platform, SafeHttpClient, SafeRequest, TransportRequest, TransportResponse, get, request,
}
use slc_central_admin_cursor.Integration.Http.Safety.{IsSafe, request-IsSafe}

abbrev no_number : Text → Option ℕ
no_number s = none

abbrev mapped_private : Hextets
mapped_private = record { h0 = 0; h1 = 0; h2 = 0; h3 = 0; h4 = 0; h5 = 0xffff; h6 = 0x0a00; h7 = 1 }

-- Both spellings of the mapped address 10.0.0.1 read alike.
expand_hex : expand_ipv6 (codes "::ffff:a00:1") ≡ some mapped_private
unfolding expand_ipv6 split decimal_from
expand_hex = refl

expand_dotted : expand_ipv6 (codes "::ffff:10.0.0.1") ≡ some mapped_private
unfolding expand_ipv6 split decimal_from
expand_dotted = refl

expand_full :
    expand_ipv6 (codes "2001:db8:0:1:2:3:4:5")
    ≡ some (record { h0 = 0x2001; h1 = 0xdb8; h2 = 0; h3 = 1; h4 = 2; h5 = 3; h6 = 4; h7 = 5 })
unfolding expand_ipv6 split decimal_from
expand_full = refl

two_double_colons : expand_ipv6 (codes "1::2::3") ≡ none
unfolding expand_ipv6 split decimal_from
two_double_colons = refl

metadata_blocked : is_blocked_ipv4 no_number (codes "169.254.169.254") ≡ true
unfolding is_blocked_ipv4 number is_blocked_range split decimal_from
metadata_blocked = refl

hosts_blocked :
    (is_blocked_host (codes "LOCALHOST") ≡ true)
    × (is_blocked_host (codes "172.20.0.1") ≡ true)
    × (is_blocked_host (codes "172.32.0.1") ≡ false)
    × (is_blocked_host (codes "[::1]") ≡ true)
unfolding is_blocked_host to_lower strip_brackets starts_with
hosts_blocked = (refl, refl, refl, refl)

is_blocked_ipv4-dotted_example :
    is_blocked_ipv4 no_number (dotted 172 20 0 9) ≡ is_listed (address 172 20 0 9)
is_blocked_ipv4-dotted_example =
    is_blocked_ipv4-dotted no_number 172 20 0 9 (omega arith) (omega arith) (omega arith)
      (omega arith)

is_blocked_ipv6-ranges_example :
    is_blocked_ipv6 no_number mapped_private ≡ ipv6_ranges mapped_private
is_blocked_ipv6-ranges_example = is_blocked_ipv6-ranges no_number mapped_private (record {
  bound0 = omega arith;
  bound5 = omega arith;
  bound6 = omega arith;
  bound7 = omega arith;
})

-- A world that remembers the requests sent, newest first, and answers the first with a redirect.
abbrev Sent : Type 0
Sent = List TransportRequest

abbrev answer : Sent → TransportResponse
answer [] = record {
  status = 302;
  location_header = some (codes "https://api.slc/b");
  body_text = [];
}
answer (q ∷ qs) = record { status = 200; location_header = none; body_text = codes "ok" }

abbrev platform : Platform Sent
platform = record {
  resolve_host = λ host w. ok (codes "93.184.216.34" ∷ []) w;
  transport = λ q w. ok (answer w) (q ∷ w);
  aborted = λ w. false;
  parse_url = λ raw. some (record { protocol = codes "https:"; hostname = codes "api.slc" });
  resolve_url = λ location base. some location;
  byte_length = length;
  is_ip = λ s. 4;
  other_number = no_number;
}

abbrev client : SafeHttpClient
client = record { allowlist = codes "API.slc" ∷ []; max_redirects = 3; max_bytes = 1_048_576 }

abbrev health_request : SafeRequest
health_request = record {
  method = get;
  url = codes "https://api.slc/a";
  headers = [];
  body = none;
  timeout_ms = 5000;
  correlation_id = codes "c1";
}

request-IsSafe_example :
    (fresh : List TransportRequest) × (state_of (request platform client health_request [])
      ≡ fresh ++ [])
    × All (IsSafe platform client) fresh
    × (length fresh ≤ 4)
request-IsSafe_example =
    request-IsSafe platform client (λ w. w) (λ q w. refl) (λ host w. refl) health_request []
