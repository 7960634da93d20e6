-- ===== src/Integration/Ssrf/Hosts.antt =====
-- The checks of a destination in apps/api/src/integration/ssrf.ts: blocked host names, the
-- allow-list, and the addresses that a name resolves to. The URL parser of the platform is a
-- parameter.
use slc_central_admin_cursor.Prelude.{
  ℕ, Bool, false, not, ◌&&◌, ◌||◌, Option, none, some, List, [], ◌∷◌, map, Text, codes, leb, ◌==◌,
  nat_eq, list_eq, if◌then◌else◌, any, includes, is_digit, to_lower, starts_with, ok, Exec, throw,
}
use slc_central_admin_cursor.Integration.Errors.{Thrown, integration, new_error, ssrf_blocked}
use slc_central_admin_cursor.Integration.Ssrf.Ipv6.{strip_brackets}

-- `^172\.(1[6-9]|2\d|3[0-1])\.`
is_172_private : Text → Bool
is_172_private (a ∷ b ∷ c ∷ d ∷ e ∷ f ∷ g ∷ rest) =
    starts_with (codes "172.") (a ∷ b ∷ c ∷ d ∷ [])
    && ((e == b'1' && leb b'6' f && leb f b'9')
        || (e == b'2' && is_digit f)
        || (e == b'3' && leb b'0' f && leb f b'1'))
    && g == b'.'
is_172_private _ = false

abbrev is_hex_any_case : ℕ → Bool
is_hex_any_case c = is_digit c || (leb b'a' c && leb c b'f') || (leb b'A' c && leb c b'F')

-- `^fd[0-9a-f]{2}:` with the flag i, on a text in lower case.
is_fd_local : Text → Bool
is_fd_local (a ∷ b ∷ c ∷ d ∷ e ∷ rest) =
    a == b'f' && b == b'd' && is_hex_any_case c && is_hex_any_case d && e == b':'
is_fd_local _ = false

-- Some pattern of BLOCKED_HOST_PATTERNS fits, in the source's order.
unfoldable pub is_blocked_host : Text → Bool
unfolding is_172_private is_fd_local
is_blocked_host hostname =
    let host = to_lower (strip_brackets hostname) in
    host == codes "localhost"
    || starts_with (codes "127.") host
    || starts_with (codes "0.") host
    || starts_with (codes "10.") host
    || starts_with (codes "192.168.") host
    || is_172_private host
    || starts_with (codes "169.254.") host
    || host == codes "::1"
    || starts_with (codes "fe80:") host
    || starts_with (codes "fc00:") host
    || is_fd_local host

-- What the code reads of a parsed URL.
pub record Url : Type 0 where
  pub protocol : Text
  pub hostname : Text

-- `throw new IntegrationError('SSRF_BLOCKED', …)`.
abbrev pub blocked : Thrown
blocked = integration (new_error ssrf_blocked)

module _ {W : Type 0} where
  -- The test that every address passes; an empty list is refused.
  unfoldable pub assert_resolved_ips_allowed : (Text → Bool) → List Text → Exec W Thrown (Unit {0})
  assert_resolved_ips_allowed is_blocked [] = throw blocked
  assert_resolved_ips_allowed is_blocked (ip ∷ ips) =
      if any is_blocked (ip ∷ ips) then throw blocked else (λ w. ok tt w)

  unfoldable pub check_url : List Text → Option Url → Exec W Thrown Url
  check_url allowed_hosts none = throw blocked
  check_url allowed_hosts (some url) =
      if not (url.protocol == codes "https:") && not (url.protocol == codes "http:")
      then throw blocked
      else if is_blocked_host url.hostname
      then throw blocked
      else if not (includes (map to_lower allowed_hosts) (to_lower url.hostname))
      then throw blocked
      else (λ w. ok url w)

  unfoldable pub assert_allowed_outbound_url :
      (Text → Option Url) → Text → List Text → Exec W Thrown Url
  unfolding check_url
  assert_allowed_outbound_url parse_url raw_url allowed_hosts =
      check_url allowed_hosts (parse_url raw_url)
