-- ===== src/Integration/Http/Headers.antt =====
-- The Host header of an outbound request.
use slc_central_admin_cursor.Prelude.{
  list_beq-eq, ◌≡◌, refl, ap, ◌∙◌, inl, inr, Bool, true, false, not, [], ◌∷◌, ◌++◌, Text, codes,
  ◌==◌, nat_eq, list_eq, filter, to_lower, arith, Bool-cases,
}
use slc_central_admin_cursor.Integration.Http.{HeaderMap, set_header, build_outbound_headers}

-- A header by whose name, in any case, a caller could set the host.
unfoldable pub is_host : Text × Text → Bool
is_host h = to_lower h.0 == codes "host"

host-is_host : (v : Text) → is_host (codes "host", v) ≡ true
unfolding is_host to_lower
host-is_host v = refl

not_host-ne : (k v : Text) → is_host (k, v) ≡ false → (k == codes "host") ≡ false
not_host-ne k v h = elim (Bool-cases (k == codes "host")) [
  | inr e ↦ e
  | inl e ↦
      cc (host-is_host v, ap (λ (t : Text). is_host (t, v)) (list_beq-eq k (codes "host") e), h)
]

is_host-set_header :
    (value : Text) (headers : HeaderMap)
    → set_header (codes "host") value (filter (λ h. not (is_host h)) headers)
      ≡ filter (λ h. not (is_host h)) headers ++ (codes "host", value) ∷ []
unfolding set_header
is_host-set_header value [] = refl
is_host-set_header value ((k, v) ∷ rest) = elim (Bool-cases (is_host (k, v))) [
  | inl e ↦ rw e (is_host-set_header value rest)
  | inr e ↦ rw (e, not_host-ne k v e) (ap (λ l. (k, v) ∷ l) (is_host-set_header value rest))
]

filter-not-host :
    (headers : HeaderMap) → filter is_host (filter (λ h. not (is_host h)) headers) ≡ []
filter-not-host [] = refl
filter-not-host (h ∷ rest) = elim (Bool-cases (is_host h)) [
  | inl e ↦ rw e (filter-not-host rest)
  | inr e ↦ rw e (rw e (filter-not-host rest))
]

filter-append :
    (p : Text × Text → Bool) (xs ys : HeaderMap) → filter p (xs ++ ys) ≡ filter p xs ++ filter p ys
filter-append p [] ys = refl
filter-append p (x ∷ xs) ys = ground (arith, filter-append p xs ys)

build-append :
    (headers : HeaderMap) (hostname : Text)
    → build_outbound_headers headers hostname
      ≡ filter (λ h. not (is_host h)) headers ++ (codes "host", hostname) ∷ []
unfolding build_outbound_headers is_host
build-append headers hostname = is_host-set_header hostname headers

-- Whatever headers the caller gives, the request has exactly one header named host, in any case,
-- with the intended host name, and it keeps the caller's other headers in their order.
pub build_outbound_headers-host :
    (headers : HeaderMap) (hostname : Text)
    → let result = build_outbound_headers headers hostname in
      (filter is_host result ≡ (codes "host", hostname) ∷ [])
      × (result ≡ filter (λ h. not (is_host h)) headers ++ (codes "host", hostname) ∷ [])
build_outbound_headers-host headers hostname = (
  ap (filter is_host) (build-append headers hostname)
      ∙ filter-append is_host (filter (λ h. not (is_host h)) headers)
          ((codes "host", hostname) ∷ [])
      ∙ rw (filter-not-host headers) (rw (host-is_host hostname) refl),
  build-append headers hostname,
)
