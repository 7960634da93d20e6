-- ===== src/Integration/Ssrf/Guards.antt =====
-- What the checks of a destination let through.
use slc_central_admin_cursor.Prelude.{
  ◌≡◌, refl, ◌⊎◌, inl, inr, Bool, true, false, not, ◌&&◌, ◌||◌, Option, none, some, List, [], ◌∷◌,
  map, Text, codes, ◌==◌, list_eq, nat_eq, includes, any, to_lower, arith, ok, err, Bool-cases,
}
use slc_central_admin_cursor.Integration.Ssrf.Hosts.{
  Url, is_blocked_host, blocked, assert_resolved_ips_allowed, assert_allowed_outbound_url,
  check_url,
}

-- The scheme is http or https.
abbrev pub is_web : Url → Bool
is_web url = url.protocol == codes "https:" || url.protocol == codes "http:"

-- A destination that passes the checks on its URL.
pub record IsAllowed (allowed_hosts : List Text) (url : Url) : Type 0 where
  pub web : is_web url ≡ true
  pub unblocked : is_blocked_host url.hostname ≡ false
  pub listed : includes (map to_lower allowed_hosts) (to_lower url.hostname) ≡ true

de_morgan : (a b : Bool) → (not a && not b) ≡ false → (a || b) ≡ true
de_morgan a b h = ground arith

not-false : (b : Bool) → not b ≡ false → b ≡ true
not-false b h = ground arith

module _ {W : Type 0} (hosts : List Text) where
  check-cases :
      (o : Option Url) (w : W)
      → (check_url hosts o w ≡ err blocked w)
        ⊎ ((url : Url) × (check_url hosts o w ≡ ok url w) × (o ≡ some url) × IsAllowed hosts url)
  unfolding check_url
  check-cases none w = inl refl
  check-cases (some url) w =
      elim (Bool-cases
        (not (url.protocol == codes "https:") && not (url.protocol == codes "http:"))) [
          | inl e ↦ inl (rw e)
          | inr web ↦ elim (Bool-cases (is_blocked_host url.hostname)) [
            | inl e ↦ inl (rw (web, e))
            | inr unblocked ↦
                elim (Bool-cases (not (includes (map to_lower hosts) (to_lower url.hostname)))) [
                  | inl e ↦ inl (rw (web, unblocked, e))
                  | inr listed ↦ inr (
                    url,
                    rw (web, unblocked, listed),
                    refl,
                    record {
                      web = de_morgan _ _ web;
                      unblocked = unblocked;
                      listed = not-false _ listed;
                    },
                  )
                ]
          ]
        ]

  pub assert_url-cases :
      (parse_url : Text → Option Url) (raw : Text) (w : W)
      → (assert_allowed_outbound_url parse_url raw hosts w ≡ err blocked w)
        ⊎ ((url : Url) × (assert_allowed_outbound_url parse_url raw hosts w ≡ ok url w)
            × (parse_url raw ≡ some url)
            × IsAllowed hosts url)
  unfolding assert_allowed_outbound_url
  assert_url-cases parse_url raw w = check-cases (parse_url raw) w

module _ {W : Type 0} (is_blocked : Text → Bool) where
  pub assert_ips-cases :
      (ips : List Text) (w : W)
      → (assert_resolved_ips_allowed is_blocked ips w ≡ err blocked w)
        ⊎ ((assert_resolved_ips_allowed is_blocked ips w ≡ ok tt w) × (any is_blocked ips ≡ false))
  unfolding assert_resolved_ips_allowed
  assert_ips-cases [] w = inl refl
  assert_ips-cases (ip ∷ ips) w = elim (Bool-cases (any is_blocked (ip ∷ ips))) [
    | inl e ↦ inl (rw e)
    | inr e ↦ inr (rw e, e)
  ]
