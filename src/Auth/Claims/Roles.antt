-- ===== src/Auth/Claims/Roles.antt =====
-- Which roles a token gives.
use slc_central_admin_cursor.Prelude.{
  or_false, or_assoc, ℕ, ◌+◌, ◌≡◌, refl, ap, sym, ◌∙◌, inl, inr, Bool, true, false, ◌||◌, Option,
  none, some, String, List, [], ◌∷◌, ◌++◌, ◌==◌, nat_eq, string_eq, eq_iff, includes, Bool-cases,
  arith,
}
use slc_central_admin_cursor.Shared.{
  RoleKey, role_eq, super_admin, app_admin, content_admin, support_admin, report_viewer, count,
  same_key,
}
use slc_central_admin_cursor.Auth.Claims.{
  Json, Items, no_items, item, null, boolean, number, text, array, object, function, ClaimTexts,
  role_in_order, role_of_name, role_of_value, role_values, add_once, add_role, collect_roles,
  read_claim_path, extract_role_keys,
}
use slc_central_admin_cursor.Auth.Claims.Sorted.{count-sort_by}

-- The name of a role in a token.
abbrev pub role_name : RoleKey → String
role_name super_admin = "SUPER_ADMIN"
role_name app_admin = "APP_ADMIN"
role_name content_admin = "CONTENT_ADMIN"
role_name support_admin = "SUPPORT_ADMIN"
role_name report_viewer = "REPORT_VIEWER"

abbrev is_role : RoleKey → Option RoleKey → Bool
is_role k none = false
is_role k (some x) = x == k

named-literal :
    (x k : RoleKey) → (role_name x == role_name k) ≡ is_role k (role_of_name (role_name x))
unfolding role_of_name
named-literal super_admin super_admin = refl
named-literal app_admin super_admin = refl
named-literal content_admin super_admin = refl
named-literal support_admin super_admin = refl
named-literal report_viewer super_admin = refl
named-literal x k = refl

-- The texts that name no role.
unnamed :
    (s : String) (k : RoleKey)
    → (s == "SUPER_ADMIN") ≡ false
    → (s == "APP_ADMIN") ≡ false
    → (s == "CONTENT_ADMIN") ≡ false
    → (s == "SUPPORT_ADMIN") ≡ false
    → (s == "REPORT_VIEWER") ≡ false
    → (s == role_name k) ≡ is_role k (role_of_name s)
unfolding role_of_name
unnamed s super_admin a b c d e = rw (a, b, c, d, e) refl
unnamed s app_admin a b c d e = rw (a, b, c, d, e) refl
unnamed s content_admin a b c d e = rw (a, b, c, d, e) refl
unnamed s support_admin a b c d e = rw (a, b, c, d, e) refl
unnamed s report_viewer a b c d e = rw (a, b, c, d, e) refl

literal :
    (s : String) (x k : RoleKey)
    → (s == role_name x) ≡ true
    → (s == role_name k) ≡ is_role k (role_of_name s)
literal s x k h = rw ((eq_iff s (role_name x)).0 h) (named-literal x k)

-- A text is the name of a role exactly where it is read as that role.
pub named : (s : String) (k : RoleKey) → (s == role_name k) ≡ is_role k (role_of_name s)
named s k = elim (Bool-cases (s == "SUPER_ADMIN")) [
  | inl a ↦ literal s super_admin k a
  | inr a ↦ elim (Bool-cases (s == "APP_ADMIN")) [
    | inl b ↦ literal s app_admin k b
    | inr b ↦ elim (Bool-cases (s == "CONTENT_ADMIN")) [
      | inl c ↦ literal s content_admin k c
      | inr c ↦ elim (Bool-cases (s == "SUPPORT_ADMIN")) [
        | inl d ↦ literal s support_admin k d
        | inr d ↦ elim (Bool-cases (s == "REPORT_VIEWER")) [
          | inl e ↦ literal s report_viewer k e
          | inr e ↦ unnamed s k a b c d e
        ]
      ]
    ]
  ]
]

-- The texts among the values.
unfoldable pub texts_of : Items → List String
texts_of no_items = []
texts_of (item (text s) rest) = s ∷ texts_of rest
texts_of (item v rest) = texts_of rest

abbrev pub bit : Bool → ℕ
bit true = 1
bit false = 0

includes-snoc :
    (k x : RoleKey) (acc : List RoleKey) → includes (acc ++ x ∷ []) k ≡ (includes acc k || x == k)
includes-snoc k x [] = elim (Bool-cases (x == k)) [ inl e ↦ rw e refl | inr e ↦ rw e refl ]
includes-snoc k x (y ∷ acc) = elim (Bool-cases (y == k)) [
  | inl e ↦ rw e refl
  | inr e ↦ rw e (includes-snoc k x acc)
]

count-snoc :
    (k x : RoleKey) (acc : List RoleKey) → count k (acc ++ x ∷ []) ≡ count k acc + bit (x == k)
unfolding count
count-snoc k x [] = elim (Bool-cases (x == k)) [ inl e ↦ rw e refl | inr e ↦ rw e refl ]
count-snoc k x (y ∷ acc) = elim (Bool-cases (y == k)) [
  | inl e ↦ rw e (omega (arith, count-snoc k x acc))
  | inr e ↦ rw e (count-snoc k x acc)
]

-- The keys for which a test holds, each once.
abbrev Once : List RoleKey → (RoleKey → Bool) → Type 0
Once acc has = (k : RoleKey) → (includes acc k ≡ has k) × (count k acc ≡ bit (has k))

count_nil : (k : RoleKey) → count k [] ≡ 0
unfolding count
count_nil k = refl

Once-same :
    (acc : List RoleKey) (f g : RoleKey → Bool)
    → Once acc f
    → ((k : RoleKey) → f k ≡ g k)
    → Once acc g
Once-same acc f g once same k = let (a, b) = once k in (a ∙ same k, b ∙ ap bit (same k))

held :
    (acc : List RoleKey) (x k : RoleKey) {b : Bool}
    → (x == k) ≡ true
    → includes acc x ≡ b
    → includes acc k ≡ b
held acc x k f e = ap (includes acc) (sym (same_key x k f)) ∙ e

added-Once :
    (acc : List RoleKey) (x : RoleKey) (has : RoleKey → Bool)
    → Once acc has
    → Once (add_once includes acc x) (λ k. has k || x == k)
added-Once acc x has once k =
    let (a, b) = once k in
    elim (Bool-cases (includes acc x)) [
      | inl e ↦ elim (Bool-cases (x == k)) [
        | inl f ↦
            let there : has k ≡ true = sym a ∙ held acc x k f e in
            rw (e, f, there) (a ∙ there, b ∙ ap bit there)
        | inr f ↦ rw (e, f) (a ∙ or_false (has k), b ∙ ap bit (or_false (has k)))
      ]
      | inr e ↦ rw e (
        includes-snoc k x acc ∙ rw a refl,
        elim (Bool-cases (x == k)) [
          | inl f ↦
              let away : has k ≡ false = sym a ∙ held acc x k f e in
              count-snoc k x acc ∙ rw (b, away, f) refl
          | inr f ↦ count-snoc k x acc ∙ rw (b, f) (omega arith ∙ ap bit (or_false (has k)))
        ],
      )
    ]

add_role-Once :
    (acc : List RoleKey) (s : String) (found : Option RoleKey) (has : RoleKey → Bool)
    → Once acc has
    → role_of_name s ≡ found
    → Once (add_role acc found) (λ k. has k || s == role_name k)
add_role-Once acc s none has once e =
    Once-same acc has _ once
      (λ k. or_false (has k) ∙ ap (λ b. has k || b) (sym (named s k ∙ ap (is_role k) e)))
add_role-Once acc s (some x) has once e =
    Once-same _ _ _ (added-Once acc x has once)
      (λ k. ap (λ b. has k || b) (sym (named s k ∙ ap (is_role k) e)))

collect_roles-Once :
    (items : Items) (acc : List RoleKey) (has : RoleKey → Bool)
    → Once acc has
    → Once (collect_roles acc items) (λ k. has k || includes (texts_of items) (role_name k))
unfolding collect_roles texts_of role_of_value
collect_roles-Once no_items acc has once = Once-same acc has _ once (λ k. or_false (has k))
collect_roles-Once (item (text s) rest) acc has once =
    Once-same _ _ _
      (collect_roles-Once rest (add_role acc (role_of_name s)) _
        (add_role-Once acc s (role_of_name s) has once refl))
      (λ k. or_assoc (has k) (s == role_name k) _)
collect_roles-Once (item null rest) acc has once = collect_roles-Once rest acc has once
collect_roles-Once (item (boolean b) rest) acc has once = collect_roles-Once rest acc has once
collect_roles-Once (item (number n) rest) acc has once = collect_roles-Once rest acc has once
collect_roles-Once (item (array items) rest) acc has once = collect_roles-Once rest acc has once
collect_roles-Once (item (object entries) rest) acc has once = collect_roles-Once rest acc has once
collect_roles-Once (item function rest) acc has once = collect_roles-Once rest acc has once

-- A role stands among those read from a token exactly where its name stands among the texts of the
-- claim at the path, which is one text or a list of values, and it stands there once.
pub extract_role_keys-count :
    (texts : ClaimTexts) (claims : Json) (path : String) (k : RoleKey)
    → count k (extract_role_keys texts claims path)
      ≡ bit (includes (texts_of (role_values (read_claim_path texts claims path))) (role_name k))
unfolding extract_role_keys
extract_role_keys-count texts claims path k =
    let values = role_values (read_claim_path texts claims path) in
    count-sort_by k role_in_order (collect_roles [] values)
    ∙ (collect_roles-Once values [] (λ k. false) (λ k. (refl, count_nil k)) k).1
