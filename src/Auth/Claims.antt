-- ===== src/Auth/Claims.antt =====
-- The claims of an ID token, apps/api/src/modules/auth/oidc/claims.ts. A value of JSON keeps its
-- numbers as they were written, and each name of an object stands once. What a prototype gives for
-- a name, and the functions of the platform on whole texts, are parameters.
pub mod Sorted
pub mod Roles
pub mod ReturnTo
use slc_central_admin_cursor.Prelude.{
  insert_by, sort_by, ℕ, Bool, true, false, not, ◌&&◌, ◌||◌, Option, none, some, String, List, [],
  ◌∷◌, ◌++◌, Text, codes, ltb, length, ◌==◌, nat_eq, string_eq, any, filter, includes, starts_with,
  if◌then◌else◌,
}
use slc_central_admin_cursor.AppErrors.{truthy}
use slc_central_admin_cursor.Shared.{
  RoleKey, role_eq, super_admin, app_admin, content_admin, support_admin, report_viewer,
}
use slc_central_admin_cursor.Auth.Db.{AppRoleMap}

mutual
  pub data Json : Type 0 where
    null : Json
    boolean : Bool → Json
    number : String → Json
    text : String → Json
    array : Items → Json
    object : Fields → Json
    function : Json

  pub data Items : Type 0 where
    no_items : Items
    item : Json → Items → Items

  pub data Fields : Type 0 where
    no_fields : Fields
    field : String → Json → Fields → Fields

pub record ClaimTexts : Type 0 where
  pub trim : String → String
  -- `slice(0, 200)`.
  pub first_200 : String → String
  -- `` `${a} ${b}` ``.
  pub with_space : String → String → String
  -- `split('.')`.
  pub segments : String → List String
  -- The order that `sort` puts texts in.
  pub in_order : String → String → Bool
  -- What a value that has no field of the name gives for it.
  pub inherited : Json → String → Option Json

-- `Set.add`.
abbrev pub add_once {ℓ} : {A : Type ℓ} → (List A → A → Bool) → List A → A → List A
add_once has acc x = if has acc x then acc else acc ++ x ∷ []

field_of : String → Fields → Option Json
field_of name no_fields = none
field_of name (field n v rest) =
    let found = field_of name rest in if n == name then some v else found

module _ (texts : ClaimTexts) where
  own_or_inherited : Json → String → Option Json → Option Json
  own_or_inherited j name none = texts.inherited j name
  own_or_inherited j name (some v) = some v

  -- `value[name]`, for a value that is neither null nor undefined.
  unfoldable pub member : Json → String → Option Json
  unfolding field_of own_or_inherited
  member (object entries) name = own_or_inherited (object entries) name (field_of name entries)
  member j name = texts.inherited j name

  -- One segment of a path: `undefined` where the value has no members.
  unfoldable pub claim_step : Option Json → String → Option Json
  claim_step none name = none
  claim_step (some (object entries)) name = member (object entries) name
  claim_step (some (array items)) name = member (array items) name
  claim_step (some j) name = none

  steps : Option Json → List String → Option Json
  unfolding claim_step
  steps current [] = current
  steps current (name ∷ names) = steps (claim_step current name) names

  unfoldable pub read_claim_path : Json → String → Option Json
  unfolding steps
  read_claim_path claims path = steps (some claims) (texts.segments path)

-- The names in `ROLE_KEYS`.
unfoldable pub role_of_name : String → Option RoleKey
role_of_name name =
    if name == "SUPER_ADMIN"
    then some super_admin
    else if name == "APP_ADMIN"
    then some app_admin
    else if name == "CONTENT_ADMIN"
    then some content_admin
    else if name == "SUPPORT_ADMIN"
    then some support_admin
    else if name == "REPORT_VIEWER"
    then some report_viewer
    else none

-- The order of those names.
abbrev pub name_rank : RoleKey → ℕ
name_rank app_admin = 0
name_rank content_admin = 1
name_rank report_viewer = 2
name_rank super_admin = 3
name_rank support_admin = 4

abbrev pub role_in_order : RoleKey → RoleKey → Bool
role_in_order a b = not (ltb (name_rank b) (name_rank a))

-- The values that may name a role.
unfoldable pub role_values : Option Json → Items
role_values (some (array items)) = items
role_values (some (text name)) = item (text name) no_items
role_values _ = no_items

unfoldable pub role_of_value : Json → Option RoleKey
unfolding role_of_name
role_of_value (text name) = role_of_name name
role_of_value _ = none

abbrev pub add_role : List RoleKey → Option RoleKey → List RoleKey
add_role acc none = acc
add_role acc (some k) = add_once includes acc k

-- The loop over the values.
unfoldable pub collect_roles : List RoleKey → Items → List RoleKey
unfolding role_of_value
collect_roles acc no_items = acc
collect_roles acc (item v rest) = collect_roles (add_role acc (role_of_value v)) rest

-- The texts among the values, each once.
unfoldable pub collect_texts : List String → Items → List String
collect_texts acc no_items = acc
collect_texts acc (item (text s) rest) = collect_texts (add_once includes acc s) rest
collect_texts acc (item v rest) = collect_texts acc rest

unfoldable pub is_text : Json → Option String
is_text (text s) = some s
is_text _ = none

abbrev pub text_or_empty : Option Json → String
text_or_empty (some (text s)) = s
text_or_empty _ = ""

abbrev pub is_true : Option Json → Bool
is_true (some (boolean b)) = b
is_true _ = false

module _ (texts : ClaimTexts) where
  unfoldable pub extract_role_keys : Json → String → List RoleKey
  unfolding collect_roles role_values read_claim_path
  extract_role_keys claims path =
      sort_by role_in_order (collect_roles [] (role_values (read_claim_path texts claims path)))

  -- `combined ? combined.slice(0, 200) : null`, of a trimmed text.
  name_from : String → Option String
  name_from s = if s == "" then none else some (texts.first_200 s)

  first_name : Option String → Option String → Option String
  first_name none other = other
  first_name (some s) other = some s

  unfoldable pub display_name_from_claims : Json → Option String
  unfolding name_from first_name
  display_name_from_claims claims =
      first_name (name_from (texts.trim (text_or_empty (member texts claims "name")))) (
        name_from (
          texts.trim (
            texts.with_space (text_or_empty (member texts claims "given_name"))
              (text_or_empty (member texts claims "family_name")))))

  -- `entry?.roles`.
  roles_member : Json → Option Json
  unfolding member
  roles_member null = none
  roles_member entry = member texts entry "roles"

  -- One entry of the result, where the roles are an array with a text.
  clean_entry : String → Option Json → AppRoleMap → AppRoleMap
  unfolding collect_texts sort_by insert_by
  clean_entry client_id (some (array items)) rest =
      let clean = collect_texts [] items in
      if ltb 0 (length clean) then (client_id, sort_by texts.in_order clean) ∷ rest else rest
  clean_entry client_id _ rest = rest

  abbrev is_allowed : Option (List String) → String → Bool
  is_allowed none client_id = true
  is_allowed (some allowed) client_id = includes allowed client_id

  app_roles_in : Option (List String) → Fields → AppRoleMap
  unfolding clean_entry roles_member
  app_roles_in allowed no_fields = []
  app_roles_in allowed (field client_id entry rest) =
      let more = app_roles_in allowed rest in
      if is_allowed allowed client_id then clean_entry client_id (roles_member entry) more else more

  app_roles_of : Option (List String) → Option Json → AppRoleMap
  unfolding app_roles_in
  app_roles_of allowed (some (object entries)) = app_roles_in allowed entries
  app_roles_of allowed _ = []

  unfoldable pub extract_app_roles : Json → Option (List String) → AppRoleMap
  unfolding app_roles_of
  extract_app_roles claims allowed = app_roles_of allowed (member texts claims "resource_access")

-- A control character of `[\r\n\t]`.
abbrev pub is_break : ℕ → Bool
is_break c = c == 13 || c == 10 || c == 9

-- `sanitizeReturnTo`, of a text; any other value gives the root.
unfoldable pub sanitize_return_to : Option Text → Text
sanitize_return_to none = codes "/"
sanitize_return_to (some value) =
    if length value == 0 || ltb 512 (length value)
    then codes "/"
    else if not (starts_with (codes "/") value)
        || starts_with (codes "//") value
        || starts_with (codes "/\\") value
    then codes "/"
    else if any is_break value || starts_with (codes "/api/") value
    then codes "/"
    else value
