-- ===== src/Examples/Sso.antt =====
-- Sign-in through the provider at work.
use slc_central_admin_cursor.AppErrors.{truthy}
use slc_central_admin_cursor.Auth.Sso.{apply_backchannel_logout}
use slc_central_admin_cursor.Auth.Sso.Logout.{is_named, Ended, apply_backchannel_logout-ends}
use slc_central_admin_cursor.Prelude.{
  ◌⊎◌, sort_by, insert_by, ◌≡◌, refl, true, none, some, [], ◌∷◌, string_eq, includes, codes, ok,
  err, state_of, arith, ◌≤◌,
}
use slc_central_admin_cursor.Examples.Accounts.{one_hour, nowhere, start}
use slc_central_admin_cursor.Shared.{super_admin, permissions, count}
use slc_central_admin_cursor.Rows.{update_where}
use slc_central_admin_cursor.AppErrors.{sso_login_error, sso_no_access}
use slc_central_admin_cursor.Auth.Db.{
  active, World, find_admin, update_admin, record_event, role_keys_of,
}
use slc_central_admin_cursor.Auth.Sessions.{
  create_session, find_session, session_hours, new_session,
}
use slc_central_admin_cursor.Auth.Permissions.{
  permissions_of, resolve_admin, resolved, parse_app_roles,
}
use slc_central_admin_cursor.Auth.Login.{LoginResult, normalize_email, get_current_user}
use slc_central_admin_cursor.Auth.Claims.{
  Json, text, boolean, array, object, item, no_items, field, no_fields, ClaimTexts, member,
  read_claim_path, role_values, collect_roles, role_of_value, role_of_name, extract_role_keys,
  extract_app_roles, display_name_from_claims, sanitize_return_to,
}
use slc_central_admin_cursor.Auth.Claims.Roles.{bit, role_name, texts_of, extract_role_keys-count}
use slc_central_admin_cursor.Auth.Claims.ReturnTo.{IsSafePath, sanitize_return_to-IsSafePath}
use slc_central_admin_cursor.Auth.Sso.{
  SsoConfig, identity_of, sso_fail, link, link_by_email, find_linked, provision, sync_roles,
  profile, sync_profile, admit_account, sign_in_as, complete_sso_login,
}
use slc_central_admin_cursor.Auth.Sso.Identity.{KeepsAccess}
use slc_central_admin_cursor.Auth.Sso.RoleSync.{HasUniqueKeys, sync_roles-count}
use slc_central_admin_cursor.Auth.Sso.SignIn.{SsoSignedIn, complete_sso_login-SsoSignedIn}
use slc_central_admin_cursor.Auth.Sso.Rejected.{complete_sso_login-rejected}

abbrev texts : ClaimTexts
texts = record {
  trim = λ s. s;
  first_200 = λ s. s;
  with_space = λ a b. a;
  segments = λ s. s ∷ [];
  in_order = λ a b. true;
  inherited = λ j name. none;
}

abbrev settings : SsoConfig
settings = record { roles_claim = "roles"; managed_apps = none }

abbrev claims : Json
claims = object (
    field "email" (text "ann@x") (
      field "email_verified" (boolean true) (
        field "roles" (array (item (text "SUPER_ADMIN") (item (text "owner") no_items)))
          no_fields)))

abbrev no_roles : Json
no_roles = object (field "email" (text "ann@x") no_fields)

extract_role_keys-count_example :
    count super_admin (extract_role_keys texts claims "roles")
    ≡ bit (
        includes
          (texts_of (role_values (read_claim_path texts claims "roles")))
          (role_name super_admin))
extract_role_keys-count_example = extract_role_keys-count texts claims "roles" super_admin

sanitize_return_to-IsSafePath_example :
    IsSafePath (sanitize_return_to (some (codes "//evil.example")))
    × ((IsSafePath (codes "//evil.example")
          × (sanitize_return_to (some (codes "//evil.example")) ≡ codes "//evil.example"))
        ⊎ ((¬ IsSafePath (codes "//evil.example"))
            × (sanitize_return_to (some (codes "//evil.example")) ≡ codes "/")))
sanitize_return_to-IsSafePath_example = sanitize_return_to-IsSafePath (codes "//evil.example")

one_role : HasUniqueKeys start
unfolding count
one_role k = elim k as (λ k. count k (super_admin ∷ []) ≤ 1) [
  | super_admin ↦ omega arith
  | _ ↦ omega arith
]

already : sync_roles 1 (super_admin ∷ []) start ≡ ok tt start
unfolding sync_roles sort_by insert_by role_keys_of
already = refl

sync_roles-count_example :
    count super_admin (role_keys_of 1 start) ≡ count super_admin (super_admin ∷ [])
sync_roles-count_example =
    sync_roles-count 1 (super_admin ∷ []) start start one_role already super_admin

abbrev after : World
after =
    state_of (complete_sso_login one_hour texts (some settings) "sub" claims "jwt" nowhere start)

abbrev signed_in : LoginResult
signed_in = record {
  token = "token";
  expires_at = 3660000;
  user = record {
    id = 1;
    email = "ann@x";
    name = none;
    status = active;
    mfa_enabled = true;
    roles = super_admin ∷ [];
    permissions = permissions;
    app_roles = [];
  };
}

ann_signs_in :
    complete_sso_login one_hour texts (some settings) "sub" claims "jwt" nowhere start
    ≡ ok signed_in after
unfolding complete_sso_login sign_in_as admit_account identity_of extract_role_keys
    extract_app_roles display_name_from_claims normalize_email member read_claim_path role_values
    collect_roles role_of_value role_of_name sort_by insert_by find_linked link_by_email link
    provision sync_roles sync_profile profile update_admin update_where record_event find_admin
    create_session find_session session_hours new_session get_current_user resolve_admin resolved
    parse_app_roles permissions_of role_keys_of
ann_signs_in = refl

complete_sso_login-SsoSignedIn_example :
    SsoSignedIn one_hour (identity_of one_hour texts settings "sub" claims) start signed_in after
complete_sso_login-SsoSignedIn_example =
    complete_sso_login-SsoSignedIn one_hour texts settings "sub" claims "jwt" nowhere start
      signed_in after one_role ann_signs_in

abbrev refused : World
refused =
    state_of (complete_sso_login one_hour texts (some settings) "sub" no_roles "jwt" nowhere start)

ann_is_refused :
    complete_sso_login one_hour texts (some settings) "sub" no_roles "jwt" nowhere start
    ≡ err (sso_login_error sso_no_access) refused
unfolding complete_sso_login sign_in_as sso_fail identity_of extract_role_keys member
    read_claim_path role_values collect_roles sort_by
ann_is_refused = refl

complete_sso_login-rejected_example : KeepsAccess start refused
complete_sso_login-rejected_example =
    complete_sso_login-rejected one_hour texts settings "sub" no_roles "jwt" nowhere start refused
      sso_no_access ann_is_refused

apply_backchannel_logout-ends_example :
    Ended one_hour
      (is_named (truthy none) (truthy (some "sub")) after)
      after
      (apply_backchannel_logout (some "sub") none after).0
      (apply_backchannel_logout (some "sub") none after).1
apply_backchannel_logout-ends_example =
    apply_backchannel_logout-ends one_hour (some "sub") none after
