-- ===== src/Auth/Db.antt =====
-- The rows of prisma/schema.prisma that sign-in and authorization read and write, and the calls of
-- the Prisma client on them, as the in-memory client of apps/api/test/fakePrisma.ts carries them
-- out. Ids are only compared, so they are numbers; a role stands under its unique key. What a call
-- of the event log and the clock add is part of the same world.
use slc_central_admin_cursor.Prelude.{
  ℕ, Bool, true, false, Option, none, some, String, List, [], ◌∷◌, ◌++◌, ◌==◌, nat_eq, string_eq,
  find, if◌then◌else◌,
}
use slc_central_admin_cursor.Rows.{update_where}
use slc_central_admin_cursor.Shared.{Permission, RoleKey, role_eq}

pub data AdminUserStatus : Type 0 where
  active disabled : AdminUserStatus

abbrev pub is_disabled : AdminUserStatus → Bool
is_disabled active = false
is_disabled disabled = true

-- Roles per client id, as `Record<string, string[]>`.
abbrev pub AppRoleMap : Type 0
AppRoleMap = List (String × List String)

pub record AdminUser : Type 0 where
  pub id : ℕ
  pub email : String
  pub password_hash : Option String
  pub oidc_subject : Option String
  pub app_roles : AppRoleMap
  pub name : Option String
  pub status : AdminUserStatus
  pub mfa_enabled : Bool
  pub mfa_secret : Option String
  pub mfa_last_used_step : Option ℕ
  pub last_login_at : Option ℕ

pub record Role : Type 0 where
  pub key : RoleKey
  pub permissions : List Permission

pub record AdminUserRole : Type 0 where
  pub admin_user_id : ℕ
  pub role_key : RoleKey

pub record SessionContext : Type 0 where
  pub ip_address : Option String
  pub user_agent : Option String

pub record AdminSession : Type 0 where
  pub id : ℕ
  pub admin_user_id : ℕ
  pub token_hash : String
  pub expires_at : ℕ
  pub last_used_at : ℕ
  pub oidc_sid : Option String
  pub id_token_hint : Option String
  pub context : SessionContext

-- `AuthEventType`.
pub data AuthEventType : Type 0 where
  admin_login admin_login_failed admin_logout admin_disabled password_changed : AuthEventType
  role_changed admin_sso_login admin_sso_login_failed admin_sso_provisioned : AuthEventType
  admin_sso_linked admin_sso_backchannel_logout admin_break_glass_login : AuthEventType

-- The reasons that the metadata of a failed sign-in gives.
pub data Reason : Type 0 where
  unknown_user disabled_account sso_only_account bad_password : Reason
  not_a_break_glass_account mfa_code_missing bad_mfa_code mfa_not_set_up : Reason
  no_central_admin_role email_claim_missing email_not_verified_for_linking : Reason
  email_linked_to_other_subject : Reason

-- One call of `recordAuthEvent`, with the metadata left out but for the reason.
pub record AuthEvent : Type 0 where
  pub kind : AuthEventType
  pub admin_user_id : Option ℕ
  pub reason : Option Reason

-- `tokens` counts the random tokens drawn so far, `next_id` the rows created so far.
pub record World : Type 0 where
  pub admins : List AdminUser
  pub roles : List Role
  pub user_roles : List AdminUserRole
  pub sessions : List AdminSession
  pub events : List AuthEvent
  pub now : ℕ
  pub tokens : ℕ
  pub next_id : ℕ

abbrev pub has_id : ℕ → AdminUser → Bool
has_id id a = a.id == id

abbrev pub has_email : String → AdminUser → Bool
has_email email a = a.email == email

abbrev pub is_subject : String → Option String → Bool
is_subject subject none = false
is_subject subject (some s) = s == subject

abbrev pub has_subject : String → AdminUser → Bool
has_subject subject a = is_subject subject a.oidc_subject

unfoldable pub find_admin : (AdminUser → Bool) → World → Option AdminUser
find_admin p w = find p w.admins

unfoldable pub update_admin : ℕ → (AdminUser → AdminUser) → World → World
unfolding update_where
update_admin id f w = record w { admins = update_where (has_id id) f w.admins }

-- The keys of an administrator's roles, in the order of the rows.
unfoldable pub role_keys_in : ℕ → List AdminUserRole → List RoleKey
role_keys_in id [] = []
role_keys_in id (r ∷ rs) =
    let rest = role_keys_in id rs in if r.admin_user_id == id then r.role_key ∷ rest else rest

unfoldable pub role_keys_of : ℕ → World → List RoleKey
unfolding role_keys_in
role_keys_of id w = role_keys_in id w.user_roles

unfoldable pub record_event : AuthEventType → Option ℕ → Option Reason → World → World
record_event kind id reason w = record w {
  events = w.events ++ record { kind = kind; admin_user_id = id; reason = reason } ∷ [];
}
