-- ===== src/Auth.antt =====
-- Administrators: sign-in, sessions, authorization and their management
-- (apps/api/src/modules/auth, apps/api/src/modules/admin-users, apps/api/src/middleware).
pub mod Db
pub mod Env
pub mod Sessions
pub mod Claims
pub mod Permissions
pub mod Totp
pub mod SecretBox
pub mod Login
pub mod Account
pub mod Sso
pub mod Access
pub mod Admins
