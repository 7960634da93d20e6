-- ===== src/Registry.antt =====
-- The tables that the pages of the administration list: registered applications
-- (apps/api/src/modules/applications) and the audit log (apps/api/src/modules/audit).
pub mod Pages
pub mod Applications
pub mod AuditLog
