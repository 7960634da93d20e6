-- ===== src/Apps.antt =====
-- The modules for the apps that the administration manages, apps/api/src/modules/apps.
pub mod Firestore
pub mod Pasunestam
