-- ===== src/Integration.antt =====
-- The integration layer, apps/api/src/integration.
pub mod Errors
pub mod Breaker
pub mod Retry
pub mod Ssrf
pub mod Http
pub mod Types
pub mod Adapters
pub mod Credentials
pub mod Timeout
pub mod Service
pub mod Stock
