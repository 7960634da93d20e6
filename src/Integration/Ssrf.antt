-- ===== src/Integration/Ssrf.antt =====
-- The guards on outbound requests, apps/api/src/integration/ssrf.ts.
pub mod Ipv4
pub mod Ipv6
pub mod Hosts
pub mod Guards
mod Masks
pub mod Cidr
pub mod Ranges
