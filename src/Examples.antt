-- ===== src/Examples.antt =====
-- Tests of the definitions, and the theorems at concrete inputs.
mod Policies
mod Outbound
mod SignIn
mod Accounts
mod Access
mod Integrations
mod Sso
mod Registry
mod Apps
mod Sealed
mod Stock
