-- ===== src/Store.antt =====
-- oidc-gateway/src/store.rs
pub mod Types
pub mod Records
pub mod Wire
pub mod Access
pub mod Codes
pub mod Users
pub mod Members
pub mod Refresh
pub mod Cache
pub mod Devices
pub mod Tenants
pub mod OneTime
pub mod Sessions
pub mod Lockout
pub mod Consents
pub mod Addresses
pub mod Accounts
pub mod Clients
