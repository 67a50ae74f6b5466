-- ===== src/Authorize.antt =====
-- The authorization endpoint: oidc-gateway/src/authorize.rs.
pub mod Claims
pub mod Redirect
pub mod Session
pub mod Flow
pub mod Handle
pub mod Safe
