-- ===== src/Util.antt =====
-- oidc-gateway/src/util.rs
pub mod Utf8
pub mod Percent
pub mod Query
pub mod Redirect
pub mod Html
pub mod Script
pub mod Address
