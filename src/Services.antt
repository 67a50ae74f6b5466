-- ===== src/Services.antt =====
-- oidc-gateway/src/services
pub mod Authz
pub mod Api
pub mod Tenants
