-- ===== src/Token.antt =====
-- oidc-gateway/src/token.rs: the token endpoint.
pub mod Types
pub mod Errors
pub mod Claims
pub mod Issue
pub mod Code
pub mod Rotation
pub mod ClientCredentials
pub mod Device
pub mod Revoke
pub mod Endpoint
pub mod Introspect
