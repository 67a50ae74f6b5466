-- ===== src/Token/Rotation/Detection.antt =====
-- A refresh token that was consumed before: the branch without a token of `handle_refresh` of
-- oidc-gateway/src/token.rs.
use jetauth.Prelude.{text_eq}
use jetauth.Kv.{Kv}
use jetauth.Store.Wire.{Wire}
