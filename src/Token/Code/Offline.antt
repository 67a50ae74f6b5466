-- ===== src/Token/Code/Offline.antt =====
-- The body of a success of `handle_code_exchange` of oidc-gateway/src/token.rs, and its refresh
-- token.
use jetauth.Prelude.{none, some, ◌≡◌, if◌then◌else◌, text_eq}
use jetauth.Kv.{Kv}
use jetauth.Store.Types.{AuthCode}
use jetauth.Store.Wire.{Wire}
use jetauth.Token.Types.{Response, TokenResponse, tokens, Host, Request}
use jetauth.Token.Issue.{has_offline_access, token_type}

module _ {Payload : Type 0} (kv : Kv Payload) (wire : Wire Payload) (host : Host kv.State) where
  -- The body of a success: it grants the scope of the code, is of type DPoP exactly where the
  -- request carried a proof, and holds a refresh token exactly where the scope asks for offline
  -- access.
  abbrev pub Grants : Request → AuthCode → Response → Type 0
  Grants req a response =
      (body : TokenResponse) × (response ≡ tokens body)
      × (body.scope ≡ a.scope)
      × (body.token_type ≡ token_type req.dpop_jkt)
      × (body.refresh_token ≡ (if has_offline_access a.scope then some req.random else none))
