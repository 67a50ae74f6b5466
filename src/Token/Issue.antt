-- ===== src/Token/Issue.antt =====
-- The steps that the grants of oidc-gateway/src/token.rs share: the user of a grant, the signing of
-- its two tokens, and its response.
use jetauth.Prelude.{
  Text, str, contains, Result, ok, err, ok_or, Bool, Option, none, some, List, [], split, text_eq,
}
use jetauth.Kv.{Kv}
use jetauth.Action.{Action, pure, reads, ◌>>=◌}
use jetauth.Json.{Fields, text, set_field}
use jetauth.Store.Types.{User, OidcClient, Membership}
use jetauth.Store.Wire.{Wire}
use jetauth.Store.Users.{get_user}
use jetauth.Store.Members.{list_user_tenants}
use jetauth.Token.Types.{Response, tokens, Host, compute_at_hash}

-- `"DPoP"` for a request with a proof.
unfoldable pub token_type : Option Text → Text
token_type none = str "Bearer"
token_type (some jkt) = str "DPoP"

-- `scope.split(' ').any(|s| s == "offline_access")`
unfoldable pub has_offline_access : Text → Bool
has_offline_access scope = contains (split b' ' scope) (str "offline_access")

abbrev pub or_nil : Result (List Membership) → List Membership
or_nil (ok ms) = ms
or_nil (err _) = []

-- `o.await?.ok_or(e)`
abbrev pub required {ℓ} : {A : Type ℓ} → Text → Result (Option A) → Result A
required e (ok o) = ok_or o e
required e (err x) = err x

module _ {Payload : Type 0} (kv : Kv Payload) (wire : Wire Payload) where
  -- `store::list_user_tenants(&user.id).await.unwrap_or_default()`
  unfoldable pub memberships_of : User → kv.State → List Membership
  memberships_of user s = or_nil (list_user_tenants kv wire user.id s)

  -- `get_user` and its `ok_or`.
  unfoldable pub require_user : Text → Action kv.State User
  require_user user_id s = (required (str "user not found") (get_user kv wire user_id s), s)

module _ {State : Type 0} (host : Host State) where
  -- Both tokens, signed; the id token with the hash of the access token.
  unfoldable pub sign_tokens : Fields × Fields → OidcClient → Action State (Text × Text)
  sign_tokens (access_claims, id_claims) client = do
    access_token ← reads (host.sign access_claims)
    id_token ← reads (
        host.sign_id_token_for_client
          (set_field id_claims (str "at_hash") (text (compute_at_hash host access_token))) client)
    pure (access_token, id_token)

-- The response of a grant for a user.
unfoldable pub user_response : Option Text → Text × Text → Text → Option Text → Response
unfolding token_type
user_response dpop_jkt (access_token, id_token) scope refresh_token = tokens (record {
  access_token = access_token;
  token_type = token_type dpop_jkt;
  expires_in = 3600;
  id_token = some id_token;
  scope = scope;
  refresh_token = refresh_token;
})
