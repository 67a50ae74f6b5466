-- ===== src/Store/Clients.antt =====
-- "OIDC client operations" of oidc-gateway/src/store.rs, without the listing.
use jetauth.Prelude.{Text, str, Result, Bool, true, false, Option, none, some, List, [], ◌∷◌, ◌++◌}
use jetauth.Kv.{Kv, put, delete}
use jetauth.Action.{Action, pure, reads, ignore, if_then_return, ◌>>=◌, ◌>>◌}
use jetauth.Store.Types.{OidcClient}
use jetauth.Store.Wire.{Wire}
use jetauth.Store.Access.{kv_get, kv_write, clients}

abbrev pub client_key : Text → Text
client_key client_id = str "client:" ++ client_id

abbrev pub reg_token_key : Text → Text
reg_token_key client_id = str "reg_token:" ++ client_id

abbrev pub admin_id : Text
admin_id = str "lid-admin"

-- The addresses of the admin client, without those of a development host.
abbrev admin_uris : (issuer : Text) → List Text
admin_uris issuer =
    issuer
    ∷ (issuer ++ str "/")
    ∷ (issuer ++ str "/callback")
    ∷ (issuer ++ str "/admin")
    ∷ (issuer ++ str "/admin/")
    ∷ str "/"
    ∷ str "/admin"
    ∷ str "/admin/"
    ∷ []

unfoldable pub admin_client : (issuer : Text) → OidcClient
admin_client issuer = record {
  client_id = admin_id;
  client_secret = none;
  redirect_uris = admin_uris issuer;
  post_logout_redirect_uris = admin_uris issuer;
  grant_types =
      str "authorization_code"
      ∷ str "refresh_token"
      ∷ str "urn:ietf:params:oauth:grant-type:device_code"
      ∷ [];
  name = str "Lattice-ID Admin";
  theme = none;
  backchannel_logout_uri = none;
  backchannel_logout_session_required = false;
  id_token_signed_response_alg = none;
  first_party = true;
  token_endpoint_auth_method = some (str "none");
  jwks = none;
  require_pushed_authorization_requests = false;
}

module _ {Payload : Type 0} (kv : Kv Payload) (wire : Wire Payload) where
  unfoldable pub get_client : Text → kv.State → Result (Option OidcClient)
  get_client client_id = kv_get kv wire.client clients (client_key client_id)

  unfoldable pub save_client : OidcClient → Action kv.State (Unit {0})
  save_client client =
      kv_write kv (put (wire.client.encode client) none) clients (client_key client.client_id)

  unfoldable pub delete_client : Text → Action kv.State (Unit {0})
  delete_client client_id =
      ignore (kv_write kv delete clients (reg_token_key client_id))
      >> kv_write kv delete clients (client_key client_id)

  unfoldable pub save_registration_token : Text → Text → Action kv.State (Unit {0})
  save_registration_token client_id token_hash =
      kv_write kv (put (wire.string.encode token_hash) none) clients (reg_token_key client_id)

  unfoldable pub get_registration_token : Text → kv.State → Result (Option Text)
  get_registration_token client_id = kv_get kv wire.string clients (reg_token_key client_id)

  unfoldable pub delete_registration_token : Text → Action kv.State (Unit {0})
  delete_registration_token client_id = kv_write kv delete clients (reg_token_key client_id)

  abbrev is_same : (same : OidcClient → OidcClient → Bool) → OidcClient → Option OidcClient → Bool
  is_same same client none = false
  is_same same client (some stored) = same stored client

  -- `ensure_admin_client(issuer, false)`; `same` is the derived `==` of clients.
  unfoldable pub ensure_admin_client :
      (same : OidcClient → OidcClient → Bool) (issuer : Text) → Action kv.State (Unit {0})
  unfolding admin_client get_client save_client if_then_return
  ensure_admin_client same issuer = do
    stored ← reads (get_client admin_id)
    if_then_return (is_same same (admin_client issuer) stored) (pure tt)
        (save_client (admin_client issuer))
