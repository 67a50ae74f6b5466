-- ===== src/Tests/Endpoint.antt =====
-- A concrete request to the token endpoint: a code, a proof of possession, and the assertion of a
-- client with keys.
use jetauth.Prelude.{str, none, some, [], ◌∷◌}
use jetauth.Kv.Memory.{Table}
use jetauth.Token.Types.{Response, TokenResponse}
use jetauth.Token.Endpoint.{Arrival}
use jetauth.Token.Endpoint.Admitted.{Admitted}
use jetauth.Tests.{Value, user_value, code_value, client_value, user, auth_code}
use jetauth.Tests.Proofs.{keyed_client}

abbrev stored : Table Value
stored =
    (str "users:user:u1", (user_value user, 1))
    ∷ (str "sessions:code:c1", (code_value auth_code, 2))
    ∷ (str "clients:client:app", (client_value keyed_client, 3))
    ∷ []

abbrev arrival : Arrival
arrival = record {
  body =
      str
        "grant_type=authorization_code&code=c1&redirect_uri=https://app/cb&code_verifier=verifier&client_assertion=h.a.sig&client_assertion_type=urn:ietf:params:oauth:client-assertion-type:jwt-bearer";
  auth_header = none;
  dpop_header = some (str "h.p.sig");
  issuer = str "https://id";
  proof_now = λ place. 120;
  client_now = λ place. 120;
  rate_now = 120;
  grant_now = λ place. 120;
  random = str "r2";
  absolute_max = 1000;
}

abbrev issued_body : TokenResponse
issued_body = record {
  access_token = str "signed";
  token_type = str "DPoP";
  expires_in = 3600;
  id_token = some (str "signed id");
  scope = str "openid offline_access";
  refresh_token = some (str "r2");
}
