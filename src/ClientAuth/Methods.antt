-- ===== src/ClientAuth/Methods.antt =====
-- `authenticate_client` of oidc-gateway/src/client_auth.rs.
use jetauth.Prelude.{
  Text, str, leb, Result, ok, err, ok_or, ℕ, Bool, true, false, Option, none, some, ◌+◌, ◌||◌, ◌++◌,
  ◌==◌, if◌then◌else◌, text_eq,
}
use jetauth.Kv.{Kv}
use jetauth.Action.{Action, pure, fail, guard, lift, reads, map_err, ◌>>=◌, ◌>>◌}
use jetauth.Util.Query.{Form, form_value}
use jetauth.Store.Types.{OidcClient}
use jetauth.Store.Wire.{Wire}
use jetauth.Store.Clients.{get_client}
use jetauth.Store.OneTime.{check_and_record_jti, ttl_jti}
use jetauth.Token.ClientCredentials.{is_some}
use jetauth.Jwt.{prefixed, verify_jwt_with_jwks}
use jetauth.ClientAuth.{
  AuthenticatedClient, Verifier, parse_basic_auth, verify_secret, same_id, unverified_sub,
  check_claims,
}

abbrev jwt_bearer : Text
jwt_bearer = str "urn:ietf:params:oauth:client-assertion-type:jwt-bearer"

abbrev pub count : Bool → ℕ
count true = 1
count false = 0

abbrev pub registered_or : AuthenticatedClient → Option Text → Result (Unit {0})
registered_or auth none = ok tt
registered_or auth (some expected) =
    if auth.auth_method == expected
    then ok tt
    else err (
        str "client '"
        ++ (auth.client.client_id
            ++ (str "' must use registered token_endpoint_auth_method '"
                ++ (expected ++ (str "', but used '" ++ (auth.auth_method ++ str "'"))))))

-- The last test: a registered method is the one that was used.
unfoldable pub check_registered : AuthenticatedClient → Result (Unit {0})
check_registered auth = registered_or auth auth.client.token_endpoint_auth_method

abbrev pub authenticated : OidcClient → Text → AuthenticatedClient
authenticated client auth_method = record { client = client; auth_method = auth_method }

abbrev pub known : Text → Result (Option OidcClient) → Result OidcClient
known id (ok none) = err (str "unknown client_id: " ++ id)
known id (ok (some client)) = ok client
known id (err e) = err e

-- How many methods a request presents.
unfoldable pub method_count : Form → Option (Text × Text) → ℕ
method_count form basic =
    count (is_some basic)
    + count (is_some (form_value form (str "client_secret")))
    + count (
        is_some (form_value form (str "client_assertion"))
        || is_some (form_value form (str "client_assertion_type")))

-- `now` is what the clock gives at the two places that read it.
module _ {Payload : Type 0} (kv : Kv Payload) (wire : Wire Payload) (verifier : Verifier)
    (now : ℕ → ℕ) where
  abbrev pub require_client : Text → Action kv.State OidcClient
  require_client id = reads (λ s. known id (get_client kv wire id s))

  unfoldable pub by_basic : Option Text → Text × Text → Action kv.State AuthenticatedClient
  unfolding get_client verify_secret
  by_basic form_client_id (id, secret) = do
    lift (
        same_id form_client_id id
          (str "client_id mismatch between Authorization header and request body"))
    client ← require_client id
    lift (verify_secret verifier.hmac_client_secret client (some secret))
    pure (authenticated client (str "client_secret_basic"))

  abbrev no_jwks : Text → Text
  no_jwks sub = str "client " ++ (sub ++ str " does not have registered jwks for private_key_jwt")

  -- The signature and the claims of an assertion, and its identifier, which is recorded.
  unfoldable pub check_assertion :
      (issuer endpoint assertion sub : Text) → OidcClient → Action kv.State AuthenticatedClient
  unfolding verify_jwt_with_jwks check_claims check_and_record_jti
  check_assertion issuer endpoint assertion sub client = do
    jwks ← lift (ok_or client.jwks (no_jwks sub))
    verified ← lift (
        prefixed (str "client_assertion signature verification failed: ")
          (verify_jwt_with_jwks verifier.crypto assertion jwks))
    jti ← lift (check_claims issuer endpoint (now 0) sub verified.1)
    map_err (λ e. str "client_assertion jti replay: " ++ e)
        (check_and_record_jti kv wire (now 1) jti ttl_jti)
    pure (authenticated client (str "private_key_jwt"))

  unfoldable pub by_assertion :
      (issuer endpoint : Text)
      → (form_client_id assertion_type : Option Text) → (assertion : Text)
      → Action kv.State AuthenticatedClient
  unfolding unverified_sub get_client check_assertion
  by_assertion issuer endpoint form_client_id assertion_type assertion = do
    type ← lift (ok_or assertion_type (str "missing client_assertion_type"))
    guard (type == jwt_bearer) (str "unsupported client_assertion_type: " ++ type)
    sub ← lift (unverified_sub verifier.crypto assertion)
    lift (
        same_id form_client_id sub
          (str "client_id in request body does not match sub claim in client_assertion"))
    client ← require_client sub
    check_assertion issuer endpoint assertion sub client

  abbrev pub form_method : Option Text → Text
  form_method none = str "none"
  form_method (some secret) = str "client_secret_post"

  unfoldable pub by_form : Text → Option Text → Action kv.State AuthenticatedClient
  unfolding get_client verify_secret
  by_form cid form_client_secret = do
    client ← require_client cid
    lift (verify_secret verifier.hmac_client_secret client form_client_secret)
    pure (authenticated client (form_method form_client_secret))

  -- The chain of `if let`.
  unfoldable pub by_method :
      (issuer endpoint : Text)
      → Form
      → Option (Text × Text)
      → (assertion form_client_id : Option Text) → Action kv.State AuthenticatedClient
  unfolding by_basic by_assertion by_form
  by_method issuer endpoint form (some basic) assertion form_client_id =
      by_basic form_client_id basic
  by_method issuer endpoint form none (some assertion) form_client_id =
      by_assertion issuer endpoint form_client_id (form_value form (str "client_assertion_type"))
        assertion
  by_method issuer endpoint form none none (some cid) =
      by_form cid (form_value form (str "client_secret"))
  by_method issuer endpoint form none none none =
      fail (str "client authentication failed: missing client credentials")

  unfoldable pub authenticate_client :
      Form
      → (auth_header : Option Text) → (issuer expected_endpoint : Text)
      → Action kv.State AuthenticatedClient
  unfolding method_count by_method parse_basic_auth check_registered
  authenticate_client form auth_header issuer expected_endpoint =
      let basic = parse_basic_auth verifier.base64_decode auth_header in
      do
        guard (leb (method_count form basic) 1)
            (str "client authentication failed: multiple client authentication methods presented")
        auth ←
            by_method issuer expected_endpoint form basic (form_value form (str "client_assertion"))
              (form_value form (str "client_id"))
        lift (check_registered auth)
        pure auth
