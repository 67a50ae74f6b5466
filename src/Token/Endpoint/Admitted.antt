-- ===== src/Token/Endpoint/Admitted.antt =====
-- What a request to the token endpoint of oidc-gateway/src/token.rs has passed where it is answered
-- with tokens.
use jetauth.Prelude.{Text, str, ok, ℕ, true, false, Option, none, some, ◌≡◌, ◌⊎◌, ◌++◌, text_eq}
use jetauth.Kv.{Kv}
use jetauth.Util.Query.{form_value, parse_form, check_no_duplicates}
use jetauth.Store.Wire.{Wire}
use jetauth.Abuse.{check_rate}
use jetauth.ClientAuth.{AuthenticatedClient, Verifier}
use jetauth.ClientAuth.Proved.{IsProved}
use jetauth.Dpop.{validate_dpop_proof}
use jetauth.Token.Types.{Host, Request, TokenResponse, tokens}
use jetauth.Token.Code.{handle_code_exchange}
use jetauth.Token.Rotation.{handle_refresh}
use jetauth.Token.ClientCredentials.{handle_client_credentials}
use jetauth.Token.Device.{handle_device_code}
use jetauth.Token.Revoke.{is_unproved}
use jetauth.Token.Endpoint.{Arrival, request_of, device_grant, rate_key}

module _ {Payload : Type 0} (kv : Kv Payload) (wire : Wire Payload) (host : Host kv.State)
    (verifier : Verifier) where
  -- One of the grants has answered the request with the tokens.
  abbrev pub Grants :
      (absolute_max : ℕ)
      → Request
      → (auth_method grant_type : Text) → TokenResponse
      → kv.State
      → Type 0
  Grants absolute_max req auth_method grant_type t s =
      ((grant_type ≡ str "authorization_code")
        × ((handle_code_exchange kv wire host req s).0 ≡ ok (tokens t)))
      ⊎ (((grant_type ≡ str "refresh_token")
            × ((handle_refresh kv wire host absolute_max req s).0 ≡ ok (tokens t)))
          ⊎ (((grant_type ≡ str "client_credentials")
                × ((handle_client_credentials host req auth_method s).0 ≡ ok (tokens t)))
              ⊎ ((grant_type ≡ device_grant)
                  × ((handle_device_code kv wire host req s).0 ≡ ok (tokens t)))))

  -- The key that the grant binds its tokens to is that of the proof, which has been accepted.
  abbrev pub IsBoundBy : Arrival → Option Text → Option Text → Type 0
  IsBoundBy arrival none jkt = jkt ≡ none
  IsBoundBy arrival (some proof) jkt =
      (key : Text) × (s : kv.State) × (jkt ≡ some key)
      × ((validate_dpop_proof kv wire verifier.crypto arrival.proof_now proof (str "POST")
            (arrival.issuer ++ str "/token") none s).0
          ≡ ok key)

  -- What a request has passed.
  abbrev pub Admitted : Arrival → TokenResponse → Type 0
  Admitted arrival t =
      (check_no_duplicates (parse_form arrival.body) ≡ ok tt)
      × (grant_type : Text) × (auth : AuthenticatedClient) × (jkt : Option Text) × (left : ℕ)
      × (s : kv.State) × (form_value (parse_form arrival.body) (str "grant_type") ≡ some grant_type)
      × IsBoundBy arrival arrival.dpop_header jkt
      × IsProved kv wire verifier arrival.client_now arrival.issuer (str "/token") auth
      × (is_unproved auth.client auth.auth_method ≡ false)
      × ((check_rate kv wire arrival.rate_now (rate_key kv wire host verifier auth.client) 100 60
            s).0
          ≡ ok (true, left))
      × Grants arrival.absolute_max (request_of arrival auth.client jkt) auth.auth_method grant_type
          t
          (check_rate kv wire arrival.rate_now (rate_key kv wire host verifier auth.client) 100 60
            s).1

  -- What the tests behind the proof leave.
  abbrev Served : Arrival → Text → Option Text → TokenResponse → Type 0
  Served arrival grant_type jkt t =
      (auth : AuthenticatedClient) × (left : ℕ) × (s : kv.State) × IsProved kv wire verifier
        arrival.client_now arrival.issuer (str "/token") auth
      × (is_unproved auth.client auth.auth_method ≡ false)
      × ((check_rate kv wire arrival.rate_now (rate_key kv wire host verifier auth.client) 100 60
            s).0
          ≡ ok (true, left))
      × Grants arrival.absolute_max (request_of arrival auth.client jkt) auth.auth_method grant_type
          t
          (check_rate kv wire arrival.rate_now (rate_key kv wire host verifier auth.client) 100 60
            s).1
