-- ===== src/Token/Code/Checks.antt =====
-- What `handle_code_exchange` of oidc-gateway/src/token.rs tests of an authorization code.
use jetauth.Prelude.{
  Text, str, is_empty, text_beq_iff, ok, ℕ, refl, true, false, Option, none, some, [], arith, ◌≤◌,
  ◌≡◌, ◌≢◌, ◌↔◌, ◌∷◌, text_eq, nat_eq,
}
use jetauth.Store.Types.{AuthCode, OidcClient}
use jetauth.Token.Types.{Host, verify_pkce}
use jetauth.Token.Code.{check_pkce, check_auth_code}

module _ {State : Type 0} (host : Host State) where
  -- A challenge that was made with S256, and a verifier whose hash it is.
  abbrev pub IsProved : AuthCode → Option Text → Type 0
  IsProved auth_code code_verifier =
      (auth_code.code_challenge ≢ [])
      × (auth_code.code_challenge_method ≡ str "S256")
      × (verifier : Text) × (code_verifier ≡ some verifier)
      × (host.base64url (host.sha256 verifier) ≡ auth_code.code_challenge)

  -- A code that this client may redeem with this redirect URI and verifier.
  abbrev pub IsRedeemable : OidcClient → Text → Option Text → ℕ → AuthCode → Type 0
  IsRedeemable client redirect_uri code_verifier now auth_code =
      (auth_code.client_id ≡ client.client_id)
      × (auth_code.redirect_uri ≡ redirect_uri)
      × (now ≤ auth_code.expires_at)
      × (auth_code.pending_consent ≡ false)
      × IsProved auth_code code_verifier

  verify_pkce_iff :
      (verifier challenge method : Text)
      → (verify_pkce host verifier challenge method ≡ true)
        ↔ ((method ≡ str "S256") × (host.base64url (host.sha256 verifier) ≡ challenge))
  unfolding verify_pkce
  verify_pkce_iff verifier challenge method = ground (
    arith,
    text_beq_iff method (str "S256"),
    text_beq_iff (host.base64url (host.sha256 verifier)) challenge,
  )

  is_empty_iff : (t : Text) → (is_empty t ≡ true) ↔ (t ≡ [])
  is_empty_iff [] = ground arith
  is_empty_iff (c ∷ t) = ground arith

  check_pkce_sound :
      (auth_code : AuthCode) (v : Option Text)
      → check_pkce host auth_code v ≡ ok tt
      → IsProved auth_code v
  unfolding check_pkce
  check_pkce_sound auth_code none h = ground (arith, is_empty_iff auth_code.code_challenge)
  check_pkce_sound auth_code (some v) h =
      let (some_challenge, verified) : (auth_code.code_challenge ≢ [])
          × (verify_pkce host v auth_code.code_challenge auth_code.code_challenge_method ≡ true) =
        ground (arith, is_empty_iff auth_code.code_challenge) in
      let (s256, hash) =
        (verify_pkce_iff v auth_code.code_challenge auth_code.code_challenge_method).0 verified in
      (some_challenge, s256, v, refl, hash)

  check_pkce_complete :
      (auth_code : AuthCode) (v : Option Text)
      → IsProved auth_code v
      → check_pkce host auth_code v ≡ ok tt
  unfolding check_pkce
  check_pkce_complete auth_code none (_, _, x, e, _) = cc
  check_pkce_complete auth_code (some v) (n, s256, x, e, hash) =
      let verified : verify_pkce host v auth_code.code_challenge auth_code.code_challenge_method
          ≡ true =
        (verify_pkce_iff v auth_code.code_challenge auth_code.code_challenge_method).1
          (s256, ground arith) in
      ground (arith, is_empty_iff auth_code.code_challenge)

  -- The tests pass exactly where the code was issued to this client for this redirect URI, has not
  -- expired, waits for no consent, and carries an S256 challenge that the form's verifier hashes to.
  pub check_auth_code_iff :
      (client : OidcClient) (redirect_uri : Text) (code_verifier : Option Text) (now : ℕ)
      (auth_code : AuthCode)
      → (check_auth_code host client redirect_uri code_verifier now auth_code ≡ ok tt)
        ↔ IsRedeemable client redirect_uri code_verifier now auth_code
  unfolding check_auth_code
  check_auth_code_iff client redirect_uri v now auth_code = (
    λ h.
        let (same, uri, live, granted, pkce) : (auth_code.client_id ≡ client.client_id)
            × (auth_code.redirect_uri ≡ redirect_uri)
            × (now ≤ auth_code.expires_at)
            × (auth_code.pending_consent ≡ false)
            × (check_pkce host auth_code v ≡ ok tt) =
          ground (
            arith,
            text_beq_iff auth_code.client_id client.client_id,
            text_beq_iff auth_code.redirect_uri redirect_uri,
          ) in
        (same, uri, live, granted, check_pkce_sound auth_code v pkce),
    λ (same, uri, live, granted, proved). ground (
      arith,
      check_pkce_complete auth_code v proved,
      text_beq_iff auth_code.client_id client.client_id,
      text_beq_iff auth_code.redirect_uri redirect_uri,
    ),
  )
