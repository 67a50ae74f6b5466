-- ===== src/Token/Revoke.antt =====
-- Token revocation: `handle_revoke` of oidc-gateway/src/token.rs, behind the authentication of the
-- client. The audit log, which other keys hold, is left out.
pub mod Own
use jetauth.Prelude.{
  Text, str, Result, ok, err, ℕ, Bool, true, false, Option, none, some, ◌&&◌, ◌||◌, ◌==◌,
  if◌then◌else◌, text_eq,
}
use jetauth.Kv.{Kv}
use jetauth.Action.{Action, pure, reads, ◌>>=◌, ◌>>◌}
use jetauth.Util.Query.{Form, form_value, check_no_duplicates}
use jetauth.Store.Types.{OidcClient, RefreshEntry}
use jetauth.Store.Wire.{Wire}
use jetauth.Store.Refresh.{get_refresh_token, delete_refresh_token}
use jetauth.Token.Types.{Host, hex_sha256}
use jetauth.Token.ClientCredentials.{is_some}

-- The answer: 200 without a body, or an error.
pub data Answer : Type 0 where
  no_content : Answer
  refused : (status : ℕ) (error description : Text) → Answer

-- The client of the request, with its authentication method, if it is known.
abbrev pub Authenticated : Type 0
Authenticated = Result (OidcClient × Text)

-- A confidential client that has not authenticated itself.
unfoldable pub is_unproved : OidcClient → (auth_method : Text) → Bool
is_unproved client auth_method =
    (is_some client.client_secret || is_some client.jwks) && auth_method == str "none"

abbrev pub is_access_hint : Option Text → Bool
is_access_hint none = false
is_access_hint (some hint) = hint == str "access_token"

abbrev pub failed : Answer
failed = refused 401 (str "invalid_client") (str "client authentication failed")

module _ {Payload : Type 0} (kv : Kv Payload) (wire : Wire Payload) (host : Host kv.State) where
  -- A token of another client is left alone.
  unfoldable pub revoke_if : Bool → Text → Action kv.State (Unit {0})
  revoke_if true hash = delete_refresh_token kv wire hash
  revoke_if false hash = pure tt

  abbrev pub is_own : OidcClient → Option RefreshEntry → Bool
  is_own client none = false
  is_own client (some entry) = entry.client_id == client.client_id

  unfoldable pub revoke_refresh : Bool → OidcClient → Text → Action kv.State (Unit {0})
  unfolding revoke_if
  revoke_refresh true client token = pure tt
  revoke_refresh false client token = do
    found ← reads (get_refresh_token kv wire (hex_sha256 host token))
    revoke_if (is_own client found) (hex_sha256 host token)

  unfoldable pub revoke_for :
      Authenticated → (token : Text) (hint : Option Text) → Action kv.State Answer
  unfolding revoke_refresh is_unproved
  revoke_for (err e) token hint s = (ok failed, s)
  revoke_for (ok (client, auth_method)) token hint s =
      if is_unproved client auth_method
      then (ok failed, s)
      else (revoke_refresh (is_access_hint hint) client token >> pure no_content) s

  abbrev with_token : Authenticated → Option Text → Option Text → Action kv.State Answer
  with_token who none hint s =
      (ok (refused 400 (str "invalid_request") (str "missing token parameter")), s)
  with_token who (some token) hint s = revoke_for who token hint s

  abbrev pub checked : Authenticated → Form → Result (Unit {0}) → Action kv.State Answer
  checked who form (err e) s = (ok (refused 400 (str "invalid_request") e), s)
  checked who form (ok _) s =
      with_token who (form_value form (str "token")) (form_value form (str "token_type_hint")) s

  unfoldable pub handle_revoke : Form → Authenticated → Action kv.State Answer
  unfolding revoke_for
  handle_revoke form who = checked who form (check_no_duplicates form)
