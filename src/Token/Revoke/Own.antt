-- ===== src/Token/Revoke/Own.antt =====
-- Whose tokens `handle_revoke` of oidc-gateway/src/token.rs revokes.
use jetauth.Prelude.{
  Text, str, text_beq_iff, ok, refl, sym, ap, Bool, true, false, none, some, arith, ◌≡◌, ◌≢◌, ◌∙◌,
  ◌==◌, text_eq,
}
use jetauth.Kv.{Kv, delete}
use jetauth.Action.{pure, ◌>>◌, bind-ok, bind-success}
use jetauth.Util.Query.{Form, form_value, check_no_duplicates}
use jetauth.Store.Types.{OidcClient, RefreshEntry}
use jetauth.Store.Wire.{Wire}
use jetauth.Store.Access.{sessions}
use jetauth.Store.Access.Effects.{kv_write-done}
use jetauth.Store.Refresh.{refresh_key, get_refresh_token, delete_refresh_token}
use jetauth.Token.Types.{Host, hex_sha256}
use jetauth.Token.Revoke.{
  no_content, is_unproved, is_access_hint, revoke_if, revoke_refresh, revoke_for, handle_revoke,
}

module _ {Payload : Type 0} (kv : Kv Payload) (wire : Wire Payload) (host : Host kv.State)
    (form : Form) (client : OidcClient) (auth_method token : Text) (s : kv.State) where
  abbrev hash : Text
  hash = hex_sha256 host token

  handle_revoke-refresh :
      check_no_duplicates form ≡ ok tt
      → form_value form (str "token") ≡ some token
      → is_unproved client auth_method ≡ false
      → handle_revoke kv wire host form (ok (client, auth_method)) s
        ≡ (revoke_refresh kv wire host
                (is_access_hint (form_value form (str "token_type_hint")))
                client
                token
              >> pure no_content)
            s
  unfolding handle_revoke revoke_for
  handle_revoke-refresh distinct has_token proved = rw (distinct, has_token, proved) refl

  -- A request of an admitted client to revoke a refresh token that stands in the store for another
  -- client is answered with 200 and leaves the store as it is.
  pub handle_revoke-foreign :
      (entry : RefreshEntry)
      → check_no_duplicates form ≡ ok tt
      → form_value form (str "token") ≡ some token
      → is_unproved client auth_method ≡ false
      → get_refresh_token kv wire hash s ≡ ok (some entry)
      → entry.client_id ≢ client.client_id
      → handle_revoke kv wire host form (ok (client, auth_method)) s ≡ (ok no_content, s)
  unfolding revoke_refresh revoke_if
  handle_revoke-foreign entry distinct has_token proved stored foreign =
      handle_revoke-refresh distinct has_token proved ∙ by_hint (is_access_hint _)
    where
      other : (entry.client_id == client.client_id) ≡ false
      other = ground (arith, text_beq_iff entry.client_id client.client_id)

      untouched : revoke_refresh kv wire host false client token s ≡ (ok tt, s)
      untouched = bind-ok _ _ s {a = some entry} stored ∙ rw other refl

      by_hint :
          (b : Bool)
          → (revoke_refresh kv wire host b client token >> pure no_content) s ≡ (ok no_content, s)
      by_hint true = bind-ok _ _ s refl
      by_hint false =
          bind-ok _ _ s {a = tt} (ap (λ x. x.0) untouched)
          ∙ ap (λ x. (ok no_content, x.1)) untouched

  delete_refresh_token-gone :
      (delete_refresh_token kv wire hash s).0 ≡ ok tt
      → kv.view (delete_refresh_token kv wire hash s).1 sessions (refresh_key hash) ≡ none
  unfolding delete_refresh_token
  delete_refresh_token-gone h =
      bind-success (λ t. kv.view t sessions (refresh_key hash) ≡ none) _ _ s h
        (λ _ _ k. (kv_write-done kv delete sessions (refresh_key hash) _ k).1)

  own_deleted :
      (entry : RefreshEntry)
      → get_refresh_token kv wire hash s ≡ ok (some entry)
      → entry.client_id ≡ client.client_id
      → revoke_refresh kv wire host false client token s ≡ delete_refresh_token kv wire hash s
  unfolding revoke_refresh revoke_if
  own_deleted entry stored own =
      bind-ok _ _ s {a = some entry} stored
      ∙ rw ((text_beq_iff entry.client_id client.client_id).1 own) refl

  -- A refresh token of the client, revoked with success and without the hint of an access token, is
  -- gone from the store.
  pub handle_revoke-own :
      (entry : RefreshEntry)
      → check_no_duplicates form ≡ ok tt
      → form_value form (str "token") ≡ some token
      → form_value form (str "token_type_hint") ≡ none
      → is_unproved client auth_method ≡ false
      → get_refresh_token kv wire hash s ≡ ok (some entry)
      → entry.client_id ≡ client.client_id
      → (handle_revoke kv wire host form (ok (client, auth_method)) s).0 ≡ ok no_content
      → kv.view
          (handle_revoke kv wire host form (ok (client, auth_method)) s).1
          sessions
          (refresh_key hash)
        ≡ none
  handle_revoke-own entry distinct has_token no_hint proved stored own h =
      let runs : handle_revoke kv wire host form (ok (client, auth_method)) s
          ≡ (revoke_refresh kv wire host false client token >> pure no_content) s =
        rw no_hint at handle_revoke-refresh distinct has_token proved in
      rw runs (
        bind-success (λ t. kv.view t sessions (refresh_key hash) ≡ none)
          (revoke_refresh kv wire host false client token) _ s (ap (λ x. x.0) (sym runs) ∙ h)
          (λ _ done _. rw (own_deleted entry stored own) (
            delete_refresh_token-gone (ap (λ x. x.0) (sym (own_deleted entry stored own)) ∙ done))))
