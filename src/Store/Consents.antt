-- ===== src/Store/Consents.antt =====
-- "Persistent User Consent Grants" of oidc-gateway/src/store.rs, without the listing.
pub mod Granted
use jetauth.Prelude.{
  Text, str, is_empty, contains, Result, ok, err, ℕ, Bool, true, false, not, Option, none, some,
  List, [], split_whitespace, ◌&&◌, ◌∷◌, ◌++◌, if◌then◌else◌, text_eq,
}
use jetauth.Kv.{Kv, put, delete}
use jetauth.Action.{Action, reads, ◌>>=◌}
use jetauth.Store.Types.{UserConsent}
use jetauth.Store.Wire.{Wire}
use jetauth.Store.Access.{kv_get, kv_write, users}
use jetauth.Abuse.{trim_start, trim_end}

abbrev pub consent_key : Text → Text → Text
consent_key user_id client_id = str "consent:" ++ (user_id ++ (b':' ∷ client_id))

-- One round of the loop: a scope that is new goes to the end.
unfoldable pub add_scope : List Text → Text → List Text
unfolding trim_start trim_end
add_scope scopes s =
    let trimmed = trim_end (trim_start s) in
    if not (is_empty trimmed) && not (contains scopes trimmed)
    then scopes ++ (trimmed ∷ [])
    else scopes

unfoldable pub add_scopes : List Text → List Text → List Text
unfolding add_scope
add_scopes scopes [] = scopes
add_scopes scopes (s ∷ new_scopes) = add_scopes (add_scope scopes s) new_scopes

abbrev pub scopes_of : Option UserConsent → List Text
scopes_of none = []
scopes_of (some existing) = existing.scopes

unfoldable pub all_granted : List Text → List Text → Bool
all_granted scopes [] = true
all_granted scopes (req ∷ requested) = contains scopes req && all_granted scopes requested

abbrev pub covers : Text → Option UserConsent → Bool
covers requested none = false
covers requested (some consent) = all_granted consent.scopes (split_whitespace requested)

module _ {Payload : Type 0} (kv : Kv Payload) (wire : Wire Payload) where
  unfoldable pub get_user_consent : Text → Text → kv.State → Result (Option UserConsent)
  get_user_consent user_id client_id = kv_get kv wire.consent users (consent_key user_id client_id)

  abbrev pub record_of : Text → Text → List Text → ℕ → UserConsent
  record_of user_id client_id scopes now = record {
    user_id = user_id;
    client_id = client_id;
    scopes = scopes;
    granted_at = now;
    updated_at = now;
  }

  unfoldable pub save_user_consent :
      (now : ℕ) (user_id client_id : Text) → List Text → Action kv.State (Unit {0})
  unfolding get_user_consent add_scopes
  save_user_consent now user_id client_id new_scopes = do
    existing ← reads (get_user_consent user_id client_id)
    kv_write kv
        (put
          (wire.consent.encode
            (record_of user_id client_id (add_scopes (scopes_of existing) new_scopes) now))
          none)
        users (consent_key user_id client_id)

  abbrev pub covered : Text → Result (Option UserConsent) → Result Bool
  covered requested (ok o) = ok (covers requested o)
  covered requested (err e) = err e

  -- A consent covers a request for no scopes at all.
  unfoldable pub has_user_consented : (user_id client_id requested : Text) → kv.State → Result Bool
  unfolding get_user_consent all_granted split_whitespace
  has_user_consented user_id client_id requested s =
      covered requested (get_user_consent user_id client_id s)

  unfoldable pub delete_user_consent : Text → Text → Action kv.State (Unit {0})
  delete_user_consent user_id client_id = kv_write kv delete users (consent_key user_id client_id)
