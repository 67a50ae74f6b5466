-- ===== src/Store/Refresh.antt =====
-- "Refresh token operations" of oidc-gateway/src/store.rs, and the revocation markers.
pub mod Revocation
use jetauth.Kv.{Kv, put, cas, delete}
use jetauth.Action.{Action, pure, ignore, reads, ◌>>=◌, ◌>>◌}
use jetauth.Store.Types.{RefreshEntry}
use jetauth.Store.Wire.{Wire}
use jetauth.Store.Access.{
  kv_get, kv_get_revision, kv_write, is_not_found, sessions, ttl_refresh_token, ttl_consumed_marker,
  ttl_revocation_marker,
}
use jetauth.Prelude.{
  Text, str, starts_with, length, ltb, Result, ok, err, ℕ, Bool, true, false, Option, none, some,
  List, [], strip_prefix, ◌+◌, ◌*◌, ◌/◌, ◌%◌, ◌^◌, ◌∷◌, ◌++◌, ◌==◌, if◌then◌else◌, nat_eq,
}

abbrev pub refresh_key : Text → Text
refresh_key token_hash = str "refresh:" ++ token_hash

abbrev pub index_prefix : Text → Text
index_prefix user_id = str "refresh_idx:" ++ (user_id ++ str ":")

abbrev pub index_key : Text → Text → Text
index_key user_id token_hash = index_prefix user_id ++ token_hash

abbrev pub consumed_key : Text → Text
consumed_key token_hash = str "consumed:" ++ token_hash

abbrev pub revoked_key : Text → Text
revoked_key user_id = str "revoked:user:" ++ user_id

-- `n.to_be_bytes()` and `u64::from_be_bytes`
unfoldable pub to_be_bytes : ℕ → Text
to_be_bytes n =
    n / 2 ^ 56 % 256
    ∷ n / 2 ^ 48 % 256
    ∷ n / 2 ^ 40 % 256
    ∷ n / 2 ^ 32 % 256
    ∷ n / 2 ^ 24 % 256
    ∷ n / 2 ^ 16 % 256
    ∷ n / 2 ^ 8 % 256
    ∷ n % 256
    ∷ []

unfoldable pub from_be_bytes : ℕ → Text → ℕ
from_be_bytes acc [] = acc
from_be_bytes acc (b ∷ bs) = from_be_bytes (acc * 256 + b) bs

-- The marker's test in `is_user_revoked`.
unfoldable pub revokes : ℕ → Text → Bool
unfolding from_be_bytes
revokes iat marker = if length marker == 8 then ltb iat (from_be_bytes 0 marker) else true

module _ {Payload : Type 0} (kv : Kv Payload) (wire : Wire Payload) where
  unfoldable pub save_refresh_token : Text → RefreshEntry → Action kv.State (Unit {0})
  save_refresh_token token_hash entry =
      kv_write kv (put (wire.refresh.encode entry) (some ttl_refresh_token)) sessions
        (refresh_key token_hash)
      >> kv_write kv (put (wire.raw (1 ∷ [])) (some ttl_refresh_token)) sessions
          (index_key entry.user_id token_hash)

  unfoldable pub get_refresh_token : Text → kv.State → Result (Option RefreshEntry)
  get_refresh_token token_hash = kv_get kv wire.refresh sessions (refresh_key token_hash)

  abbrev pub deserialize_is_none :
      Result (Option (RefreshEntry × ℕ)) → Result (Option (RefreshEntry × ℕ))
  deserialize_is_none (ok v) = ok v
  deserialize_is_none (err e) = if starts_with e (str "deserialize:") then ok none else err e

  unfoldable pub get_refresh_token_cas : Text → kv.State → Result (Option (RefreshEntry × ℕ))
  get_refresh_token_cas token_hash s =
      deserialize_is_none (kv_get_revision kv wire.refresh sessions (refresh_key token_hash) s)

  unfoldable pub consume_refresh_token : Text → ℕ → Text → Action kv.State (Unit {0})
  consume_refresh_token token_hash rev user_id =
      kv_write kv (cas (wire.consumed_by user_id) rev (some ttl_consumed_marker)) sessions
        (refresh_key token_hash)

  unfoldable pub mark_refresh_consumed : Text → Text → Action kv.State (Unit {0})
  mark_refresh_consumed token_hash user_id =
      kv_write kv (put (wire.raw user_id) (some ttl_consumed_marker)) sessions
        (consumed_key token_hash)

  -- `kv_get_raw`
  abbrev pub raw_value : Text → Result (Payload × ℕ) → Result (Option Payload)
  raw_value key (ok (p, _)) = ok (some p)
  raw_value key (err e) =
      if is_not_found e then ok none else err (str "get " ++ (key ++ (str ": " ++ e)))

  unfoldable pub kv_get_raw : Text → Text → kv.State → Result (Option Payload)
  kv_get_raw table key s = raw_value key (kv.get table key s)

  abbrev pub or_marker : Result (Option Payload) → Result (Option Payload) → Result (Option Text)
  or_marker (err e) entry = err e
  or_marker (ok (some p)) entry = ok (some (wire.bytes p))
  or_marker (ok none) (err e) = err e
  or_marker (ok none) (ok none) = ok none
  or_marker (ok none) (ok (some p)) = ok (wire.marker_user p)

  -- The marker of its own key, or else the one that the consumption left in the entry.
  unfoldable pub get_consumed_refresh : Text → kv.State → Result (Option Text)
  unfolding kv_get_raw
  get_consumed_refresh token_hash s =
      or_marker (kv_get_raw sessions (consumed_key token_hash) s)
        (kv_get_raw sessions (refresh_key token_hash) s)

  -- `if let Ok(Some(entry)) = …`
  unfoldable pub unindex : Text → Result (Option RefreshEntry) → Action kv.State (Unit {0})
  unindex token_hash (ok (some entry)) =
      ignore (kv_write kv delete sessions (index_key entry.user_id token_hash))
  unindex token_hash (ok none) = pure tt
  unindex token_hash (err _) = pure tt

  unfoldable pub delete_refresh_token : Text → Action kv.State (Unit {0})
  unfolding get_refresh_token unindex
  delete_refresh_token token_hash s =
      (unindex token_hash (get_refresh_token token_hash s)
          >> kv_write kv delete sessions (refresh_key token_hash))
        s

  unfoldable pub revoke_user_sessions : Text → ℕ → Action kv.State (Unit {0})
  revoke_user_sessions user_id now =
      kv_write kv (put (wire.raw (to_be_bytes now)) (some ttl_revocation_marker)) sessions
        (revoked_key user_id)

  abbrev pub revoked_at : ℕ → Result (Option Payload) → Result Bool
  revoked_at iat (err e) = err e
  revoked_at iat (ok none) = ok false
  revoked_at iat (ok (some p)) = ok (revokes iat (wire.bytes p))

  unfoldable pub is_user_revoked : Text → ℕ → kv.State → Result Bool
  unfolding kv_get_raw revokes
  is_user_revoked user_id iat s = revoked_at iat (kv_get_raw sessions (revoked_key user_id) s)

  -- One round of the loop of `delete_user_refresh_tokens`: the key's token hash, if it has one.
  unfoldable pub delete_indexed : Text → Option Text → Action kv.State ℕ
  delete_indexed key none = pure 0
  delete_indexed key (some []) = pure 0
  delete_indexed key (some (c ∷ token_hash)) = do
    ignore (kv_write kv delete sessions (refresh_key (c ∷ token_hash)))
    ignore (kv_write kv delete sessions key)
    pure 1

  -- The loop, with the count of the tokens as a 32-bit number.
  unfoldable pub delete_all : Text → ℕ → List Text → Action kv.State ℕ
  unfolding delete_indexed
  delete_all prefix count [] = pure count
  delete_all prefix count (key ∷ keys) = delete_indexed key (strip_prefix prefix key) >>= λ n.
      delete_all prefix ((count + n) % 2 ^ 32) keys

  unfoldable pub delete_user_refresh_tokens : Text → ℕ → Action kv.State ℕ
  unfolding delete_all revoke_user_sessions
  delete_user_refresh_tokens user_id now = do
    keys ← reads (kv.prefix_keys sessions (index_prefix user_id))
    count ← delete_all (index_prefix user_id) 0 keys
    revoke_user_sessions user_id now
    pure count
