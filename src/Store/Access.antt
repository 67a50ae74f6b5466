-- ===== src/Store/Access.antt =====
-- The typed requests of oidc-gateway/src/store.rs: `kv_get`, `kv_get_revision`, `kv_set_ttl`,
-- `kv_cas_swap_ttl` and their like.
pub mod Effects
use jetauth.Prelude.{
  Text, str, contains_text, Result, ok, err, ℕ, Bool, Option, none, some, ◌*◌, ◌++◌, if◌then◌else◌,
  text_eq,
}
use jetauth.Kv.{Kv, Write}
use jetauth.Action.{Action}
use jetauth.Store.Wire.{Serde}

abbrev pub is_not_found : Text → Bool
is_not_found e = contains_text e (str "not found")

-- The tables, and the seconds that their values live.
abbrev pub users : Text
users = str "users"

abbrev pub user_idx : Text
user_idx = str "user-idx"

abbrev pub sessions : Text
sessions = str "sessions"

abbrev pub memberships : Text
memberships = str "memberships"

abbrev pub clients : Text
clients = str "clients"

abbrev pub ttl_auth_code : ℕ
ttl_auth_code = 300

abbrev pub ttl_refresh_token : ℕ
ttl_refresh_token = 86400 * 30

abbrev pub ttl_consumed_marker : ℕ
ttl_consumed_marker = 86400 * 30

abbrev pub ttl_revocation_marker : ℕ
ttl_revocation_marker = 86400 * 30

abbrev without_revision : {A : Type 0} → Result (Option (A × ℕ)) → Result (Option A)
without_revision (ok none) = ok none
without_revision (ok (some (a, _))) = ok (some a)
without_revision (err e) = err e

module _ {Payload A : Type 0} where
  -- The value of a response, or the error of its deserialisation.
  abbrev decoded : Serde Payload A → Payload × ℕ → Result (Option (A × ℕ))
  decoded serde (p, r) = elim (serde.decode p) [
    | ok a ↦ ok (some (a, r))
    | err e ↦ err (str "deserialize: " ++ e)
  ]

  abbrev found : Serde Payload A → Text → Result (Payload × ℕ) → Result (Option (A × ℕ))
  found serde key (ok response) = decoded serde response
  found serde key (err e) =
      if is_not_found e then ok none else err (str "get " ++ (key ++ (str ": " ++ e)))

abbrev done : Result ℕ → Result (Unit {0})
done (ok _) = ok tt
done (err e) = err e

module _ {Payload : Type 0} (kv : Kv Payload) where
  module _ {A : Type 0} (serde : Serde Payload A) where
    unfoldable pub kv_get_revision : Text → Text → kv.State → Result (Option (A × ℕ))
    kv_get_revision table key s = found serde key (kv.get table key s)

    -- The same without the revision.
    unfoldable pub kv_get : Text → Text → kv.State → Result (Option A)
    unfolding kv_get_revision
    kv_get table key s = without_revision (kv_get_revision table key s)

  -- A write whose revision the caller drops.
  unfoldable pub kv_write : Write Payload → Text → Text → Action kv.State (Unit {0})
  kv_write w table key s = (done (kv.write w table key s).0, (kv.write w table key s).1)
