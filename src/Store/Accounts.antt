-- ===== src/Store/Accounts.antt =====
-- "User operations" of oidc-gateway/src/store.rs: registration with its index of addresses, and the
-- updates under compare-and-swap.
pub mod Registered
use jetauth.Prelude.{
  Text, str, starts_with, ltb, Result, ok, err, ℕ, zero, suc, Bool, not, Option, none, some, ◌&&◌,
  ◌||◌, ◌++◌, ◌==◌, if◌then◌else◌, text_eq,
}
use jetauth.Kv.{Kv, put, create, cas, delete}
use jetauth.Action.{Action, pure, fail, reads, ignore, ◌>>=◌, ◌>>◌}
use jetauth.Store.Types.{User}
use jetauth.Store.Wire.{Wire}
use jetauth.Store.Access.{kv_get_revision, kv_write, users, user_idx, sessions}
use jetauth.Store.Users.{user_key}
use jetauth.Store.OneTime.{is_mismatch, is_taken}

abbrev is_federated : User → Bool
is_federated u =
    starts_with u.password_hash (str "social:") || starts_with u.password_hash (str "scim:")

-- A user who has still to prove the address starts as pending.
unfoldable pub initial_user : (require_verification : Bool) → User → User
initial_user require_verification u =
    if u.status == str "active" && not u.superadmin && not (is_federated u) && require_verification
    then record u { status = str "pending" }
    else u

-- `hmac_email` keys the index; the HMAC is of another crate.
module _ {Payload : Type 0} (kv : Kv Payload) (wire : Wire Payload) (hmac_email : Text → Text) where
  abbrev pub email_key : Text → Text
  email_key email = str "email:" ++ hmac_email email

  abbrev pub index_or_roll_back : User → Result (Unit {0}) × kv.State → Result (Unit {0}) × kv.State
  index_or_roll_back u (ok _, s) = (ok tt, s)
  index_or_roll_back u (err e, s) =
      if is_taken e
      then (ignore (kv_write kv delete users (user_key u.id))
            >> fail (str "email already registered"))
          s
      else (err e, s)

  -- The index of the address decides: it is created only if there is none.
  abbrev pub index_user : User → Action kv.State (Unit {0})
  index_user u s =
      index_or_roll_back u
        (kv_write kv (create (wire.raw u.id) none) user_idx (email_key u.email) s)

  unfoldable pub create_user : (require_verification : Bool) → User → Action kv.State (Unit {0})
  unfolding initial_user
  create_user require_verification user =
      let u = initial_user require_verification user in
      kv_write kv (put (wire.user.encode u) none) users (user_key u.id) >> index_user u

  unfoldable pub get_user_cas : Text → kv.State → Result (Option (User × ℕ))
  get_user_cas id = kv_get_revision kv wire.user users (user_key id)

  unfoldable pub update_user_cas : User → ℕ → Action kv.State (Unit {0})
  update_user_cas user revision =
      kv_write kv (cas (wire.user.encode user) revision none) users (user_key user.id)

  -- What the closure of an update answers: the user to commit, or none for no change.
  abbrev pub Modify : Type 0
  Modify = User → Result (Option User)

  abbrev pub settle_update :
      (more : Bool)
      → (next : Action kv.State (Unit {0})) → Result (Unit {0}) × kv.State
      → Result (Unit {0}) × kv.State
  settle_update more next (ok _, s) = (ok tt, s)
  settle_update more next (err e, s) = if is_mismatch e && more then next s else (err e, s)

  abbrev pub commit :
      (more : Bool)
      → (next : Action kv.State (Unit {0})) → ℕ
      → Result (Option User)
      → Action kv.State (Unit {0})
  commit more next revision (err e) s = (err e, s)
  commit more next revision (ok none) s = (ok tt, s)
  commit more next revision (ok (some user)) s =
      settle_update more next (update_user_cas user revision s)

  abbrev pub try_update :
      Modify
      → (more : Bool) → (next : Action kv.State (Unit {0})) → Result (Option (User × ℕ))
      → Action kv.State (Unit {0})
  try_update modify more next (err e) s = (err e, s)
  try_update modify more next (ok none) s = (err (str "user not found"), s)
  try_update modify more next (ok (some (user, revision))) s =
      commit more next revision (modify user) s

  unfoldable pub update_from : Text → Modify → ℕ → Action kv.State (Unit {0})
  unfolding get_user_cas update_user_cas
  update_from user_id modify zero s = (err (str "update_user_rmw: too many retries"), s)
  update_from user_id modify (suc left) s =
      try_update modify (ltb 0 left) (update_from user_id modify left) (get_user_cas user_id s) s

  unfoldable pub update_user_rmw : Text → Modify → Action kv.State (Unit {0})
  unfolding update_from
  update_user_rmw user_id modify = update_from user_id modify 5

  abbrev pub superadmin_key : Text
  superadmin_key = str "meta:has_superadmin"

  abbrev first_wins : Result (Unit {0}) × kv.State → Result (Unit {0}) × kv.State
  first_wins (ok _, s) = (ok tt, s)
  first_wins (err e, s) = (if is_taken e then ok tt else err e, s)

  unfoldable pub set_superadmin_flag : Bool → Action kv.State (Unit {0})
  set_superadmin_flag val s =
      first_wins (kv_write kv (create (wire.flag.encode val) none) sessions superadmin_key s)
