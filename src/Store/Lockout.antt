-- ===== src/Store/Lockout.antt =====
-- "Account lockout operations" of oidc-gateway/src/store.rs.
pub mod Locks
pub mod Counts
use jetauth.Prelude.{
  Text, str, contains_text, ltb, leb, Result, ok, err, ℕ, zero, suc, Bool, true, false, Option,
  none, some, ◌+◌, ◌%◌, ◌^◌, ◌&&◌, ◌||◌, ◌++◌, if◌then◌else◌, text_eq, nat_eq,
}
use jetauth.Kv.{Kv, create, cas, delete}
use jetauth.Action.{Action}
use jetauth.Store.Types.{LoginAttempts}
use jetauth.Store.Wire.{Wire}
use jetauth.Store.Access.{kv_get, kv_get_revision, kv_write, sessions}

abbrev pub ttl_lockout : ℕ
ttl_lockout = 3600

abbrev pub lockout_key : Text → Text
lockout_key user_id = str "lockout:" ++ user_id

abbrev pub is_locked_at : ℕ → Option LoginAttempts → Bool
is_locked_at now none = false
is_locked_at now (some a) = ltb now a.locked_until

-- The configured policy: `max_login_failures()` and `lockout_duration()`.
pub record Policy : Type 0 where
  pub max_failures : ℕ
  pub duration : ℕ

abbrev pub no_attempts : LoginAttempts
no_attempts = record { failures = 0; locked_until = 0 }

-- A lock that is over starts the count afresh.
unfoldable pub reset_if_over : ℕ → LoginAttempts → LoginAttempts
reset_if_over now a = if ltb 0 a.locked_until && leb a.locked_until now then no_attempts else a

-- One failure more, on 32 bits, and whether it locks the account.
unfoldable pub count_failure : Policy → ℕ → LoginAttempts → LoginAttempts × Bool
count_failure policy now a =
    let failures = (a.failures + 1) % 2 ^ 32 in
    if leb policy.max_failures failures
    then (record { failures = failures; locked_until = now + policy.duration }, true)
    else (record a { failures = failures }, false)

module _ {Payload : Type 0} (kv : Kv Payload) (wire : Wire Payload) where
  abbrev pub with_time : ℕ → Result (Option LoginAttempts) → Result Bool
  with_time now (ok o) = ok (is_locked_at now o)
  with_time now (err e) = err e

  unfoldable pub is_account_locked : Text → (now : ℕ) → kv.State → Result Bool
  is_account_locked user_id now s =
      with_time now (kv_get kv wire.attempts sessions (lockout_key user_id) s)

  abbrev pub attempts_or : Option (LoginAttempts × ℕ) → LoginAttempts × ℕ
  attempts_or none = (no_attempts, 0)
  attempts_or (some read) = read

  -- The write, by the revision that was read: 0 where there was no entry.
  unfoldable pub write_attempts : Text → LoginAttempts → ℕ → Action kv.State (Unit {0})
  write_attempts user_id a zero =
      kv_write kv (create (wire.attempts.encode a) (some ttl_lockout)) sessions
        (lockout_key user_id)
  write_attempts user_id a (suc r) =
      kv_write kv (cas (wire.attempts.encode a) (suc r) (some ttl_lockout)) sessions
        (lockout_key user_id)

  abbrev pub is_conflict : Text → Bool
  is_conflict e =
      contains_text e (str "revision mismatch") || contains_text e (str "already exists")

  -- What follows the write of one attempt; `more` tells whether another may follow.
  abbrev pub settle :
      (locked more : Bool)
      → (next : Action kv.State Bool) → Result (Unit {0}) × kv.State
      → Result Bool × kv.State
  settle locked more next (ok _, s) = (ok locked, s)
  settle locked more next (err e, s) =
      if is_conflict e && more then next s else (err (str "record_failed_login: " ++ e), s)

  -- `clock` is what `unix_now` gives at the two places that call it.
  abbrev pub attempt :
      Policy
      → (clock : ℕ → ℕ) → (user_id : Text) → (more : Bool) → (next : Action kv.State Bool)
      → Result (Option (LoginAttempts × ℕ))
      → Action kv.State Bool
  attempt policy clock user_id more next (err e) s = (err e, s)
  attempt policy clock user_id more next (ok o) s =
      let (attempts, revision) = attempts_or o in
      let (counted, locked) = count_failure policy (clock 1) (reset_if_over (clock 0) attempts) in
      settle locked more next (write_attempts user_id counted revision s)

  -- The loop, with the attempts that are left; the clock of each attempt is numbered by them.
  unfoldable pub record_failure_from :
      Policy → (clock : ℕ → ℕ → ℕ) → (user_id : Text) → ℕ → Action kv.State Bool
  unfolding count_failure reset_if_over write_attempts
  record_failure_from policy clock user_id zero s =
      (err (str "record_failed_login: too many retries"), s)
  record_failure_from policy clock user_id (suc left) s =
      attempt policy (clock left) user_id (ltb 0 left)
        (record_failure_from policy clock user_id left)
        (kv_get_revision kv wire.attempts sessions (lockout_key user_id) s) s

  unfoldable pub record_failed_login :
      Policy → (clock : ℕ → ℕ → ℕ) → (user_id : Text) → Action kv.State Bool
  unfolding record_failure_from
  record_failed_login policy clock user_id = record_failure_from policy clock user_id 5

  unfoldable pub clear_login_attempts : Text → Action kv.State (Unit {0})
  clear_login_attempts user_id = kv_write kv delete sessions (lockout_key user_id)
