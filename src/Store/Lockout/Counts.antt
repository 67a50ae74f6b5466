-- ===== src/Store/Lockout/Counts.antt =====
-- How many failed logins in a row `record_failed_login` of oidc-gateway/src/store.rs lets pass
-- without a lock.
use jetauth.Prelude.{Text, Result, ok, ℕ, suc, Bool, false, none, ◌+◌, ◌^◌, ◌≤◌, ◌<◌, ◌≡◌, ◌⊎◌}
use jetauth.Kv.{Kv}
use jetauth.Store.Types.{LoginAttempts}
use jetauth.Store.Wire.{Wire}
use jetauth.Store.Lockout.{Policy, record_failed_login}
use jetauth.Store.Lockout.Locks.{entry, Holds}

module _ {Payload : Type 0} (kv : Kv Payload) (wire : Wire Payload) (user_id : Text)
    (policy : Policy) (from : ℕ) where
  -- A clock that stays within the policy's time of a lock.
  abbrev pub IsWithin : (ℕ → ℕ → ℕ) → Type 0
  IsWithin clock =
      (left place : ℕ) → (from ≤ clock left place) × (clock left place < from + policy.duration)

  -- So many failed logins in a row that no lock was answered to, from a store without an entry of
  -- the user; between them comes whatever leaves the entry alone.
  pub data Misses : ℕ → kv.State → Type 0 where
    start : (s : kv.State) → entry kv wire user_id s ≡ none → Misses 0 s
    miss :
        {n : ℕ} {s : kv.State} (clock : ℕ → ℕ → ℕ)
        → IsWithin clock
        → Misses n s
        → (record_failed_login kv wire policy clock user_id s).0 ≡ ok false
        → Misses (suc n) (record_failed_login kv wire policy clock user_id s).1
    other :
        {n : ℕ} {s : kv.State} (t : kv.State)
        → entry kv wire user_id t ≡ entry kv wire user_id s
        → Misses n s
        → Misses n t

  -- The attempts count the misses, with room for the attempts that are left, and no lock of theirs
  -- ends within the clock's range.
  abbrev Counts : (n left : ℕ) → LoginAttempts → Type 0
  Counts n left a =
      (n ≤ a.failures)
      × (a.failures + left < policy.max_failures + 5)
      × ((a.locked_until ≡ 0) ⊎ (from + policy.duration ≤ a.locked_until))

  abbrev Invariant : (n left : ℕ) → kv.State → Type 0
  Invariant n left s =
      ((entry kv wire user_id s ≡ none) × (n ≡ 0))
      ⊎ ((a : LoginAttempts) × Holds kv wire user_id a s × Counts n left a)

  module _ (positive : 0 < policy.max_failures) (bound : policy.max_failures + 5 < 2 ^ 32) where
    -- A miss from here on counts one more.
    abbrev Missed : ℕ → Result Bool × kv.State → Type 0
    Missed n out = out.0 ≡ ok false → Invariant (suc n) 5 out.1
