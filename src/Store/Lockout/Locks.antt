-- ===== src/Store/Lockout/Locks.antt =====
-- What `record_failed_login` of oidc-gateway/src/store.rs leaves behind, and what
-- `is_account_locked` then says.
use jetauth.Prelude.{
  Text, leb, Result, ok, err, ℕ, zero, suc, inl, inr, Bool, true, some, ◌+◌, ◌≡◌, ◌⊎◌,
}
use jetauth.Kv.{Kv, create, cas, Entry}
use jetauth.Store.Types.{LoginAttempts}
use jetauth.Store.Wire.{Wire}
use jetauth.Store.Access.{sessions}
use jetauth.Store.Access.Effects.{kv_write-done, kv_write-cases}
use jetauth.Store.Lockout.{Policy, write_attempts, lockout_key}

module _ {Payload : Type 0} (kv : Kv Payload) (wire : Wire Payload) (user_id : Text) where
  abbrev pub entry : kv.State → Entry Payload
  entry s = kv.view s sessions (lockout_key user_id)

  -- The entry holds these attempts.
  abbrev pub Holds : LoginAttempts → kv.State → Type 0
  Holds a s = (p : Payload) × (q : ℕ) × (entry s ≡ some (p, q)) × (wire.attempts.decode p ≡ ok a)

  Holds-new :
      (a : LoginAttempts) (q : ℕ) (s : kv.State)
      → entry s ≡ some (wire.attempts.encode a, q)
      → Holds a s
  Holds-new a q s e = (_, q, e, wire.attempts.decode-encode a)

  pub write_attempts-done :
      (a : LoginAttempts) (revision : ℕ) (s : kv.State)
      → (write_attempts kv wire user_id a revision s).0 ≡ ok tt
      → Holds a (write_attempts kv wire user_id a revision s).1
  unfolding write_attempts
  write_attempts-done a zero s done =
      let (q, (_, _, new)) = kv_write-done kv _ sessions (lockout_key user_id) s done in
      Holds-new a q _ new
  write_attempts-done a (suc r) s done =
      let (q, (_, _, new)) = kv_write-done kv _ sessions (lockout_key user_id) s done in
      Holds-new a q _ new

  pub write_attempts-cases :
      (a : LoginAttempts) (revision : ℕ) (s : kv.State)
      → (entry (write_attempts kv wire user_id a revision s).1 ≡ entry s)
        ⊎ Holds a (write_attempts kv wire user_id a revision s).1
  unfolding write_attempts
  write_attempts-cases a zero s =
      elim (kv_write-cases kv (create (wire.attempts.encode a) (some 3600)) sessions
        (lockout_key user_id) s) [
          | inl same ↦ inl same
          | inr (q, (_, _, new)) ↦ inr (Holds-new a q _ new)
        ]
  write_attempts-cases a (suc r) s =
      elim (kv_write-cases kv (cas (wire.attempts.encode a) (suc r) (some 3600)) sessions
        (lockout_key user_id) s) [
          | inl same ↦ inl same
          | inr (q, (_, _, new)) ↦ inr (Holds-new a q _ new)
        ]

  -- The answer is what the attempts that are stored then say: a lock from the policy's number of
  -- failures on, for the policy's time from one of the clock's readings.
  abbrev pub Says : Policy → (ℕ → ℕ → ℕ) → Bool → LoginAttempts → Type 0
  Says policy clock locked a =
      (locked ≡ leb policy.max_failures a.failures)
      × (locked ≡ true → (i : ℕ) × (a.locked_until ≡ clock i 1 + policy.duration))

  abbrev pub Told : Policy → (ℕ → ℕ → ℕ) → Result Bool × kv.State → Type 0
  Told policy clock (ok locked, s) = (a : LoginAttempts) × Holds a s × Says policy clock locked a
  Told policy clock (err e, s) = Unit
