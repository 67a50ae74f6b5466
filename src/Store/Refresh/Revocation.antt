-- ===== src/Store/Refresh/Revocation.antt =====
-- The revocation marker of a user: `revoke_user_sessions` and `is_user_revoked` of
-- oidc-gateway/src/store.rs.
use jetauth.Prelude.{
  Text, ltb, Result, ok, err, ℕ, refl, ap, inl, inr, Bool, Option, none, some, arith, ◌^◌, ◌<◌, ◌≡◌,
  ◌⊎◌, nat_eq, text_eq,
}
use jetauth.Kv.{Kv}
use jetauth.Store.Wire.{Wire}
use jetauth.Store.Access.{sessions}
use jetauth.Store.Access.Effects.{kv_write-done}
use jetauth.Store.Refresh.{
  to_be_bytes, from_be_bytes, revokes, revoked_key, kv_get_raw, revoke_user_sessions,
  is_user_revoked, raw_value, revoked_at,
}

from_be_bytes-to_be_bytes : (n : ℕ) → n < 2 ^ 64 → from_be_bytes 0 (to_be_bytes n) ≡ n
unfolding from_be_bytes to_be_bytes
from_be_bytes-to_be_bytes n h = omega arith

-- The eight bytes of a 64-bit time read back as that time: the marker revokes what was issued
-- before it.
pub revokes-to_be_bytes : (iat n : ℕ) → n < 2 ^ 64 → revokes iat (to_be_bytes n) ≡ ltb iat n
unfolding revokes to_be_bytes
revokes-to_be_bytes iat n h = ap (ltb iat) (from_be_bytes-to_be_bytes n h)

module _ {Payload : Type 0} (kv : Kv Payload) (wire : Wire Payload) where
  -- What `kv_get_raw` says of the entry.
  pub kv_get_raw_ok :
      (t k : Text) (s : kv.State) (o : Option Payload)
      → kv_get_raw kv wire t k s ≡ ok o
      → ((kv.view s t k ≡ none) × (o ≡ none))
        ⊎ ((p : Payload) × (r : ℕ) × (kv.view s t k ≡ some (p, r)) × (o ≡ some p))
  unfolding kv_get_raw
  kv_get_raw_ok t k s o h = inspect (kv.get t k s) refl h
    where
      inspect :
          (g : Result (Payload × ℕ))
          → kv.get t k s ≡ g
          → raw_value kv wire k g ≡ ok o
          → ((kv.view s t k ≡ none) × (o ≡ none))
            ⊎ ((p : Payload) × (r : ℕ) × (kv.view s t k ≡ some (p, r)) × (o ≡ some p))
      inspect (ok (p, r)) e g = inr (p, r, kv.get_found t k s (p, r) e, ground arith)
      inspect (err x) e g = inl (ground (arith, kv.get_missing t k s x e))

  -- A stored marker decides.
  pub is_user_revoked-marker :
      (user_id : Text) (iat n q : ℕ) (s : kv.State) (b : Bool)
      → n < 2 ^ 64
      → kv.view s sessions (revoked_key user_id) ≡ some (wire.raw (to_be_bytes n), q)
      → is_user_revoked kv wire user_id iat s ≡ ok b
      → b ≡ ltb iat n
  unfolding is_user_revoked
  is_user_revoked-marker user_id iat n q s b h v e =
      inspect (kv_get_raw kv wire sessions (revoked_key user_id) s) refl e
    where
      inspect :
          (o : Result (Option Payload))
          → kv_get_raw kv wire sessions (revoked_key user_id) s ≡ o
          → revoked_at kv wire iat o ≡ ok b
          → b ≡ ltb iat n
      inspect (err x) g a = cc
      inspect (ok o) g a = elim (kv_get_raw_ok sessions (revoked_key user_id) s o g) [
        | inl (gone, _) ↦ absurd (ground arith)
        | inr (p, r, found, same) ↦
            let bytes : wire.bytes p ≡ to_be_bytes n =
              let b1 = wire.bytes-raw (to_be_bytes n) in ground arith in
            let answer : ok (revokes iat (wire.bytes p)) ≡ ok b = rw same at a in
            let answer2 : ok (revokes iat (to_be_bytes n)) ≡ ok b = rw bytes at answer in
            let read = revokes-to_be_bytes iat n h in cc
      ]

  -- After a revocation that succeeds at a 64-bit time `now`, the answer for a token of the user is whether it
  -- was issued before `now`, whatever the marker was before.
  pub is_user_revoked-revoke_user_sessions :
      (user_id : Text) (iat now : ℕ) (s : kv.State) (b : Bool)
      → now < 2 ^ 64
      → (revoke_user_sessions kv wire user_id now s).0 ≡ ok tt
      → is_user_revoked kv wire user_id iat (revoke_user_sessions kv wire user_id now s).1 ≡ ok b
      → b ≡ ltb iat now
  unfolding revoke_user_sessions
  is_user_revoked-revoke_user_sessions user_id iat now s b h done e =
      let (q, (_, new)) = kv_write-done kv _ sessions (revoked_key user_id) s done in
      is_user_revoked-marker user_id iat now q _ b h new e
