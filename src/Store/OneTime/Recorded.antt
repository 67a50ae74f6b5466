-- ===== src/Store/OneTime/Recorded.antt =====
-- A token's identifier (`jti`) that `check_and_record_jti` of oidc-gateway/src/store.rs records.
use jetauth.Prelude.{
  Text, Result, ok, err, ℕ, refl, sym, inl, inr, Option, none, some, arith, ◌+◌, ◌≤◌, ◌≡◌, ◌≢◌, ◌⊎◌,
  ◌∙◌,
}
use jetauth.Kv.{Kv, Entry, create}
use jetauth.Store.Wire.{Wire}
use jetauth.Store.Access.{sessions}
use jetauth.Store.Access.Effects.{kv_write-done, kv_write-cases}
use jetauth.Store.OneTime.{kv_create_raw, check_and_record_jti, jti_key, replay_or}

module _ {Payload : Type 0} (kv : Kv Payload) (wire : Wire Payload) (jti : Text) where
  abbrev pub marker : kv.State → Entry Payload
  marker s = kv.view s sessions (jti_key jti)

  created :
      (key : Text) (v : Payload) (ttl : Option ℕ) (s : kv.State)
      → (kv_create_raw kv sessions key v ttl s).0 ≡ ok tt
      → (kv.view s sessions key ≡ none)
        × (kv.view (kv_create_raw kv sessions key v ttl s).1 sessions key ≢ none)
  unfolding kv_create_raw
  created key v ttl s done =
      let (q, (old, _, new)) = kv_write-done kv (create v ttl) sessions key s done in
      (old, λ e. ground arith)

  -- Whatever a create answers, an entry that stands still stands.
  stands :
      (key : Text) (v : Payload) (ttl : Option ℕ) (s : kv.State)
      → kv.view s sessions key ≢ none
      → kv.view (kv_create_raw kv sessions key v ttl s).1 sessions key ≢ none
  unfolding kv_create_raw
  stands key v ttl s h = elim (kv_write-cases kv (create v ttl) sessions key s) [
    | inl same ↦ λ e. h (sym same ∙ e)
    | inr (q, (old, _, _)) ↦ absurd (h old)
  ]

  replay_or-ok : (out : Result (Unit {0}) × kv.State) → (replay_or kv out).0 ≡ ok tt → out.0 ≡ ok tt
  replay_or-ok (ok u, s) h = refl
  replay_or-ok (err e, s) h = cc

  replay_or-state : (out : Result (Unit {0}) × kv.State) → (replay_or kv out).1 ≡ out.1
  replay_or-state (ok u, s) = refl
  replay_or-state (err e, s) = refl

  -- A `jti` that is accepted was not recorded, and is recorded then.
  pub check_and_record_jti-IsFresh :
      (now ttl : ℕ) (s : kv.State)
      → (check_and_record_jti kv wire now jti ttl s).0 ≡ ok tt
      → (marker s ≡ none) × (marker (check_and_record_jti kv wire now jti ttl s).1 ≢ none)
  unfolding check_and_record_jti
  check_and_record_jti-IsFresh now ttl s h =
      let done =
        replay_or-ok (kv_create_raw kv sessions (jti_key jti) (wire.used_at now) (some ttl) s) h in
      rw (replay_or-state (kv_create_raw kv sessions (jti_key jti) (wire.used_at now) (some ttl) s))
        (created (jti_key jti) (wire.used_at now) (some ttl) s done)

  check_and_record_jti-stands :
      (now ttl : ℕ) (s : kv.State)
      → marker s ≢ none
      → marker (check_and_record_jti kv wire now jti ttl s).1 ≢ none
  unfolding check_and_record_jti
  check_and_record_jti-stands now ttl s h =
      rw (replay_or-state (kv_create_raw kv sessions (jti_key jti) (wire.used_at now) (some ttl) s))
        (stands (jti_key jti) (wire.used_at now) (some ttl) s h)

  abbrev pub accepted_by : Result (Unit {0}) → ℕ
  accepted_by (ok _) = 1
  accepted_by (err _) = 0

  pub record System : Type 0 where
    pub store : kv.State
    pub accepted : ℕ

  -- A request that presents the `jti`, at any time and with any time to live, or what leaves its
  -- marker alone.
  pub data Step : System → System → Type 0 where
    presents :
        {y : System} (now ttl : ℕ)
        → Step y (record {
          store = (check_and_record_jti kv wire now jti ttl y.store).1;
          accepted = y.accepted + accepted_by (check_and_record_jti kv wire now jti ttl y.store).0;
        })
    other :
        {y : System} (s : kv.State) → marker s ≡ marker y.store → Step y (record y { store = s })

  pub data Run (start : System) : System → Type 0 where
    here : Run start start
    next : {y z : System} → Run start y → Step y z → Run start z

  abbrev Invariant : System → Type 0
  Invariant y = (y.accepted ≡ 0) ⊎ ((marker y.store ≢ none) × (y.accepted ≤ 1))

  presents-Invariant :
      (y : System) (out : Result (Unit {0}) × kv.State)
      → (out.0 ≡ ok tt → (marker y.store ≡ none) × (marker out.1 ≢ none))
      → (marker y.store ≢ none → marker out.1 ≢ none)
      → Invariant y
      → Invariant (record { store = out.1; accepted = y.accepted + accepted_by out.0 })
  presents-Invariant y (ok u, t) fresh keeps (inl z) = inr ((fresh refl).1, omega arith)
  presents-Invariant y (ok u, t) fresh keeps (inr (there, once)) = absurd (there (fresh refl).0)
  presents-Invariant y (err e, t) fresh keeps (inl z) = inl (omega arith)
  presents-Invariant y (err e, t) fresh keeps (inr (there, once)) = inr (keeps there, omega arith)

  Step-Invariant : {y z : System} → Step y z → Invariant y → Invariant z
  Step-Invariant {y} (presents now ttl) i =
      presents-Invariant y (check_and_record_jti kv wire now jti ttl y.store)
        (check_and_record_jti-IsFresh now ttl y.store) (check_and_record_jti-stands now ttl y.store)
        i
  Step-Invariant (other s same) (inl z) = inl z
  Step-Invariant (other s same) (inr (there, once)) = inr (λ e. there (sym same ∙ e), once)

  Run-Invariant : {y z : System} → Run y z → Invariant y → Invariant z
  Run-Invariant here i = i
  Run-Invariant (next run step) i = Step-Invariant step (Run-Invariant run i)

  -- While the marker of a `jti` does not expire, at most one of the requests that present it is
  -- accepted, in whatever order their steps and those of the environment come.
  pub accepted-le-one :
      (s : kv.State) {y : System} → Run (record { store = s; accepted = 0 }) y → y.accepted ≤ 1
  accepted-le-one s run = elim (Run-Invariant run (inl refl)) [
    | inl z ↦ omega arith
    | inr (_, once) ↦ once
  ]
