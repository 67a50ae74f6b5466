-- ===== src/Store/Codes/SingleUse.antt =====
-- Any number of token requests that hold the same authorization code, interleaved request by
-- request with each other and with the rest of the system.
use jetauth.Kv.{Kv, Entry, cas, delete, revision}
use jetauth.Store.Types.{AuthCode}
use jetauth.Store.Wire.{Wire}
use jetauth.Store.Access.{sessions, ttl_auth_code}
use jetauth.Store.Access.Effects.{kv_get_revision-found, kv_write-done, kv_write-cases}
use jetauth.Store.Codes.{code_key, get_auth_code_cas, consume_auth_code, delete_auth_code}
use jetauth.Prelude.{
  Text, All, contains, ok, err, ℕ, refl, inl, inr, true, none, some, List, [], arith, ◌+◌, ◌≤◌, ◌<◌,
  ◌≡◌, ◌≢◌, ◌⊎◌, ◌∷◌, ◌∙◌, nat_eq,
}

module _ {Payload : Type 0} (kv : Kv Payload) (wire : Wire Payload) (code : Text) where
  -- The entry of the code.
  abbrev pub entry : kv.State → Entry Payload
  entry s = kv.view s sessions (code_key code)

  -- The store, the revisions that requests in flight have read the code with, and the number of
  -- requests that have consumed it.
  pub record System : Type 0 where
    pub store : kv.State
    pub held : List ℕ
    pub redeemed : ℕ

  -- One request's step, or a step of the environment. `other` is whatever leaves the code's entry
  -- alone, and `expire` the end of its time to live. Nothing saves the code again.
  pub data Step : System → System → Type 0 where
    read :
        {y : System} (auth_code : AuthCode) (r : ℕ)
        → get_auth_code_cas kv wire code y.store ≡ ok (some (auth_code, r))
        → Step y (record y { held = r ∷ y.held })
    redeem :
        {y : System} (r : ℕ)
        → contains y.held r ≡ true
        → (consume_auth_code kv wire code r y.store).0 ≡ ok tt
        → Step y (record y {
          store = (consume_auth_code kv wire code r y.store).1;
          redeemed = y.redeemed + 1;
        })
    fail :
        {y : System} (r : ℕ) (e : Text)
        → contains y.held r ≡ true
        → (consume_auth_code kv wire code r y.store).0 ≡ err e
        → Step y (record y { store = (consume_auth_code kv wire code r y.store).1 })
    clean_up :
        {y : System} → Step y (record y { store = (delete_auth_code kv wire code y.store).1 })
    expire : {y : System} (s : kv.State) → entry s ≡ none → Step y (record y { store = s })
    other : {y : System} (s : kv.State) → entry s ≡ entry y.store → Step y (record y { store = s })

  pub data Run (start : System) : System → Type 0 where
    here : Run start start
    next : {y z : System} → Run start y → Step y z → Run start z

  -- The entry is gone, or holds the consumed marker at a later revision than `r`.
  abbrev IsSpent : ℕ → Entry Payload → Type 0
  IsSpent r e = (e ≡ none) ⊎ ((q : ℕ) × (r < q) × (e ≡ some (wire.consumed, q)))

  -- The code is as it was issued, at revision `r`, and no request has consumed it; or it is gone or
  -- consumed, and no revision that is held is the current one.
  data Phase (r : ℕ) (y : System) : Type 0 where
    live :
        (p : Payload)
        → entry y.store ≡ some (p, r)
        → All (λ h. h ≡ r) y.held
        → y.redeemed ≡ 0
        → Phase r y
    spent : IsSpent r (entry y.store) → All (λ h. h ≡ r) y.held → y.redeemed ≤ 1 → Phase r y

  held_revision : (r h : ℕ) (held : List ℕ) → All (λ x. x ≡ r) held → contains held h ≡ true → h ≡ r
  unfolding contains
  held_revision r h [] a c = cc
  held_revision r h (x ∷ held) (p, a) c = ground (arith, held_revision r h held a)

  IsSpent-revision : (r : ℕ) (e : Entry Payload) → 0 < r → IsSpent r e → revision e ≢ r
  IsSpent-revision r e positive (inl gone) = ground arith
  IsSpent-revision r e positive (inr (q, lt, marker)) = ground arith

  IsSpent-undecodable :
      (r q : ℕ) (e : Entry Payload) (p : Payload) (a : AuthCode)
      → IsSpent r e
      → e ≡ some (p, q)
      → wire.auth_code.decode p ≢ ok a
  IsSpent-undecodable r q e p a (inl gone) h d = ground arith
  IsSpent-undecodable r q e p a (inr (n, lt, marker)) h d =
      let (x, refused) = wire.consumed-refused in ground arith

  module _ (r : ℕ) (positive : 0 < r) {y : System} where
    read-Phase :
        (a : AuthCode) (q : ℕ)
        → get_auth_code_cas kv wire code y.store ≡ ok (some (a, q))
        → Phase r y
        → Phase r (record y { held = q ∷ y.held })
    unfolding get_auth_code_cas
    read-Phase a q h (live p e held none_yet) =
        let (p', e', d) =
          kv_get_revision-found kv wire.auth_code sessions (code_key code) y.store a q h in
        live p e (ground arith, held) none_yet
    read-Phase a q h (spent gone held once) =
        let (p', e', d) =
          kv_get_revision-found kv wire.auth_code sessions (code_key code) y.store a q h in
        absurd (IsSpent-undecodable r q (entry y.store) p' a gone e' d)

    redeem-Phase :
        (h : ℕ)
        → contains y.held h ≡ true
        → (consume_auth_code kv wire code h y.store).0 ≡ ok tt
        → Phase r y
        → Phase r (record y {
          store = (consume_auth_code kv wire code h y.store).1;
          redeemed = y.redeemed + 1;
        })
    unfolding consume_auth_code
    redeem-Phase h c done (live p e held none_yet) =
        let (q, (same, lt, new)) = kv_write-done kv _ sessions (code_key code) y.store done in
        let is_r : h ≡ r = held_revision r h y.held held c in
        spent (inr (q, ground arith, new)) held (omega arith)
    redeem-Phase h c done (spent gone held once) =
        let (q, (same, lt, new)) = kv_write-done kv _ sessions (code_key code) y.store done in
        let is_r : h ≡ r = held_revision r h y.held held c in
        absurd (IsSpent-revision r (entry y.store) positive gone (same ∙ is_r))

    fail-Phase :
        (h : ℕ)
        → contains y.held h ≡ true
        → Phase r y
        → Phase r (record y { store = (consume_auth_code kv wire code h y.store).1 })
    unfolding consume_auth_code
    fail-Phase h c (live p e held none_yet) =
        elim (kv_write-cases kv (cas wire.consumed h (some ttl_auth_code)) sessions (code_key code)
          y.store) [
            | inl same ↦ live p (same ∙ e) held none_yet
            | inr (q, (old, lt, new)) ↦
                let is_r : h ≡ r = held_revision r h y.held held c in
                spent (inr (q, ground arith, new)) held (omega arith)
          ]
    fail-Phase h c (spent gone held once) =
        elim (kv_write-cases kv (cas wire.consumed h (some ttl_auth_code)) sessions (code_key code)
          y.store) [
            | inl same ↦ spent (rw same gone) held once
            | inr (q, (old, lt, new)) ↦
                let is_r : h ≡ r = held_revision r h y.held held c in
                absurd (IsSpent-revision r (entry y.store) positive gone (old ∙ is_r))
          ]

    clean_up-Phase :
        Phase r y → Phase r (record y { store = (delete_auth_code kv wire code y.store).1 })
    unfolding delete_auth_code
    clean_up-Phase (live p e held none_yet) =
        elim (kv_write-cases kv delete sessions (code_key code) y.store) [
          | inl same ↦ live p (same ∙ e) held none_yet
          | inr (q, gone) ↦ spent (inl gone) held (omega arith)
        ]
    clean_up-Phase (spent gone held once) =
        elim (kv_write-cases kv delete sessions (code_key code) y.store) [
          | inl same ↦ spent (rw same gone) held once
          | inr (q, nothing) ↦ spent (inl nothing) held once
        ]

    expire-Phase : (s : kv.State) → entry s ≡ none → Phase r y → Phase r (record y { store = s })
    expire-Phase s gone (live p e held none_yet) = spent (inl gone) held (omega arith)
    expire-Phase s gone (spent _ held once) = spent (inl gone) held once

    other-Phase :
        (s : kv.State) → entry s ≡ entry y.store → Phase r y → Phase r (record y { store = s })
    other-Phase s same (live p e held none_yet) = live p (same ∙ e) held none_yet
    other-Phase s same (spent gone held once) = spent (rw same gone) held once

  Step-Phase : (r : ℕ) → 0 < r → {y z : System} → Step y z → Phase r y → Phase r z
  Step-Phase r positive (read a q h) phase = read-Phase r positive a q h phase
  Step-Phase r positive (redeem h c done) phase = redeem-Phase r positive h c done phase
  Step-Phase r positive (fail h x c failed) phase = fail-Phase r positive h c phase
  Step-Phase r positive clean_up phase = clean_up-Phase r positive phase
  Step-Phase r positive (expire s gone) phase = expire-Phase r positive s gone phase
  Step-Phase r positive (other s same) phase = other-Phase r positive s same phase

  Run-Phase : (r : ℕ) → 0 < r → {y z : System} → Run y z → Phase r y → Phase r z
  Run-Phase r positive here phase = phase
  Run-Phase r positive (next run step) phase =
      Step-Phase r positive step (Run-Phase r positive run phase)

  -- The code as it stands when it has been issued, before any token request.
  abbrev pub issued : kv.State → System
  issued s = record { store = s; held = []; redeemed = 0 }

  -- However many token requests read and consume a code, and in whatever order their steps and
  -- those of the environment come, at most one of them consumes it with success.
  pub redeemed-le-one :
      (s : kv.State) (p : Payload) (r : ℕ) {y : System}
      → entry s ≡ some (p, r)
      → 0 < r
      → Run (issued s) y
      → y.redeemed ≤ 1
  redeemed-le-one s p r e positive run = elim (Run-Phase r positive run (live p e tt refl)) [
    | live _ _ _ none_yet ↦ omega arith
    | spent _ _ once ↦ once
  ]
