-- ===== src/Store/OneTime/Taken.antt =====
-- Any number of requests that take the same value of oidc-gateway/src/store.rs, interleaved with
-- each other and with the rest of the system.
use jetauth.Prelude.{
  Text, Bool-cases, Result, ok, err, ℕ, zero, suc, refl, ap, inl, inr, Bool, Option, none, some,
  arith, ◌+◌, ◌≤◌, ◌≡◌, ◌≢◌, ◌⊎◌, ◌∙◌,
}
use jetauth.Kv.{Kv, Entry, cas_delete}
use jetauth.Action.{bind-eq-ok, bind-ok}
use jetauth.Store.Wire.{Serde}
use jetauth.Store.Access.{kv_get_revision, sessions}
use jetauth.Store.Access.Effects.{kv_write-done, kv_write-cases, kv_get_revision-found}
use jetauth.Store.OneTime.{taken_or, kv_cas_delete, take, consume}

module _ {Payload : Type 0} (kv : Kv Payload) (key : Text) where
  abbrev pub entry : kv.State → Entry Payload
  entry s = kv.view s sessions key

  -- The number of values that an answer hands out.
  abbrev pub handed : {A : Type 0} → Result (Option A) → ℕ
  handed (ok (some a)) = 1
  handed (ok none) = 0
  handed (err e) = 0

  pub record System : Type 0 where
    pub store : kv.State
    pub taken : ℕ

  -- The deletion of one request that has read the value some time before, with what it answers; the
  -- end of the value's time to live; or whatever leaves the entry alone. Nothing saves the key again.
  pub data Step : System → System → Type 0 where
    deletes :
        {y : System} (lost : Text → Bool) (a : Text) (r : ℕ)
        → Step y (record {
          store = (take kv lost key (some (a, r)) y.store).1;
          taken = y.taken + handed (take kv lost key (some (a, r)) y.store).0;
        })
    expire : {y : System} (s : kv.State) → entry s ≡ none → Step y (record y { store = s })
    other : {y : System} (s : kv.State) → entry s ≡ entry y.store → Step y (record y { store = s })

  pub data Run (start : System) : System → Type 0 where
    here : Run start start
    next : {y z : System} → Run start y → Step y z → Run start z

  -- What a deletion has done: nothing is handed out unless the entry was there and is gone.
  abbrev Deletes : (s : kv.State) → ℕ → kv.State → Type 0
  Deletes s n t =
      (n ≤ 1)
      × ((n ≡ 1) → (entry s ≢ none) × (entry t ≡ none))
      × ((entry t ≡ entry s) ⊎ (entry t ≡ none))

  settled :
      {A : Type 0} (lost : Text → Bool) (a : A) (s : kv.State) (out : Result (Unit {0}) × kv.State)
      → (out.0 ≡ ok tt → (entry s ≢ none) × (entry out.1 ≡ none))
      → (entry out.1 ≡ entry s) ⊎ (entry out.1 ≡ none)
      → Deletes s (handed (taken_or lost a out).0) (taken_or lost a out).1
  settled lost a s (ok u, t) done cases = (omega arith, λ _. done refl, cases)
  settled lost a s (err e, t) done cases = elim (Bool-cases (lost e)) [
    | inl late ↦ rw late (omega arith, λ h. absurd (omega arith), cases)
    | inr failed ↦ rw failed (omega arith, λ h. absurd (omega arith), cases)
  ]

  deleted :
      (r : ℕ) (s : kv.State)
      → (kv_cas_delete kv sessions key r s).0 ≡ ok tt
      → (p : Payload) × (entry s ≡ some (p, r))
        × (entry (kv_cas_delete kv sessions key r s).1 ≡ none)
  unfolding kv_cas_delete
  deleted r s done =
      let (q, ((p, old), new)) = kv_write-done kv (cas_delete r) sessions key s done in
      (p, old, new)

  take-Deletes :
      {A : Type 0} (lost : Text → Bool) (a : A) (r : ℕ) (s : kv.State)
      → Deletes s (handed (take kv lost key (some (a, r)) s).0) (take kv lost key (some (a, r)) s).1
  unfolding kv_cas_delete
  take-Deletes lost a r s =
      settled lost a s (kv_cas_delete kv sessions key r s)
        (λ done. let (p, old, new) = deleted r s done in (λ n. ground arith, new))
        (elim (kv_write-cases kv (cas_delete r) sessions key s) [
          | inl same ↦ inl same
          | inr (q, (_, new)) ↦ inr new
        ])

  -- Nothing has been handed out, or it has once and the entry is gone.
  abbrev Invariant : System → Type 0
  Invariant y = (y.taken ≡ 0) ⊎ ((entry y.store ≡ none) × (y.taken ≤ 1))

  Deletes-Invariant :
      (y : System) (n : ℕ) (t : kv.State)
      → Deletes y.store n t
      → Invariant y
      → Invariant (record { store = t; taken = y.taken + n })
  Deletes-Invariant y zero t (le, one, cases) (inl z) = inl (omega arith)
  Deletes-Invariant y (suc n) t (le, one, cases) (inl z) = inr ((one (omega arith)).1, omega arith)
  Deletes-Invariant y zero t (le, one, inl same) (inr (gone, once)) = inr (same ∙ gone, omega arith)
  Deletes-Invariant y zero t (le, one, inr none_now) (inr (gone, once)) =
      inr (none_now, omega arith)
  Deletes-Invariant y (suc n) t (le, one, cases) (inr (gone, once)) =
      absurd ((one (omega arith)).0 gone)

  Step-Invariant : {y z : System} → Step y z → Invariant y → Invariant z
  Step-Invariant {y} (deletes lost a r) i =
      Deletes-Invariant y _ _ (take-Deletes lost a r y.store) i
  Step-Invariant (expire s gone) (inl z) = inl z
  Step-Invariant (expire s gone) (inr (_, once)) = inr (gone, once)
  Step-Invariant (other s same) (inl z) = inl z
  Step-Invariant (other s same) (inr (gone, once)) = inr (same ∙ gone, once)

  Run-Invariant : {y z : System} → Run y z → Invariant y → Invariant z
  Run-Invariant here i = i
  Run-Invariant (next run step) i = Step-Invariant step (Run-Invariant run i)

  -- However many requests have read a value and try to take it, with whatever revision, and in
  -- whatever order their steps and those of the environment come, it is handed out at most once.
  pub taken-le-one :
      (s : kv.State) {y : System} → Run (record { store = s; taken = 0 }) y → y.taken ≤ 1
  taken-le-one s run = elim (Run-Invariant run (inl refl)) [
    | inl z ↦ omega arith
    | inr (_, once) ↦ once
  ]

  -- What one request does by itself.
  abbrev Takes : {A : Type 0} → Serde Payload A → A → (before after : kv.State) → Type 0
  Takes serde a before after =
      (p : Payload) × (r : ℕ) × (entry before ≡ some (p, r))
      × (serde.decode p ≡ ok a)
      × (entry after ≡ none)

  take-eq-some :
      {A : Type 0} (lost : Text → Bool) (o : Option (A × ℕ)) (s : kv.State) {a : A}
      → (take kv lost key o s).0 ≡ ok (some a)
      → (r : ℕ) × (o ≡ some (a, r))
        × (p : Payload) × (entry s ≡ some (p, r))
        × (entry (take kv lost key o s).1 ≡ none)
  take-eq-some lost none s h = cc
  take-eq-some {A} lost (some (b, r)) s {a} h =
      inspect (kv_cas_delete kv sessions key r s) (deleted r s) h
    where
      inspect :
          (out : Result (Unit {0}) × kv.State)
          → (out.0 ≡ ok tt → (p : Payload) × (entry s ≡ some (p, r)) × (entry out.1 ≡ none))
          → (taken_or lost b out).0 ≡ ok (some a)
          → (q : ℕ) × (◌≡◌ {A = Option (A × ℕ)} (some (b, r)) (some (a, q)))
            × (p : Payload) × (entry s ≡ some (p, q))
            × (entry (taken_or lost b out).1 ≡ none)
      inspect (ok u, t) done e = let (p, old, new) = done refl in (r, ground arith, p, old, new)
      inspect (err x, t) done e = elim (Bool-cases (lost x)) [
        | inl late ↦ absurd (ground arith)
        | inr failed ↦ absurd (ground arith)
      ]

  -- A value that a request gets was there, and is gone.
  pub consume-Takes :
      {A : Type 0} (lost : Text → Bool) (serde : Serde Payload A) (s : kv.State) (a : A)
      → (consume kv lost serde key s).0 ≡ ok (some a)
      → Takes serde a s (consume kv lost serde key s).1
  unfolding consume
  consume-Takes lost serde s a h =
      let (o, read, got) =
        bind-eq-ok (λ t. (kv_get_revision kv serde sessions key t, t)) (take kv lost key) s h in
      let (r, found, _, _, new) = take-eq-some lost o s got in
      let (p', old', d) = kv_get_revision-found kv serde sessions key s a r (read ∙ ap ok found) in
      (
        p',
        r,
        old',
        d,
        rw (bind-ok (λ t. (kv_get_revision kv serde sessions key t, t)) (take kv lost key) s read)
            new,
      )
