-- ===== src/Kv.antt =====
-- The key-value service (jetcache) that oidc-gateway/src/store.rs talks to over TCP: what the
-- program relies on, as an interface. `Payload` stands for the bytes of a stored value.
pub mod Memory
use jetauth.Prelude.{
  Text, str, starts_with, contains_text, All, contains, Result, ok, err, ℕ, true, Option, none,
  some, List, ◌<◌, ◌≡◌, ◌≢◌, ◌⊎◌, text_eq,
}

abbrev pub Entry : Type 0 → Type 0
Entry Payload = Option (Payload × ℕ)

-- The requests that change an entry, with the seconds to live where one is asked for: `put`,
-- `create`, `cas` with the revision that is expected, `delete`, `cas_delete`.
pub data Write (Payload : Type 0) : Type 0 where
  put create : Payload → Option ℕ → Write Payload
  cas : Payload → ℕ → Option ℕ → Write Payload
  delete : Write Payload
  cas_delete : ℕ → Write Payload

-- The revision of an entry, 0 if there is none.
abbrev pub revision : {Payload : Type 0} → Entry Payload → ℕ
revision none = 0
revision (some (_, r)) = r

-- What a write that succeeds with a revision has done to its entry.
abbrev pub Applies : {Payload : Type 0} → Write Payload → ℕ → Entry Payload → Entry Payload → Type 0
Applies (put v _) r old new = (revision old < r) × (new ≡ some (v, r))
Applies (create v _) r old new = (old ≡ none) × (0 < r) × (new ≡ some (v, r))
Applies (cas v expected _) r old new =
    (revision old ≡ expected) × (expected < r) × (new ≡ some (v, r))
Applies delete r old new = new ≡ none
Applies {Payload} (cas_delete expected) r old new =
    ((v : Payload) × (old ≡ some (v, expected))) × (new ≡ none)

-- A table's name holds no colon.
abbrev pub IsTable : Text → Type 0
IsTable t = All (λ c. c ≢ b':') t

pub record Kv (Payload : Type 0) : Type 1 where
  pub State : Type 0
  -- The entry of a key of a table, as it stands.
  pub view : State → Text → Text → Entry Payload
  -- `get`, and any write, with the state after it: a request may also fail.
  pub get : Text → Text → State → Result (Payload × ℕ)
  pub write : Write Payload → Text → Text → State → Result ℕ × State
  -- The keys of a table that begin with a prefix.
  pub prefix_keys : Text → Text → State → Result (List Text)
  pub get_found :
      (t k : Text) (s : State) (p : Payload × ℕ) → get t k s ≡ ok p → view s t k ≡ some p
  pub get_missing :
      (t k : Text) (s : State) (e : Text)
      → get t k s ≡ err e
      → contains_text e (str "not found") ≡ true
      → view s t k ≡ none
  pub write_done :
      (w : Write Payload) (t k : Text) (s : State) (r : ℕ)
      → (write w t k s).0 ≡ ok r
      → Applies w r (view s t k) (view (write w t k s).1 t k)
  -- A request that fails has done nothing, or its answer was lost.
  pub write_failed :
      (w : Write Payload) (t k : Text) (s : State) (e : Text)
      → (write w t k s).0 ≡ err e
      → (view (write w t k s).1 t k ≡ view s t k)
        ⊎ ((r : ℕ) × Applies w r (view s t k) (view (write w t k s).1 t k))
  -- A write touches no other key of its table, and no other table.
  pub write_frame :
      (w : Write Payload) (t k j : Text) (s : State)
      → k ≢ j
      → view (write w t k s).1 t j ≡ view s t j
  pub write_tables :
      (w : Write Payload) (t u k j : Text) (s : State)
      → IsTable t
      → IsTable u
      → t ≢ u
      → view (write w t k s).1 u j ≡ view s u j
  -- Every key that is there and begins with the prefix is listed.
  pub prefix_listed :
      (t p k : Text) (s : State) (ks : List Text)
      → prefix_keys t p s ≡ ok ks
      → starts_with k p ≡ true
      → view s t k ≢ none
      → contains ks k ≡ true
