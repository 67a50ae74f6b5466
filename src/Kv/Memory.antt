-- ===== src/Kv/Memory.antt =====
-- The in-memory service that the tests of oidc-gateway/src/store.rs run against
-- (`handle_test_ldb_request`).
pub mod Laws
use jetauth.Kv.{Write, put, create, cas, delete, cas_delete, revision}
use jetauth.Prelude.{
  Text, str, starts_with, Result, ok, err, ℕ, Option, none, some, List, [], strip_prefix, ◌+◌, ◌∷◌,
  ◌++◌, ◌==◌, if◌then◌else◌, nat_eq, text_eq,
}

-- `HashMap<String, (String, u64)>`: the newest entry of a key stands in front.
abbrev pub Table : Type 0 → Type 0
Table Payload = List (Text × (Payload × ℕ))

abbrev pub full_key : Text → Text → Text
full_key table key = table ++ b':' ∷ key

module _ {Payload : Type 0} where
  unfoldable pub find : Text → Table Payload → Option (Payload × ℕ)
  find k [] = none
  find k ((j, v) ∷ m) = if j == k then some v else find k m

  unfoldable pub remove : Text → Table Payload → Table Payload
  remove k [] = []
  remove k ((j, v) ∷ m) = let rest = remove k m in if j == k then rest else (j, v) ∷ rest

  unfoldable pub insert : Text → Payload × ℕ → Table Payload → Table Payload
  unfolding remove
  insert k v m = (k, v) ∷ remove k m

abbrev pub cons_some : Option Text → List Text → List Text
cons_some none ks = ks
cons_some (some k) ks = k ∷ ks

module _ {Payload : Type 0} where
  abbrev or_missing : Option (Payload × ℕ) → Result (Payload × ℕ)
  or_missing none = err (str "not found")
  or_missing (some p) = ok p

  -- "get"
  unfoldable pub get : Text → Text → Table Payload → Result (Payload × ℕ)
  get table key m = or_missing (find (full_key table key) m)

  -- "put", "create", "cas", "delete" and "cas_delete", given the entry of the key. A response
  -- without a revision is read as revision 0.
  unfoldable pub write_at :
      Write Payload → Text → Option (Payload × ℕ) → Table Payload → Result ℕ × Table Payload
  write_at (put v _) k old m = let r = revision old + 1 in (ok r, insert k (v, r) m)
  write_at (create v _) k none m = (ok 1, insert k (v, 1) m)
  write_at (create v _) k (some _) m = (err (str "already exists"), m)
  write_at (cas v expected _) k none m =
      if expected == 0
      then (ok (expected + 1), insert k (v, expected + 1) m)
      else (err (str "revision mismatch"), m)
  write_at (cas v expected _) k (some (_, current)) m =
      if current == expected
      then (ok (expected + 1), insert k (v, expected + 1) m)
      else (err (str "revision mismatch"), m)
  write_at delete k old m = (ok 0, remove k m)
  write_at (cas_delete expected) k none m = (err (str "not found"), m)
  write_at (cas_delete expected) k (some (_, current)) m =
      if current == expected then (ok 0, remove k m) else (err (str "revision mismatch"), m)

  unfoldable pub write : Write Payload → Text → Text → Table Payload → Result ℕ × Table Payload
  unfolding write_at insert
  write w table key m = write_at w (full_key table key) (find (full_key table key) m) m

  -- "keys" and "prefix": the keys that match, without the table's name.
  unfoldable pub matching : Text → Text → Table Payload → List Text
  matching table prefix [] = []
  matching table prefix ((k, _) ∷ m) =
      let rest = matching table prefix m in
      if starts_with k (full_key table prefix)
      then cons_some (strip_prefix (table ++ b':' ∷ []) k) rest
      else rest

  unfoldable pub prefix_keys : Text → Text → Table Payload → Result (List Text)
  unfolding matching
  prefix_keys table prefix m = ok (matching table prefix m)
