-- ===== src/Store/Accounts/Registered.antt =====
-- What `create_user` of oidc-gateway/src/store.rs does to the index of addresses.
use jetauth.Prelude.{
  Text, str, Bool-cases, Result, ok, err, ℕ, refl, sym, ap, inl, inr, Bool, false, none, some, [],
  arith, ◌<◌, ◌≡◌, ◌≢◌, ◌||◌, ◌∷◌, ◌∙◌, ◌==◌, if◌then◌else◌, text_eq, nat_eq,
}
use jetauth.Kv.{Kv, Entry, put, create, delete, IsTable, Write}
use jetauth.Action.{bind-eq-ok, bind-ok, ignore, fail, ◌>>◌}
use jetauth.Store.Types.{User}
use jetauth.Store.Wire.{Wire}
use jetauth.Store.Access.{kv_write, users, user_idx}
use jetauth.Store.Access.Effects.{kv_write-done, kv_write-tables}
use jetauth.Store.Users.{user_key}
use jetauth.Store.OneTime.{is_taken}
use jetauth.Store.Accounts.{create_user, initial_user, email_key, index_user, index_or_roll_back}

-- A name without a colon, found by evaluation.
has_colon : Text → Bool
has_colon [] = false
has_colon (c ∷ t) = c == b':' || has_colon t

no_colon-IsTable : (t : Text) → has_colon t ≡ false → IsTable t
unfolding has_colon
no_colon-IsTable [] h = tt
no_colon-IsTable (c ∷ t) h = ((λ e. ground arith), no_colon-IsTable t (ground arith))

users-IsTable : IsTable users
unfolding has_colon
users-IsTable = no_colon-IsTable users refl

user_idx-IsTable : IsTable user_idx
unfolding has_colon
user_idx-IsTable = no_colon-IsTable user_idx refl

users-user_idx : users ≢ user_idx
users-user_idx e = cc

module _ {Payload : Type 0} (kv : Kv Payload) (wire : Wire Payload) (hmac_email : Text → Text) where
  -- The index entry of an address, and the record of a user.
  abbrev pub index : Text → kv.State → Entry Payload
  index email s = kv.view s user_idx (email_key kv wire hmac_email email)

  abbrev pub stored : Text → kv.State → Entry Payload
  stored id s = kv.view s users (user_key id)

  -- The index entry stays through a write to the table of users.
  index-users :
      (w : Write Payload) (id email : Text) (s : kv.State)
      → index email (kv_write kv w users (user_key id) s).1 ≡ index email s
  index-users w id email s =
      kv_write-tables kv w users (user_key id) s user_idx (email_key kv wire hmac_email email)
        users-IsTable user_idx-IsTable users-user_idx

  stored-index :
      (w : Write Payload) (email id : Text) (s : kv.State)
      → stored id (kv_write kv w user_idx (email_key kv wire hmac_email email) s).1 ≡ stored id s
  stored-index w email id s =
      kv_write-tables kv w user_idx (email_key kv wire hmac_email email) s users (user_key id)
        user_idx-IsTable users-IsTable (λ e. users-user_idx (sym e))

  -- What a registration with success has done, and where it started from.
  abbrev pub Registers : User → (before after : kv.State) → Type 0
  Registers u before after =
      (index u.email before ≡ none)
      × (q : ℕ) × (index u.email after ≡ some (wire.raw u.id, q))
      × (r : ℕ) × (stored u.id after ≡ some (wire.user.encode u, r))

  created :
      (u : User) (s : kv.State)
      → (index_user kv wire hmac_email u s).0 ≡ ok tt
      → (index u.email s ≡ none)
        × (q : ℕ) × (index u.email (index_user kv wire hmac_email u s).1 ≡ some (wire.raw u.id, q))
        × (stored u.id (index_user kv wire hmac_email u s).1 ≡ stored u.id s)
  created u s h =
      inspect
        (kv_write kv (create (wire.raw u.id) none) user_idx (email_key kv wire hmac_email u.email)
          s)
        (kv_write-done kv (create (wire.raw u.id) none) user_idx
          (email_key kv wire hmac_email u.email) s)
        (stored-index (create (wire.raw u.id) none) u.email u.id s) h
    where
      inspect :
          (out : Result (Unit {0}) × kv.State)
          → (out.0 ≡ ok tt
              → (r : ℕ) × ((index u.email s ≡ none)
                  × (0 < r)
                  × (index u.email out.1 ≡ some (wire.raw u.id, r))))
          → stored u.id out.1 ≡ stored u.id s
          → (index_or_roll_back kv wire hmac_email u out).0 ≡ ok tt
          → (index u.email s ≡ none)
            × (q : ℕ) × (index u.email (index_or_roll_back kv wire hmac_email u out).1
                ≡ some (wire.raw u.id, q))
            × (stored u.id (index_or_roll_back kv wire hmac_email u out).1 ≡ stored u.id s)
      inspect (ok x, t) done kept e = let (r, (old, _, new)) = done refl in (old, r, new, kept)
      inspect (err x, t) done kept e = elim (Bool-cases (is_taken x)) [
        | inl taken ↦
            let ended : ((ignore (kv_write kv delete users (user_key u.id))
                    >> fail (str "email already registered"))
                  t).0
                ≡ ok tt =
              ap
                (λ b.
                  (if b
                    then (ignore (kv_write kv delete users (user_key u.id))
                          >> fail (str "email already registered"))
                        t
                    else (err x, t)).0)
                (sym taken)
              ∙ e in
            let (_, _, failed) =
              bind-eq-ok (ignore (kv_write kv delete users (user_key u.id)))
                (λ _. fail (str "email already registered")) t ended in
            absurd (ground arith)
        | inr failed ↦ absurd (ground arith)
      ]

  -- A registration that succeeds has found its address free, and leaves the index of the address
  -- with the user's identifier and the user's record as it was prepared.
  pub create_user-Registers :
      (require_verification : Bool) (user : User) (s : kv.State)
      → (create_user kv wire hmac_email require_verification user s).0 ≡ ok tt
      → Registers
          (initial_user require_verification user)
          s
          (create_user kv wire hmac_email require_verification user s).1
  unfolding create_user
  create_user-Registers require_verification user s h =
      let u = initial_user require_verification user in
      let saves = kv_write kv (put (wire.user.encode u) none) users (user_key u.id) in
      let (x, saved, rest) = bind-eq-ok saves (λ _. index_user kv wire hmac_email u) s h in
      let (free, q, indexed, kept) = created u (saves s).1 rest in
      let (r, (_, record_is)) = kv_write-done kv _ users (user_key u.id) s saved in
      rw (bind-ok saves (λ _. index_user kv wire hmac_email u) s saved)
        (sym (index-users _ u.id u.email s) ∙ free, q, indexed, r, kept ∙ record_is)
