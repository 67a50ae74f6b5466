-- ===== src/Store/Access/Effects.antt =====
-- What the typed requests say of the entries of the service, and what they do to them.
use jetauth.Kv.{Kv, Write, Applies, IsTable}
use jetauth.Store.Wire.{Serde}
use jetauth.Store.Access.{found, without_revision, kv_get_revision, kv_get, done, kv_write}
use jetauth.Prelude.{
  Text, Result, ok, err, ℕ, refl, ap, inl, inr, Option, none, some, arith, ◌≡◌, ◌≢◌, ◌⊎◌, ◌∙◌,
  text_eq,
}

module _ {Payload : Type 0} (kv : Kv Payload) where
  module _ {A : Type 0} (serde : Serde Payload A) (table key : Text) (s : kv.State) where
    -- A value that is read is the decoded entry, with its revision.
    pub kv_get_revision-found :
        (a : A) (r : ℕ)
        → kv_get_revision kv serde table key s ≡ ok (some (a, r))
        → (p : Payload) × (kv.view s table key ≡ some (p, r)) × (serde.decode p ≡ ok a)
    unfolding kv_get_revision
    kv_get_revision-found a r h = inspect (kv.get table key s) refl h
      where
        inspect :
            (o : Result (Payload × ℕ))
            → kv.get table key s ≡ o
            → found serde key o ≡ ok (some (a, r))
            → (p : Payload) × (kv.view s table key ≡ some (p, r)) × (serde.decode p ≡ ok a)
        inspect (ok (p, q)) e g = (p, ground (arith, kv.get_found table key s (p, q)), ground arith)
        inspect (err x) e g = ground arith

    -- A value that is not there has no entry.
    pub kv_get_revision-none :
        kv_get_revision kv serde table key s ≡ ok none → kv.view s table key ≡ none
    unfolding kv_get_revision
    kv_get_revision-none h = inspect (kv.get table key s) refl h
      where
        inspect :
            (o : Result (Payload × ℕ))
            → kv.get table key s ≡ o
            → found serde key o ≡ ok none
            → kv.view s table key ≡ none
        inspect (ok (p, q)) e g = ground arith
        inspect (err x) e g = ground (arith, kv.get_missing table key s x e)

    pub kv_get-found :
        (a : A)
        → kv_get kv serde table key s ≡ ok (some a)
        → (p : Payload) × (r : ℕ) × (kv.view s table key ≡ some (p, r)) × (serde.decode p ≡ ok a)
    kv_get-found a h = inspect (kv_get_revision kv serde table key s) refl (unfold kv_get in h)
      where
        inspect :
            (o : Result (Option (A × ℕ)))
            → kv_get_revision kv serde table key s ≡ o
            → without_revision o ≡ ok (some a)
            → (p : Payload) × (r : ℕ) × (kv.view s table key ≡ some (p, r))
              × (serde.decode p ≡ ok a)
        inspect (ok none) e g = cc
        inspect (ok (some (b, r))) e g =
            let same : b ≡ a = cc in
            let (p, v, d) = kv_get_revision-found b r e in (p, r, v, rw (← same) d)
        inspect (err x) e g = cc

    -- An entry that stands is read as its value, unless the request fails.
    pub kv_get_revision-stands :
        (p : Payload) (r : ℕ) (a : A)
        → kv.view s table key ≡ some (p, r)
        → serde.decode p ≡ ok a
        → (kv_get_revision kv serde table key s ≡ ok (some (a, r)))
          ⊎ ((e : Text) × (kv_get_revision kv serde table key s ≡ err e))
    kv_get_revision-stands p r a v d = inspect (kv_get_revision kv serde table key s) refl
      where
        inspect :
            (o : Result (Option (A × ℕ)))
            → kv_get_revision kv serde table key s ≡ o
            → (kv_get_revision kv serde table key s ≡ ok (some (a, r)))
              ⊎ ((e : Text) × (kv_get_revision kv serde table key s ≡ err e))
        inspect (err x) e = inr (x, e)
        inspect (ok none) e = let gone = kv_get_revision-none e in absurd (ground arith)
        inspect (ok (some (b, q))) e =
            let (p', v', d') = kv_get_revision-found b q e in
            let same : (p ≡ p') × (r ≡ q) = ground arith in
            let value : a ≡ b = cc in inl (e ∙ ap (λ x. ok (some x)) (ground arith))

    pub kv_get-stands :
        (p : Payload) (r : ℕ) (a : A)
        → kv.view s table key ≡ some (p, r)
        → serde.decode p ≡ ok a
        → (kv_get kv serde table key s ≡ ok (some a))
          ⊎ ((e : Text) × (kv_get kv serde table key s ≡ err e))
    unfolding kv_get
    kv_get-stands p r a v d = elim (kv_get_revision-stands p r a v d) [
      | inl found ↦ inl (ap without_revision found)
      | inr (e, failed) ↦ inr (e, ap without_revision failed)
    ]

  module _ (w : Write Payload) (table key : Text) (s : kv.State) where
    -- A write that succeeds has been applied.
    pub kv_write-done :
        (kv_write kv w table key s).0 ≡ ok tt
        → (r : ℕ) × Applies w r
            (kv.view s table key)
            (kv.view (kv_write kv w table key s).1 table key)
    unfolding kv_write
    kv_write-done h = inspect (kv.write w table key s).0 refl h
      where
        inspect :
            (o : Result ℕ)
            → (kv.write w table key s).0 ≡ o
            → done o ≡ ok tt
            → (r : ℕ) × Applies w r
                (kv.view s table key)
                (kv.view (kv.write w table key s).1 table key)
        inspect (ok r) e g = (r, kv.write_done w table key s r e)
        inspect (err x) e g = cc

    -- A write, whatever its answer, has been applied or has done nothing.
    pub kv_write-cases :
        (kv.view (kv_write kv w table key s).1 table key ≡ kv.view s table key)
        ⊎ ((r : ℕ) × Applies w r
              (kv.view s table key)
              (kv.view (kv_write kv w table key s).1 table key))
    unfolding kv_write
    kv_write-cases = inspect (kv.write w table key s).0 refl
      where
        inspect :
            (o : Result ℕ)
            → (kv.write w table key s).0 ≡ o
            → (kv.view (kv.write w table key s).1 table key ≡ kv.view s table key)
              ⊎ ((r : ℕ) × Applies w r
                    (kv.view s table key)
                    (kv.view (kv.write w table key s).1 table key))
        inspect (ok r) e = inr (r, kv.write_done w table key s r e)
        inspect (err x) e = kv.write_failed w table key s x e

    -- Other keys of the table, and other tables, keep their entries.
    pub kv_write-frame :
        (j : Text) → key ≢ j → kv.view (kv_write kv w table key s).1 table j ≡ kv.view s table j
    unfolding kv_write
    kv_write-frame j n = kv.write_frame w table key j s n

    pub kv_write-tables :
        (u j : Text)
        → IsTable table
        → IsTable u
        → table ≢ u
        → kv.view (kv_write kv w table key s).1 u j ≡ kv.view s u j
    unfolding kv_write
    kv_write-tables u j ht hu n = kv.write_tables w table u key j s ht hu n
