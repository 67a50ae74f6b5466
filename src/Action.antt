-- ===== src/Action.antt =====
-- Handlers that read and write a shared state and may fail. What was written before a failure
-- stays written, so the state comes back beside the error too.
use jetauth.Prelude.{Text, Result, ok, err, refl, ap, Bool, true, false, ◌≡◌}

abbrev pub Action : Type 0 → Type 0 → Type 0
Action S A = S → Result A × S

-- `if !test { return Err(e) }`
abbrev pub tested : Bool → Text → Result (Unit {0})
tested true e = ok tt
tested false e = err e

abbrev pub guard : {S : Type 0} → Bool → Text → Action S (Unit {0})
guard test e s = (tested test e, s)

pub tested-eq-ok : (b : Bool) (e : Text) {u : Unit {0}} → tested b e ≡ ok u → b ≡ true
tested-eq-ok true e h = refl
tested-eq-ok false e h = cc

abbrev pub on_error : {A : Type 0} → (Text → Text) → Result A → Result A
on_error f (ok a) = ok a
on_error f (err e) = err (f e)

-- `m.map_err(f)` succeeds where `m` does.
pub map_err-eq-ok :
    {A : Type 0} (f : Text → Text) (r : Result A) {a : A} → on_error f r ≡ ok a → r ≡ ok a
map_err-eq-ok f (ok a) h = h
map_err-eq-ok f (err e) h = cc

module _ {S A : Type 0} where
  abbrev pub pure : A → Action S A
  pure a s = (ok a, s)

  abbrev pub fail : Text → Action S A
  fail e s = (err e, s)

  -- `r?` of a result that no request made
  abbrev pub lift : Result A → Action S A
  lift r s = (r, s)

  -- A request that only reads.
  abbrev pub reads : (S → Result A) → Action S A
  reads f s = (f s, s)

  -- `let _ = m`
  abbrev pub ignore : Action S A → Action S (Unit {0})
  ignore m s = (ok tt, (m s).1)

  -- `match m { … }`: the result itself, an error too.
  abbrev pub outcome : Action S A → Action S (Result A)
  outcome m s = (ok (m s).0, (m s).1)

  -- `if test { return m }`, and what follows.
  unfoldable pub if_then_return : Bool → Action S A → Action S A → Action S A
  if_then_return true m rest = m
  if_then_return false m rest = rest

  -- `m.map_err(f)`
  abbrev pub map_err : (Text → Text) → Action S A → Action S A
  map_err f m s = (on_error f (m s).0, (m s).1)

module _ {S A B : Type 0} where
  abbrev continue : Result A → (A → Action S B) → Action S B
  continue (ok a) f s = f a s
  continue (err e) f s = (err e, s)

  infixl 5 ◌>>=◌ ◌>>◌
  unfoldable pub ◌>>=◌ : Action S A → (A → Action S B) → Action S B
  ◌>>=◌ m f s = continue (m s).0 f (m s).1

  abbrev pub ◌>>◌ : Action S A → Action S B → Action S B
  m >> n = m >>= λ _. n

  -- The block goes on after a success.
  pub bind-ok :
      (m : Action S A) (f : A → Action S B) (s : S) {a : A}
      → (m s).0 ≡ ok a
      → (m >>= f) s ≡ f a (m s).1
  unfolding ◌>>=◌
  bind-ok m f s e = ap (λ r. continue r f (m s).1) e

  -- An error ends the block.
  pub bind-err :
      (m : Action S A) (f : A → Action S B) (s : S) {e : Text}
      → (m s).0 ≡ err e
      → (m >>= f) s ≡ (err e, (m s).1)
  unfolding ◌>>=◌
  bind-err m f s e = ap (λ r. continue r f (m s).1) e

  -- A block that succeeds has made its first step with success.
  pub bind-eq-ok :
      (m : Action S A) (f : A → Action S B) (s : S) {b : B}
      → ((m >>= f) s).0 ≡ ok b
      → (a : A) × ((m s).0 ≡ ok a) × ((f a (m s).1).0 ≡ ok b)
  unfolding ◌>>=◌
  bind-eq-ok m f s {b} h = inspect (m s).0 refl h
    where
      inspect :
          (r : Result A)
          → (m s).0 ≡ r
          → (continue r f (m s).1).0 ≡ ok b
          → (a : A) × ((m s).0 ≡ ok a) × ((f a (m s).1).0 ≡ ok b)
      inspect (ok a) e k = (a, e, k)
      inspect (err x) e k = cc

  -- A property of the state that the steps keep.
  pub bind-keeps :
      (P : S → Type 0) (m : Action S A) (f : A → Action S B) (s : S)
      → P (m s).1
      → ((a : A) (t : S) → P t → P (f a t).1)
      → P ((m >>= f) s).1
  unfolding ◌>>=◌
  bind-keeps P m f s h k = inspect (m s).0
    where
      inspect : (r : Result A) → P (continue r f (m s).1).1
      inspect (ok a) = k a (m s).1 h
      inspect (err e) = h

  -- What a success leaves behind is shown of its last step.
  pub bind-success :
      (P : S → Type 0) (m : Action S A) (f : A → Action S B) (s : S) {b : B}
      → ((m >>= f) s).0 ≡ ok b
      → ((a : A) → (m s).0 ≡ ok a → (f a (m s).1).0 ≡ ok b → P (f a (m s).1).1)
      → P ((m >>= f) s).1
  bind-success P m f s h k = let (a, e, g) = bind-eq-ok m f s h in rw (bind-ok m f s e) (k a e g)
