-- ===== src/Abuse/Limit.antt =====
-- What `check_rate` of oidc-gateway/src/abuse.rs keeps of a counter and what it answers.
use jetauth.Prelude.{
  Text, contains_text, leb, Bool-cases, Result, ok, err, ℕ, zero, suc, refl, inl, inr, Bool, true,
  false, Option, none, some, arith, ◌+◌, ◌-◌, ◌^◌, ◌≤◌, ◌<◌, ◌≡◌, ◌⊎◌, text_eq, nat_eq,
}
use jetauth.Kv.{Kv, create, cas, Entry}
use jetauth.Action.{Action}
use jetauth.Store.Wire.{Wire}
use jetauth.Store.Access.Effects.{kv_write-done, kv_write-cases}
use jetauth.Abuse.{
  to_string, count_of, rate_limits_table, counter, count_up, attempt, settle,
  kv_get_raw_with_revision, check_rate_from, check_rate, db_key,
}
use jetauth.Abuse.Decimal.{count_of-to_string}

module _ {Payload : Type 0} (kv : Kv Payload) (wire : Wire Payload) (key : Text)
    (limit window_secs : ℕ) where
  abbrev pub entry : kv.State → Entry Payload
  entry s = kv.view s rate_limits_table key

  -- The counter stands at this count.
  abbrev pub StandsAt : ℕ → kv.State → Type 0
  StandsAt n s = (p : Payload) × (r : ℕ) × (entry s ≡ some (p, r)) × (count_of (wire.bytes p) ≡ n)

  -- There is no counter, or it stands at the limit or below.
  abbrev pub IsWithin : kv.State → Type 0
  IsWithin s = (entry s ≡ none) ⊎ ((n : ℕ) × (n ≤ limit) × StandsAt n s)

  stands :
      (n q : ℕ) (s : kv.State)
      → n < 2 ^ 64
      → entry s ≡ some (wire.raw (to_string n), q)
      → StandsAt n s
  stands n q s h e = (_, q, e, rw (wire.bytes-raw (to_string n)) (count_of-to_string n h))

  -- A write that counts up has been applied, or has done nothing.
  count_up-cases :
      (count revision : ℕ) (s : kv.State)
      → count < limit
      → limit < 2 ^ 64
      → (entry (count_up kv wire key window_secs count revision s).1 ≡ entry s)
        ⊎ StandsAt (count + 1) (count_up kv wire key window_secs count revision s).1
  count_up-cases count zero s h l =
      elim (kv_write-cases kv (create (wire.raw (to_string (count + 1))) (some (window_secs + 10)))
        rate_limits_table key s) [
          | inl same ↦ inl same
          | inr (q, (_, _, new)) ↦ inr (stands (count + 1) q _ (omega arith) new)
        ]
  count_up-cases count (suc r) s h l =
      elim (kv_write-cases kv
        (cas (wire.raw (to_string (count + 1))) (suc r) (some (window_secs + 10))) rate_limits_table
        key s) [
          | inl same ↦ inl same
          | inr (q, (_, _, new)) ↦ inr (stands (count + 1) q _ (omega arith) new)
        ]

  count_up-done :
      (count revision : ℕ) (s : kv.State)
      → count < limit
      → limit < 2 ^ 64
      → (count_up kv wire key window_secs count revision s).0 ≡ ok tt
      → StandsAt (count + 1) (count_up kv wire key window_secs count revision s).1
  count_up-done count zero s h l done =
      let (q, (_, _, new)) = kv_write-done kv _ rate_limits_table key s done in
      stands (count + 1) q _ (omega arith) new
  count_up-done count (suc r) s h l done =
      let (q, (_, _, new)) = kv_write-done kv _ rate_limits_table key s done in
      stands (count + 1) q _ (omega arith) new

  -- An answer that allows leaves the counter at a count that has been raised by one and is not past
  -- the limit; what remains is the rest.
  abbrev pub Sound : Result (Bool × ℕ) × kv.State → Type 0
  Sound (ok (true, remaining), s) =
      (n : ℕ) × (n < limit) × StandsAt (n + 1) s × (remaining ≡ limit - n - 1)
  Sound (ok (false, remaining), s) = Unit
  Sound (err e, s) = Unit

  settle-Sound :
      (count revision : ℕ) (next : Action kv.State (Bool × ℕ)) (conflict what : Text)
      (out : Result (Unit {0}) × kv.State)
      → count < limit
      → (out.0 ≡ ok tt → StandsAt (count + 1) out.1)
      → ((s : kv.State) → Sound (next s))
      → Sound (settle kv wire (limit - count - 1) conflict what next out)
  settle-Sound count revision next conflict what (ok u, s) h done later =
      (count, h, done refl, refl)
  settle-Sound count revision next conflict what (err e, s) h done later =
      elim (Bool-cases (contains_text e conflict)) [
        | inl again ↦ rw again (later s)
        | inr over ↦ rw over tt
      ]

  attempt-Sound :
      (next : Action kv.State (Bool × ℕ)) (read : Result (Option (Payload × ℕ))) (s : kv.State)
      → limit < 2 ^ 64
      → ((t : kv.State) → Sound (next t))
      → Sound (attempt kv wire key limit window_secs next read s)
  attempt-Sound next (err e) s l later = tt
  attempt-Sound next (ok o) s l later = elim (Bool-cases (leb limit (counter kv wire o).0)) [
    | inl full ↦ rw full tt
    | inr below ↦
        let free : (counter kv wire o).0 < limit = ground arith in
        rw below (
          settle-Sound (counter kv wire o).0 (counter kv wire o).1 next _ _
            (count_up kv wire key window_secs (counter kv wire o).0 (counter kv wire o).1 s) free
            (count_up-done (counter kv wire o).0 (counter kv wire o).1 s free l) later)
  ]

  -- An answer that allows, whichever attempt gives it, has raised the counter by one to a count that
  -- is not past the limit, and tells what remains of it.
  pub check_rate_from-Sound :
      (attempts : ℕ) (s : kv.State)
      → limit < 2 ^ 64
      → Sound (check_rate_from kv wire attempts key limit window_secs s)
  unfolding check_rate_from
  check_rate_from-Sound zero s l = tt
  check_rate_from-Sound (suc attempts) s l =
      attempt-Sound _ (kv_get_raw_with_revision kv wire rate_limits_table key s) s l
        (λ t. check_rate_from-Sound attempts t l)

  settle-IsWithin :
      (count : ℕ) (next : Action kv.State (Bool × ℕ)) (conflict what : Text)
      (out : Result (Unit {0}) × kv.State)
      → IsWithin out.1
      → ((s : kv.State) → IsWithin s → IsWithin (next s).1)
      → IsWithin (settle kv wire (limit - count - 1) conflict what next out).1
  settle-IsWithin count next conflict what (ok u, s) h later = h
  settle-IsWithin count next conflict what (err e, s) h later =
      elim (Bool-cases (contains_text e conflict)) [
        | inl again ↦ rw again (later s h)
        | inr over ↦ rw over h
      ]

  attempt-IsWithin :
      (next : Action kv.State (Bool × ℕ)) (read : Result (Option (Payload × ℕ))) (s : kv.State)
      → limit < 2 ^ 64
      → IsWithin s
      → ((t : kv.State) → IsWithin t → IsWithin (next t).1)
      → IsWithin (attempt kv wire key limit window_secs next read s).1
  attempt-IsWithin next (err e) s l h later = h
  attempt-IsWithin next (ok o) s l h later = elim (Bool-cases (leb limit (counter kv wire o).0)) [
    | inl full ↦ rw full h
    | inr below ↦
        let free : (counter kv wire o).0 < limit = ground arith in
        rw below (
          settle-IsWithin (counter kv wire o).0 next _ _ _
            (raised (counter kv wire o).0 (counter kv wire o).1 free) later)
  ]
    where
      raised :
          (count revision : ℕ)
          → count < limit
          → IsWithin (count_up kv wire key window_secs count revision s).1
      raised count revision free = elim (count_up-cases count revision s free l) [
        | inl same ↦ rw same h
        | inr up ↦ inr (count + 1, omega arith, up)
      ]

  -- A counter that is within the limit stays there, whatever the answer: allowed, denied or an error.
  pub check_rate_from-IsWithin :
      (attempts : ℕ) (s : kv.State)
      → limit < 2 ^ 64
      → IsWithin s
      → IsWithin (check_rate_from kv wire attempts key limit window_secs s).1
  unfolding check_rate_from
  check_rate_from-IsWithin zero s l h = h
  check_rate_from-IsWithin (suc attempts) s l h =
      attempt-IsWithin _ (kv_get_raw_with_revision kv wire rate_limits_table key s) s l h
        (λ t k. check_rate_from-IsWithin attempts t l k)

module _ {Payload : Type 0} (kv : Kv Payload) (wire : Wire Payload) (now : ℕ) (key : Text)
    (limit window_secs : ℕ) where
  -- A counter within a limit below 2 ^ 64 stays within it, whatever the answer: allowed, denied or an
  -- error.
  pub check_rate-IsWithin :
      (s : kv.State)
      → limit < 2 ^ 64
      → IsWithin kv wire (db_key key window_secs now) limit window_secs s
      → IsWithin kv wire
          (db_key key window_secs now)
          limit
          window_secs
          (check_rate kv wire now key limit window_secs s).1
  unfolding check_rate
  check_rate-IsWithin s l h = check_rate_from-IsWithin kv wire _ limit window_secs 5 s l h
