-- ===== src/Abuse.antt =====
-- The rate limiter: oidc-gateway/src/abuse.rs.
pub mod Decimal
pub mod Limit
use jetauth.Prelude.{
  Text, str, contains_text, ltb, leb, Result, ok, err, ℕ, zero, suc, Bool, true, false, Option,
  none, some, [], is_whitespace, ◌+◌, ◌-◌, ◌*◌, ◌/◌, ◌%◌, ◌^◌, ◌&&◌, ◌∷◌, ◌++◌, ◌==◌, if◌then◌else◌,
  text_eq, nat_eq,
}
use jetauth.Kv.{Kv, create, cas, Entry}
use jetauth.Action.{Action}
use jetauth.Store.Wire.{Wire}
use jetauth.Store.Access.{kv_write, is_not_found}
use jetauth.Util.Utf8.{from_utf8_lossy}

-- `n.to_string()`: the digits in front of those that are written already, with fuel.
unfoldable pub digits : ℕ → ℕ → Text → Text
digits zero n written = written
digits (suc fuel) n written =
    let rest = digits fuel (n / 10) ((b'0' + n % 10) ∷ written) in
    if ltb n 10 then (b'0' + n) ∷ written else rest

unfoldable pub to_string : ℕ → Text
unfolding digits
to_string n = digits (suc n) n []

-- `t.parse::<u64>().unwrap_or(0)`, without the sign that no counter has; `none` for no number.
unfoldable pub parse_digits : ℕ → Text → Option ℕ
parse_digits n [] = some n
parse_digits n (c ∷ t) =
    let rest = parse_digits (n * 10 + (c - b'0')) t in
    if leb b'0' c && leb c b'9' then rest else none

-- `trim`, for ASCII white space.
unfoldable pub trim_start : Text → Text
trim_start [] = []
trim_start (c ∷ t) = let rest = trim_start t in if is_whitespace c then rest else c ∷ t

abbrev pub all_whitespace : Text → Bool
all_whitespace [] = true
all_whitespace (c ∷ t) = is_whitespace c && all_whitespace t

unfoldable pub trim_end : Text → Text
trim_end [] = []
trim_end (c ∷ t) = let rest = trim_end t in if all_whitespace (c ∷ t) then [] else c ∷ rest

abbrev pub within_u64 : Option ℕ → ℕ
within_u64 none = 0
within_u64 (some n) = if ltb n (2 ^ 64) then n else 0

abbrev pub parse_some : Text → Option ℕ
parse_some [] = none
parse_some (c ∷ t) = parse_digits 0 (c ∷ t)

-- A plus may stand in front of the digits.
abbrev pub parse : Text → Option ℕ
parse [] = none
parse (c ∷ t) = if c == b'+' then parse_some t else parse_some (c ∷ t)

-- The number that a stored counter is read as.
unfoldable pub count_of : Text → ℕ
unfolding from_utf8_lossy trim_start trim_end parse_digits
count_of bytes = within_u64 (parse (trim_end (trim_start (from_utf8_lossy bytes))))

abbrev pub rate_limits_table : Text
rate_limits_table = str "abuse-rate-limits"

-- `format!("rate:{}:{}", key, window_start)`
unfoldable pub db_key : Text → ℕ → ℕ → Text
unfolding to_string
db_key key window_secs now = str "rate:" ++ (key ++ (b':' ∷ to_string (now - now % window_secs)))

module _ {Payload : Type 0} (kv : Kv Payload) (wire : Wire Payload) where
  abbrev found : Text → Result (Payload × ℕ) → Result (Option (Payload × ℕ))
  found key (ok response) = ok (some response)
  found key (err e) =
      if is_not_found e then ok none else err (str "get " ++ (key ++ (str ": " ++ e)))

  unfoldable pub kv_get_raw_with_revision : Text → Text → kv.State → Result (Option (Payload × ℕ))
  kv_get_raw_with_revision table key s = found key (kv.get table key s)

  -- The count and the revision, both 0 where there is no counter.
  abbrev pub counter : Option (Payload × ℕ) → ℕ × ℕ
  counter none = (0, 0)
  counter (some (p, revision)) = (count_of (wire.bytes p), revision)

  -- What follows the write of one attempt: the answer, the next attempt, or an error.
  abbrev pub settle :
      (remaining : ℕ)
      → (conflict what : Text) → (next : Action kv.State (Bool × ℕ)) → Result (Unit {0}) × kv.State
      → Result (Bool × ℕ) × kv.State
  settle remaining conflict what next (ok _, s) = (ok (true, remaining), s)
  settle remaining conflict what next (err e, s) =
      if contains_text e conflict then next s else (err (what ++ e), s)

  -- The write of one attempt, by whether there is a counter yet: its revision is then positive.
  abbrev pub count_up : (key : Text) (window_secs count revision : ℕ) → Action kv.State (Unit {0})
  count_up key window_secs count zero =
      kv_write kv (create (wire.raw (to_string (count + 1))) (some (window_secs + 10)))
        rate_limits_table key
  count_up key window_secs count (suc r) =
      kv_write kv (cas (wire.raw (to_string (count + 1))) (suc r) (some (window_secs + 10)))
        rate_limits_table key

  abbrev pub conflict_of : ℕ → Text
  conflict_of zero = str "already exists"
  conflict_of (suc r) = str "revision mismatch"

  abbrev pub what_of : ℕ → Text
  what_of zero = str "rate limit create: "
  what_of (suc r) = str "rate limit cas: "

  abbrev pub attempt :
      (key : Text)
      → (limit window_secs : ℕ) → (next : Action kv.State (Bool × ℕ))
      → Result (Option (Payload × ℕ))
      → Action kv.State (Bool × ℕ)
  attempt key limit window_secs next (err e) s = (err (str "rate limit get: " ++ e), s)
  attempt key limit window_secs next (ok o) s =
      let (count, revision) = counter o in
      if leb limit count
      then (ok (false, 0), s)
      else settle (limit - count - 1) (conflict_of revision) (what_of revision) next
          (count_up key window_secs count revision s)

  -- The loop, with the attempts that are left.
  unfoldable pub check_rate_from : ℕ → Text → ℕ → ℕ → Action kv.State (Bool × ℕ)
  unfolding kv_get_raw_with_revision count_of to_string
  check_rate_from zero key limit window_secs s = (err (str "rate limit CAS retries exhausted"), s)
  check_rate_from (suc attempts) key limit window_secs s =
      attempt key limit window_secs (check_rate_from attempts key limit window_secs)
        (kv_get_raw_with_revision rate_limits_table key s) s

  unfoldable pub check_rate :
      (now : ℕ) (key : Text) (limit window_secs : ℕ) → Action kv.State (Bool × ℕ)
  unfolding check_rate_from db_key
  check_rate now key limit window_secs =
      check_rate_from 5 (db_key key window_secs now) limit window_secs
