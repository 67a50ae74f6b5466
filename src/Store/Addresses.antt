-- ===== src/Store/Addresses.antt =====
-- The addresses that a user has signed in from: "Known IPs" of oidc-gateway/src/store.rs.
use jetauth.Prelude.{
  Text, str, is_empty, length, length-append, contains, ltb, Result, ok, err, ℕ, Bool, true, false,
  Option, none, some, List, [], arith, ◌≤◌, ◌||◌, ◌∷◌, ◌++◌, ◌==◌, if◌then◌else◌, text_eq,
}
use jetauth.Kv.{Kv, put}
use jetauth.Action.{Action, pure, reads, ignore, if_then_return, ◌>>=◌, ◌>>◌}
use jetauth.Store.Wire.{Wire}
use jetauth.Store.Access.{kv_get, kv_write, sessions}

abbrev pub max_known_ips : ℕ
max_known_ips = 20

abbrev drop_first : List Text → List Text
drop_first [] = []
drop_first (ip ∷ ips) = ips

-- The new address at the end, and the oldest one dropped past the bound.
unfoldable pub push_ip : List Text → Text → List Text
push_ip ips ip =
    let pushed = ips ++ (ip ∷ []) in
    if ltb max_known_ips (length pushed) then drop_first pushed else pushed

abbrev ips_or_empty : Result (Option (List Text)) → List Text
ips_or_empty (ok (some ips)) = ips
ips_or_empty (ok none) = []
ips_or_empty (err e) = []

abbrev pub known_ips_key : Text → Text
known_ips_key user_id = str "known_ips:" ++ user_id

module _ {Payload : Type 0} (kv : Kv Payload) (wire : Wire Payload) where
  abbrev record_if_new : Text → Text → List Text → Action kv.State Bool
  record_if_new user_id ip ips = if_then_return (contains ips ip) (pure false) (
      ignore (
        kv_write kv (put (wire.known_ips.encode (push_ip ips ip)) none) sessions
          (known_ips_key user_id))
      >> pure true)

  -- Whether the address is new.
  unfoldable pub check_and_record_ip : Text → Text → Action kv.State Bool
  unfolding push_ip if_then_return
  check_and_record_ip user_id ip =
      if_then_return (is_empty ip || ip == str "unknown") (pure false) (do
        ips ←
            reads
              (λ s. ok (ips_or_empty (kv_get kv wire.known_ips sessions (known_ips_key user_id) s)))
        record_if_new user_id ip ips)

-- The bound holds after each push.
pub length-push_ip :
    (ips : List Text) (ip : Text)
    → length ips ≤ max_known_ips
    → length (push_ip ips ip) ≤ max_known_ips
unfolding push_ip
length-push_ip [] ip h = ground arith
length-push_ip (x ∷ ips) ip h =
    ground (arith, length-append (x ∷ ips) (ip ∷ []), length-append ips (ip ∷ []))
