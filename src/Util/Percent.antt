-- ===== src/Util/Percent.antt =====
-- `url_decode` and `percent_encode` of oidc-gateway/src/util.rs.
pub mod RoundTrip
use Prim.Native.Nat.{bit_or}
use jetauth.Prelude.{
  Text, str, ltb, leb, ℕ, refl, Bool, Option, none, some, [], ◌+◌, ◌-◌, ◌*◌, ◌/◌, ◌%◌, ◌≡◌, ◌&&◌,
  ◌||◌, ◌∷◌, ◌++◌, ◌==◌, if◌then◌else◌, nat_eq,
}
use jetauth.Util.Utf8.{from_utf8_lossy}

unfoldable pub hex_val : ℕ → Option ℕ
hex_val b =
    if leb b'0' b && leb b b'9'
    then some (b - b'0')
    else if leb b'a' b && leb b b'f'
    then some (b - b'a' + 10)
    else if leb b'A' b && leb b b'F'
    then some (b - b'A' + 10)
    else none

-- `hv << 4 | lv` on bytes
abbrev pub join_nibbles : ℕ → ℕ → ℕ
join_nibbles hv lv = bit_or (hv * 16 % 256) lv

-- What is pushed for `%` and the two bytes behind it: the two are consumed in either case.
unfoldable pub decode_escape : Option ℕ → Option ℕ → ℕ
decode_escape (some hv) (some lv) = join_nibbles hv lv
decode_escape _ _ = b'%'

-- The loop of `url_decode`.
unfoldable pub url_decode_bytes : Text → Text
unfolding decode_escape hex_val
url_decode_bytes [] = []
url_decode_bytes (b ∷ []) = (if b == b'+' then b' ' else b) ∷ []
url_decode_bytes (b ∷ h ∷ []) =
    let rest = url_decode_bytes (h ∷ []) in
    if b == b'%' then b ∷ [] else (if b == b'+' then b' ' else b) ∷ rest
url_decode_bytes (b ∷ h ∷ l ∷ s) =
    let after = url_decode_bytes s in
    let rest = url_decode_bytes (h ∷ l ∷ s) in
    if b == b'%'
    then decode_escape (hex_val h) (hex_val l) ∷ after
    else (if b == b'+' then b' ' else b) ∷ rest

unfoldable pub url_decode : Text → Text
unfolding url_decode_bytes from_utf8_lossy
url_decode s = from_utf8_lossy (url_decode_bytes s)

-- The unreserved characters of RFC 3986.
unfoldable pub is_unreserved : ℕ → Bool
is_unreserved b =
    leb b'A' b && leb b b'Z'
    || leb b'a' b && leb b b'z'
    || leb b'0' b && leb b b'9'
    || b == b'-'
    || b == b'_'
    || b == b'.'
    || b == b'~'

-- A digit of `{b:02X}`.
unfoldable pub hex_digit : ℕ → ℕ
hex_digit n = if ltb n 10 then b'0' + n else b'A' + (n - 10)

unfoldable pub encode_byte : ℕ → Text
unfolding is_unreserved hex_digit
encode_byte b =
    if is_unreserved b then b ∷ [] else b'%' ∷ hex_digit (b / 16) ∷ hex_digit (b % 16) ∷ []

unfoldable pub percent_encode : Text → Text
unfolding encode_byte
percent_encode [] = []
percent_encode (b ∷ s) = encode_byte b ++ percent_encode s

percent_tests :
    (url_decode (str "a%20b+c%2") ≡ str "a b c%")
    × (percent_encode (str "a b/~é") ≡ str "a%20b%2F~%E9")
    × (url_decode (str "%zzx") ≡ str "%x")
unfolding url_decode percent_encode
percent_tests = (refl, refl, refl)
