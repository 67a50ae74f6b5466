-- ===== src/Totp/Base32.antt =====
-- Base32 of RFC 4648 without padding: `base32_encode` and `base32_decode` of
-- oidc-gateway/src/totp.rs. A shift to the left leaves zeros below, so that `|` of the bits that
-- come in is `+`; the buffer is a `u64`.
pub mod RoundTrip
use jetauth.Prelude.{
  Text, str, ltb, leb, ℕ, zero, suc, refl, Option, none, some, [], ◌+◌, ◌-◌, ◌*◌, ◌/◌, ◌%◌, ◌^◌,
  ◌≡◌, ◌&&◌, ◌||◌, ◌∷◌, ◌++◌, ◌==◌, if◌then◌else◌, nat_eq,
}

-- A letter or digit of the alphabet.
unfoldable pub alphabet : ℕ → ℕ
alphabet idx = if ltb idx 26 then b'A' + idx else b'2' + (idx - 26)

-- The inner loop: the digits that the buffer is good for, and the bits that are left.
unfoldable pub take_digits : (buffer bits : ℕ) → Text × ℕ
unfolding alphabet
take_digits buffer (suc (suc (suc (suc (suc bits))))) =
    let (letters, left) = take_digits buffer bits in
    (alphabet (buffer / 2 ^ bits % 32) ∷ letters, left)
take_digits buffer bits = ([], bits)

-- The buffer after one more byte.
abbrev pub shift_in : ℕ → ℕ → ℕ
shift_in buffer byte = buffer * 256 % 2 ^ 64 + byte

abbrev pub flush : (buffer bits : ℕ) → Text
flush buffer zero = []
flush buffer (suc bits) = alphabet (buffer * 2 ^ (5 - suc bits) % 2 ^ 64 % 32) ∷ []

unfoldable pub encode_from : (buffer bits : ℕ) → Text → Text
unfolding take_digits alphabet
encode_from buffer bits [] = flush buffer bits
encode_from buffer bits (byte ∷ bytes) =
    let (letters, left) = take_digits (shift_in buffer byte) (bits + 8) in
    letters ++ encode_from (shift_in buffer byte) left bytes

unfoldable pub base32_encode : Text → Text
unfolding encode_from
base32_encode bytes = encode_from 0 0 bytes

-- What a character of the text is.
pub data Symbol : Type 0 where
  digit : ℕ → Symbol
  skipped : Symbol
  invalid : Symbol

unfoldable pub symbol : ℕ → Symbol
symbol c =
    if leb b'A' c && leb c b'Z'
    then digit (c - b'A')
    else if leb b'2' c && leb c b'7'
    then digit (c - b'2' + 26)
    else if leb b'a' c && leb c b'z'
    then digit (c - b'a')
    else if c == b'=' || c == b' '
    then skipped
    else invalid

abbrev pub push_front : ℕ → Option Text → Option Text
push_front byte none = none
push_front byte (some t) = some (byte ∷ t)

abbrev pub shift_in_digit : ℕ → ℕ → ℕ
shift_in_digit buffer val = buffer * 32 % 2 ^ 64 + val

-- What one character does, and the rest behind it.
abbrev pub consume : (buffer bits : ℕ) → (later : ℕ → ℕ → Option Text) → Symbol → Option Text
consume buffer bits later (digit val) =
    let next = shift_in_digit buffer val in
    if leb 8 (bits + 5)
    then push_front (next / 2 ^ (bits + 5 - 8) % 256) (later next (bits + 5 - 8))
    else later next (bits + 5)
consume buffer bits later skipped = later buffer bits
consume buffer bits later invalid = none

unfoldable pub decode_from : (buffer bits : ℕ) → Text → Option Text
decode_from buffer bits [] = some []
decode_from buffer bits (c ∷ t) = consume buffer bits (λ b n. decode_from b n t) (symbol c)

unfoldable pub base32_decode : Text → Option Text
unfolding decode_from
base32_decode encoded = decode_from 0 0 encoded

base32_tests :
    (base32_encode (str "foobar") ≡ str "MZXW6YTBOI")
    × (base32_decode (str "mzxw 6ytb=oi") ≡ some (str "foobar"))
    × (base32_decode (str "MZ1") ≡ none)
unfolding base32_encode base32_decode symbol
base32_tests = (refl, refl, refl)
