-- ===== src/Totp/Base32/RoundTrip.antt =====
-- What `base32_decode` of oidc-gateway/src/totp.rs makes of what `base32_encode` writes.
use jetauth.Prelude.{
  Text, All, ℕ, refl, ap, some, [], arith, ◌+◌, ◌-◌, ◌*◌, ◌/◌, ◌%◌, ◌^◌, ◌≤◌, ◌<◌, ◌≡◌, ◌∷◌, ◌∙◌,
  nat_eq,
}
use jetauth.Util.Percent.RoundTrip.{IsByte}
use jetauth.Totp.Base32.{
  alphabet, take_digits, shift_in, encode_from, base32_encode, symbol, Symbol, consume,
  shift_in_digit, decode_from, base32_decode,
}

symbol-alphabet : (i : ℕ) → i < 32 → symbol (alphabet i) ≡ Symbol.digit i
unfolding symbol alphabet
symbol-alphabet i h = ground arith

-- A digit that completes no byte, and one that does.
decode-more :
    (seen bits i : ℕ) (t rest : Text)
    → i < 32
    → bits + 5 < 8
    → decode_from (shift_in_digit seen i) (bits + 5) t ≡ some rest
    → decode_from seen bits (alphabet i ∷ t) ≡ some rest
unfolding decode_from
decode-more seen bits i t rest h few e =
    ap (consume seen bits (λ b n. decode_from b n t)) (symbol-alphabet i h) ∙ ground arith

decode-push :
    (seen bits i byte : ℕ) (t rest : Text)
    → i < 32
    → 8 ≤ bits + 5
    → shift_in_digit seen i / 2 ^ (bits + 5 - 8) % 256 ≡ byte
    → decode_from (shift_in_digit seen i) (bits + 5 - 8) t ≡ some rest
    → decode_from seen bits (alphabet i ∷ t) ≡ some (byte ∷ rest)
unfolding decode_from
decode-push seen bits i byte t rest h many b e =
    ap (consume seen bits (λ b n. decode_from b n t)) (symbol-alphabet i h) ∙ ground arith

-- Where a byte begins: the encoder holds so many bits of the byte before, and the decoder, which
-- has read all other digits, holds the rest of it.
data Phase : Type 0 where
  aligned three one four two : Phase

abbrev held : Phase → ℕ
held aligned = 0
held three = 3
held one = 1
held four = 4
held two = 2

abbrev held_by_decoder : Phase → ℕ
held_by_decoder aligned = 0
held_by_decoder phase = 8 - held phase

-- The byte that is pending between the two.
abbrev Pending : Phase → (buffer seen p : ℕ) → Type 0
Pending aligned buffer seen p = Unit
Pending phase buffer seen p =
    (p < 256)
    × (buffer % 2 ^ held phase ≡ p % 2 ^ held phase)
    × (seen % 2 ^ (8 - held phase) ≡ p / 2 ^ held phase)

abbrev behind : Phase → ℕ → Text → Text
behind aligned p bytes = bytes
behind phase p bytes = p ∷ bytes

round_trip :
    (phase : Phase) (bytes : Text) (buffer seen p : ℕ)
    → All IsByte bytes
    → Pending phase buffer seen p
    → decode_from seen (held_by_decoder phase) (encode_from buffer (held phase) bytes)
      ≡ some (behind phase p bytes)
unfolding encode_from take_digits decode_from
round_trip aligned [] buffer seen p h e = refl
round_trip three [] buffer seen p h (lt, q, r) =
    decode-push seen 5 (buffer * 4 % 2 ^ 64 % 32) p [] [] (omega arith) (omega arith) (omega arith)
      refl
round_trip one [] buffer seen p h (lt, q, r) =
    decode-push seen 7 (buffer * 16 % 2 ^ 64 % 32) p [] [] (omega arith) (omega arith) (omega arith)
      refl
round_trip four [] buffer seen p h (lt, q, r) =
    decode-push seen 4 (buffer * 2 % 2 ^ 64 % 32) p [] [] (omega arith) (omega arith) (omega arith)
      refl
round_trip two [] buffer seen p h (lt, q, r) =
    decode-push seen 6 (buffer * 8 % 2 ^ 64 % 32) p [] [] (omega arith) (omega arith) (omega arith)
      refl
round_trip aligned (b ∷ bytes) buffer seen p (hb, h) e =
    decode-more seen 0 (shift_in buffer b / 8 % 32) _ _ (omega arith) (omega arith)
      (round_trip three bytes (shift_in buffer b) _ b h (hb, omega arith, omega arith))
round_trip three (b ∷ bytes) buffer seen p (hb, h) (lt, q, r) =
    decode-push seen 5 (shift_in buffer b / 64 % 32) p
      (alphabet (shift_in buffer b / 2 % 32) ∷ encode_from (shift_in buffer b) 1 bytes) _
      (omega arith) (omega arith) (omega arith)
      (decode-more (shift_in_digit seen (shift_in buffer b / 64 % 32)) 2
        (shift_in buffer b / 2 % 32) _ _ (omega arith) (omega arith)
        (round_trip one bytes (shift_in buffer b) _ b h (hb, omega arith, omega arith)))
round_trip one (b ∷ bytes) buffer seen p (hb, h) (lt, q, r) =
    decode-push seen 7 (shift_in buffer b / 16 % 32) p _ _ (omega arith) (omega arith) (omega arith)
      (round_trip four bytes (shift_in buffer b) _ b h (hb, omega arith, omega arith))
round_trip four (b ∷ bytes) buffer seen p (hb, h) (lt, q, r) =
    decode-push seen 4 (shift_in buffer b / 128 % 32) p
      (alphabet (shift_in buffer b / 4 % 32) ∷ encode_from (shift_in buffer b) 2 bytes) _
      (omega arith) (omega arith) (omega arith)
      (decode-more (shift_in_digit seen (shift_in buffer b / 128 % 32)) 1
        (shift_in buffer b / 4 % 32) _ _ (omega arith) (omega arith)
        (round_trip two bytes (shift_in buffer b) _ b h (hb, omega arith, omega arith)))
round_trip two (b ∷ bytes) buffer seen p (hb, h) (lt, q, r) =
    decode-push seen 6 (shift_in buffer b / 32 % 32) p
      (alphabet (shift_in buffer b / 1 % 32) ∷ encode_from (shift_in buffer b) 0 bytes) _
      (omega arith) (omega arith) (omega arith)
      (decode-push (shift_in_digit seen (shift_in buffer b / 32 % 32)) 3
        (shift_in buffer b / 1 % 32) b _ _ (omega arith) (omega arith) (omega arith)
        (round_trip aligned bytes (shift_in buffer b) _ b h tt))

-- Any bytes that are encoded are read again as themselves.
pub base32_decode-encode :
    (bytes : Text) → All IsByte bytes → base32_decode (base32_encode bytes) ≡ some bytes
unfolding base32_decode base32_encode
base32_decode-encode bytes h = round_trip aligned bytes 0 0 0 h tt
