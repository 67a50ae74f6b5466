-- ===== src/Util/Percent/RoundTrip.antt =====
-- What `percent_encode` writes, and what `url_decode` makes of it.
use jetauth.Prelude.{
  Text, All, All-append, nat_beq, nat_beq_iff, Bool-cases, ℕ, refl, ap, inl, inr, true, some, [],
  arith, holds_below, holds_below-lookup, ◌/◌, ◌%◌, ◌<◌, ◌≡◌, ◌⊎◌, ◌∷◌, ◌++◌, ◌∙◌, nat_eq,
}
use jetauth.Util.Utf8.{from_utf8_lossy}
use jetauth.Util.Percent.{
  hex_val, join_nibbles, url_decode_bytes, url_decode, is_unreserved, hex_digit, encode_byte,
  percent_encode,
}

abbrev pub IsByte : ℕ → Type 0
IsByte b = b < 256

hex_val-hex_digit : (n : ℕ) → n < 16 → hex_val (hex_digit n) ≡ some n
unfolding hex_val hex_digit
hex_val-hex_digit n h = ground arith

nibble_table : holds_below (λ b. nat_beq (join_nibbles (b / 16) (b % 16)) b) 256 ≡ true
unfolding holds_below
nibble_table = refl

join_nibbles_div-mod : (b : ℕ) → b < 256 → join_nibbles (b / 16) (b % 16) ≡ b
join_nibbles_div-mod b h = (nat_beq_iff _ b).0 (holds_below-lookup _ 256 nibble_table b h)

decode_plain :
    (b : ℕ) (s : Text) → is_unreserved b ≡ true → url_decode_bytes (b ∷ s) ≡ b ∷ url_decode_bytes s
unfolding url_decode_bytes is_unreserved
decode_plain b [] h = ground arith
decode_plain b (c ∷ []) h = ground arith
decode_plain b (c ∷ d ∷ s) h = ground arith

decode_escaped :
    (b : ℕ) (s : Text)
    → b < 256
    → url_decode_bytes (b'%' ∷ hex_digit (b / 16) ∷ hex_digit (b % 16) ∷ s) ≡ b ∷ url_decode_bytes s
unfolding url_decode_bytes
decode_escaped b s h =
    rw (hex_val-hex_digit (b / 16) (omega arith), hex_val-hex_digit (b % 16) (omega arith))
      (ap (λ c. c ∷ url_decode_bytes s) (join_nibbles_div-mod b h))

decode-encode_byte :
    (b : ℕ) (s : Text) → b < 256 → url_decode_bytes (encode_byte b ++ s) ≡ b ∷ url_decode_bytes s
unfolding encode_byte
decode-encode_byte b s h = elim (Bool-cases (is_unreserved b)) [
  | inl plain ↦ rw plain (decode_plain b s plain)
  | inr escaped ↦ rw escaped (decode_escaped b s h)
]

decode-encode : (s : Text) → All IsByte s → url_decode_bytes (percent_encode s) ≡ s
unfolding percent_encode
decode-encode [] h = unfold url_decode_bytes in refl
decode-encode (b ∷ s) (h, hs) =
    decode-encode_byte b (percent_encode s) h ∙ ap (λ t. b ∷ t) (decode-encode s hs)

-- Decoding what `percent_encode` wrote of a list of bytes gives those bytes, up to the decoder's
-- repair of what is no UTF-8.
pub url_decode-percent_encode :
    (s : Text) → All IsByte s → url_decode (percent_encode s) ≡ from_utf8_lossy s
unfolding url_decode
url_decode-percent_encode s h = ap from_utf8_lossy (decode-encode s h)

-- An unreserved character or a percent sign.
abbrev pub IsUrlSafe : ℕ → Type 0
IsUrlSafe c = (is_unreserved c ≡ true) ⊎ (c ≡ b'%')

hex_digit-is_unreserved : (n : ℕ) → n < 16 → is_unreserved (hex_digit n) ≡ true
unfolding hex_digit is_unreserved
hex_digit-is_unreserved n h = ground arith

encode_byte-IsUrlSafe : (b : ℕ) → b < 256 → All IsUrlSafe (encode_byte b)
unfolding encode_byte
encode_byte-IsUrlSafe b h = elim (Bool-cases (is_unreserved b)) [
  | inl plain ↦ rw plain (inl plain, tt)
  | inr escaped ↦ rw escaped (
    inr refl,
    (
      inl (hex_digit-is_unreserved (b / 16) (omega arith)),
      (inl (hex_digit-is_unreserved (b % 16) (omega arith)), tt),
    ),
  )
]

-- What `percent_encode` writes of bytes holds unreserved characters and percent signs only.
pub percent_encode-IsUrlSafe : (s : Text) → All IsByte s → All IsUrlSafe (percent_encode s)
unfolding percent_encode
percent_encode-IsUrlSafe [] h = tt
percent_encode-IsUrlSafe (b ∷ s) (h, hs) =
    All-append IsUrlSafe (encode_byte b) (percent_encode s) (encode_byte-IsUrlSafe b h)
      (percent_encode-IsUrlSafe s hs)
