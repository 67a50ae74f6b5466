-- ===== src/Util/Utf8.antt =====
-- `String::from_utf8_lossy` of Rust's standard library: each maximal invalid part of the bytes
-- becomes one U+FFFD.
pub mod Ascii
use jetauth.Prelude.{
  Text, ltb, leb, ℕ, zero, suc, refl, [], ◌≡◌, ◌&&◌, ◌∷◌, ◌++◌, ◌==◌, if◌then◌else◌, nat_eq,
}

-- What has been read of a character: its bytes so far, how many are still to come, and the range
-- of the next one.
pub record Partial : Type 0 where
  pub bytes : Text
  pub missing : ℕ
  pub low : ℕ
  pub high : ℕ

abbrev start : Partial
start = record { bytes = []; missing = 0; low = 128; high = 191 }

abbrev replacement : Text
replacement = 0xef ∷ 0xbf ∷ 0xbd ∷ []

abbrev expect : ℕ → ℕ → ℕ → ℕ → Partial
expect b n lo hi = record { bytes = b ∷ []; missing = n; low = lo; high = hi }

-- The first byte of a character.
lead : ℕ → Text × Partial
lead b =
    if ltb b 0x80
    then (b ∷ [], start)
    else if leb 0xc2 b && leb b 0xdf
    then ([], expect b 1 128 191)
    else if b == 0xe0
    then ([], expect b 2 0xa0 191)
    else if b == 0xed
    then ([], expect b 2 128 0x9f)
    else if leb 0xe1 b && leb b 0xef
    then ([], expect b 2 128 191)
    else if b == 0xf0
    then ([], expect b 3 0x90 191)
    else if leb 0xf1 b && leb b 0xf3
    then ([], expect b 3 128 191)
    else if b == 0xf4
    then ([], expect b 3 128 0x8f)
    else (replacement, start)

follow : ℕ → Partial → ℕ → Text × Partial
follow zero p b = lead b
follow (suc zero) p b =
    if leb p.low b && leb b p.high
    then (p.bytes ++ b ∷ [], start)
    else (let (out, next) = lead b in (replacement ++ out, next))
follow (suc (suc n)) p b =
    if leb p.low b && leb b p.high
    then ([], record { bytes = p.bytes ++ b ∷ []; missing = suc n; low = 128; high = 191 })
    else (let (out, next) = lead b in (replacement ++ out, next))

finish : ℕ → Text
finish zero = []
finish (suc _) = replacement

lossy_from : Partial → Text → Text
lossy_from p [] = finish p.missing
lossy_from p (b ∷ s) = let (out, next) = follow p.missing p b in out ++ lossy_from next s

unfoldable pub from_utf8_lossy : Text → Text
unfolding lossy_from follow lead finish
from_utf8_lossy s = lossy_from start s

-- The bytes of a Rust `String`.
abbrev pub IsUtf8 : Text → Type 0
IsUtf8 s = from_utf8_lossy s ≡ s

lossy_tests :
    (from_utf8_lossy (b'a' ∷ 0xc3 ∷ 0xa9 ∷ []) ≡ b'a' ∷ 0xc3 ∷ 0xa9 ∷ [])
    × (from_utf8_lossy (0xe2 ∷ 0x82 ∷ b'a' ∷ []) ≡ 0xef ∷ 0xbf ∷ 0xbd ∷ b'a' ∷ [])
    × (from_utf8_lossy (0xf0 ∷ 0x9f ∷ 0x98 ∷ 0x80 ∷ []) ≡ 0xf0 ∷ 0x9f ∷ 0x98 ∷ 0x80 ∷ [])
    × (from_utf8_lossy (0xff ∷ 0xc3 ∷ []) ≡ 0xef ∷ 0xbf ∷ 0xbd ∷ 0xef ∷ 0xbf ∷ 0xbd ∷ [])
unfolding from_utf8_lossy
lossy_tests = (refl, refl, refl, refl)
