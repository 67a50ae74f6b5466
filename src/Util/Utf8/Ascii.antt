-- ===== src/Util/Utf8/Ascii.antt =====
-- ASCII texts are UTF-8.
use jetauth.Prelude.{Text, All, ℕ, refl, [], arith, ◌<◌, ◌≡◌, ◌∷◌, nat_eq}
use jetauth.Util.Utf8.{IsUtf8, from_utf8_lossy, lossy_from, start, lead, follow, finish}

abbrev pub IsAscii : ℕ → Type 0
IsAscii c = c < 128

lossy_from-IsAscii : (s : Text) → All IsAscii s → lossy_from start s ≡ s
unfolding lossy_from follow lead finish
lossy_from-IsAscii [] h = refl
lossy_from-IsAscii (c ∷ s) (h, hs) = ground (arith, lossy_from-IsAscii s hs)

pub ascii-IsUtf8 : (s : Text) → All IsAscii s → IsUtf8 s
unfolding from_utf8_lossy
ascii-IsUtf8 s h = lossy_from-IsAscii s h
