-- ===== src/Util/Address.antt =====
-- `is_private_or_reserved_ip` of oidc-gateway/src/util.rs.
pub mod Blocks
pub mod Ipv6
use Prim.Native.Nat.{bit_and}
use jetauth.Prelude.{leb, ℕ, Bool, true, false, ◌/◌, ◌%◌, ◌&&◌, ◌||◌, ◌==◌, if◌then◌else◌, nat_eq}

pub data IpAddr : Type 0 where
  v4 : (a b c d : ℕ) → IpAddr
  v6 : (s0 s1 s2 s3 s4 s5 s6 s7 : ℕ) → IpAddr

-- The arm of IPv4, on the four octets.
unfoldable pub is_private_v4 : ℕ → ℕ → ℕ → ℕ → Bool
is_private_v4 a b c d =
    if a == 0
    then true
    else if a == 10
    then true
    else if a == 127
    then true
    else if a == 169 && b == 254
    then true
    else if a == 172 && (leb 16 b && leb b 31)
    then true
    else if a == 192 && b == 168
    then true
    else if a == 100 && (leb 64 b && leb b 127)
    then true
    else if a == 192 && (b == 0 && c == 2)
        || a == 198 && (b == 51 && c == 100)
        || a == 203 && (b == 0 && c == 113)
    then true
    else if leb 224 a
    then true
    else false

-- `is_loopback() || is_unspecified()` of an IPv6 address: ::1 or ::
unfoldable pub is_loopback_or_unspecified : (s0 s1 s2 s3 s4 s5 s6 s7 : ℕ) → Bool
is_loopback_or_unspecified s0 s1 s2 s3 s4 s5 s6 s7 =
    s0 == 0
    && (s1 == 0 && (s2 == 0 && (s3 == 0 && (s4 == 0 && (s5 == 0 && (s6 == 0 && leb s7 1))))))

unfoldable pub is_private_or_reserved_ip : IpAddr → Bool
unfolding is_private_v4 is_loopback_or_unspecified
is_private_or_reserved_ip (v4 a b c d) = is_private_v4 a b c d
is_private_or_reserved_ip (v6 s0 s1 s2 s3 s4 s5 s6 s7) =
    if is_loopback_or_unspecified s0 s1 s2 s3 s4 s5 s6 s7
    then true
    else if bit_and s0 0xffc0 == 0xfe80
    then true
    else if bit_and s0 0xfe00 == 0xfc00
    then true
    else if bit_and s0 0xff00 == 0xff00
    then true
    else if s0 == 0 && (s1 == 0 && (s2 == 0 && (s3 == 0 && (s4 == 0 && s5 == 0xffff))))
    then is_private_v4 (s6 / 256) (s6 % 256) (s7 / 256) (s7 % 256)
    else false
