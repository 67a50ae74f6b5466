-- ===== src/Util/Address/Ipv6.antt =====
-- The IPv6 addresses that are refused, as ranges of their first group.
use Prim.Native.Nat.{bit_and}
use mathlib.Core.Bool.{and-eq-true_iff}
use jetauth.Prelude.{
  leb, ℕ, refl, ap, Bool, true, false, not, arith, holds_below, holds_below-lookup, ◌+◌, ◌*◌, ◌/◌,
  ◌%◌, ◌<◌, ◌≡◌, ◌&&◌, ◌||◌, ◌∙◌, ◌==◌, if◌then◌else◌, nat_eq,
}
use jetauth.Util.Address.{v6, is_private_v4, is_loopback_or_unspecified, is_private_or_reserved_ip}
use jetauth.Util.Address.Blocks.{in_blocks, reserved, is_private_v4-eq}

bool_eq : Bool → Bool → Bool
bool_eq true b = b
bool_eq false b = not b

bool_eq_sound : (a b : Bool) → bool_eq a b ≡ true → a ≡ b
unfolding bool_eq
bool_eq_sound a b h = ground arith

mask_agrees : ℕ → Bool
mask_agrees x =
    bool_eq (bit_and x 0xffc0 == 0xfe80) (leb 0xfe80 x && leb x 0xfebf)
    && (bool_eq (bit_and x 0xfe00 == 0xfc00) (leb 0xfc00 x && leb x 0xfdff)
        && bool_eq (bit_and x 0xff00 == 0xff00) (leb 0xff00 x))

mask_table : holds_below mask_agrees 65536 ≡ true
unfolding holds_below mask_agrees bool_eq
mask_table = refl

masks :
    (x : ℕ)
    → x < 65536
    → ((bit_and x 0xffc0 == 0xfe80) ≡ (leb 0xfe80 x && leb x 0xfebf))
      × ((bit_and x 0xfe00 == 0xfc00) ≡ (leb 0xfc00 x && leb x 0xfdff))
      × ((bit_and x 0xff00 == 0xff00) ≡ leb 0xff00 x)
masks x h =
    let (p, rest) =
      (and-eq-true_iff _ _).0 (agrees (holds_below-lookup mask_agrees 65536 mask_table x h)) in
    let (q, r) = (and-eq-true_iff _ _).0 rest in
    (bool_eq_sound _ _ p, bool_eq_sound _ _ q, bool_eq_sound _ _ r)
  where
    agrees :
        mask_agrees x ≡ true
        → (bool_eq (bit_and x 0xffc0 == 0xfe80) (leb 0xfe80 x && leb x 0xfebf)
            && (bool_eq (bit_and x 0xfe00 == 0xfc00) (leb 0xfc00 x && leb x 0xfdff)
                && bool_eq (bit_and x 0xff00 == 0xff00) (leb 0xff00 x)))
          ≡ true
    agrees e = unfold mask_agrees in e

-- ::ffff:0:0/96
abbrev pub is_mapped : (s0 s1 s2 s3 s4 s5 : ℕ) → Bool
is_mapped s0 s1 s2 s3 s4 s5 =
    s0 == 0 && (s1 == 0 && (s2 == 0 && (s3 == 0 && (s4 == 0 && s5 == 0xffff))))

octets_of_groups :
    (s6 s7 : ℕ)
    → s6 < 65536
    → s7 < 65536
    → is_private_v4 (s6 / 256) (s6 % 256) (s7 / 256) (s7 % 256)
      ≡ in_blocks (s6 * 65536 + s7) reserved
octets_of_groups s6 s7 h k =
    is_private_v4-eq (s6 / 256) (s6 % 256) (s7 / 256) (s7 % 256) (omega arith)
    ∙ ap (λ n. in_blocks n reserved) (omega arith)

ladder :
    (l a b c m x : Bool)
    → (if l
        then true
        else if a
        then true
        else if b
        then true
        else if c
        then true
        else if m
        then x
        else false)
      ≡ (l || (a || (b || (c || m && x))))
ladder l a b c m x = ground arith

-- An IPv6 address is refused exactly when it is :: or ::1, lies in fe80::/10, fc00::/7 or ff00::/8,
-- or is an IPv4-mapped address whose IPv4 part lies in a reserved block.
pub is_private_or_reserved_ip-v6 :
    (s0 s1 s2 s3 s4 s5 s6 s7 : ℕ)
    → s0 < 65536
    → s6 < 65536
    → s7 < 65536
    → is_private_or_reserved_ip (v6 s0 s1 s2 s3 s4 s5 s6 s7) ≡ (
        is_loopback_or_unspecified s0 s1 s2 s3 s4 s5 s6 s7
        || (leb 0xfe80 s0 && leb s0 0xfebf
            || (leb 0xfc00 s0 && leb s0 0xfdff
                || (leb 0xff00 s0
                    || is_mapped s0 s1 s2 s3 s4 s5 && in_blocks (s6 * 65536 + s7) reserved))))
is_private_or_reserved_ip-v6 s0 s1 s2 s3 s4 s5 s6 s7 h k l =
    let (p, q, r) = masks s0 h in
    v6_lem
    ∙ rw (p, q, r, octets_of_groups s6 s7 k l)
        (ladder (is_loopback_or_unspecified s0 s1 s2 s3 s4 s5 s6 s7)
          (leb 0xfe80 s0 && leb s0 0xfebf) (leb 0xfc00 s0 && leb s0 0xfdff) (leb 0xff00 s0)
          (is_mapped s0 s1 s2 s3 s4 s5) (in_blocks (s6 * 65536 + s7) reserved))
  where
    v6_lem : is_private_or_reserved_ip (v6 s0 s1 s2 s3 s4 s5 s6 s7) ≡ (
        if is_loopback_or_unspecified s0 s1 s2 s3 s4 s5 s6 s7
        then true
        else if bit_and s0 0xffc0 == 0xfe80
        then true
        else if bit_and s0 0xfe00 == 0xfc00
        then true
        else if bit_and s0 0xff00 == 0xff00
        then true
        else if is_mapped s0 s1 s2 s3 s4 s5
        then is_private_v4 (s6 / 256) (s6 % 256) (s7 / 256) (s7 % 256)
        else false)
    v6_lem = unfold is_private_or_reserved_ip in refl
