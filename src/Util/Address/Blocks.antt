-- ===== src/Util/Address/Blocks.antt =====
-- The private and reserved IPv4 addresses as blocks of an address space of 32-bit numbers.
use jetauth.Prelude.{
  ltb, leb, ℕ, refl, Bool, false, List, [], arith, ◌+◌, ◌-◌, ◌*◌, ◌^◌, ◌<◌, ◌≡◌, ◌&&◌, ◌||◌, ◌∷◌,
  ◌==◌, nat_eq,
}
use jetauth.Util.Address.{v4, is_private_v4, is_private_or_reserved_ip}

-- The address a.b.c.d as a number.
abbrev pub number : ℕ → ℕ → ℕ → ℕ → ℕ
number a b c d = ((a * 256 + b) * 256 + c) * 256 + d

-- base/length: 2 ^ (32 - length) addresses from the base on
pub record Block : Type 0 where
  pub base : ℕ
  pub size : ℕ

abbrev cidr : ℕ → ℕ → ℕ → ℕ → ℕ → Block
cidr a b c d len = record { base = number a b c d; size = 2 ^ (32 - len) }

unfoldable pub in_block : ℕ → Block → Bool
in_block n block = leb block.base n && ltb n (block.base + block.size)

unfoldable pub in_blocks : ℕ → List Block → Bool
in_blocks n [] = false
in_blocks n (b ∷ bs) = in_block n b || in_blocks n bs

-- Current network, private, loopback, link-local, carrier-grade NAT, the three test networks,
-- multicast, and reserved with the broadcast address.
abbrev pub reserved : List Block
reserved =
    cidr 0 0 0 0 8
    ∷ cidr 10 0 0 0 8
    ∷ cidr 127 0 0 0 8
    ∷ cidr 169 254 0 0 16
    ∷ cidr 172 16 0 0 12
    ∷ cidr 192 168 0 0 16
    ∷ cidr 100 64 0 0 10
    ∷ cidr 192 0 2 0 24
    ∷ cidr 198 51 100 0 24
    ∷ cidr 203 0 113 0 24
    ∷ cidr 224 0 0 0 4
    ∷ cidr 240 0 0 0 4
    ∷ []

pub record AreOctets (a b c d : ℕ) : Type 0 where
  pub first : a < 256
  pub second : b < 256
  pub third : c < 256
  pub fourth : d < 256

module _ (a b c d : ℕ) (h : AreOctets a b c d) where
  block_8 : (k : ℕ) → in_block (number a b c d) (cidr k 0 0 0 8) ≡ (a == k)
  unfolding in_block
  block_8 k = ground arith

  block_16 : (k j : ℕ) → j < 256 → in_block (number a b c d) (cidr k j 0 0 16) ≡ (a == k && b == j)
  unfolding in_block
  block_16 k j p = ground arith

  block_24 :
      (k j i : ℕ)
      → j < 256
      → i < 256
      → in_block (number a b c d) (cidr k j i 0 24) ≡ (a == k && (b == j && c == i))
  unfolding in_block
  block_24 k j i p q = ground arith

  block_12 : in_block (number a b c d) (cidr 172 16 0 0 12) ≡ (a == 172 && (leb 16 b && leb b 31))
  unfolding in_block
  block_12 = ground arith

  block_10 : in_block (number a b c d) (cidr 100 64 0 0 10) ≡ (a == 100 && (leb 64 b && leb b 127))
  unfolding in_block
  block_10 = ground arith

  block_multicast : in_block (number a b c d) (cidr 224 0 0 0 4) ≡ (leb 224 a && leb a 239)
  unfolding in_block
  block_multicast = ground arith

  block_reserved : in_block (number a b c d) (cidr 240 0 0 0 4) ≡ leb 240 a
  unfolding in_block
  block_reserved = ground arith

  pub is_private_v4-eq : is_private_v4 a b c d ≡ in_blocks (number a b c d) reserved
  unfolding is_private_v4 in_blocks
  is_private_v4-eq =
      rw
        (
          block_8 0,
          block_8 10,
          block_8 127,
          block_16 169 254 (omega arith),
          block_12,
          block_16 192 168 (omega arith),
          block_10,
          block_24 192 0 2 (omega arith) (omega arith),
          block_24 198 51 100 (omega arith) (omega arith),
          block_24 203 0 113 (omega arith) (omega arith),
          block_multicast,
          block_reserved,
        )
        (ground arith)

-- An IPv4 address is refused exactly when it lies in one of the reserved blocks.
pub is_private_or_reserved_ip-v4 :
    (a b c d : ℕ)
    → AreOctets a b c d
    → is_private_or_reserved_ip (v4 a b c d) ≡ in_blocks (number a b c d) reserved
is_private_or_reserved_ip-v4 a b c d h = rw v4_lem (is_private_v4-eq a b c d h)
  where
    v4_lem : is_private_or_reserved_ip (v4 a b c d) ≡ is_private_v4 a b c d
    v4_lem = unfold is_private_or_reserved_ip in refl
