-- ===== src/Worker/Input/Ipv4.antt =====
-- worker/src/index.js, `isPublicIPv4`: the tests on the octets, against the address blocks that they
-- stand for.
use swarmproof.Base.{
  Bool, List, [], any, arith, leb, not, ℕ, ◌&&◌, ◌*◌, ◌+◌, ◌-◌, ◌/◌, ◌==◌, ◌^◌, ◌∷◌, ◌≡◌, ◌≤◌,
}
use swarmproof.Worker.Input.{public_octets}

-- The address as one 32-bit number, and the block that shares its first bits with a base.
pub address : ℕ → ℕ → ℕ → ℕ → ℕ
address a b c d = a * 2 ^ 24 + b * 2 ^ 16 + c * 2 ^ 8 + d

pub in_block : ℕ → ℕ × ℕ → Bool
in_block addr (base, bits) = addr / 2 ^ (32 - bits) == base / 2 ^ (32 - bits)

-- 0/8, 127/8, 10/8, 172.16/12, 192.168/16, 169.254/16, 100.64/10, 192.0/16 and 224/3.
pub reserved : List (ℕ × ℕ)
reserved =
    (0, 8)
    ∷ (0x7f000000, 8)
    ∷ (0x0a000000, 8)
    ∷ (0xac100000, 12)
    ∷ (0xc0a80000, 16)
    ∷ (0xa9fe0000, 16)
    ∷ (0x64400000, 10)
    ∷ (0xc0000000, 16)
    ∷ (0xe0000000, 3)
    ∷ []

pub is_reserved : ℕ → Bool
unfolding reserved
is_reserved addr = any (in_block addr) reserved

module _ (a b c d : ℕ) (hb : b ≤ 255) (hc : c ≤ 255) (hd : d ≤ 255) where
  top_8 : address a b c d / 2 ^ 24 ≡ a
  unfolding address
  top_8 = omega arith

  top_16 : address a b c d / 2 ^ 16 ≡ a * 256 + b
  unfolding address
  top_16 = omega arith

  top_12 : address a b c d / 2 ^ 20 ≡ a * 16 + b / 16
  unfolding address
  top_12 = omega arith

  top_10 : address a b c d / 2 ^ 22 ≡ a * 4 + b / 64
  unfolding address
  top_10 = omega arith

  top_3 : address a b c d / 2 ^ 29 ≡ a / 32
  unfolding address
  top_3 = omega arith

  block_8 : (k : ℕ) → in_block (address a b c d) (k * 2 ^ 24, 8) ≡ (a == k)
  unfolding in_block
  block_8 k = ground (arith, top_8)

  block_16 :
      (k l : ℕ)
      → l ≤ 255
      → in_block (address a b c d) (k * 2 ^ 24 + l * 2 ^ 16, 16) ≡ (a == k && b == l)
  unfolding in_block
  block_16 k l h = ground (arith, top_16)

  block_172 : in_block (address a b c d) (0xac100000, 12) ≡ (a == 172 && leb 16 b && leb b 31)
  unfolding in_block
  block_172 = ground (arith, top_12)

  block_100 : in_block (address a b c d) (0x64400000, 10) ≡ (a == 100 && leb 64 b && leb b 127)
  unfolding in_block
  block_100 = ground (arith, top_10)

  block_224 : a ≤ 255 → in_block (address a b c d) (0xe0000000, 3) ≡ leb 224 a
  unfolding in_block
  block_224 h = ground (arith, top_3)

  -- On octets, the tests of the source accept exactly the addresses in none of the blocks.
  pub public_octets_lem : a ≤ 255 → public_octets a b c d ≡ not (is_reserved (address a b c d))
  unfolding public_octets is_reserved
  public_octets_lem ha =
      rw
        (
          block_8 0,
          block_8 127,
          block_8 10,
          block_172,
          block_16 192 168 (omega arith),
          block_16 169 254 (omega arith),
          block_100,
          block_16 192 0 (omega arith),
          block_224 ha,
        )
        (ground arith)
