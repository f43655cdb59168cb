-- ===== src/Net/Bytes.antt =====
-- Byte order, net_byteorder.h, and the bytes that a packed struct has in memory on the
-- little-endian processor.
use gannet_os.Base.{
  ℕ, ◌+◌, ◌*◌, ◌/◌, ◌%◌, ◌^◌, ◌<◌, ◌≡◌, ◌∙◌, List, [], ◌∷◌, arith, get_or, bit_or, bit_or-add,
}

-- `net_swap16`, which is htons and ntohs.
unfoldable pub net_swap16 : ℕ → ℕ
net_swap16 v = bit_or (v * 256) (v / 256) % 2 ^ 16

-- `net_swap32`, which is htonl and ntohl: each mask selects one byte.
unfoldable pub net_swap32 : ℕ → ℕ
net_swap32 v =
    bit_or
      (bit_or (bit_or (v % 256 * 2 ^ 24) (v / 256 % 256 * 256 * 256))
        (v / 2 ^ 16 % 256 * 2 ^ 16 / 256))
      (v / 2 ^ 24 % 256 * 2 ^ 24 / 2 ^ 24)

-- The bytes of a word in memory.
unfoldable pub store16 : ℕ → List ℕ
store16 v = v % 256 ∷ v / 256 % 256 ∷ []

unfoldable pub store32 : ℕ → List ℕ
store32 v = v % 256 ∷ v / 256 % 256 ∷ v / 2 ^ 16 % 256 ∷ v / 2 ^ 24 % 256 ∷ []

-- The word at an offset of a packet.
unfoldable pub load16 : List ℕ → ℕ → ℕ
load16 bytes i = get_or bytes i 0 + 256 * get_or bytes (i + 1) 0

unfoldable pub load32 : List ℕ → ℕ → ℕ
load32 bytes i =
    get_or bytes i 0
    + 256 * get_or bytes (i + 1) 0
    + 2 ^ 16 * get_or bytes (i + 2) 0
    + 2 ^ 24 * get_or bytes (i + 3) 0

pub net_swap16-sum : (v : ℕ) → v < 2 ^ 16 → net_swap16 v ≡ v % 256 * 256 + v / 256
unfolding net_swap16
net_swap16-sum v h = omega (arith, bit_or-add 8 v (v / 256) (omega arith))

-- The four bytes put together, each in its own place.
or-bytes :
    (a b c d : ℕ)
    → a < 256
    → b < 256
    → c < 256
    → d < 256
    → bit_or (bit_or (bit_or (a * 2 ^ 24) (b * 256 * 256)) (c * 2 ^ 16 / 256)) (d * 2 ^ 24 / 2 ^ 24)
      ≡ a * 2 ^ 24 + b * 2 ^ 16 + c * 256 + d
or-bytes a b c d p q r s =
    let first : bit_or (a * 2 ^ 24) (b * 256 * 256) ≡ (a * 256 + b) * 2 ^ 16 =
      bit_or-add 24 a (b * 256 * 256) (omega arith) ∙ omega arith in
    let second : bit_or ((a * 256 + b) * 2 ^ 16) (c * 2 ^ 16 / 256)
        ≡ (a * 2 ^ 16 + b * 256 + c) * 2 ^ 8 =
      bit_or-add 16 (a * 256 + b) (c * 2 ^ 16 / 256) (omega arith) ∙ omega arith in
    rw (first, second, bit_or-add 8 (a * 2 ^ 16 + b * 256 + c) (d * 2 ^ 24 / 2 ^ 24) (omega arith))
      (omega arith)

pub net_swap32-sum :
    (v : ℕ)
    → v < 2 ^ 32
    → net_swap32 v ≡ v % 256 * 2 ^ 24 + v / 256 % 256 * 2 ^ 16 + v / 2 ^ 16 % 256 * 256 + v / 2 ^ 24
unfolding net_swap32
net_swap32-sum v h = omega (
  arith,
  or-bytes (v % 256) (v / 256 % 256) (v / 2 ^ 16 % 256) (v / 2 ^ 24 % 256) (omega arith)
      (omega arith) (omega arith) (omega arith),
)

pub net_swap16-lt : (v : ℕ) → net_swap16 v < 2 ^ 16
unfolding net_swap16
net_swap16-lt v = omega arith

-- A swap is its own inverse.
pub net_swap16-net_swap16 : (v : ℕ) → v < 2 ^ 16 → net_swap16 (net_swap16 v) ≡ v
net_swap16-net_swap16 v h =
    omega (arith, net_swap16-sum v h, net_swap16-sum (net_swap16 v) (net_swap16-lt v))

pub net_swap32-lt : (v : ℕ) → v < 2 ^ 32 → net_swap32 v < 2 ^ 32
net_swap32-lt v h = omega (arith, net_swap32-sum v h)

pub net_swap32-net_swap32 : (v : ℕ) → v < 2 ^ 32 → net_swap32 (net_swap32 v) ≡ v
net_swap32-net_swap32 v h =
    omega (arith, net_swap32-sum v h, net_swap32-sum (net_swap32 v) (net_swap32-lt v h))

-- What is stored is what is loaded.
pub load16-store16 : (v : ℕ) → v < 2 ^ 16 → load16 (store16 v) 0 ≡ v
unfolding load16 store16
load16-store16 v h = omega arith

pub load32-store32 : (v : ℕ) → v < 2 ^ 32 → load32 (store32 v) 0 ≡ v
unfolding load32 store32
load32-store32 v h = omega arith
