-- ===== src/ByteOrder/Laws.antt =====
-- What the conversions of byteorder.h do to the bytes of a word.
use aimini_os.Base.{ℕ, ◌+◌, ◌*◌, ◌/◌, ◌%◌, ◌^◌, ◌<◌, ◌≡◌, [], ◌∷◌, arith, bit_and, bit_or}
use aimini_os.Base.Bits.{bit_and-low, bit_and-shifted, bit_or-shifted}
use aimini_os.ByteOrder.{htons, ntohs, htonl, ntohl}
use aimini_os.Layout.{bytes16, bytes32}

pub htons_lem : (x : ℕ) → x < 2 ^ 16 → htons x ≡ x % 256 * 256 + x / 256
unfolding htons
htons_lem x h = ground (
  arith,
  bit_and-low 8 x,
  bit_and-shifted 8 x 0xff,
  bit_and-low 8 (x / 256),
  bit_or-shifted 8 (x % 256) (x / 256),
)

-- A mask of eight ones at bit `k`.
mask_byte : (k x : ℕ) → bit_and x (0xff * 2 ^ k) ≡ x / 2 ^ k % 256 * 2 ^ k
mask_byte k x = rw (bit_and-shifted k x 0xff, bit_and-low 8 (x / 2 ^ k))

-- Four bytes at their places.
or_bytes :
    (a b c d : ℕ)
    → a < 256
    → b < 256
    → c < 256
    → d < 256
    → bit_or (bit_or (bit_or (a * 16777216) (b * 65536)) (c * 256)) d
      ≡ a * 16777216 + b * 65536 + c * 256 + d
or_bytes a b c d ha hb hc hd = ground (
  arith,
  bit_or-shifted 24 a (b * 65536),
  bit_or-shifted 16 (a * 256 + b) (c * 256),
  bit_or-shifted 8 (a * 65536 + b * 256 + c) d,
)

pub htonl_lem :
    (x : ℕ)
    → x < 2 ^ 32
    → htonl x ≡ x % 256 * 16777216 + x / 256 % 256 * 65536 + x / 65536 % 256 * 256 + x / 16777216
unfolding htonl
htonl_lem x h = ground (
  arith,
  bit_and-low 8 x,
  mask_byte 8 x,
  mask_byte 16 x,
  mask_byte 24 x,
  or_bytes (x % 256) (x / 256 % 256) (x / 65536 % 256) (x / 16777216 % 256),
)

-- Converting to network order puts the highest byte first in memory.
pub bytes16-htons : (x : ℕ) → x < 2 ^ 16 → bytes16 (htons x) ≡ x / 256 ∷ x % 256 ∷ []
bytes16-htons x h = ground (arith, htons_lem x)

-- Converting to network order puts the bytes in memory from the highest to the lowest.
pub bytes32-htonl :
    (x : ℕ)
    → x < 2 ^ 32
    → bytes32 (htonl x) ≡ x / 16777216 ∷ x / 65536 % 256 ∷ x / 256 % 256 ∷ x % 256 ∷ []
bytes32-htonl x h = ground (arith, htonl_lem x)

pub htons-lt : (x : ℕ) → htons x < 2 ^ 16
unfolding htons
htons-lt x = omega arith

pub htonl-lt : (x : ℕ) → x < 2 ^ 32 → htonl x < 2 ^ 32
htonl-lt x h = omega (arith, htonl_lem x h)

-- `ntohs` undoes `htons` on every 16-bit word, and `ntohl` undoes `htonl` on every 32-bit word.
pub ntoh-hton : (x y : ℕ) → x < 2 ^ 16 → y < 2 ^ 32 → (ntohs (htons x) ≡ x) × (ntohl (htonl y) ≡ y)
unfolding ntohs ntohl
ntoh-hton x y hx hy = (
  omega (arith, htons_lem x hx, htons_lem (htons x) (htons-lt x)),
  omega (arith, htonl_lem y hy, htonl_lem (htonl y) (htonl-lt y hy)),
)
