-- ===== src/Base/Bits.antt =====
-- Masks, shifted masks and disjoint fields as arithmetic, at every width.
use Prim.Native.Nat.{
  ℕ, zero, suc, ◌+◌, ◌-◌, ◌*◌, ◌/◌, ◌%◌, ◌^◌, ◌≤◌, ◌<◌, min, max, bit_and, bit_or,
}
use Prim.Native.Nat.{digits, bit_and-bitwise, bit_or-bitwise}
use mathlib.Core.Path.{◌≡◌, refl, ap}
use native.Mathlib.Nat.{pow-suc, one-le-pow, div-div-eq-div-mul}
use native.Mathlib.Omega.{arith}

module _ (z : ℕ → ℕ) (f : ℕ → ℕ → ℕ) where
  no_digits : (n c : ℕ) → digits z f n zero c ≡ z c
  no_digits zero c = refl
  no_digits (suc n) c = refl

  -- More rounds than the first number has digits change nothing.
  spare_digits : (more a b k : ℕ) → a ≤ k → digits z f (more + k) a b ≡ digits z f k a b
  spare_digits more zero b k h = rw (no_digits (more + k) b, no_digits k b)
  spare_digits more (suc a) b zero h = absurd (omega arith)
  spare_digits more (suc a) b (suc k) h =
      let e : more + suc k ≡ suc (more + k) = omega arith in
      rw (e, spare_digits more (suc a / 2) (b / 2) k (omega arith))

  lowest_digit :
      (a b : ℕ)
      → digits z f (suc a) (suc a) b
        ≡ digits z f (suc a / 2) (suc a / 2) (b / 2) * 2 + f (suc a % 2) (b % 2)
  lowest_digit a b =
      let e : a ≡ (a - suc a / 2) + suc a / 2 = omega arith in
      let same = spare_digits (a - suc a / 2) (suc a / 2) (b / 2) (suc a / 2) (omega arith) in
      omega (arith, ap (λ (n : ℕ). digits z f n (suc a / 2) (b / 2)) e, same)

bit_or_halves : (a b : ℕ) → bit_or a b ≡ bit_or (a / 2) (b / 2) * 2 + max (a % 2) (b % 2)
bit_or_halves zero b = omega (arith, bit_or-bitwise 0 b, bit_or-bitwise 0 (b / 2))
bit_or_halves (suc a) b = omega (
  arith,
  bit_or-bitwise (suc a) b,
  bit_or-bitwise (suc a / 2) (b / 2),
  lowest_digit (λ c. c) max a b,
)

bit_and_halves : (a b : ℕ) → bit_and a b ≡ bit_and (a / 2) (b / 2) * 2 + min (a % 2) (b % 2)
bit_and_halves zero b = omega (arith, bit_and-bitwise 0 b, bit_and-bitwise 0 (b / 2))
bit_and_halves (suc a) b = omega (
  arith,
  bit_and-bitwise (suc a) b,
  bit_and-bitwise (suc a / 2) (b / 2),
  lowest_digit (λ _. zero) min a b,
)

bit_or-zero_below : (n a : ℕ) → a ≤ n → bit_or a 0 ≡ a
bit_or-zero_below n zero h = refl
bit_or-zero_below zero (suc a) h = absurd (omega arith)
bit_or-zero_below (suc n) (suc a) h =
    omega (arith, bit_or_halves (suc a) 0, bit_or-zero_below n (suc a / 2) (omega arith))

bit_and-zero_below : (n a : ℕ) → a ≤ n → bit_and a 0 ≡ 0
bit_and-zero_below n zero h = refl
bit_and-zero_below zero (suc a) h = absurd (omega arith)
bit_and-zero_below (suc n) (suc a) h =
    omega (arith, bit_and_halves (suc a) 0, bit_and-zero_below n (suc a / 2) (omega arith))

pub bit_and-zero : (a : ℕ) → bit_and a 0 ≡ 0
bit_and-zero a = bit_and-zero_below a a (omega arith)

pub bit_or-zero : (a : ℕ) → bit_or a 0 ≡ a
bit_or-zero a = bit_or-zero_below a a (omega arith)

-- `x * 2 ^ suc k`, one doubling at a time
mul_doubling : (x k : ℕ) → x * 2 ^ suc k ≡ (x * 2 ^ k) * 2
mul_doubling x k = omega (arith, ap (λ (t : ℕ). x * t) (pow-suc 2 k))

-- `(q << k) | r` adds up when `r` has `k` bits.
pub bit_or-shifted : (k q r : ℕ) → r < 2 ^ k → bit_or (q * 2 ^ k) r ≡ q * 2 ^ k + r
bit_or-shifted zero q r h = ground (arith, bit_or-zero q)
bit_or-shifted (suc k) q r h = ground (
  arith,
  bit_or_halves (q * 2 ^ suc k) r,
  mul_doubling q k,
  pow-suc 2 k,
  bit_or-shifted k q (r / 2) (omega (arith, pow-suc 2 k)),
)

-- A mask of `k` ones takes the `k` lowest bits, `r`.
bit_and-ones : (k q r : ℕ) → r < 2 ^ k → bit_and (q * 2 ^ k + r) (2 ^ k - 1) ≡ r
bit_and-ones zero q r h = rw bit_and-zero (omega arith)
bit_and-ones (suc k) q r h = ground (
  arith,
  bit_and_halves (q * 2 ^ suc k + r) (2 ^ suc k - 1),
  mul_doubling q k,
  pow-suc 2 k,
  one-le-pow k 2,
  bit_and-ones k q (r / 2) (omega (arith, pow-suc 2 k)),
)

-- `a & (2 ^ k - 1)` is the remainder by `2 ^ k`.
pub bit_and-low : (k a : ℕ) → bit_and a (2 ^ k - 1) ≡ a % 2 ^ k
bit_and-low k a =
    ground (
      arith,
      one-le-pow k 2,
      bit_and-ones k (a / 2 ^ k) (a % 2 ^ k) (omega (arith, one-le-pow k 2)),
    )

-- `a & (m << k)` is `((a >> k) & m) << k`.
pub bit_and-shifted : (k a m : ℕ) → bit_and a (m * 2 ^ k) ≡ bit_and (a / 2 ^ k) m * 2 ^ k
bit_and-shifted zero a m = ground arith
bit_and-shifted (suc k) a m = ground (
  arith,
  bit_and_halves a (m * 2 ^ suc k),
  mul_doubling m k,
  mul_doubling (bit_and (a / 2 ^ suc k) m) k,
  div-div-eq-div-mul a 2 (2 ^ k),
  pow-suc 2 k,
  bit_and-shifted k (a / 2) m,
)

pub zero-bit_or : (a : ℕ) → bit_or 0 a ≡ a
zero-bit_or a = omega (arith, bit_or-bitwise 0 a)

-- `r | (q << k)` with the fields the other way round.
pub bit_or-under : (k q r : ℕ) → r < 2 ^ k → bit_or r (q * 2 ^ k) ≡ q * 2 ^ k + r
bit_or-under zero q r h = ground (arith, zero-bit_or q)
bit_or-under (suc k) q r h = ground (
  arith,
  bit_or_halves r (q * 2 ^ suc k),
  mul_doubling q k,
  pow-suc 2 k,
  bit_or-under k q (r / 2) (omega (arith, pow-suc 2 k)),
)

-- A disjunction has no more bits than its arguments.
pub bit_or-lt : (k a b : ℕ) → a < 2 ^ k → b < 2 ^ k → bit_or a b < 2 ^ k
bit_or-lt zero a b h g =
    let za : a ≡ 0 = omega arith in let zb : b ≡ 0 = omega arith in rw (za, zb) (omega arith)
bit_or-lt (suc k) a b h g = ground (
  arith,
  bit_or_halves a b,
  pow-suc 2 k,
  bit_or-lt k (a / 2) (b / 2) (omega (arith, pow-suc 2 k)) (omega (arith, pow-suc 2 k)),
)
