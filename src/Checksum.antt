-- ===== src/Checksum.antt =====
-- network.c: `network_checksum`, the Internet checksum. The `length` bytes at `data` are a list;
-- the 16-bit loads of the source take the lower byte first.
pub mod Fold
pub mod Verify
mod Tests
use aimini_os.Base.{
  ℕ, zero, suc, ◌+◌, ◌-◌, ◌*◌, ◌%◌, ◌^◌, Bool, true, false, List, [], ◌∷◌, bit_and, ltb, u16, u32,
  shr,
}

-- `while (length > 1) { sum += *ptr++; length -= 2; }`, then the odd byte.
unfoldable pub sum_words : ℕ → List ℕ → ℕ
sum_words sum [] = sum
sum_words sum (b ∷ []) = u32 (sum + b)
sum_words sum (lo ∷ hi ∷ rest) = sum_words (u32 (sum + (lo + 256 * hi))) rest

-- `while (sum >> 16) sum = (sum & 0xffff) + (sum >> 16);` with at most `rounds` turns.
unfoldable pub fold_carries : ℕ → ℕ → ℕ
fold_carries zero sum = sum
fold_carries (suc rounds) sum = elim (ltb 0 (shr sum 16)) [
  | true ↦ fold_carries rounds (u32 (bit_and sum 0xffff + shr sum 16))
  | false ↦ sum
]

-- The turns that a 32-bit sum can need.
abbrev pub fold_rounds : ℕ
fold_rounds = 2

-- `return ~sum;` of a `uint32_t`, cut to 16 bits.
unfoldable pub network_checksum : List ℕ → ℕ
network_checksum bytes = u16 (2 ^ 32 - 1 - fold_carries fold_rounds (sum_words 0 bytes))
