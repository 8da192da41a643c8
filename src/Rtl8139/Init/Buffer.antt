-- ===== src/Rtl8139/Init/Buffer.antt =====
-- The address that the card is given against the one that the driver reads.
use aimini_os.Base.{ℕ, ◌+◌, ◌-◌, ◌/◌, ◌%◌, ◌^◌, ◌≤◌, ◌<◌, ◌≡◌, arith}
use aimini_os.Base.Bits.{bit_and-shifted, bit_and-low}
use mathlib.Core.Logic.{◌↔◌}
use aimini_os.Rtl8139.Init.{rbstart_of}

-- For a buffer that does not end at the end of memory: the card's address is the first multiple
-- of 16 from the buffer on, and leaves room for the 32768 bytes of the ring; it is where the
-- driver reads exactly when the allocator's address is a multiple of 16.
pub rbstart_of_lem :
    (p : ℕ)
    → p + 32784 < 2 ^ 32
    → (rbstart_of p % 16 ≡ 0)
      × (p ≤ rbstart_of p)
      × (rbstart_of p + 32768 < p + 32784)
      × ((rbstart_of p ≡ p) ↔ (p % 16 ≡ 0))
unfolding rbstart_of
rbstart_of_lem p h = ground (
  arith,
  bit_and-low 4 p,
  bit_and-shifted 4 (p + 16) (2 ^ 28 - 1),
  bit_and-low 28 ((p + 16) / 16),
)
