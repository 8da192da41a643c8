-- ===== src/Ring/Offsets.antt =====
-- Where the driver reads in the ring.
use aimini_os.Base.{ℕ, ◌+◌, ◌-◌, ◌*◌, ◌/◌, ◌^◌, ◌<◌, ◌≡◌, arith, leb, if◌then◌else◌, u16, bit_and}
use aimini_os.Base.Bits
use aimini_os.Ring.{rx_offset_of, next_offset, capr_of}

-- `x & ~3`
mask_lem : (x : ℕ) → x < 2 ^ 32 → bit_and x (2 ^ 32 - 4) ≡ x / 4 * 4
mask_lem x h = omega (arith, Bits.bit_and-shifted 2 x (2 ^ 30 - 1), Bits.bit_and-low 30 (x / 4))

-- The space of a frame of `size` bytes at `offset`: its header of 4 bytes and itself, up to a multiple
-- of four.
abbrev pub frame_end : ℕ → ℕ → ℕ
frame_end offset size = (offset + size + 7) / 4 * 4

-- The offset behind a frame, for sizes that do not overflow 16 bits: the end of its space, or, past
-- the end of the ring, the place 16 bytes behind the end of its space.
pub next_offset_lem :
    (offset size : ℕ)
    → offset + size + 7 < 2 ^ 16
    → next_offset offset size ≡ (
        if leb 32768 (frame_end offset size)
        then frame_end offset size - 32768 + 16
        else frame_end offset size)
unfolding next_offset
next_offset_lem offset size h =
    let e : u16 (bit_and (offset + size + 4 + 3) (2 ^ 32 - 4)) ≡ frame_end offset size =
      omega (arith, mask_lem (offset + size + 4 + 3) (omega arith)) in
    rw e (ground arith)

-- For an offset in the ring, the call after a frame reads where the call before it stopped: the
-- offset that was written to the register is the offset that is computed from it.
pub rx_offset_of-capr_of : (offset : ℕ) → offset < 32768 → rx_offset_of (capr_of offset) ≡ offset
unfolding rx_offset_of capr_of
rx_offset_of-capr_of offset h = ground arith
