-- ===== src/Memory/Heap.antt =====
-- The bump allocator: `kmalloc` hands out aligned blocks that do not overlap.
use aimini_os.Base.{ℕ, ◌+◌, ◌-◌, ◌*◌, ◌/◌, ◌%◌, ◌^◌, ◌≤◌, ◌<◌, ◌≡◌, arith}
use aimini_os.Base.Bits.{bit_and-shifted, bit_and-low}
use aimini_os.Memory.{align4, kmalloc}

pub align4_lem : (size : ℕ) → size + 3 < 2 ^ 32 → align4 size ≡ (size + 3) / 4 * 4
unfolding align4
align4_lem size h =
    ground (arith, bit_and-shifted 2 (size + 3) (2 ^ 30 - 1), bit_and-low 30 ((size + 3) / 4))

-- Two blocks that are allocated one after the other from an aligned `heap_end`, without running
-- past the end of the address space, lie one behind the other, each as large as was asked for, and
-- stay aligned to 4 bytes.
pub kmalloc_disjoint :
    (heap_end a b : ℕ)
    → heap_end % 4 ≡ 0
    → heap_end + a + b + 6 < 2 ^ 32
    → let (p, heap_end') = kmalloc heap_end a in
      let (q, heap_end'') = kmalloc heap_end' b in
      (p + a ≤ q) × (q + b ≤ heap_end'') × (p % 4 ≡ 0) × (q % 4 ≡ 0) × (heap_end'' < 2 ^ 32)
unfolding kmalloc
kmalloc_disjoint heap_end a b h fits =
    omega (arith, align4_lem a (omega arith), align4_lem b (omega arith))
