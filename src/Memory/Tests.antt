-- ===== src/Memory/Tests.antt =====
-- Tests of memory.c.
use aimini_os.Base.{ℕ, ◌+◌, ◌%◌, ◌^◌, ◌≡◌, ◌<◌, ◌≤◌, refl, some, [], ◌∷◌, ◌++◌, arith, take, drop}
use mathlib.Core.Logic.{◌↔◌}
use aimini_os.Memory.{memcpy, memcmp, equal, kmalloc}
use aimini_os.Memory.Copy.{memcpy_lem, memcmp_lem}
use aimini_os.Memory.Heap.{kmalloc_disjoint}

memcpy_test :
    memcpy (1 ∷ 2 ∷ 3 ∷ []) (7 ∷ 8 ∷ 9 ∷ []) 2
    ≡ some (take 2 (7 ∷ 8 ∷ 9 ∷ []) ++ drop 2 (1 ∷ 2 ∷ 3 ∷ []))
memcpy_test = memcpy_lem (1 ∷ 2 ∷ 3 ∷ []) (7 ∷ 8 ∷ 9 ∷ []) 2 (omega arith) (omega arith)

memcmp_lem_test :
    (memcmp (1 ∷ 2 ∷ 3 ∷ []) (1 ∷ 2 ∷ 4 ∷ []) 2 ≡ some equal)
    ↔ (take {A = ℕ} 2 (1 ∷ 2 ∷ 3 ∷ []) ≡ take 2 (1 ∷ 2 ∷ 4 ∷ []))
memcmp_lem_test = memcmp_lem (1 ∷ 2 ∷ 3 ∷ []) (1 ∷ 2 ∷ 4 ∷ []) 2 (omega arith) (omega arith)

kmalloc_disjoint_example :
    let (p, heap_end') = kmalloc 0x200000 1537 in
    let (q, heap_end'') = kmalloc heap_end' 3 in
    (p + 1537 ≤ q) × (q + 3 ≤ heap_end'') × (p % 4 ≡ 0) × (q % 4 ≡ 0) × (heap_end'' < 2 ^ 32)
kmalloc_disjoint_example = kmalloc_disjoint 0x200000 1537 3 refl (omega arith)
