-- ===== src/Memory/Copy.antt =====
-- What `memcpy`, `memset` and `memcmp` do to the bytes, and when they stay inside their buffers.
use mathlib.Core.Logic.{◌↔◌}
use aimini_os.Base.{
  ℕ, zero, suc, ◌≤◌, ◌<◌, ◌≡◌, refl, none, some, List, [], ◌∷◌, ◌++◌, length, take, drop, replicate,
  arith, ◌⊎◌, u8,
}
use aimini_os.Memory.{memcpy, memset, memcmp, equal}

-- Within both buffers `memcpy` succeeds and changes the first `len` bytes only.
pub memcpy_lem :
    (dest src : List ℕ) (len : ℕ)
    → len ≤ length dest
    → len ≤ length src
    → memcpy dest src len ≡ some (take len src ++ drop len dest)
unfolding memcpy
memcpy_lem dest src zero p q = refl
memcpy_lem [] src (suc len) p q = absurd (omega arith)
memcpy_lem (d ∷ dest) [] (suc len) p q = absurd (omega arith)
memcpy_lem (d ∷ dest) (s ∷ src) (suc len) p q =
    rw (memcpy_lem dest src len (omega arith) (omega arith))

-- Past the end of either buffer `memcpy` faults.
pub memcpy_fault :
    (dest src : List ℕ) (len : ℕ)
    → (length dest < len) ⊎ (length src < len)
    → memcpy dest src len ≡ none
unfolding memcpy
memcpy_fault dest src zero p = absurd (omega arith)
memcpy_fault [] src (suc len) p = refl
memcpy_fault (d ∷ dest) [] (suc len) p = refl
memcpy_fault (d ∷ dest) (s ∷ src) (suc len) p = rw (memcpy_fault dest src len (grind arith))

pub memset_lem :
    (dest : List ℕ) (val len : ℕ)
    → len ≤ length dest
    → memset dest val len ≡ some (replicate len (u8 val) ++ drop len dest)
unfolding memset
memset_lem dest val zero p = refl
memset_lem [] val (suc len) p = absurd (omega arith)
memset_lem (d ∷ dest) val (suc len) p = rw (memset_lem dest val len (omega arith))

-- With the first `n` bytes inside both buffers, `memcmp` returns zero exactly when they are the
-- same.
pub memcmp_lem :
    (p q : List ℕ) (n : ℕ)
    → n ≤ length p
    → n ≤ length q
    → (memcmp p q n ≡ some equal) ↔ (take n p ≡ take n q)
unfolding memcmp
memcmp_lem p q zero hp hq = ((λ _. refl), (λ _. refl))
memcmp_lem [] q (suc n) hp hq = absurd (omega arith)
memcmp_lem (x ∷ p) [] (suc n) hp hq = absurd (omega arith)
memcmp_lem (x ∷ p) (y ∷ q) (suc n) hp hq =
    let ih = memcmp_lem p q n (omega arith) (omega arith) in
    ((λ e. ground (arith, ih.0)), (λ e. ground (arith, ih.1)))
