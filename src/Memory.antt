-- ===== src/Memory.antt =====
-- memory.c: the byte loops and the allocator. A pointer to `n` bytes is a list of them; an access
-- behind its end is a fault, `none`.
pub mod Copy
pub mod Heap
mod Tests
use aimini_os.Base.{
  ℕ, zero, suc, ◌+◌, ◌-◌, ◌*◌, ◌/◌, ◌%◌, ◌^◌, ◌≡◌, ◌==◌, if◌then◌else◌, Option, none, some, List,
  [], ◌∷◌, bit_and, u8, u32,
}

abbrev pub put : ℕ → Option (List ℕ) → Option (List ℕ)
put x none = none
put x (some xs) = some (x ∷ xs)

-- `while (len-- > 0) *d++ = *s++;`
unfoldable pub memcpy : List ℕ → List ℕ → ℕ → Option (List ℕ)
memcpy dest src zero = some dest
memcpy [] src (suc len) = none
memcpy (d ∷ dest) [] (suc len) = none
memcpy (d ∷ dest) (s ∷ src) (suc len) = put s (memcpy dest src len)

-- `*ptr++ = val;` cuts the int to a byte.
unfoldable pub memset : List ℕ → ℕ → ℕ → Option (List ℕ)
memset dest val zero = some dest
memset [] val (suc len) = none
memset (d ∷ dest) val (suc len) = put (u8 val) (memset dest val len)

-- The sign of `*p1 - *p2` at the first difference.
pub data Compared : Type 0 where
  equal : Compared
  differ : ℕ → ℕ → Compared

unfoldable pub memcmp : List ℕ → List ℕ → ℕ → Option Compared
memcmp p q zero = some equal
memcmp [] q (suc n) = none
memcmp (x ∷ p) [] (suc n) = none
memcmp (x ∷ p) (y ∷ q) (suc n) =
    let rest = memcmp p q n in if x == y then rest else some (differ x y)

-- `(size + 3) & ~3` of a `uint32_t`.
unfoldable pub align4 : ℕ → ℕ
align4 size = bit_and (u32 (size + 3)) (2 ^ 32 - 4)

-- The allocated address and the new `heap_end`.
unfoldable pub kmalloc : ℕ → ℕ → ℕ × ℕ
kmalloc heap_end size = (heap_end, u32 (heap_end + align4 size))
