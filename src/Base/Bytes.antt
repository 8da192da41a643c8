-- ===== src/Base/Bytes.antt =====
-- Lists of bytes.
use Prim.Native.Nat.{ℕ, ◌<◌}
use mathlib.Core.List.{List, [], ◌∷◌, ◌++◌}

abbrev pub IsBytes : List ℕ → Type 0
IsBytes [] = Unit
IsBytes (x ∷ xs) = (x < 256) × IsBytes xs

pub IsBytes-append : (xs ys : List ℕ) → IsBytes xs → IsBytes ys → IsBytes (xs ++ ys)
IsBytes-append [] ys p q = q
IsBytes-append (x ∷ xs) ys p q = (p.0, IsBytes-append xs ys p.1 q)
