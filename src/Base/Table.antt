-- ===== src/Base/Table.antt =====
-- Checking a Boolean statement at every number below a bound by evaluation.
use Prim.Native.Nat.{ℕ, zero, suc, ◌<◌}
use mathlib.Core.Path.{◌≡◌}
use mathlib.Core.Bool.{Bool, true, ◌&&◌}
use native.Mathlib.Omega.{arith}

unfoldable pub at_all : ℕ → (ℕ → Bool) → Bool
at_all zero test = true
at_all (suc n) test = test n && at_all n test

pub at_all→test : (n : ℕ) (test : ℕ → Bool) (x : ℕ) → x < n → at_all n test ≡ true → test x ≡ true
unfolding at_all
at_all→test zero test x h e = absurd (omega arith)
at_all→test (suc n) test x h e = ground (arith, at_all→test n test x)
