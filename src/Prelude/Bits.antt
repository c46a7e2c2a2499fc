-- ===== src/Prelude/Bits.antt =====
-- A test on all numbers of a small range, checked by evaluation.
use Prim.Native.Nat.{ℕ, zero, suc, ◌<◌}
use mathlib.Core.Path.{◌≡◌}
use mathlib.Core.Bool.{Bool, true, ◌&&◌}
use native.Mathlib.Omega.{arith}

unfoldable pub every : (ℕ → Bool) → ℕ → Bool
every test zero = true
every test (suc k) = every test k && test k

pub every-below : (test : ℕ → Bool) (k x : ℕ) → x < k → every test k ≡ true → test x ≡ true
unfolding every
every-below test zero x h e = absurd (omega arith)
every-below test (suc k) x h e = ground (arith, every-below test k x)
