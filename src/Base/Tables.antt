-- ===== src/Base/Tables.antt =====
-- A statement about every number below a bound, by evaluation: a search for a counterexample fails.
use Prim.Native.Nat.{ℕ, zero, suc, ◌<◌}
use mathlib.Core.Path.{◌≡◌}
use mathlib.Core.Bool.{Bool, true, false, not, ◌||◌}
use native.Mathlib.Omega.{arith}

module _ (test : ℕ → Bool) where
  unfoldable pub fails_below : ℕ → Bool
  fails_below zero = false
  fails_below (suc bound) = not (test bound) || fails_below bound

  -- With no failure below the bound, the test passes there.
  pub passes_below : (bound : ℕ) → fails_below bound ≡ false → (v : ℕ) → v < bound → test v ≡ true
  unfolding fails_below
  passes_below zero none v under = elim under [ ]
  passes_below (suc bound) none v under = ground (arith, passes_below bound (ground arith) v)
