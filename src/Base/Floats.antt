-- ===== src/Base/Floats.antt =====
-- float64 as a type with operations: what the code computes with it is written in these.
use Prim.Native.Nat.{ℕ}
use mathlib.Core.Bool.{Bool}
use peerwatch.Base.Int.{ℤ}

-- `decimal n k` is the literal n / 10^k, `of_int` the conversion float64(x), `less` and `at_most`
-- are `<` and `<=`.
pub record Floats (F : Type 0) : Type 0 where
  pub plus : F → F → F
  pub minus : F → F → F
  pub times : F → F → F
  pub over : F → F → F
  pub less : F → F → Bool
  pub at_most : F → F → Bool
  pub of_int : ℤ → F
  pub decimal : ℕ → ℕ → F
