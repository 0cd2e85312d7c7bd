-- ===== src/Base/Int.antt =====
-- Go's int64 (and int, on a 64-bit platform) as signed integers over the native numbers.
-- `wrap64` is the reduction into [-2^63, 2^63) that follows every operation of the language.
use Prim.Native.Nat.{ℕ, suc, ◌+◌, ◌-◌, ◌*◌, ◌/◌, ◌%◌, ◌^◌, ◌≤◌, ◌<◌}
use mathlib.Core.Path.{◌≡◌}
use mathlib.Core.Bool.{Bool, true}
use native.Mathlib.Omega.{arith}
use peerwatch.Base.Tests.{ltb, leb, ◌==◌, if◌then◌else◌}

-- `negsuc n` is -(n + 1).
pub data ℤ : Type 0 where
  pos : ℕ → ℤ
  negsuc : ℕ → ℤ

abbrev pub pos_part : ℤ → ℕ
pos_part (pos n) = n
pos_part (negsuc n) = 0

abbrev pub neg_part : ℤ → ℕ
neg_part (pos n) = 0
neg_part (negsuc n) = suc n

-- a - b, as an integer.
abbrev pub sub_ℕ : ℕ → ℕ → ℤ
sub_ℕ a b = if leb b a then pos (a - b) else negsuc (b - a - 1)

abbrev pub ltb_ℤ : ℤ → ℤ → Bool
ltb_ℤ a b = ltb (pos_part a + neg_part b) (pos_part b + neg_part a)

abbrev pub leb_ℤ : ℤ → ℤ → Bool
leb_ℤ a b = leb (pos_part a + neg_part b) (pos_part b + neg_part a)

abbrev pub eqb_ℤ : ℤ → ℤ → Bool
eqb_ℤ a b = pos_part a + neg_part b == pos_part b + neg_part a

-- uint64(x) and int64(u): two's complement, both ways.
abbrev pub to_u64 : ℤ → ℕ
to_u64 (pos n) = n % 2 ^ 64
to_u64 (negsuc n) = 2 ^ 64 - 1 - n % 2 ^ 64

abbrev pub of_u64 : ℕ → ℤ
of_u64 u = if ltb u (2 ^ 63) then pos u else negsuc (2 ^ 64 - 1 - u)

abbrev pub IsInt64 : ℤ → Type 0
IsInt64 (pos n) = n < 2 ^ 63
IsInt64 (negsuc n) = n < 2 ^ 63

abbrev pub wrap64 : ℤ → ℤ
wrap64 x = of_u64 (to_u64 x)

unfoldable pub add64 : ℤ → ℤ → ℤ
add64 a b = wrap64 (sub_ℕ (pos_part a + pos_part b) (neg_part a + neg_part b))

unfoldable pub sub64 : ℤ → ℤ → ℤ
sub64 a b = wrap64 (sub_ℕ (pos_part a + neg_part b) (neg_part a + pos_part b))

unfoldable pub mul64 : ℤ → ℤ → ℤ
mul64 a b = wrap64 (
    sub_ℕ (pos_part a * pos_part b + neg_part a * neg_part b)
      (pos_part a * neg_part b + neg_part a * pos_part b))

-- `/` rounds towards zero; the caller has ruled out a zero divisor.
abbrev pub quot64 : ℤ → ℤ → ℤ
quot64 (pos a) (pos b) = pos (a / b)
quot64 (pos a) (negsuc b) = sub_ℕ 0 (a / suc b)
quot64 (negsuc a) (pos b) = sub_ℕ 0 (suc a / b)
quot64 (negsuc a) (negsuc b) = wrap64 (pos (suc a / suc b))

pub of_u64-to_u64 : (x : ℤ) → IsInt64 x → of_u64 (to_u64 x) ≡ x
of_u64-to_u64 (pos n) h = ground arith
of_u64-to_u64 (negsuc n) h = ground arith

pub to_u64-lt : (x : ℤ) → to_u64 x < 2 ^ 64
to_u64-lt (pos n) = omega arith
to_u64-lt (negsuc n) = omega arith

-- Where the exact result is a natural number below 2^63, the wrapping operation gives it.
pub add64_pos : (a b : ℕ) → a + b < 2 ^ 63 → add64 (pos a) (pos b) ≡ pos (a + b)
unfolding add64
add64_pos a b h = ground arith

pub sub64_pos : (a b : ℕ) → b ≤ a → a < 2 ^ 63 → sub64 (pos a) (pos b) ≡ pos (a - b)
unfolding sub64
sub64_pos a b h k = ground arith

pub mul64_pos : (a b : ℕ) → a * b < 2 ^ 63 → mul64 (pos a) (pos b) ≡ pos (a * b)
unfolding mul64
mul64_pos a b h = ground arith

-- Where it is not, the operation wraps.
pub add64_overflow :
    (a b : ℕ)
    → 2 ^ 63 ≤ a + b
    → a + b < 2 ^ 64
    → add64 (pos a) (pos b) ≡ negsuc (2 ^ 64 - 1 - (a + b))
unfolding add64
add64_overflow a b h k = ground arith

pub sub64_negsuc : (n : ℕ) → suc n < 2 ^ 63 → sub64 (negsuc n) (pos 1) ≡ negsuc (suc n)
unfolding sub64
sub64_negsuc n h = ground arith

pub quot64_negsuc : (n b : ℕ) → leb_ℤ (quot64 (negsuc n) (pos b)) (pos 0) ≡ true
quot64_negsuc n b = ground arith
