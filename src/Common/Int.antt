-- ===== src/Common/Int.antt =====
-- Signed integers over the native numbers, under the library's names, and int64 arithmetic:
-- Go's + - and * on int64 wrap around modulo 2^64.
use Prim.Native.Nat.{ℕ, suc, ◌+◌, ◌-◌, ◌%◌, ◌^◌, ◌≤◌, ◌<◌}
use mathlib.Core.Path.{◌≡◌}
use mathlib.Core.Logic.{◌⊎◌}
use native.Mathlib.Omega.{arith}
use broadcast.Common.Tests.{ltb, leb, if◌then◌else◌}

-- `negsuc n` is -(n + 1).
pub data ℤ : Type 0 where
  pos : ℕ → ℤ
  negsuc : ℕ → ℤ

abbrev pub pos_part : ℤ → ℕ
pos_part (pos n) = n
pos_part (negsuc n) = 0

abbrev pub neg_part : ℤ → ℕ
neg_part (pos n) = 0
neg_part (negsuc n) = suc n

-- a - b, as an integer.
abbrev pub sub_ℕ : ℕ → ℕ → ℤ
sub_ℕ a b = if leb b a then pos (a - b) else negsuc (b - a - 1)

infixl 65 ◌+ℤ◌ ◌-ℤ◌
unfoldable pub ◌+ℤ◌ : ℤ → ℤ → ℤ
a +ℤ b = sub_ℕ (pos_part a + pos_part b) (neg_part a + neg_part b)

unfoldable pub ◌-ℤ◌ : ℤ → ℤ → ℤ
a -ℤ b = sub_ℕ (pos_part a + neg_part b) (neg_part a + pos_part b)

-- An int64 is an integer in [-2^63, 2^63).
abbrev pub IsInt64 : ℤ → Type 0
IsInt64 z = (pos_part z < 2 ^ 63) × (neg_part z ≤ 2 ^ 63)

-- The int64 whose 64 bits are those of the number.
from_bits : ℕ → ℤ
from_bits u = if ltb u (2 ^ 63) then pos u else negsuc (2 ^ 64 - 1 - u)

unfoldable pub wrap64 : ℤ → ℤ
unfolding from_bits
wrap64 (pos n) = from_bits (n % 2 ^ 64)
wrap64 (negsuc n) = from_bits (2 ^ 64 - 1 - n % 2 ^ 64)

unfoldable pub add64 : ℤ → ℤ → ℤ
add64 a b = wrap64 (a +ℤ b)

unfoldable pub sub64 : ℤ → ℤ → ℤ
sub64 a b = wrap64 (a -ℤ b)

wrap64-IsInt64 : (z : ℤ) → IsInt64 (wrap64 z)
unfolding wrap64
wrap64-IsInt64 (pos n) = ground arith
wrap64-IsInt64 (negsuc n) = ground arith

wrap64_exact : (z : ℤ) → IsInt64 z → wrap64 z ≡ z
unfolding wrap64
wrap64_exact (pos n) h = ground arith
wrap64_exact (negsuc n) h = ground arith

-- Zero plus an int64 is that int64.
pub add64-zero : (a : ℤ) → IsInt64 a → add64 (pos 0) a ≡ a
unfolding add64 ◌+ℤ◌ wrap64
add64-zero (pos n) h = ground arith
add64-zero (negsuc n) h = ground arith

pub add64-IsInt64 : (a b : ℤ) → IsInt64 (add64 a b)
unfolding add64
add64-IsInt64 a b = wrap64-IsInt64 (a +ℤ b)

pub sub64-IsInt64 : (a b : ℤ) → IsInt64 (sub64 a b)
unfolding sub64
sub64-IsInt64 a b = wrap64-IsInt64 (a -ℤ b)

-- Only 0 and -2^63 are their own negatives.
pub neg64_self : (a : ℤ) → IsInt64 a → sub64 (pos 0) a ≡ a → (a ≡ pos 0) ⊎ (a ≡ negsuc (2 ^ 63 - 1))
unfolding sub64 ◌-ℤ◌ wrap64
neg64_self (pos n) h e = ground arith
neg64_self (negsuc n) h e = ground arith

pub add64-pos : (a b : ℕ) → a + b < 2 ^ 63 → add64 (pos a) (pos b) ≡ pos (a + b)
unfolding add64 ◌+ℤ◌ wrap64
add64-pos a b h = ground arith
