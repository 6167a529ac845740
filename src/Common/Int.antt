-- ===== src/Common/Int.antt =====
-- Python's unbounded integers, and the signed machine integers, over the native numbers.
use Prim.Native.Nat.{ℕ, suc, ◌+◌, ◌-◌, ◌≤◌, ◌^◌, ◌%◌, bit_and, bit_or}
use mathlib.Core.Bool.{Bool, true, false}
use century_ring.Common.Tests.{ltb}

-- `negsuc n` is -(n + 1).
pub data ℤ : Type 0 where
  pos : ℕ → ℤ
  negsuc : ℕ → ℤ

abbrev pub pos_part : ℤ → ℕ
pos_part (pos n) = n
pos_part (negsuc n) = 0

abbrev pub neg_part : ℤ → ℕ
neg_part (pos n) = 0
neg_part (negsuc n) = suc n

infix 50 ◌≤ℤ◌
abbrev pub ◌≤ℤ◌ : ℤ → ℤ → Type 0
a ≤ℤ b = pos_part a + neg_part b ≤ pos_part b + neg_part a

abbrev pub ltb_ℤ : ℤ → ℤ → Bool
ltb_ℤ a b = ltb (pos_part a + neg_part b) (pos_part b + neg_part a)

-- |a|, Python's `abs`
abbrev pub abs : ℤ → ℕ
abs (pos n) = n
abs (negsuc n) = suc n

abbrev pub is_negative : ℤ → Bool
is_negative (pos n) = false
is_negative (negsuc n) = true

abbrev pub u64_mod : ℕ
u64_mod = 2 ^ 64

-- Rust's `as u64` of a signed integer of at most 64 bits: two's complement.
unfoldable pub as_u64 : ℤ → ℕ
as_u64 (pos n) = n % u64_mod
as_u64 (negsuc n) = u64_mod - suc (n % u64_mod)

-- Python's `|` with a number that is not negative, on two's complement without end: `negsuc n` has
-- the bits that `n` lacks.
unfoldable pub or_ℤ : ℤ → ℕ → ℤ
or_ℤ (pos a) m = pos (bit_or a m)
or_ℤ (negsuc n) m = negsuc (n - bit_and n m)
