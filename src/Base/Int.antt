-- ===== src/Base/Int.antt =====
-- Go's signed integers, as far as the program compares them.
use Prim.Native.Nat.{ℕ, ◌%◌, ◌-◌, compare, Ordering}
use mathlib.Core.Bool.{Bool, true, false}

-- `negsuc n` is -(n + 1).
pub data ℤ : Type 0 where
  pos : ℕ → ℤ
  negsuc : ℕ → ℤ

abbrev ltb : ℕ → ℕ → Bool
ltb a b = elim (compare a b) [ Ordering.lt ↦ true | _ ↦ false ]

-- `a < b`
abbrev pub ltb_ℤ : ℤ → ℤ → Bool
ltb_ℤ (pos a) (pos b) = ltb a b
ltb_ℤ (pos a) (negsuc b) = false
ltb_ℤ (negsuc a) (pos b) = true
ltb_ℤ (negsuc a) (negsuc b) = ltb b a

-- `a == 0`
abbrev pub is_zero_ℤ : ℤ → Bool
is_zero_ℤ (pos a) = elim (compare a 0) [ Ordering.eq ↦ true | _ ↦ false ]
is_zero_ℤ (negsuc a) = false

-- `int32(n)` of a number from 0 on.
unfoldable pub int32 : ℕ → ℤ
int32 n =
    let m = n % 4294967296 in
    elim (ltb m 2147483648) [ true ↦ pos m | false ↦ negsuc (4294967295 - m) ]

-- `int32(n)` of any `int`, which keeps the lowest 32 bits in two's complement.
unfoldable pub int32_ℤ : ℤ → ℤ
unfolding int32
int32_ℤ (pos n) = int32 n
int32_ℤ (negsuc n) = int32 (4294967295 - n % 4294967296)
