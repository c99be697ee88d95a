-- ===== src/Prelude/Int.antt =====
-- Go's `int`, unbounded, over the native numbers, with the tests that the program makes.
use Prim.Native.Nat.{ℕ}
use mathlib.Core.Bool.{Bool, true, false}
use tunnelgate.Prelude.Tests.{leb}

-- `negsuc n` is -(n + 1).
pub data ℤ : Type 0 where
  pos : ℕ → ℤ
  negsuc : ℕ → ℤ

-- The part of a number that is not below 0.
abbrev pub pos_part : ℤ → ℕ
pos_part (pos n) = n
pos_part (negsuc n) = 0

-- `i <= 0`
abbrev pub is_nonpositive : ℤ → Bool
is_nonpositive (pos n) = leb n 0
is_nonpositive (negsuc n) = true

-- `i <= n` and `n <= i` for a number `n` that is not below 0
abbrev pub int_leb : ℤ → ℕ → Bool
int_leb (pos m) n = leb m n
int_leb (negsuc m) n = true

abbrev pub leb_int : ℕ → ℤ → Bool
leb_int n (pos m) = leb n m
leb_int n (negsuc m) = false
