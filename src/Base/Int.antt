-- ===== src/Base/Int.antt =====
-- C's `int` where a value may be negative, over the native numbers.
use Prim.Native.Nat.{ℕ, ◌-◌, ◌%◌, ◌≤◌}
use mathlib.Core.Path.{◌≡◌}
use native.Mathlib.Omega.{arith}
use bulletin_board.Base.Tests.{leb, if◌then◌else◌}

-- `negsuc n` is -(n + 1).
pub data ℤ : Type 0 where
  pos : ℕ → ℤ
  negsuc : ℕ → ℤ

-- a - b, as an integer.
abbrev pub sub_ℕ : ℕ → ℕ → ℤ
sub_ℕ a b = if leb b a then pos (a - b) else negsuc (b - a - 1)

-- The greatest `int`, of 32 bits.
abbrev pub int_max : ℕ
int_max = 2147483647

-- A longer integer that is stored in an `int`.
unfoldable pub wrap_int : ℕ → ℤ
wrap_int n = let m = n % 4294967296 in if leb m int_max then pos m else negsuc (4294967295 - m)

pub wrap_int_lem : (n : ℕ) → n ≤ int_max → wrap_int n ≡ pos n
unfolding wrap_int
wrap_int_lem n le = ground arith
