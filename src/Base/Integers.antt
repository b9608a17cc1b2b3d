-- ===== src/Base/Integers.antt =====
-- Python's `int` on the native numbers: `negsuc n` is `-(n + 1)`.
use Prim.Native.Nat.{ℕ, ◌+◌}
use Prim.Native.String.{String, ◌++◌}
use mathlib.Core.Bool.{Bool, true, false}
use gita.Base.Tests.{ltb, leb}
use gita.Base.Text.{decimal}

pub data ℤ : Type 0 where
  pos negsuc : ℕ → ℤ

-- `z > n` and `n <= z` and `z <= n`, for a natural `n`
abbrev pub is_above : ℕ → ℤ → Bool
is_above n (pos m) = ltb n m
is_above n (negsuc m) = false

abbrev pub is_from : ℕ → ℤ → Bool
is_from n (pos m) = leb n m
is_from n (negsuc m) = false

abbrev pub is_upto : ℕ → ℤ → Bool
is_upto n (pos m) = leb m n
is_upto n (negsuc m) = true

-- `f"{z}"`
abbrev pub shown : ℤ → String
shown (pos n) = decimal n
shown (negsuc n) = "-" ++ decimal (n + 1)
