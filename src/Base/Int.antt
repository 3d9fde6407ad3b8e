-- ===== src/Base/Int.antt =====
-- C's `int` values and return codes, as integers.
use Prim.Native.Nat.{ℕ}
use mathlib.Core.Bool.{Bool, true, false}
use mathlib.Core.Option.{Option, none, some}
use tr.Base.Tests.{ltb, ◌==◌, if◌then◌else◌}

-- `negsuc n` is -(n + 1).
pub data ℤ : Type 0 where
  pos : ℕ → ℤ
  negsuc : ℕ → ℤ

-- The code's usual failure code, -1.
abbrev pub minus_one : ℤ
minus_one = negsuc 0

-- `0 <= x && x < n`, handing on the index.
abbrev pub index_below : ℕ → ℤ → Option ℕ
index_below n (pos i) = if ltb i n then some i else none
index_below n (negsuc i) = none

-- `lo < x && x <= hi`
abbrev pub between : ℕ → ℕ → ℤ → Bool
between lo hi (pos n) = if ltb lo n then (if ltb hi n then false else true) else false
between lo hi (negsuc n) = false

-- `x == n` for a constant n that is not negative.
abbrev pub is_num : ℤ → ℕ → Bool
is_num (pos m) n = m == n
is_num (negsuc m) n = false
