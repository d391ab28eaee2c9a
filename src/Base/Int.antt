-- ===== src/Base/Int.antt =====
-- Signed integers over the native numbers, as far as the program uses them: exit statuses and
-- command-line numbers, which are compared and never added.
use Prim.Native.Nat.{ℕ, zero}
use mathlib.Core.Bool.{Bool, true, false, ◌&&◌}
use mathlib.Core.Option.{Option, none, some}
use package.rougarou_os.Base.Tests.{leb, if◌then◌else◌}

-- `negsuc n` is -(n + 1).
pub data ℤ : Type 0 where
  pos : ℕ → ℤ
  negsuc : ℕ → ℤ

-- `lo <= z <= hi`, with the number when the test holds.
abbrev pub in_range : ℕ → ℕ → ℤ → Option ℕ
in_range lo hi (pos n) = if leb lo n && leb n hi then some n else none
in_range lo hi (negsuc n) = none

abbrev pub is_zero : ℤ → Bool
is_zero (pos zero) = true
is_zero _ = false
