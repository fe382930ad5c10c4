-- ===== src/Base/Ints.antt =====
-- Go's int and time.Duration, 64 bits wide.
use Prim.Native.Nat.{ℕ, ◌-◌, ◌%◌, ◌^◌}
use mathlib.Core.Bool.{Bool, true, false}
use noisecat.Base.Tests.{ltb, if◌then◌else◌}

-- `negsuc n` is - (n + 1).
pub data ℤ : Type 0 where
  pos negsuc : ℕ → ℤ

abbrev pub is_negative : ℤ → Bool
is_negative (pos n) = false
is_negative (negsuc n) = true

-- The number that 64 bits stand for.
unfoldable pub wrap64 : ℕ → ℤ
wrap64 n = let w = n % 2 ^ 64 in if ltb w (2 ^ 63) then pos w else negsuc (2 ^ 64 - 1 - w)
