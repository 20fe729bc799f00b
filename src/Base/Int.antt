-- ===== src/Base/Int.antt =====
-- Go's `int` where only comparison and conversion are used.
use Prim.Native.Nat.{◌-◌, ◌%◌, ◌^◌, ◌<◌}
use mathlib.Core.Bool.{Bool, true, false}
use mathlib.Core.Path.{◌≡◌}
use mathlib.Core.Logic.{◌↔◌}
use native.Mathlib.Omega.{arith}
use envd.Base.Tests.{ltb, ◌==◌, if◌then◌else◌}
use envd.Base.Strings.Decimal.{ℤ, pos, negsuc}

unfoldable pub int_eq : ℤ → ℤ → Bool
int_eq (pos a) (pos b) = a == b
int_eq (negsuc a) (negsuc b) = a == b
int_eq _ _ = false

pub int_eq_iff : (a b : ℤ) → (int_eq a b ≡ true) ↔ (a ≡ b)
unfolding int_eq
int_eq_iff (pos a) (pos b) = ground arith
int_eq_iff _ _ = ground arith

-- `int32(z)`
unfoldable pub to_int32 : ℤ → ℤ
to_int32 (pos n) = let r = n % 2 ^ 32 in if ltb r (2 ^ 31) then pos r else negsuc (2 ^ 32 - 1 - r)
to_int32 (negsuc n) =
    let r = n % 2 ^ 32 in if ltb r (2 ^ 31) then negsuc r else pos (2 ^ 32 - 1 - r)

-- What `int32` can hold.
abbrev pub FitsInt32 : ℤ → Type 0
FitsInt32 (pos n) = n < 2 ^ 31
FitsInt32 (negsuc n) = n < 2 ^ 31

pub to_int32_id : (z : ℤ) → FitsInt32 z → to_int32 z ≡ z
unfolding to_int32
to_int32_id (pos n) h = ground arith
to_int32_id (negsuc n) h = ground arith
