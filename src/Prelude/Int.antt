-- ===== src/Prelude/Int.antt =====
-- Go's `int` as an integer, with its wrap-around to `int32` where the program converts.
use Prim.Native.Nat.{ℕ, ◌+◌, ◌-◌, ◌%◌, ◌^◌, ◌<◌}
use mathlib.Core.Bool.{Bool, true, false}
use mathlib.Core.Logic.{◌↔◌}
use mathlib.Core.Path.{◌≡◌}
use native.Mathlib.Omega.{arith}
use flash_qwen.Prelude.Tests.{ltb, leb, ◌==◌, if◌then◌else◌}

-- `negsuc n` is -(n + 1).
pub data ℤ : Type 0 where
  pos : ℕ → ℤ
  negsuc : ℕ → ℤ

-- a - b, as an integer.
abbrev pub sub_ℕ : ℕ → ℕ → ℤ
sub_ℕ a b = if leb b a then pos (a - b) else negsuc (b - a - 1)

abbrev pub eqb : ℤ → ℤ → Bool
eqb (pos m) (pos n) = m == n
eqb (pos m) (negsuc n) = false
eqb (negsuc m) (pos n) = false
eqb (negsuc m) (negsuc n) = m == n

pub eqb_iff : (a b : ℤ) → (eqb a b ≡ true) ↔ (a ≡ b)
eqb_iff (pos m) (pos n) = ground arith
eqb_iff (pos m) (negsuc n) = ground arith
eqb_iff (negsuc m) (pos n) = ground arith
eqb_iff (negsuc m) (negsuc n) = ground arith

-- The 32-bit pattern as a signed number.
abbrev pub signed32 : ℕ → ℤ
signed32 w = if ltb w (2 ^ 31) then pos w else negsuc (2 ^ 32 - w - 1)

-- int32(x)
abbrev pub int32 : ℤ → ℤ
int32 (pos n) = signed32 (n % 2 ^ 32)
int32 (negsuc n) = signed32 (2 ^ 32 - 1 - n % 2 ^ 32)

pub int32_lem : (n : ℕ) → n < 2 ^ 31 → int32 (pos n) ≡ pos n
int32_lem n h = ground arith

-- a - n
abbrev pub minus : ℤ → ℕ → ℤ
minus (pos m) n = sub_ℕ m n
minus (negsuc m) n = negsuc (m + n)

-- a < b
abbrev pub ltb_ℤ : ℤ → ℤ → Bool
ltb_ℤ (pos m) (pos n) = ltb m n
ltb_ℤ (pos m) (negsuc n) = false
ltb_ℤ (negsuc m) (pos n) = true
ltb_ℤ (negsuc m) (negsuc n) = ltb n m

-- The integer as a number, 0 if it is negative.
abbrev pub to_ℕ : ℤ → ℕ
to_ℕ (pos n) = n
to_ℕ (negsuc n) = 0

-- a + b
abbrev pub plus : ℤ → ℤ → ℤ
plus (pos m) (pos n) = pos (m + n)
plus (pos m) (negsuc n) = sub_ℕ m (n + 1)
plus (negsuc m) (pos n) = sub_ℕ n (m + 1)
plus (negsuc m) (negsuc n) = negsuc (m + n + 1)
