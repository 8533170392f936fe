-- ===== src/Prelude/Decimal.antt =====
-- strconv.Itoa: the decimal text of a number.
use Prim.Native.Nat.{ℕ, zero, suc, ◌+◌, ◌/◌, ◌%◌}
use mathlib.Core.List.{◌∷◌, []}
use flash_qwen.Prelude.Int.{ℤ, pos, negsuc}
use flash_qwen.Prelude.Tests.{ltb, if◌then◌else◌, Bytes}

itoa_from : ℕ → ℕ → Bytes → Bytes
itoa_from zero n out = out
itoa_from (suc f) n out =
    let more = itoa_from f (n / 10) ((b'0' + n % 10) ∷ out) in
    if ltb n 10 then (b'0' + n) ∷ out else more

-- strconv.Itoa
unfoldable pub itoa : ℕ → Bytes
unfolding itoa_from
itoa n = itoa_from (n + 1) n []

-- the same for any `int`
unfoldable pub int_text : ℤ → Bytes
unfolding itoa
int_text (pos n) = itoa n
int_text (negsuc n) = b'-' ∷ itoa (n + 1)
