-- ===== src/Common/Decimal.antt =====
-- The decimal digits of a whole number, as `String` and template texts write it.
use Prim.Native.Nat.{ℕ, zero, suc, ◌+◌, ◌*◌, ◌/◌, ◌%◌}
use mathlib.Core.List.{[], ◌∷◌, ◌++◌}
use isolator_v_wasm_sandbox.Common.Tests.{ltb, if◌then◌else◌, ℤ, pos, negsuc}
use isolator_v_wasm_sandbox.Common.Strings.{Text}

-- The digits below the fuel's limit, in front of `acc`.
unfoldable pub decimal_from : ℕ → ℕ → Text → Text
decimal_from zero n acc = acc
decimal_from (suc fuel) n acc =
    let rest = decimal_from fuel (n / 10) ((b'0' + n % 10) ∷ acc) in
    if ltb n 10 then (b'0' + n) ∷ acc else rest

-- `String(n)`; the fuel is above the number of digits.
unfoldable pub decimal : ℕ → Text
unfolding decimal_from
decimal n = decimal_from (suc n) n []

unfoldable pub signed_decimal : ℤ → Text
unfolding decimal
signed_decimal (pos n) = decimal n
signed_decimal (negsuc n) = b'-' ∷ decimal (suc n)

-- `(n / d).toFixed(1)` in tenths, where the quotient is exact; ties round up.
unfoldable pub tenths : ℕ → ℕ → ℕ
tenths n d = (20 * n + d) / (2 * d)

unfoldable pub to_fixed_1 : ℕ → ℕ → Text
unfolding decimal tenths
to_fixed_1 n d = decimal (tenths n d / 10) ++ (b'.' ∷ decimal (tenths n d % 10))
