-- ===== src/Vitals/Formats.antt =====
-- frontend/components/AgentVitals.tsx: exact fractions as an arithmetic for the displays, which makes none
-- of the rounding errors of JavaScript's numbers.
use native.Mathlib.Nat.{mul-one, div-one}
use isolator_v_wasm_sandbox.Common.{
  Text, codes, decimal, to_fixed_1, ℕ, ◌+◌, ◌*◌, ◌/◌, ◌%◌, ◌≤◌, ◌≡◌, false, ◌++◌, ltb, leb,
  if◌then◌else◌, arith,
}
use isolator_v_wasm_sandbox.Vitals.{JsNumber}
use isolator_v_wasm_sandbox.Vitals.Panels.{Arithmetic, format_wall}

-- A number that is not negative, as a fraction.
pub record Fraction : Type 0 where
  pub num : ℕ
  pub den : ℕ

abbrev pub over : ℕ → ℕ → Fraction
over n d = record { num = n; den = d }

abbrev pub fractions : JsNumber
fractions = record {
  Number = Fraction;
  of_numeral = λ n. over n 1;
  at_least = λ x n. leb (n * x.den) x.num;
}

-- `x.toFixed(k)` for a k of at most 1.
abbrev fixed : ℕ → Fraction → Text
fixed k x = if ltb 0 k then to_fixed_1 x.num x.den else decimal ((2 * x.num + x.den) / (2 * x.den))

abbrev pub exact : Arithmetic fractions
exact = record {
  divide = λ x y. over (x.num * y.den) (x.den * y.num);
  times = λ x y. over (x.num * y.num) (x.den * y.den);
  remainder = λ x y. over ((x.num * y.den) % (y.num * x.den)) (x.den * y.den);
  below = λ x n. ltb x.num (n * x.den);
  least = λ x y. if ltb (x.num * y.den) (y.num * x.den) then x else y;
  floor = λ x. over (x.num / x.den) 1;
  round = λ x. over ((2 * x.num + x.den) / (2 * x.den)) 1;
  to_fixed = fixed;
  to_text = λ x. decimal (x.num / x.den);
}

-- `format_wall` of whole milliseconds, without the fractions.
format_wall-exact :
    (ms : ℕ)
    → format_wall fractions exact (over ms 1) ≡ (
        if ltb ms 60000
        then to_fixed_1 ms 1000 ++ codes "s"
        else decimal (ms / 60000)
          ++ codes "m "
          ++ decimal ((2 * (ms % 60000) + 1000) / 2000)
          ++ codes "s")
unfolding format_wall
format_wall-exact ms = simp (mul-one, div-one)

-- With exact fractions, in the last half second of a minute the seconds are 60, beside the minutes that are over.
pub format_wall-sixty :
    (ms : ℕ)
    → 60000 ≤ ms
    → 59500 ≤ ms % 60000
    → format_wall fractions exact (over ms 1)
      ≡ decimal (ms / 60000) ++ codes "m " ++ decimal 60 ++ codes "s"
format_wall-sixty ms h k =
    let over_minute : ltb ms 60000 ≡ false = ground arith in
    let seconds : (2 * (ms % 60000) + 1000) / 2000 ≡ 60 = omega arith in
    rw (format_wall-exact, over_minute, seconds)
