-- ===== src/SafeMath.antt =====
-- src/core/utils/math.ts: fixed-point arithmetic within the signed 64-bit range of the ledger.
pub mod Rounding
use iot_billing_backend.Common.{
  ℕ, suc, ◌+◌, ◌-◌, ◌*◌, ◌/◌, ◌%◌, ◌^◌, Bool, true, false, not, ◌||◌, ◌==◌, ltb, if◌then◌else◌,
}
use iot_billing_backend.Common.Int.{ℤ, pos, negsuc, ◌+ℤ◌, ◌*ℤ◌, ltb_ℤ, eqb_ℤ, neg, magnitude, quot}
use iot_billing_backend.Common.Result.{Result, ok, throws}

-- PrecisionOverflowError, and the two uses of RangeError.
pub data MathError : Type 0 where
  precision_overflow integer_overflow division_by_zero : MathError

abbrev pub soroban_decimals : ℕ
soroban_decimals = 7

abbrev pub max_soroban_value : ℤ
max_soroban_value = pos 9223372036854775807

abbrev pub min_soroban_value : ℤ
min_soroban_value = negsuc 9223372036854775807

abbrev pub high_watermark_ratio : ℕ
high_watermark_ratio = 80

unfoldable pub check_overflow : ℤ → Bool
check_overflow value = ltb_ℤ max_soroban_value value || ltb_ℤ value min_soroban_value

abbrev rescaled : ℤ → ℕ → ℤ
rescaled raw decimals =
    if decimals == soroban_decimals
    then raw
    else if ltb soroban_decimals decimals
    then quot raw (10 ^ (decimals - soroban_decimals))
    else raw *ℤ pos (10 ^ (soroban_decimals - decimals))

abbrev checked : MathError → ℤ → Result MathError ℤ
checked e value = if check_overflow value then throws e else ok value

unfoldable pub to_soroban_precision : ℤ → ℕ → Result MathError ℤ
unfolding check_overflow quot ◌*ℤ◌
to_soroban_precision raw_value source_decimals =
    checked precision_overflow (rescaled raw_value source_decimals)

unfoldable pub multiply_with_precision : ℤ → ℤ → ℕ → ℤ
unfolding quot ◌*ℤ◌
multiply_with_precision a b precision_decimals = quot (a *ℤ b) (10 ^ precision_decimals)

unfoldable pub safe_add : ℤ → ℤ → Result MathError ℤ
unfolding check_overflow ◌+ℤ◌
safe_add a b = checked integer_overflow (a +ℤ b)

unfoldable pub safe_multiply : ℤ → ℤ → Result MathError ℤ
unfolding check_overflow ◌*ℤ◌
safe_multiply a b = checked integer_overflow (a *ℤ b)

abbrev pub is_negative : ℤ → Bool
is_negative a = ltb_ℤ a (pos 0)

-- The quotient of the absolute values, one more where there is a remainder.
unfoldable pub rounded : ℕ → ℕ → ℕ
rounded n d = if n % d == 0 then n / d else n / d + 1

abbrev pub differ : Bool → Bool → Bool
differ true b = not b
differ false b = b

abbrev pub with_sign : Bool → ℕ → ℤ
with_sign negative n = if negative then neg (pos n) else pos n

unfoldable pub round_up_div : ℤ → ℤ → Result MathError ℤ
unfolding rounded
round_up_div dividend divisor =
    if eqb_ℤ divisor (pos 0)
    then throws division_by_zero
    else ok (
        with_sign (differ (is_negative dividend) (is_negative divisor))
          (rounded (magnitude dividend) (magnitude divisor)))

-- The product, and whether the warning is printed.
unfoldable pub validate_price_metric_product : ℤ → ℤ → Result MathError (ℤ × Bool)
unfolding safe_multiply quot
validate_price_metric_product price units = elim (safe_multiply price units) [
  | throws e ↦ throws e
  | ok product ↦
      ok (product, ltb_ℤ (quot (max_soroban_value *ℤ pos high_watermark_ratio) 100) product)
]
