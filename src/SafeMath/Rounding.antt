-- ===== src/SafeMath/Rounding.antt =====
-- Division that rounds away from zero.
use native.Mathlib.Nat.{mod-add-div, mod-lt, mul-add}
use iot_billing_backend.Common.{
  ℕ, ◌+◌, ◌*◌, ◌/◌, ◌%◌, ◌≤◌, ◌<◌, ◌≡◌, ◌==◌, if◌then◌else◌, arith, refl, Bool-cases, inl, inr,
}
use iot_billing_backend.Common.Int.{ℤ, pos, eqb_ℤ, magnitude}
use iot_billing_backend.Common.Result.{ok, throws}
use iot_billing_backend.SafeMath.{
  round_up_div, rounded, with_sign, differ, is_negative, division_by_zero,
}

-- The least multiple that reaches a number.
rounded_bounds : (n d : ℕ) → 0 < d → (n ≤ d * rounded n d) × (d * rounded n d < n + d)
unfolding rounded
rounded_bounds n d h = elim (Bool-cases (n % d == 0)) [
  | inl e ↦
      let whole : n % d ≡ 0 = ground (arith, e) in
      rw (e) (omega (arith, mod-add-div n d, whole), omega (arith, mod-add-div n d, whole))
  | inr e ↦
      let part : 0 < n % d = ground (arith, e) in
      rw (e) (
        omega (arith, mod-add-div n d, mod-lt n h, mul-add d (n / d) 1),
        omega (arith, mod-add-div n d, part, mul-add d (n / d) 1),
      )
]

-- A division by zero throws. Any other has a result that is negative (or zero) exactly when the
-- signs differ, and whose magnitude is the least whole number that times the divisor's reaches the
-- dividend's: the result is rounded away from zero, not up.
pub round_up_div_lem :
    (a b : ℤ)
    → if eqb_ℤ b (pos 0)
      then (round_up_div a b ≡ throws division_by_zero)
      else (q : ℕ) × (round_up_div a b ≡ ok (with_sign (differ (is_negative a) (is_negative b)) q))
        × (magnitude a ≤ magnitude b * q)
        × (magnitude b * q < magnitude a + magnitude b)
unfolding round_up_div
round_up_div_lem a b = elim (Bool-cases (eqb_ℤ b (pos 0))) [
  | inl e ↦ rw (e) refl
  | inr e ↦
      let (reached, least) = rounded_bounds (magnitude a) (magnitude b) (ground (arith, e)) in
      rw (e) (rounded (magnitude a) (magnitude b), refl, reached, least)
]
