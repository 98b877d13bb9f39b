-- ===== src/Billing/Uuid/Tests.antt =====
-- Runs of the theorems about src/billing/uuidv7.ts on small inputs.
use iot_billing_backend.Common.{ℕ, ◌≡◌, true, arith}
use iot_billing_backend.Billing.Uuid.{uuidv7}
use iot_billing_backend.Billing.Uuid.Order.{text_lt, uuidv7_sorted}

-- The bytes of a key whose random part is large, and of one whose is zero.
abbrev ones : ℕ → ℕ
ones i = 255

abbrev zeros : ℕ → ℕ
zeros i = 0

uuidv7_sorted_example : text_lt (uuidv7 ones 1700000000255) (uuidv7 zeros 1700000000256) ≡ true
uuidv7_sorted_example =
    uuidv7_sorted ones zeros 1700000000255 1700000000256 (omega arith) (omega arith)
