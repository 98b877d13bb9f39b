-- ===== src/Billing/Uuid.antt =====
-- src/billing/uuidv7.ts: the idempotency keys that the finalizer mints.
pub mod Order
mod Tests
use iot_billing_backend.Common.{
  ℕ, ◌+◌, ◌*◌, ◌/◌, ◌%◌, ◌≡◌, refl, List, [], ◌∷◌, ◌++◌, ltb, if◌then◌else◌,
}

-- `(b & 0x0f) | 0x70` and `(b & 0x3f) | 0x80` on a byte: the bits that are set are those that the
-- mask has cleared.
unfoldable pub version_byte : ℕ → ℕ
version_byte b = b % 16 + 112

unfoldable pub variant_byte : ℕ → ℕ
variant_byte b = b % 64 + 128

-- The character code of a hexadecimal digit, and `toString('hex')`.
unfoldable pub hex_digit : ℕ → ℕ
hex_digit d = if ltb d 10 then 48 + d else 87 + d

unfoldable pub hex : List ℕ → List ℕ
hex [] = []
hex (b ∷ bs) = hex_digit (b / 16) ∷ hex_digit (b % 16) ∷ hex bs

-- The code of `-`.
abbrev pub dash : List ℕ
dash = 45 ∷ []

-- Bytes 0 to 3 and 4 to 5: the low eight bits (`& 0xff`) of the timestamp divided by powers of
-- two. A time before the epoch is 0 (`Math.max`).
unfoldable pub high_time_bytes : ℕ → List ℕ
high_time_bytes ts =
    (ts / 1099511627776) % 256
    ∷ (ts / 4294967296) % 256
    ∷ (ts / 16777216) % 256
    ∷ (ts / 65536) % 256
    ∷ []

unfoldable pub low_time_bytes : ℕ → List ℕ
low_time_bytes ts = (ts / 256) % 256 ∷ ts % 256 ∷ []

-- The text, as character codes. `random i` is the byte `i` of `randomBytes(16)`.
unfoldable pub uuidv7 : (ℕ → ℕ) → ℕ → List ℕ
uuidv7 random ts =
    hex (high_time_bytes ts)
    ++ (dash
        ++ (hex (low_time_bytes ts)
            ++ (dash
                ++ (hex (version_byte (random 6) ∷ random 7 ∷ [])
                    ++ (dash
                        ++ (hex (variant_byte (random 8) ∷ random 9 ∷ [])
                            ++ (dash
                                ++ hex (
                                    random 10
                                    ∷ random 11
                                    ∷ random 12
                                    ∷ random 13
                                    ∷ random 14
                                    ∷ random 15
                                    ∷ []))))))))
