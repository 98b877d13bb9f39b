-- ===== src/Billing/Uuid/Order.antt =====
-- src/billing/uuidv7.ts: keys sort by the time at which they were made.
use iot_billing_backend.Common.{
  ℕ, ◌/◌, ◌%◌, ◌≤◌, ◌<◌, ◌≡◌, ◌⊎◌, inl, inr, Bool, true, false, ◌||◌, ◌&&◌, List, [], ◌∷◌, ◌++◌,
  ltb, ◌==◌, arith,
}
use iot_billing_backend.Billing.Uuid.{
  hex_digit, hex, dash, high_time_bytes, low_time_bytes, uuidv7, version_byte, variant_byte,
}

-- `<` on texts: by the first character in which they differ.
unfoldable pub text_lt : List ℕ → List ℕ → Bool
text_lt xs [] = false
text_lt [] (y ∷ ys) = true
text_lt (x ∷ xs) (y ∷ ys) = ltb x y || (x == y && text_lt xs ys)

hex_digit_lt : (d e : ℕ) → d < e → e < 16 → hex_digit d < hex_digit e
unfolding hex_digit
hex_digit_lt d e lt le = ground arith

-- A byte that is smaller makes the text smaller, whatever follows; bytes that are equal leave the
-- order to what follows.
hex_lt :
    (b c : ℕ) (bs cs rest rest' : List ℕ)
    → b < c
    → c < 256
    → text_lt (hex (b ∷ bs) ++ rest) (hex (c ∷ cs) ++ rest') ≡ true
unfolding text_lt hex
hex_lt b c bs cs rest rest' lt le =
    ground (arith, lt, le, hex_digit_lt (b / 16) (c / 16), hex_digit_lt (b % 16) (c % 16))

-- One byte of the two texts: it decides, or it is equal and the rest decides.
byte_step :
    (b c : ℕ) (bs cs rest rest' : List ℕ)
    → c < 256
    → (b < c) ⊎ ((b ≡ c) × (text_lt (hex bs ++ rest) (hex cs ++ rest') ≡ true))
    → text_lt (hex (b ∷ bs) ++ rest) (hex (c ∷ cs) ++ rest') ≡ true
unfolding text_lt hex
byte_step b c bs cs rest rest' le (inl lt) = hex_lt b c bs cs rest rest' lt le
byte_step b c bs cs rest rest' le (inr (same, h)) = ground (arith, same, h)

-- Two numbers in order that agree from the next byte on: this byte is in order, or they agree from
-- it on.
digit_step :
    (m n : ℕ) → m / 256 ≡ n / 256 → m ≤ n → (m % 256 < n % 256) ⊎ ((m % 256 ≡ n % 256) × (m ≡ n))
digit_step m n same le = ground arith

-- The step of one byte, for the numbers that it and the bytes before it make up.
number_step :
    (m n : ℕ) (bs cs rest rest' : List ℕ)
    → m / 256 ≡ n / 256
    → m ≤ n
    → (m ≡ n → text_lt (hex bs ++ rest) (hex cs ++ rest') ≡ true)
    → text_lt (hex (m % 256 ∷ bs) ++ rest) (hex (n % 256 ∷ cs) ++ rest') ≡ true
number_step m n bs cs rest rest' same le later = elim (digit_step m n same le) [
  | inl lt ↦ byte_step (m % 256) (n % 256) bs cs rest rest' (ground arith) (inl lt)
  | inr (eq_digit, eq_number) ↦
      byte_step (m % 256) (n % 256) bs cs rest rest' (ground arith)
        (inr (eq_digit, later eq_number))
]

low_step :
    (t u : ℕ) (rest rest' : List ℕ)
    → t < u
    → t / 65536 ≡ u / 65536
    → text_lt (hex (low_time_bytes t) ++ rest) (hex (low_time_bytes u) ++ rest') ≡ true
unfolding low_time_bytes
low_step t u rest rest' lt same =
    number_step (t / 256) (u / 256) _ _ rest rest' (omega (arith, same)) (omega (arith, lt))
      (λ same'.
        number_step t u [] [] rest rest' same' (omega (arith, lt)) (λ e. ground (arith, e, lt)))

-- The text behind the bytes of the timestamp.
suffix : (ℕ → ℕ) → List ℕ
suffix random =
    dash
    ++ (hex (version_byte (random 6) ∷ random 7 ∷ [])
        ++ (dash
            ++ (hex (variant_byte (random 8) ∷ random 9 ∷ [])
                ++ (dash
                    ++ hex (
                        random 10
                        ∷ random 11
                        ∷ random 12
                        ∷ random 13
                        ∷ random 14
                        ∷ random 15
                        ∷ [])))))

-- The text behind the first four bytes.
after_high : (ℕ → ℕ) → ℕ → List ℕ
after_high random t = dash ++ (hex (low_time_bytes t) ++ suffix random)

after_high_lt :
    (random random' : ℕ → ℕ) (t u : ℕ)
    → t < u
    → t / 65536 ≡ u / 65536
    → text_lt (hex [] ++ after_high random t) (hex [] ++ after_high random' u) ≡ true
unfolding after_high text_lt hex
after_high_lt random random' t u lt same = low_step t u (suffix random) (suffix random') lt same

-- Keys sort by time: of two keys made at different milliseconds, both below 2^48, the text of the
-- earlier key is smaller in the order of texts, whatever the random bytes of the two are.
pub uuidv7_sorted :
    (random random' : ℕ → ℕ) (t u : ℕ)
    → t < u
    → u < 281474976710656
    → text_lt (uuidv7 random t) (uuidv7 random' u) ≡ true
unfolding uuidv7 high_time_bytes after_high suffix
uuidv7_sorted random random' t u lt fits =
    number_step (t / 1099511627776) (u / 1099511627776) _ _ rest rest' (omega (arith, lt, fits))
      (omega (arith, lt))
      (λ s5.
        number_step (t / 4294967296) (u / 4294967296) _ _ rest rest' (omega (arith, s5))
          (omega (arith, lt))
          (λ s4.
            number_step (t / 16777216) (u / 16777216) _ _ rest rest' (omega (arith, s4))
              (omega (arith, lt))
              (λ s3.
                number_step (t / 65536) (u / 65536) [] [] rest rest' (omega (arith, s3))
                  (omega (arith, lt)) (λ s2. after_high_lt random random' t u lt s2))))
  where
    rest : List ℕ
    rest = after_high random t

    rest' : List ℕ
    rest' = after_high random' u
