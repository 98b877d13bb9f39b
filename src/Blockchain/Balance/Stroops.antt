-- ===== src/Blockchain/Balance/Stroops.antt =====
-- src/core/blockchain/balance_manager.ts: the number that `xlmToStroops` reads.
use iot_billing_backend.Common.{
  ℕ, zero, suc, ◌+◌, ◌*◌, ◌≤◌, ◌≡◌, refl, ap, some, List, [], ◌∷◌, ◌++◌, map, length, ltb, arith,
  All, Bool-cases, inl, inr,
}
use iot_billing_backend.Blockchain.Balance.{
  stroop_decimals, dot, big_int, before_dot, after_dot, slice, pad_end, fraction_of, in_stroops,
  xlm_to_stroops,
}

abbrev pub IsDigit : ℕ → Type 0
IsDigit d = d ≤ 9

abbrev pub codes : List ℕ → List ℕ
codes ds = map (λ d. 48 + d) ds

-- The number of decimal digits, behind the digits of n.
unfoldable pub value : ℕ → List ℕ → ℕ
value n [] = n
value n (d ∷ ds) = value (n * 10 + d) ds

-- As many digits: the first ones, or zeros where there are no more.
unfoldable pub fixed : ℕ → List ℕ → List ℕ
fixed zero ds = []
fixed (suc n) [] = 0 ∷ fixed n []
fixed (suc n) (d ∷ ds) = d ∷ fixed n ds

big_int-codes : (n : ℕ) (ds : List ℕ) → All IsDigit ds → big_int n (codes ds) ≡ some (value n ds)
unfolding big_int value
big_int-codes n [] all = refl
big_int-codes n (d ∷ ds) (digit, all) = ground (arith, digit, big_int-codes (n * 10 + d) ds all)

before_dot-codes :
    (ds : List ℕ) (rest : List ℕ)
    → All IsDigit ds
    → before_dot (codes ds ++ (dot ∷ rest)) ≡ codes ds
unfolding before_dot
before_dot-codes [] rest all = refl
before_dot-codes (d ∷ ds) rest (digit, all) = ground (arith, digit, before_dot-codes ds rest all)

before_dot-codes_end : (ds : List ℕ) → All IsDigit ds → before_dot (codes ds) ≡ codes ds
unfolding before_dot
before_dot-codes_end [] all = refl
before_dot-codes_end (d ∷ ds) (digit, all) = ground (arith, digit, before_dot-codes_end ds all)

after_dot-codes :
    (ds : List ℕ) (rest : List ℕ) → All IsDigit ds → after_dot (codes ds ++ (dot ∷ rest)) ≡ rest
unfolding after_dot
after_dot-codes [] rest all = refl
after_dot-codes (d ∷ ds) rest (digit, all) = ground (arith, digit, after_dot-codes ds rest all)

slice-codes : (n : ℕ) (ds : List ℕ) → n ≤ length ds → slice n (codes ds) ≡ codes (fixed n ds)
unfolding slice fixed
slice-codes zero ds h = refl
slice-codes (suc n) [] h = absurd (omega (arith, h))
slice-codes (suc n) (d ∷ ds) h = ap (λ r. (48 + d) ∷ r) (slice-codes n ds (omega (arith, h)))

pad_end-codes : (n : ℕ) (ds : List ℕ) → length ds ≤ n → pad_end n (codes ds) ≡ codes (fixed n ds)
unfolding pad_end fixed
pad_end-codes zero [] h = refl
pad_end-codes zero (d ∷ ds) h = absurd (omega (arith, h))
pad_end-codes (suc n) [] h = ap (λ r. 48 ∷ r) (pad_end-codes n [] (omega arith))
pad_end-codes (suc n) (d ∷ ds) h = ap (λ r. (48 + d) ∷ r) (pad_end-codes n ds (omega (arith, h)))

length-codes : (ds : List ℕ) → length (codes ds) ≡ length ds
length-codes [] = refl
length-codes (d ∷ ds) = ap suc (length-codes ds)

fraction_of-codes : (ds : List ℕ) → fraction_of (codes ds) ≡ codes (fixed 7 ds)
unfolding fraction_of
fraction_of-codes ds = elim (Bool-cases (ltb 7 (length (codes ds)))) [
  | inl long ↦ rw (long) (slice-codes 7 ds (ground (arith, long, length-codes ds)))
  | inr short ↦ rw (short) (pad_end-codes 7 ds (ground (arith, short, length-codes ds)))
]

fixed-digits : (n : ℕ) (ds : List ℕ) → All IsDigit ds → All IsDigit (fixed n ds)
unfolding fixed
fixed-digits zero ds all = tt
fixed-digits (suc n) [] all = (omega arith, fixed-digits n [] tt)
fixed-digits (suc n) (d ∷ ds) (digit, all) = (digit, fixed-digits n ds all)

-- Of a balance written with the digits of its whole part, a dot and digits, xlmToStroops reads the
-- exact number of stroops: the whole part times ten million, and the first seven digits behind the
-- dot, zeros where they are fewer.
pub xlm_to_stroops_lem :
    (whole fraction : List ℕ)
    → All IsDigit whole
    → All IsDigit fraction
    → xlm_to_stroops (codes whole ++ (dot ∷ codes fraction))
      ≡ some (value 0 whole * stroop_decimals + value 0 (fixed 7 fraction))
unfolding xlm_to_stroops in_stroops
xlm_to_stroops_lem whole fraction all all' =
    rw
      (
        before_dot-codes whole (codes fraction) all,
        after_dot-codes whole (codes fraction) all,
        before_dot-codes_end fraction all',
        fraction_of-codes fraction,
        big_int-codes 0 whole all,
        big_int-codes 0 (fixed 7 fraction) (fixed-digits 7 fraction all'),
      )
      refl
