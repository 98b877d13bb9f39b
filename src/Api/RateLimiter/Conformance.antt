-- ===== src/Api/RateLimiter/Conformance.antt =====
-- src/api/middleware/rate_limiter.ts: how many requests a device gets through.
use iot_billing_backend.Common.{
  ℕ, ◌+◌, ◌-◌, ◌*◌, ◌≤◌, ◌≡◌, ap, sym, ◌∙◌, Option, none, some, List, [], ◌∷◌, ltb, if◌then◌else◌,
  arith, Bool-cases, inl, inr,
}
use mathlib.Core.Path.{subst}
use native.Mathlib.Nat.{mul-le-mul_left, mul-le-mul_right, add-mul}
use iot_billing_backend.Api.RateLimiter.{
  BillingTier, free, standard, enterprise, base_rate, tier_max_tokens, Bucket, DeviceProfile,
  RateLimitResult, live_bucket, unit, normal_rate, compliance, effective_max, effective_rate,
  refilled, take_token, check_live, check_limit,
}

tier_fills :
    (t : BillingTier) (p c : ℕ)
    → 3 * tier_max_tokens t * (2000 * p) ≤ 3600000 * (3 * (base_rate t * (p + c)))
unfolding base_rate tier_max_tokens
tier_fills free p c = omega arith
tier_fills standard p c = omega arith
tier_fills enterprise p c = omega arith

module _ (parts : ℕ) where
  -- One for a request that got through.
  unfoldable pub passed : RateLimitResult → ℕ
  passed r = if r.allowed then 1 else 0

  -- The state after requests at the given times, and how many got through.
  unfoldable pub check_all : DeviceProfile → List ℕ → Bucket → Bucket × ℕ
  check_all d [] b = (b, 0)
  check_all d (now ∷ times) b =
      let (b', r) = check_limit parts now d (some b) in
      let (b'', n) = check_all d times b' in (b'', passed r + n)

  -- The times do not decrease, from the given one on.
  unfoldable pub Sorted : ℕ → List ℕ → Type 0
  Sorted t [] = Unit {0}
  Sorted t (now ∷ times) = (t ≤ now) × Sorted now times

  -- The rate and the size of a burst, which no rate and no size exceeds.
  unfoldable pub burst_rate : DeviceProfile → ℕ
  burst_rate d = 3 * normal_rate parts d

  unfoldable pub burst_max : DeviceProfile → ℕ
  burst_max d = 3 * tier_max_tokens d.billing_tier

  effective_rate-bound :
      (now : ℕ) (d : DeviceProfile) (burst_at : ℕ)
      → effective_rate parts now d burst_at ≤ burst_rate d
  unfolding effective_rate burst_rate
  effective_rate-bound now d burst_at = ground arith

  effective_max-bound :
      (now : ℕ) (d : DeviceProfile) (burst_at : ℕ)
      → effective_max parts now d burst_at ≤ burst_max d * unit parts
  unfolding effective_max burst_max
  effective_max-bound now d burst_at = ground arith

  -- What is taken was there.
  take_token_lem :
      (now : ℕ) (d : DeviceProfile) (held : Option Bucket)
      → let (b, r) = check_live parts now d held in
        (passed r * unit parts + b.tokens ≡ refilled parts now d held)
        × (b.last_refill ≡ now)
        × (b.expires_at ≡ now + 3600000)
  unfolding check_live take_token passed
  take_token_lem now d held = ground arith

  spread : (a n r : ℕ) → a ≤ n → (n - a) * r + a * r ≡ n * r
  spread a n r le = sym (add-mul (n - a) a r) ∙ ap (λ m. m * r) (omega (arith, le))

  -- What a bucket and the passing of time can let through is less after a request by what it let
  -- through, when the bucket is still held.
  held_step :
      (now : ℕ) (d : DeviceProfile) (b : Bucket)
      → b.last_refill ≤ now
      → let (b', r) = check_live parts now d (some b) in
        passed r * unit parts + b'.tokens + b.last_refill * burst_rate d
        ≤ b.tokens + now * burst_rate d
  unfolding refilled
  held_step now d b le =
      let (taken, last, expiry) = take_token_lem now d (some b) in
      let e = now - b.last_refill in
      omega (
        arith,
        taken,
        mul-le-mul_left e (effective_rate-bound now d b.burst_at),
        spread b.last_refill now (burst_rate d) le,
      )

  fresh_step :
      (now : ℕ) (d : DeviceProfile)
      → let (b', r) = check_live parts now d none in
        passed r * unit parts + b'.tokens ≤ burst_max d * unit parts
  unfolding refilled
  fresh_step now d =
      let (taken, last, expiry) = take_token_lem now d none in
      omega (arith, taken, effective_max-bound now d 0)

  -- In the hour after which a bucket is forgotten it would have filled to the size of a burst.
  hour_fills : (d : DeviceProfile) → burst_max d * unit parts ≤ 3600000 * burst_rate d
  unfolding burst_max unit burst_rate normal_rate
  hour_fills d = tier_fills d.billing_tier parts (compliance parts d)

  -- The same for a bucket that may have been forgotten.
  stored_step :
      (now : ℕ) (d : DeviceProfile) (b : Bucket)
      → b.last_refill ≤ now
      → b.expires_at ≡ b.last_refill + 3600000
      → let (b', r) = check_limit parts now d (some b) in
        (passed r * unit parts + b'.tokens + b.last_refill * burst_rate d
          ≤ b.tokens + now * burst_rate d)
        × (b'.last_refill ≡ now)
        × (b'.expires_at ≡ now + 3600000)
  unfolding check_limit live_bucket
  stored_step now d b le hour = elim (Bool-cases (ltb now b.expires_at)) [
    | inl held ↦
        let (taken, last, expiry) = take_token_lem now d (some b) in
        rw (held) (held_step now d b le, last, expiry)
    | inr gone ↦
        let (taken, last, expiry) = take_token_lem now d none in
        let long : 3600000 ≤ now - b.last_refill = ground (arith, gone, hour) in
        rw (gone) (
          omega (
            arith,
            fresh_step now d,
            hour_fills d,
            mul-le-mul_right (burst_rate d) long,
            spread b.last_refill now (burst_rate d) le,
          ),
          last,
          expiry,
        )
  ]

  check_all_step :
      (d : DeviceProfile) (times : List ℕ) (b : Bucket)
      → b.expires_at ≡ b.last_refill + 3600000
      → Sorted b.last_refill times
      → let (b', n) = check_all d times b in
        n * unit parts + b'.tokens + b.last_refill * burst_rate d
        ≤ b.tokens + b'.last_refill * burst_rate d
  unfolding check_all Sorted
  check_all_step d [] b hour sorted = omega arith
  check_all_step d (now ∷ times) b hour (le, sorted) =
      let b1 = (check_limit parts now d (some b)).0 in
      let r1 = (check_limit parts now d (some b)).1 in
      let n = (check_all d times b1).1 in
      let (first, last, expiry) = stored_step now d b le hour in
      let rest =
        check_all_step d times b1 (expiry ∙ ap (λ t. t + 3600000) (sym last))
          (subst (λ t. Sorted t times) (sym last) sorted) in
      omega
        (arith, first, rest, ap (λ t. t * burst_rate d) last, add-mul (passed r1) n (unit parts))

  -- A device cannot exceed its bucket: over any requests at times that do not decrease, beginning
  -- with no bucket in Redis, as many get through as a burst's tokens and what the burst's rate
  -- gives in the time from the first to the last request; the expiry of the bucket included. The
  -- counts are in units, and the tokens that are left count too.
  pub check_all_conforms :
      (d : DeviceProfile) (first : ℕ) (times : List ℕ)
      → Sorted first times
      → let (b, r) = check_limit parts first d none in
        let (b', n) = check_all d times b in
        (passed r + n) * unit parts + b'.tokens
        ≤ burst_max d * unit parts + (b'.last_refill - first) * burst_rate d
  unfolding check_limit live_bucket
  check_all_conforms d first times sorted =
      let b = (check_live parts first d none).0 in
      let r = (check_live parts first d none).1 in
      let b' = (check_all d times b).0 in
      let (taken, last, expiry) = take_token_lem first d none in
      let back : b'.last_refill ≤ b'.last_refill - first + first = omega arith in
      omega (
        arith,
        fresh_step first d,
        check_all_step d times b (expiry ∙ ap (λ t. t + 3600000) (sym last))
            (subst (λ t. Sorted t times) (sym last) sorted),
        ap (λ t. t * burst_rate d) last,
        add-mul (passed r) (check_all d times b).1 (unit parts),
        add-mul (b'.last_refill - first) first (burst_rate d),
        mul-le-mul_right (burst_rate d) back,
      )
