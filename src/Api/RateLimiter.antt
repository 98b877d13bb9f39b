-- ===== src/Api/RateLimiter.antt =====
-- src/api/middleware/rate_limiter.ts: the token bucket of a device, as the script in Redis runs it.
-- Times are milliseconds. A compliance is a number of parts of `parts`, and tokens are counted in
-- units of which `unit` make a token, so that the script's fractions are exact.
pub mod Conformance
use iot_billing_backend.Common.{
  ℕ, ◌+◌, ◌-◌, ◌*◌, ◌/◌, Bool, true, false, not, ◌&&◌, ◌||◌, Option, none, some, ltb, leb, ◌==◌,
  min, if◌then◌else◌,
}

pub data BillingTier : Type 0 where
  free standard enterprise : BillingTier

-- `TIER_CONFIG`: `baseRate` and `maxTokens` are the same number in every tier.
unfoldable pub base_rate : BillingTier → ℕ
base_rate free = 10
base_rate standard = 100
base_rate enterprise = 500

unfoldable pub tier_max_tokens : BillingTier → ℕ
tier_max_tokens free = 10
tier_max_tokens standard = 100
tier_max_tokens enterprise = 500

-- The hash of a device in Redis, which forgets it at `expires_at`. `burst_at` is 0 before the first
-- burst.
pub record Bucket : Type 0 where
  pub tokens : ℕ
  pub last_refill : ℕ
  pub burst_at : ℕ
  pub expires_at : ℕ

pub record DeviceProfile : Type 0 where
  pub billing_tier : BillingTier
  pub historical_compliance : ℕ

pub record RateLimitResult : Type 0 where
  pub allowed : Bool
  pub tokens_remaining : ℕ
  pub max_tokens : ℕ
  pub reset_at : ℕ
  pub retry_after : Option ℕ

-- A bucket that has expired is read as none.
unfoldable pub live_bucket : ℕ → Option Bucket → Option Bucket
live_bucket now none = none
live_bucket now (some b) = if ltb now b.expires_at then some b else none

unfoldable pub burst_start : Option Bucket → ℕ
burst_start none = 0
burst_start (some b) = b.burst_at

-- `inBurst` of a burst that began before, and its end and its cooldown in milliseconds.
unfoldable pub still_in_burst : ℕ → ℕ → Bool
still_in_burst now burst_at = ltb 0 burst_at && ltb (now - burst_at) 5000

module _ (parts : ℕ) where
  unfoldable pub unit : ℕ
  unit = 2000 * parts

  -- `Math.max(0, Math.min(1, …))`
  unfoldable pub compliance : DeviceProfile → ℕ
  compliance d = min d.historical_compliance parts

  -- `effectiveRate`, in units per millisecond: `baseRate * (0.5 + 0.5 * compliance)` per second.
  unfoldable pub normal_rate : DeviceProfile → ℕ
  normal_rate d = base_rate d.billing_tier * (parts + compliance d)

  unfoldable pub can_burst : ℕ → DeviceProfile → ℕ → Bool
  can_burst now d burst_at =
      ltb (95 * parts) (100 * compliance d) && (burst_at == 0 || leb 60000 (now - burst_at))

  -- `burstAt` after the script has started a burst, if it does.
  unfoldable pub next_burst : ℕ → DeviceProfile → ℕ → ℕ
  next_burst now d burst_at =
      if can_burst now d burst_at && not (still_in_burst now burst_at) then now else burst_at

  unfoldable pub in_burst : ℕ → DeviceProfile → ℕ → Bool
  in_burst now d burst_at = still_in_burst now burst_at || can_burst now d burst_at

  unfoldable pub effective_max : ℕ → DeviceProfile → ℕ → ℕ
  effective_max now d burst_at =
      if in_burst now d burst_at
      then 3 * tier_max_tokens d.billing_tier * unit
      else tier_max_tokens d.billing_tier * unit

  unfoldable pub effective_rate : ℕ → DeviceProfile → ℕ → ℕ
  effective_rate now d burst_at =
      if in_burst now d burst_at then 3 * normal_rate d else normal_rate d

  -- The tokens after the refill. The clock is taken not to go back.
  unfoldable pub refilled : ℕ → DeviceProfile → Option Bucket → ℕ
  refilled now d none = effective_max now d 0
  refilled now d (some b) =
      min (effective_max now d b.burst_at)
        (b.tokens + (now - b.last_refill) * effective_rate now d b.burst_at)

  -- A quotient rounded up.
  unfoldable pub ceil_div : ℕ → ℕ → ℕ
  ceil_div a b = (a + b - 1) / b

  unfoldable pub take_token : ℕ → Bool × ℕ
  take_token tokens = if leb unit tokens then (true, tokens - unit) else (false, tokens)

  unfoldable pub reset_time : ℕ → ℕ → ℕ → ℕ
  reset_time now rate tokens =
      if ltb 0 rate && ltb tokens unit then now + ceil_div (unit - tokens) rate else now

  -- `checkLimit`, on the bucket that Redis holds.
  unfoldable pub check_live : ℕ → DeviceProfile → Option Bucket → Bucket × RateLimitResult
  check_live now d held =
      let burst_at = burst_start held in
      let (allowed, tokens) = take_token (refilled now d held) in
      let reset_at = reset_time now (effective_rate now d burst_at) tokens in
      (
        record {
          tokens = tokens;
          last_refill = now;
          burst_at = next_burst now d burst_at;
          expires_at = now + 3600000;
        },
        record {
          allowed = allowed;
          tokens_remaining = tokens / unit;
          max_tokens = effective_max now d burst_at / unit;
          reset_at = reset_at;
          retry_after = if allowed then none else some (reset_at - now);
        },
      )

  unfoldable pub check_limit : ℕ → DeviceProfile → Option Bucket → Bucket × RateLimitResult
  check_limit now d stored = check_live now d (live_bucket now stored)
