-- ===== src/Api/AuthLimiter.antt =====
-- src/api/middleware/rate_limiter.ts: `applyAuthRateLimiting`, the attempts of an address. Times are
-- milliseconds.
pub mod Window
use iot_billing_backend.Common.{
  ℕ, ◌+◌, ◌-◌, ◌*◌, ◌/◌, String, Bool, true, false, Option, none, some, List, [], ◌∷◌, ltb, leb,
  if◌then◌else◌,
}
use iot_billing_backend.Common.Dict.{Dict, get, put}

abbrev pub window_ms : ℕ
window_ms = 60000

pub record Tracker : Type 0 where
  pub attempts : ℕ
  pub reset_at : ℕ

-- What the request meets: it is let by, after a delay, or refused with `Retry-After` in seconds.
pub data Verdict : Type 0 where
  let_by : ℕ → Verdict
  refused : ℕ → Verdict

-- The tracker of an address, begun anew when it is missing or its window has passed.
unfoldable pub current : ℕ → Option Tracker → Tracker
current now none = record { attempts = 0; reset_at = now + window_ms }
current now (some t) =
    if ltb t.reset_at now then record { attempts = 0; reset_at = now + window_ms } else t

unfoldable pub judge : ℕ → Tracker → Tracker × Verdict
judge now t = if leb 5 t.attempts then (t, refused ((t.reset_at - now + 999) / 1000)) else (
  record t { attempts = t.attempts + 1 },
  let_by (if ltb 3 (t.attempts + 1) then (t.attempts + 1 - 3) * 100 else 0),
)

-- A request without the header `x-test-bypass`.
unfoldable pub apply_auth_rate_limiting : ℕ → String → Dict Tracker → Dict Tracker × Verdict
apply_auth_rate_limiting now ip trackers =
    let (t, verdict) = judge now (current now (get ip trackers)) in (put ip t trackers, verdict)

-- With the header `x-test-bypass: true` nothing is counted.
unfoldable pub pre_handler : Bool → ℕ → String → Dict Tracker → Dict Tracker × Verdict
pre_handler bypass now ip trackers =
    if bypass then (trackers, let_by 0) else apply_auth_rate_limiting now ip trackers
