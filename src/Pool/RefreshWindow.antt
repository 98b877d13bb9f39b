-- ===== src/Pool/RefreshWindow.antt =====
-- src/database/aggregate_refresh_window.ts: the window of a refresh, kept clear of the retention
-- boundary. Times are milliseconds since 1970.
use iot_billing_backend.Common.{
  ℕ, ◌+◌, ◌-◌, ◌*◌, ◌≡◌, refl, Option, none, some, Bool, true, false, not, ◌&&◌, ltb, leb,
  if◌then◌else◌, arith, ap, ◌∙◌, Bool-cases, inl, inr,
}
use iot_billing_backend.Common.Result.{Result, ok, throws}

abbrev pub ms_per_day : ℕ
ms_per_day = 86400000

pub record ClampedWindow : Type 0 where
  pub start : ℕ
  pub end : ℕ
  pub skipped : Bool

-- The error of a margin that is not below the retention.
pub data Misconfigured : Type 0 where
  margin_not_below_retention : ℕ → ℕ → Misconfigured

-- A boundary before 1970 is 0 here; no time of a window is below it either way.
unfoldable pub retention_safe_boundary : ℕ → ℕ → ℕ → Result Misconfigured ℕ
retention_safe_boundary now retention_days margin_days =
    if leb retention_days margin_days
    then throws (margin_not_below_retention margin_days retention_days)
    else ok (now - (retention_days - margin_days) * ms_per_day)

unfoldable pub clamp_to : ℕ → ℕ → ℕ → ClampedWindow
clamp_to min max boundary =
    let start = if ltb min boundary then boundary else min in
    record { start = start; end = max; skipped = leb max start }

unfoldable pub clamp_checked : ℕ → ℕ → Result Misconfigured ℕ → Result Misconfigured ClampedWindow
clamp_checked min max (throws e) = throws e
clamp_checked min max (ok boundary) = ok (clamp_to min max boundary)

unfoldable pub clamp_refresh_window : ℕ → ℕ → ℕ → ℕ → ℕ → Result Misconfigured ClampedWindow
clamp_refresh_window min max now retention_days margin_days =
    clamp_checked min max (retention_safe_boundary now retention_days margin_days)

-- The instants that a refresh of the window touches.
unfoldable pub touches : ClampedWindow → ℕ → Bool
touches w t = not w.skipped && (leb w.start t && ltb t w.end)

pub touches-clamp_to :
    (min max boundary t : ℕ)
    → touches (clamp_to min max boundary) t ≡ ((leb min t && ltb t max) && leb boundary t)
unfolding touches clamp_to
touches-clamp_to min max boundary t = ground arith

unfoldable pub touched : Result Misconfigured ClampedWindow → ℕ → Option Bool
touched (throws e) t = none
touched (ok w) t = some (touches w t)

boundary_throws :
    (now retention_days margin_days : ℕ)
    → leb retention_days margin_days ≡ true
    → retention_safe_boundary now retention_days margin_days
      ≡ throws (margin_not_below_retention margin_days retention_days)
unfolding retention_safe_boundary
boundary_throws now retention_days margin_days wrong = rw (wrong, retention_safe_boundary) refl

boundary_found :
    (now retention_days margin_days : ℕ)
    → leb retention_days margin_days ≡ false
    → retention_safe_boundary now retention_days margin_days
      ≡ ok (now - (retention_days - margin_days) * ms_per_day)
unfolding retention_safe_boundary
boundary_found now retention_days margin_days right = rw (right, retention_safe_boundary) refl

since_boundary : (now x t : ℕ) → leb (now - x) t ≡ leb now (t + x)
since_boundary now x t = ground arith

-- `clampRefreshWindow` throws exactly when the margin is not below the retention; otherwise a
-- refresh of its window touches exactly the instants of the desired window that are at least as
-- young as the retention less the margin.
pub clamp_refresh_window_touches :
    (min max now retention_days margin_days t : ℕ)
    → touched (clamp_refresh_window min max now retention_days margin_days) t ≡ (
        if leb retention_days margin_days
        then none
        else some
            ((leb min t && ltb t max) && leb now (t + (retention_days - margin_days) * ms_per_day)))
unfolding clamp_refresh_window clamp_checked touched
clamp_refresh_window_touches min max now retention_days margin_days t =
    elim (Bool-cases (leb retention_days margin_days)) [
      | inl wrong ↦
          ap (λ b. touched (clamp_checked min max b) t)
            (boundary_throws now retention_days margin_days wrong)
          ∙ rw (wrong) refl
      | inr right ↦
          let kept = (retention_days - margin_days) * ms_per_day in
          ap (λ b. touched (clamp_checked min max b) t)
            (boundary_found now retention_days margin_days right)
          ∙ rw (right) (
              ap some (
                touches-clamp_to min max (now - kept) t
                ∙ ap (λ b. (leb min t && ltb t max) && b) (since_boundary now kept t)))
    ]
