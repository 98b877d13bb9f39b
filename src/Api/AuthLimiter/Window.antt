-- ===== src/Api/AuthLimiter/Window.antt =====
-- src/api/middleware/rate_limiter.ts: how many attempts an address gets.
use iot_billing_backend.Common.{
  ℕ, ◌+◌, ◌≤◌, ◌≡◌, refl, ap, sym, ◌∙◌, String, false, some, List, [], ◌∷◌, ltb, arith,
}
use mathlib.Core.Path.{subst}
use iot_billing_backend.Common.Dict.{Dict, get, get-put_self}
use iot_billing_backend.Api.AuthLimiter.{
  Tracker, Verdict, let_by, refused, current, judge, apply_auth_rate_limiting,
}

unfoldable pub passed : Verdict → ℕ
passed (let_by delay) = 1
passed (refused seconds) = 0

-- How many of an address's requests at the given times are let by.
unfoldable pub apply_all : String → List ℕ → Dict Tracker → ℕ
apply_all ip [] trackers = 0
apply_all ip (now ∷ times) trackers =
    let (trackers', verdict) = apply_auth_rate_limiting now ip trackers in
    passed verdict + apply_all ip times trackers'

-- Every time is before the given one or is that one.
unfoldable pub Until : ℕ → List ℕ → Type 0
Until t [] = Unit {0}
Until t (now ∷ times) = (now ≤ t) × Until t times

judge_lem :
    (now : ℕ) (t : Tracker)
    → t.attempts ≤ 5
    → let (t', verdict) = judge now t in
      (passed verdict + t.attempts ≡ t'.attempts) × (t'.attempts ≤ 5) × (t'.reset_at ≡ t.reset_at)
unfolding judge passed
judge_lem now t le = ground (arith, le)

current_kept : (now : ℕ) (t : Tracker) → now ≤ t.reset_at → current now (some t) ≡ t
unfolding current
current_kept now t le =
    let early : ltb t.reset_at now ≡ false = ground (arith, le) in rw (early, current) refl

-- One request while the window of the tracker runs.
request_lem :
    (ip : String) (now : ℕ) (trackers : Dict Tracker) (t : Tracker)
    → current now (get ip trackers) ≡ t
    → t.attempts ≤ 5
    → let (trackers', verdict) = apply_auth_rate_limiting now ip trackers in
      (get ip trackers' ≡ some (judge now t).0)
      × (passed verdict + t.attempts ≡ (judge now t).0.attempts)
unfolding apply_auth_rate_limiting
request_lem ip now trackers t here le =
    rw (here) (get-put_self ip (judge now t).0 trackers, (judge_lem now t le).0)

-- Within a window the tracker stays.
window_counts :
    (ip : String) (times : List ℕ) (trackers : Dict Tracker) (t : Tracker)
    → get ip trackers ≡ some t
    → t.attempts ≤ 5
    → Until t.reset_at times
    → apply_all ip times trackers + t.attempts ≤ 5
unfolding apply_all Until
window_counts ip [] trackers t there le until = omega (arith, le)
window_counts ip (now ∷ times) trackers t there le (before, until) =
    let (counted, bound, kept) = judge_lem now t le in
    let (there', passes) =
      request_lem ip now trackers t (ap (current now) there ∙ current_kept now t before) le in
    let rest =
      window_counts ip times (apply_auth_rate_limiting now ip trackers).0 (judge now t).0 there'
        bound (subst (λ r. Until r times) (sym kept) until) in
    omega (arith, passes, rest)

-- In one window an address gets at most five attempts: when a request at `first` begins a window,
-- because the address has no tracker or its window has passed, then of this request and those of
-- the next 60 seconds at most five are let by.
pub window_limit :
    (ip : String) (first : ℕ) (times : List ℕ) (trackers : Dict Tracker)
    → current first (get ip trackers) ≡ record { attempts = 0; reset_at = first + 60000 }
    → Until (first + 60000) times
    → apply_all ip (first ∷ times) trackers ≤ 5
unfolding apply_all
window_limit ip first times trackers begins until =
    let t : Tracker = record { attempts = 0; reset_at = first + 60000 } in
    let (counted, bound, kept) = judge_lem first t (omega arith) in
    let (there, passes) = request_lem ip first trackers t begins (omega arith) in
    let rest =
      window_counts ip times (apply_auth_rate_limiting first ip trackers).0 (judge first t).0 there
        bound (subst (λ r. Until r times) (sym kept) until) in
    omega (arith, passes, rest)
