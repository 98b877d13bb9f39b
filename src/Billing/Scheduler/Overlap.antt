-- ===== src/Billing/Scheduler/Overlap.antt =====
-- src/billing/scheduler.ts: ticks do not overlap.
use iot_billing_backend.Common.{
  ℕ, ◌+◌, ◌≤◌, ◌≡◌, refl, Bool, List, [], ◌∷◌, arith, ltb, if◌then◌else◌,
}
use iot_billing_backend.Billing.Scheduler.{
  Scheduler, new_scheduler, start, stop, tick, tick_ends, Event, starting, stopping, interval_fires,
  manual, on_tick_ends, handle, handle_all,
}

-- The tick events of a run that reach `tick`: all that are manual, and those of an interval that is
-- set.
pub ticks : Scheduler → List Event → ℕ
unfolding handle
ticks s [] = 0
ticks s (interval_fires ∷ es) =
    let rest = ticks (handle s interval_fires) es in if s.timer then rest + 1 else rest
ticks s (manual ∷ es) = ticks (handle s manual) es + 1
ticks s (starting ∷ es) = ticks (handle s starting) es
ticks s (stopping ∷ es) = ticks (handle s stopping) es
ticks s (on_tick_ends rejected ∷ es) = ticks (handle s (on_tick_ends rejected)) es

unfoldable pub Exclusive : Scheduler → Type 0
Exclusive s = (s.in_flight ≤ 1) × (s.running ≡ ltb 0 s.in_flight)

unfoldable pub total : Scheduler → ℕ
total s = s.started + s.skipped

tick-Exclusive :
    (s : Scheduler)
    → Exclusive s
    → Exclusive (handle s manual) × (total (handle s manual) ≡ total s + 1)
unfolding handle tick Exclusive total
tick-Exclusive s (one, flag) = ground (arith, one, flag)

fires-Exclusive :
    (s : Scheduler)
    → Exclusive s
    → Exclusive (handle s interval_fires)
      × (total (handle s interval_fires) ≡ (if s.timer then total s + 1 else total s))
unfolding handle tick Exclusive total
fires-Exclusive s (one, flag) = ground (arith, one, flag)

starting-Exclusive :
    (s : Scheduler)
    → Exclusive s
    → Exclusive (handle s starting) × (total (handle s starting) ≡ total s)
unfolding handle start Exclusive total
starting-Exclusive s (one, flag) = ground (arith, one, flag)

stopping-Exclusive :
    (s : Scheduler)
    → Exclusive s
    → Exclusive (handle s stopping) × (total (handle s stopping) ≡ total s)
unfolding handle stop Exclusive total
stopping-Exclusive s (one, flag) = ground (arith, one, flag)

ends-Exclusive :
    (s : Scheduler) (rejected : Bool)
    → Exclusive s
    → Exclusive (handle s (on_tick_ends rejected))
      × (total (handle s (on_tick_ends rejected)) ≡ total s)
unfolding handle tick_ends Exclusive total
ends-Exclusive s rejected (one, flag) = ground (arith, one, flag)

handle_all-Exclusive_from :
    (es : List Event) (s : Scheduler)
    → Exclusive s
    → Exclusive (handle_all s es) × (total (handle_all s es) ≡ total s + ticks s es)
unfolding handle_all ticks
handle_all-Exclusive_from [] s h = (h, omega arith)
handle_all-Exclusive_from (starting ∷ es) s h =
    let (h', n) = starting-Exclusive s h in
    let (h'', m) = handle_all-Exclusive_from es (handle s starting) h' in (h'', omega (arith, n, m))
handle_all-Exclusive_from (stopping ∷ es) s h =
    let (h', n) = stopping-Exclusive s h in
    let (h'', m) = handle_all-Exclusive_from es (handle s stopping) h' in (h'', omega (arith, n, m))
handle_all-Exclusive_from (interval_fires ∷ es) s h =
    let (h', n) = fires-Exclusive s h in
    let (h'', m) = handle_all-Exclusive_from es (handle s interval_fires) h' in
    (h'', ground (arith, n, m))
handle_all-Exclusive_from (manual ∷ es) s h =
    let (h', n) = tick-Exclusive s h in
    let (h'', m) = handle_all-Exclusive_from es (handle s manual) h' in (h'', omega (arith, n, m))
handle_all-Exclusive_from (on_tick_ends rejected ∷ es) s h =
    let (h', n) = ends-Exclusive s rejected h in
    let (h'', m) = handle_all-Exclusive_from es (handle s (on_tick_ends rejected)) h' in
    (h'', omega (arith, n, m))

-- Whatever the order in which a new scheduler is started and stopped, its interval fires, `tick`
-- is called by hand and `onTick` resolves or rejects: at most one call of `onTick` is in flight,
-- the flag `running` tells exactly whether there is one, and every tick has either called `onTick`
-- or been skipped.
pub handle_all-Exclusive :
    (es : List Event)
    → Exclusive (handle_all new_scheduler es)
      × (total (handle_all new_scheduler es) ≡ ticks new_scheduler es)
unfolding Exclusive total
handle_all-Exclusive es =
    let (h, n) = handle_all-Exclusive_from es new_scheduler (omega arith, refl) in
    (h, omega (arith, n))
