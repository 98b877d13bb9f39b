-- ===== src/Billing/Scheduler/Tests.antt =====
-- Runs of the theorems about src/billing/scheduler.ts on small inputs.
use iot_billing_backend.Common.{◌≡◌, true, List, [], ◌∷◌}
use iot_billing_backend.Billing.Scheduler.{
  Event, starting, stopping, interval_fires, manual, on_tick_ends, new_scheduler, handle_all,
}
use iot_billing_backend.Billing.Scheduler.Overlap.{Exclusive, total, ticks, handle_all-Exclusive}

abbrev events : List Event
events =
    starting
    ∷ interval_fires
    ∷ interval_fires
    ∷ manual
    ∷ on_tick_ends true
    ∷ stopping
    ∷ interval_fires
    ∷ manual
    ∷ []

handle_all-Exclusive_example :
    Exclusive (handle_all new_scheduler events)
    × (total (handle_all new_scheduler events) ≡ ticks new_scheduler events)
handle_all-Exclusive_example = handle_all-Exclusive events
