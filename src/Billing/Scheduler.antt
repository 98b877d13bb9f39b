-- ===== src/Billing/Scheduler.antt =====
-- src/billing/scheduler.ts: `BillingCycleScheduler`, as the events that reach it.
pub mod Overlap
mod Tests
use iot_billing_backend.Common.{ℕ, ◌+◌, ◌-◌, ltb, Bool, true, false, List, [], ◌∷◌, if◌then◌else◌}

-- `timer` tells whether the interval is set and `running` is the flag. The counts are what the
-- scheduler has done: calls of `onTick`, the calls that have not ended, ticks that were skipped,
-- and calls of `onError`.
pub record Scheduler : Type 0 where
  pub timer : Bool
  pub running : Bool
  pub started : ℕ
  pub in_flight : ℕ
  pub skipped : ℕ
  pub errors : ℕ

abbrev pub new_scheduler : Scheduler
new_scheduler = record {
  timer = false;
  running = false;
  started = 0;
  in_flight = 0;
  skipped = 0;
  errors = 0;
}

unfoldable pub start : Scheduler → Scheduler
start s = if s.timer then s else record s { timer = true }

unfoldable pub stop : Scheduler → Scheduler
stop s = if s.timer then record s { timer = false } else s

-- `tick` up to its await, and whether it will return true.
unfoldable pub tick : Scheduler → Scheduler × Bool
tick s =
    if s.running
    then (record s { skipped = s.skipped + 1 }, false)
    else (record s { running = true; started = s.started + 1; in_flight = s.in_flight + 1 }, true)

-- `tick` after its await: `onTick` has resolved, or it has rejected and `onError` is called.
unfoldable pub tick_ends : Bool → Scheduler → Scheduler
tick_ends rejected s = record s {
  running = false;
  in_flight = s.in_flight - 1;
  errors = if rejected then s.errors + 1 else s.errors;
}

-- `interval_fires` calls `tick` if the interval is set, `manual` always, and a call of `onTick`
-- ends only if there is one.
pub data Event : Type 0 where
  starting : Event
  stopping : Event
  interval_fires : Event
  manual : Event
  on_tick_ends : Bool → Event

unfoldable pub handle : Scheduler → Event → Scheduler
handle s starting = start s
handle s stopping = stop s
handle s interval_fires = if s.timer then (tick s).0 else s
handle s manual = (tick s).0
handle s (on_tick_ends rejected) = if ltb 0 s.in_flight then tick_ends rejected s else s

unfoldable pub handle_all : Scheduler → List Event → Scheduler
handle_all s [] = s
handle_all s (e ∷ es) = handle_all (handle s e) es
