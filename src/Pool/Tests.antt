-- ===== src/Pool/Tests.antt =====
-- Runs of the theorems on small inputs.
use iot_billing_backend.Common.{true, List, [], ◌∷◌}
use iot_billing_backend.Pool.{new_proxy}
use iot_billing_backend.Pool.Events.{Event, connects, resumes, releases, wakes, handle_all}
use iot_billing_backend.Pool.Counts.{Counted}
use iot_billing_backend.Pool.Places.{Placed, connected}
use iot_billing_backend.Pool.Places.Run.{handle_all-Placed}
use iot_billing_backend.Pool.Counts.Run.{handle_all-Counted}

-- A tenant without a schema takes a client with it; "a" is granted one, and "b" waits.
abbrev day : List Event
day =
    connects 0 "--" 5
    ∷ resumes true 6
    ∷ connects 1 "a" 7
    ∷ resumes true 8
    ∷ resumes true 9
    ∷ connects 2 "b" 10
    ∷ releases 1 11
    ∷ wakes 12
    ∷ []

handle_all-Counted_example : Counted (handle_all day (new_proxy 10 true))
handle_all-Counted_example = handle_all-Counted 10 true day

handle_all-Placed_example : Placed 1 (connected 1 day) (handle_all day (new_proxy 10 true))
handle_all-Placed_example = handle_all-Placed 1 10 true day
