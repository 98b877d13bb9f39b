-- ===== src/Ingestion/Backpressure/Levels.antt =====
-- Levels against the load.
use iot_billing_backend.Common.{◌≤◌, ◌≡◌, true, ◌↔◌, arith, ◌⊎◌, ◌<◌}
use iot_billing_backend.Ingestion.Backpressure.{
  BackpressureMetrics, Controller, level_value, evaluate, should_throttle, should_pause,
  max_queue_depth, max_memory_bytes, max_db_utilization,
}

-- More load of every kind never lowers the level. The controller pauses exactly above one of the
-- three limits, and one that pauses throttles too.
pub evaluate_monotone :
    (m n : BackpressureMetrics) (c d : Controller)
    → m.task_queue_depth ≤ n.task_queue_depth
    → m.memory_usage_bytes ≤ n.memory_usage_bytes
    → m.db_connection_utilization ≤ n.db_connection_utilization
    → (level_value (evaluate m c).0 ≤ level_value (evaluate n d).0)
      × ((should_pause (evaluate m c).1 ≡ true) ↔ (
          (max_queue_depth < m.task_queue_depth)
          ⊎ (max_memory_bytes < m.memory_usage_bytes)
          ⊎ (max_db_utilization < m.db_connection_utilization)))
      × (should_pause (evaluate m c).1 ≡ true → should_throttle (evaluate m c).1 ≡ true)
unfolding evaluate should_throttle should_pause
evaluate_monotone m n c d q mem u = (ground arith, ground arith, λ e. ground arith)
