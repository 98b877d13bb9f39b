-- ===== src/Ingestion/Tests.antt =====
-- Runs of the theorems on small inputs.
use iot_billing_backend.Common.{ℕ, ◌≡◌, some, List, [], ◌∷◌, refl, arith}
use iot_billing_backend.Ingestion.StateMachine.{
  pending, tentative, settled, gap_detected, Request, new_machine, transition_all,
}
use iot_billing_backend.Ingestion.StateMachine.History.{Consistent, transition_all-Consistent}
use iot_billing_backend.Ingestion.Reassembler.{
  Reassembler, new_reassembler, append, append_all, message_too_big_close_code,
}
use iot_billing_backend.Ingestion.Reassembler.Split.{append_all_messages, concat, encode}
use iot_billing_backend.Ingestion.Reassembler.Invariant.{
  chunk, timeout, disposal, Event, Bounded, handle_all-Bounded, append_closes,
}
use iot_billing_backend.Ingestion.Parser.{ParsedMetric, ParsedTelemetryFrame, parse_frame}
use iot_billing_backend.Ingestion.Parser.Frames.{
  frame_bytes, encode_metrics, parse_frame_roundtrip, IsHeader, IsMetric,
}
use iot_billing_backend.Common.Result.{ok}

abbrev requests : List Request
requests =
    (record { to = tentative; now = 1; reason = "a" })
    ∷ (record { to = gap_detected; now = 2; reason = "b" })
    ∷ (record { to = settled; now = 3; reason = "c" })
    ∷ []

transition_all-Consistent_example :
    Consistent pending (transition_all requests (new_machine pending))
transition_all-Consistent_example = transition_all-Consistent pending requests

append_all_messages_example :
    let (out, r) = append_all ((1 ∷ []) ∷ (2 ∷ 0 ∷ 3 ∷ []) ∷ (0 ∷ []) ∷ []) (new_reassembler 8) in
    (out ≡ (1 ∷ 2 ∷ []) ∷ (3 ∷ []) ∷ []) × (r.buffer ≡ [])
unfolding concat encode
append_all_messages_example =
    append_all_messages 8 ((1 ∷ []) ∷ (2 ∷ 0 ∷ 3 ∷ []) ∷ (0 ∷ []) ∷ [])
      ((1 ∷ 2 ∷ []) ∷ (3 ∷ []) ∷ []) ((refl, (refl, tt)), ((refl, tt), tt)) refl (omega arith)

abbrev events : List Event
events = chunk (1 ∷ 0 ∷ 2 ∷ []) ∷ timeout ∷ chunk (1 ∷ 2 ∷ 3 ∷ 4 ∷ 5 ∷ []) ∷ disposal ∷ []

handle_all-Bounded_example :
    Bounded 4
      (iot_billing_backend.Ingestion.Reassembler.Invariant.handle_all events (new_reassembler 4))
handle_all-Bounded_example = handle_all-Bounded 4 events

abbrev double : List ℕ
double = 64 ∷ 0 ∷ 0 ∷ 0 ∷ 0 ∷ 0 ∷ 0 ∷ 1 ∷ []

abbrev metric : ParsedMetric
metric = record { metric_id = 300; value = double }

abbrev frame : ParsedTelemetryFrame
frame = record {
  device_id = 100 ∷ 49 ∷ [];
  sequence_number = 70000;
  timestamp = double;
  metrics = metric ∷ [];
}

parse_frame_roundtrip_example :
    parse_frame (frame_bytes frame 1 (encode_metrics (metric ∷ []) (0 ∷ 0 ∷ [])))
    ≡ (ok (some frame), 0 ∷ 0 ∷ [])
unfolding IsHeader IsMetric
parse_frame_roundtrip_example =
    parse_frame_roundtrip frame (0 ∷ 0 ∷ []) (omega arith, omega arith, refl, omega arith)
      ((omega arith, refl), tt) (omega arith)
