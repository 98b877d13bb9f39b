-- ===== src/Ingestion/Reassembler.antt =====
-- src/core/ingestion/stream_parser.ts: TelemetryFragmentReassembler. Bytes are numbers.
pub mod Split
pub mod Invariant
use iot_billing_backend.Common.{
  ℕ, zero, suc, ◌+◌, Bool, true, false, Option, none, some, List, [], ◌∷◌, ◌++◌, ltb, leb, ◌==◌,
  if◌then◌else◌, length, not,
}

pub data Reason : Type 0 where
  partial_message_too_large partial_message_timeout : Reason

pub record ProtocolViolationEvent : Type 0 where
  pub reason : Reason
  pub buffer_bytes : ℕ
  pub chunk_bytes : Option ℕ
  pub limit_bytes : ℕ

abbrev pub message_too_big_close_code : ℕ
message_too_big_close_code = 1009

abbrev pub max_partial_message_size : ℕ
max_partial_message_size = 65536

-- The fields that change, the limit, and what the callbacks were told, newest first: violations,
-- close codes and buffer sizes. Of `timeoutHandle`, whether it is set.
pub record Reassembler : Type 0 where
  pub max_size : ℕ
  pub buffer : List ℕ
  pub timeout_armed : Bool
  pub closed : Bool
  pub violations : List ProtocolViolationEvent
  pub close_codes : List ℕ
  pub sizes : List ℕ

abbrev pub new_reassembler : ℕ → Reassembler
new_reassembler max_size = record {
  max_size = max_size;
  buffer = [];
  timeout_armed = false;
  closed = false;
  violations = [];
  close_codes = [];
  sizes = [];
}

pub record FragmentReassemblyResult : Type 0 where
  pub messages : List (List ℕ)
  pub was_closed : Bool
  pub close_code : Option ℕ
  pub violation : Option ProtocolViolationEvent

-- The `while` over `indexOf` and `subarray`: the messages that a terminator ends, and the rest. The
-- first argument is the message that has begun, reversed.
unfoldable pub begin_with : ℕ → List (List ℕ) × List ℕ → List (List ℕ) × List ℕ
begin_with b ([], r) = ([], b ∷ r)
begin_with b (m ∷ ms, r) = ((b ∷ m) ∷ ms, r)

unfoldable pub split_messages : List ℕ → List (List ℕ) × List ℕ
unfolding begin_with
split_messages [] = ([], [])
split_messages (b ∷ bs) =
    let (ms, r) = split_messages bs in if b == 0 then ([] ∷ ms, r) else begin_with b (ms, r)

abbrev pub new_violation : Reason → Option ℕ → Reassembler → ProtocolViolationEvent
new_violation reason chunk r = record {
  reason = reason;
  buffer_bytes = length r.buffer;
  chunk_bytes = chunk;
  limit_bytes = r.max_size;
}

-- resetForViolation
unfoldable pub reset_for_violation : Reason → Option ℕ → Reassembler → Reassembler
reset_for_violation reason chunk r = record r {
  buffer = [];
  timeout_armed = false;
  violations = new_violation reason chunk r ∷ r.violations;
  sizes = 0 ∷ r.sizes;
}

-- The callback of the timer: it leaves `timeoutHandle` cleared and the connection open.
unfoldable pub on_timeout : Reassembler → Reassembler
unfolding reset_for_violation
on_timeout r = if r.timeout_armed then reset_for_violation partial_message_timeout none r else r

abbrev pub nonempty : List ℕ → Bool
nonempty [] = false
nonempty (b ∷ bs) = true

abbrev closed_result : Option ProtocolViolationEvent → FragmentReassemblyResult
closed_result v = record {
  messages = [];
  was_closed = true;
  close_code = some message_too_big_close_code;
  violation = v;
}

abbrev open_result : List (List ℕ) → FragmentReassemblyResult
open_result ms = record { messages = ms; was_closed = false; close_code = none; violation = none }

-- `append` past its two guards. The timer that `armTimeoutIfNeeded` sets for the bytes that came
-- in is cleared again when none is left, and otherwise goes on.
accept : List ℕ → Reassembler → FragmentReassemblyResult × Reassembler
accept chunk r =
    let whole = r.buffer ++ chunk in
    let (ms, left) = split_messages whole in
    (
      open_result ms,
      record r {
        buffer = left;
        timeout_armed = nonempty left;
        sizes = length left ∷ length whole ∷ r.sizes;
      },
    )

unfoldable pub append : List ℕ → Reassembler → FragmentReassemblyResult × Reassembler
unfolding accept reset_for_violation
append chunk r =
    if r.closed
    then (closed_result none, r)
    else if ltb r.max_size (length r.buffer + length chunk)
    then (
      closed_result (some (new_violation partial_message_too_large (some (length chunk)) r)),
      (let r' = reset_for_violation partial_message_too_large (some (length chunk)) r in
          record r' { closed = true; close_codes = message_too_big_close_code ∷ r.close_codes }),
    )
    else accept chunk r

unfoldable pub dispose : Reassembler → Reassembler
dispose r = record r { buffer = []; timeout_armed = false; sizes = 0 ∷ r.sizes }

-- The messages of a run of chunks, and the reassembler after it.
unfoldable pub append_all : List (List ℕ) → Reassembler → List (List ℕ) × Reassembler
append_all [] r = ([], r)
append_all (c ∷ cs) r =
    let (res, r') = append c r in let (ms, end) = append_all cs r' in (res.messages ++ ms, end)
