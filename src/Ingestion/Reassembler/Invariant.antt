-- ===== src/Ingestion/Reassembler/Invariant.antt =====
-- Bounds of the buffer and the timer over any run of chunks and timeouts.
use iot_billing_backend.Common.{
  ℕ, ◌+◌, ◌≤◌, ◌≡◌, true, false, List, [], ◌∷◌, ◌++◌, ltb, length, arith, refl, length-append, some,
}
use iot_billing_backend.Ingestion.Reassembler.{
  Reassembler, append, on_timeout, dispose, nonempty, message_too_big_close_code, new_reassembler,
  reset_for_violation,
}
use iot_billing_backend.Ingestion.Reassembler.Split.{length-split_messages}

pub data Event : Type 0 where
  chunk : List ℕ → Event
  timeout : Event
  disposal : Event

unfoldable pub handle : Event → Reassembler → Reassembler
handle (chunk c) r = (append c r).1
handle timeout r = on_timeout r
handle disposal r = dispose r

unfoldable pub handle_all : List Event → Reassembler → Reassembler
handle_all [] r = r
handle_all (e ∷ es) r = handle_all es (handle e r)

-- The memory limit holds, and the timer runs exactly while bytes wait for their terminator.
pub Bounded : ℕ → Reassembler → Type 0
Bounded max_size r =
    (r.max_size ≡ max_size) × (length r.buffer ≤ max_size) × (r.timeout_armed ≡ nonempty r.buffer)

append-Bounded :
    (max_size : ℕ) (c : List ℕ) (r : Reassembler)
    → Bounded max_size r
    → Bounded max_size (append c r).1
unfolding append Bounded reset_for_violation
append-Bounded max_size c r (m, b, t) = (
  ground (arith, m),
  ground (arith, m, b, length-split_messages (r.buffer ++ c), length-append r.buffer c),
  ground (arith, t),
)

timeout-Bounded :
    (max_size : ℕ) (r : Reassembler) → Bounded max_size r → Bounded max_size (on_timeout r)
unfolding on_timeout Bounded reset_for_violation
timeout-Bounded max_size r (m, b, t) = (ground (arith, m), ground (arith, b), ground (arith, t))

dispose-Bounded :
    (max_size : ℕ) (r : Reassembler) → Bounded max_size r → Bounded max_size (dispose r)
unfolding dispose Bounded
dispose-Bounded max_size r (m, b, t) = (m, omega arith, refl)

handle-Bounded :
    (max_size : ℕ) (e : Event) (r : Reassembler)
    → Bounded max_size r
    → Bounded max_size (handle e r)
unfolding handle
handle-Bounded max_size (chunk c) r h = append-Bounded max_size c r h
handle-Bounded max_size timeout r h = timeout-Bounded max_size r h
handle-Bounded max_size disposal r h = dispose-Bounded max_size r h

handle_all-Bounded_from :
    (max_size : ℕ) (es : List Event) (r : Reassembler)
    → Bounded max_size r
    → Bounded max_size (handle_all es r)
unfolding handle_all
handle_all-Bounded_from max_size [] r h = h
handle_all-Bounded_from max_size (e ∷ es) r h =
    handle_all-Bounded_from max_size es (handle e r) (handle-Bounded max_size e r h)

-- Whatever chunks, timeouts and disposals come: the buffer never holds more than the limit, and
-- the timer is set exactly while the buffer holds bytes.
pub handle_all-Bounded :
    (max_size : ℕ) (es : List Event) → Bounded max_size (handle_all es (new_reassembler max_size))
unfolding Bounded
handle_all-Bounded max_size es =
    handle_all-Bounded_from max_size es (new_reassembler max_size) (refl, omega arith, refl)

-- A chunk that would take the buffer over the limit closes the connection with code 1009 and
-- empties the buffer; from then on a chunk gives no message and changes nothing.
pub append_closes :
    (c d : List ℕ) (r : Reassembler)
    → r.closed ≡ false
    → ltb r.max_size (length r.buffer + length c) ≡ true
    → let (res, r') = append c r in
      (res.messages ≡ [])
      × (res.close_code ≡ some message_too_big_close_code)
      × (r'.buffer ≡ [])
      × (r'.close_codes ≡ message_too_big_close_code ∷ r.close_codes)
      × ((append d r').1 ≡ r')
      × ((append d r').0.messages ≡ [])
unfolding append reset_for_violation
append_closes c d r o h = (
  ground (arith, o, h),
  ground (arith, o, h),
  ground (arith, o, h),
  ground (arith, o, h),
  ground (arith, o, h),
  ground (arith, o, h),
)
