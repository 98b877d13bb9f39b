-- ===== src/Ingestion/Parser.antt =====
-- src/core/ingestion/stream_parser.ts: TelemetryStreamParser on a buffer of bytes. The parser is
-- represented by the bytes from `offset` on, and a device id and an eight-byte double by their
-- bytes.
pub mod Frames
use iot_billing_backend.Common.{
  ℕ, zero, suc, ◌+◌, ◌*◌, Bool, true, false, Option, none, some, List, [], ◌∷◌, ltb, if◌then◌else◌,
  length, take, drop,
}
use iot_billing_backend.Common.Result.{Result, ok, throws}

abbrev pub header_size : ℕ
header_size = 8

abbrev pub metrics_entry_size : ℕ
metrics_entry_size = 12

-- A read past the end throws Node's ERR_OUT_OF_RANGE.
pub data RangeError : Type 0 where
  out_of_range : RangeError

pub record ParsedMetric : Type 0 where
  pub metric_id : ℕ
  pub value : List ℕ

pub record ParsedTelemetryFrame : Type 0 where
  pub device_id : List ℕ
  pub sequence_number : ℕ
  pub timestamp : List ℕ
  pub metrics : List ParsedMetric

-- A read from the bytes that are left, which moves `offset` on when it returns.
abbrev pub Read : Type 0 → Type 0
Read A = List ℕ → Result RangeError A × List ℕ

abbrev pub pure : {A : Type 0} → A → Read A
pure a bs = (ok a, bs)

infixl 5 ◌>>=◌
abbrev pub ◌>>=◌ : {A B : Type 0} → Read A → (A → Read B) → Read B
◌>>=◌ m f bs = let (r, bs') = m bs in elim r [ ok a ↦ f a bs' | throws e ↦ (throws e, bs') ]

-- The value of bytes, most significant first.
abbrev pub big_endian : ℕ → List ℕ → ℕ
big_endian n [] = n
big_endian n (b ∷ bs) = big_endian (n * 256 + b) bs

unfoldable pub read_bytes : ℕ → Read (List ℕ)
read_bytes n bs =
    if ltb (length bs) n then (throws out_of_range, bs) else (ok (take n bs), drop n bs)

unfoldable pub read_u16 : Read ℕ
read_u16 = do bs ← read_bytes 2; pure (big_endian 0 bs)

unfoldable pub read_u32 : Read ℕ
read_u32 = do bs ← read_bytes 4; pure (big_endian 0 bs)

-- `toString('utf-8', offset, offset + n)` clips at the end of the buffer.
unfoldable pub read_text : ℕ → Read (List ℕ)
read_text n bs = (ok (take n bs), drop n bs)

unfoldable pub read_metric : Read ParsedMetric
read_metric = do
  metric_id ← read_u16
  value ← read_bytes 8
  pure (record { metric_id = metric_id; value = value })

-- The loop over `metricsCount`, with its `break`.
unfoldable pub read_metrics : ℕ → Read (List ParsedMetric)
read_metrics zero bs = (ok [], bs)
read_metrics (suc n) bs =
    let (r, bs') = read_metric bs in
    let (more, end) = read_metrics n bs' in
    if ltb (length bs) metrics_entry_size then (ok [], bs) else elim r [
      | throws e ↦ (throws e, bs')
      | ok m ↦ (elim more [ ok ms ↦ ok (m ∷ ms) | throws e ↦ throws e ], end)
    ]

unfoldable pub read_frame : Read ParsedTelemetryFrame
read_frame = do
  device_id_len ← read_u16
  device_id ← read_text device_id_len
  sequence_number ← read_u32
  timestamp ← read_bytes 8
  metrics_count ← read_u16
  metrics ← read_metrics metrics_count
  pure (record {
    device_id = device_id;
    sequence_number = sequence_number;
    timestamp = timestamp;
    metrics = metrics;
  })

-- `null` is `none`.
unfoldable pub parse_frame : Read (Option ParsedTelemetryFrame)
parse_frame bs =
    let (r, bs') = read_frame bs in
    if ltb (length bs) header_size
    then (ok none, bs)
    else (elim r [ ok f ↦ ok (some f) | throws e ↦ throws e ], bs')

unfoldable pub has_more : List ℕ → Bool
has_more bs = ltb 0 (length bs)
