-- ===== src/Ingestion/Parser/Frames.antt =====
-- Frames as a device writes them, and what the parser makes of them.
use iot_billing_backend.Common.{
  ℕ, suc, ◌+◌, ◌/◌, ◌%◌, ◌≤◌, ◌<◌, ◌≡◌, some, List, [], ◌∷◌, ◌++◌, length, take, drop, arith, refl,
  sym, append_nil, length-append, All,
}
use mathlib.Core.Path.{subst}
use iot_billing_backend.Common.Result.{ok}
use iot_billing_backend.Ingestion.Parser.{
  ParsedMetric, ParsedTelemetryFrame, read_metrics, read_frame, parse_frame, read_bytes, read_text,
  read_u16, read_u32, read_metric,
}

abbrev u16 : ℕ → List ℕ
u16 n = n / 256 ∷ n % 256 ∷ []

abbrev u32 : ℕ → List ℕ
u32 n = n / 16777216 ∷ n / 65536 % 256 ∷ n / 256 % 256 ∷ n % 256 ∷ []

-- A double is eight bytes.
unfoldable pub IsMetric : ParsedMetric → Type 0
IsMetric m = (m.metric_id < 65536) × (length m.value ≡ 8)

-- The bytes of metrics, before what follows them.
unfoldable pub encode_metrics : List ParsedMetric → List ℕ → List ℕ
encode_metrics [] bs = bs
encode_metrics (m ∷ ms) bs = u16 m.metric_id ++ (m.value ++ encode_metrics ms bs)

-- The bytes of a frame that announces `count` metrics.
unfoldable pub frame_bytes : ParsedTelemetryFrame → ℕ → List ℕ → List ℕ
frame_bytes f count body =
    u16 (length f.device_id)
    ++ (f.device_id ++ (u32 f.sequence_number ++ (f.timestamp ++ (u16 count ++ body))))

-- What the fields' widths can hold.
unfoldable pub IsHeader : ParsedTelemetryFrame → ℕ → Type 0
IsHeader f count =
    (length f.device_id < 65536)
    × (f.sequence_number < 4294967296)
    × (length f.timestamp ≡ 8)
    × (count < 65536)

take-append : (xs ys : List ℕ) → take (length xs) (xs ++ ys) ≡ xs
take-append [] ys = refl
take-append (x ∷ xs) ys = rw (take-append xs ys)

drop-append : (xs ys : List ℕ) → drop (length xs) (xs ++ ys) ≡ ys
drop-append [] ys = refl
drop-append (x ∷ xs) ys = drop-append xs ys

read_bytes-append : (n : ℕ) (xs ys : List ℕ) → length xs ≡ n → read_bytes n (xs ++ ys) ≡ (ok xs, ys)
unfolding read_bytes
read_bytes-append n xs ys h =
    rw (sym h) (ground (arith, take-append xs ys, drop-append xs ys, length-append xs ys))

read_text-append : (n : ℕ) (xs ys : List ℕ) → length xs ≡ n → read_text n (xs ++ ys) ≡ (ok xs, ys)
unfolding read_text
read_text-append n xs ys h = rw (sym h, take-append xs ys, drop-append xs ys) refl

read_u16-encode : (n : ℕ) (bs : List ℕ) → n < 65536 → read_u16 (u16 n ++ bs) ≡ (ok n, bs)
unfolding read_u16 read_bytes
read_u16-encode n bs h = ground arith

read_u32-encode : (n : ℕ) (bs : List ℕ) → n < 4294967296 → read_u32 (u32 n ++ bs) ≡ (ok n, bs)
unfolding read_u32 read_bytes
read_u32-encode n bs h = ground arith

read_metric-encode :
    (m : ParsedMetric) (bs : List ℕ)
    → IsMetric m
    → read_metric (u16 m.metric_id ++ (m.value ++ bs)) ≡ (ok m, bs)
unfolding IsMetric read_metric
read_metric-encode m bs (small, eight) =
    ground (
      arith,
      read_u16-encode m.metric_id (m.value ++ bs) small,
      read_bytes-append 8 m.value bs eight,
    )

length-encode_metrics :
    (ms : List ParsedMetric) (bs : List ℕ) → length bs ≤ length (encode_metrics ms bs)
unfolding encode_metrics
length-encode_metrics [] bs = omega arith
length-encode_metrics (m ∷ ms) bs =
    omega (arith, length-append m.value (encode_metrics ms bs), length-encode_metrics ms bs)

-- `k` more than there are metrics.
abbrev counted : List ParsedMetric → ℕ → ℕ
counted [] k = k
counted (m ∷ ms) k = suc (counted ms k)

counted_lem : (ms : List ParsedMetric) (k : ℕ) → counted ms k ≡ length ms + k
counted_lem [] k = omega arith
counted_lem (m ∷ ms) k = omega (arith, counted_lem ms k)

-- The metrics in front are read whole as long as two bytes follow them.
read_metrics-encode :
    (ms more : List ParsedMetric) (k : ℕ) (bs end : List ℕ)
    → All IsMetric ms
    → 2 ≤ length bs
    → read_metrics k bs ≡ (ok more, end)
    → read_metrics (counted ms k) (encode_metrics ms bs) ≡ (ok (ms ++ more), end)
unfolding read_metrics encode_metrics IsMetric
read_metrics-encode [] more k bs end ok_ms long h = h
read_metrics-encode (m ∷ ms) more k bs end ok_ms long h = ground (
  arith,
  read_metric-encode m (encode_metrics ms bs) ok_ms.0,
  read_metrics-encode ms more k bs end ok_ms.1 long h,
  length-encode_metrics ms bs,
  length-append m.value (encode_metrics ms bs),
  ok_ms.0.1,
)

-- A frame whose metrics are read is parsed.
parse_frame-frame_bytes :
    (f : ParsedTelemetryFrame) (count : ℕ) (body end : List ℕ)
    → IsHeader f count
    → read_metrics count body ≡ (ok f.metrics, end)
    → parse_frame (frame_bytes f count body) ≡ (ok (some f), end)
unfolding parse_frame read_frame frame_bytes IsHeader
parse_frame-frame_bytes f count body end (small, seq, ts, few) h =
    let bytes4 = u16 count ++ body in
    let bytes3 = f.timestamp ++ bytes4 in
    let bytes2 = u32 f.sequence_number ++ bytes3 in
    ground (
      arith,
      read_u16-encode (length f.device_id) (f.device_id ++ bytes2) small,
      read_text-append (length f.device_id) f.device_id bytes2 refl,
      read_u32-encode f.sequence_number bytes3 seq,
      read_bytes-append 8 f.timestamp bytes4 ts,
      read_u16-encode count body few,
      h,
      length-append f.device_id bytes2,
      length-append f.timestamp bytes4,
      ts,
    )

-- A frame that two bytes follow at least, as another frame does, is parsed as it was written, and
-- the parser stands behind it.
pub parse_frame_roundtrip :
    (f : ParsedTelemetryFrame) (rest : List ℕ)
    → IsHeader f (length f.metrics)
    → All IsMetric f.metrics
    → 2 ≤ length rest
    → parse_frame (frame_bytes f (length f.metrics) (encode_metrics f.metrics rest))
      ≡ (ok (some f), rest)
unfolding read_metrics
parse_frame_roundtrip f rest header metrics long =
    parse_frame-frame_bytes f (length f.metrics) (encode_metrics f.metrics rest) rest header (
      subst
        (λ (xs : ℕ × List ParsedMetric).
          read_metrics xs.0 (encode_metrics f.metrics rest) ≡ (ok xs.1, rest))
        (ground (arith, counted_lem f.metrics 0, append_nil f.metrics))
        (read_metrics-encode f.metrics [] 0 rest rest metrics long refl))

-- The last metric of a frame at the end of the buffer, with at most one byte behind it, is not
-- read although all its ten bytes are there: the parser returns the frame without it and stands
-- before its bytes.
pub parse_frame_drops_last :
    (f : ParsedTelemetryFrame) (m : ParsedMetric) (rest : List ℕ)
    → IsHeader f (length f.metrics + 1)
    → All IsMetric f.metrics
    → IsMetric m
    → length rest < 2
    → parse_frame (
        frame_bytes f
          (length f.metrics + 1)
          (encode_metrics f.metrics (encode_metrics (m ∷ []) rest)))
      ≡ (ok (some f), encode_metrics (m ∷ []) rest)
unfolding read_metrics encode_metrics IsMetric
parse_frame_drops_last f m rest header metrics whole short =
    let last = encode_metrics (m ∷ []) rest in
    let long : 2 ≤ length last = omega (arith, length-append m.value rest) in
    parse_frame-frame_bytes f (length f.metrics + 1) (encode_metrics f.metrics last) last header (
      subst
        (λ (xs : ℕ × List ParsedMetric).
          read_metrics xs.0 (encode_metrics f.metrics last) ≡ (ok xs.1, last))
        (ground (arith, counted_lem f.metrics 1, append_nil f.metrics))
        (read_metrics-encode f.metrics [] 1 last last metrics long
          (ground (arith, whole.1, short, length-append m.value rest))))
