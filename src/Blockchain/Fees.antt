-- ===== src/Blockchain/Fees.antt =====
-- src/core/blockchain/fee_optimizer.ts: fees from the footprint of a transaction.
pub mod Savings
use iot_billing_backend.Common.{
  ℕ, ◌+◌, ◌-◌, ◌*◌, ◌/◌, String, Bool, true, false, ◌||◌, List, [], ◌∷◌, length, str_eq,
  if◌then◌else◌,
}

-- The part of `SorobanTransactionData` that the fees depend on; a missing footprint is empty.
pub record Footprint : Type 0 where
  pub read_only : List String
  pub read_write : List String

pub record FeeEstimate : Type 0 where
  pub resource_fee : ℕ
  pub min_fee : ℕ
  pub max_fee : ℕ
  pub recommended_fee : ℕ

abbrev pub base_fee : ℕ
base_fee = 100

-- `simulateLedgerFootprint`
pub record LedgerResources : Type 0 where
  pub entries_read : ℕ
  pub entries_written : ℕ
  pub bytes_read : ℕ
  pub bytes_written : ℕ

unfoldable pub simulate_ledger_footprint : Footprint → LedgerResources
simulate_ledger_footprint f = record {
  entries_read = length f.read_only;
  entries_written = length f.read_write;
  bytes_read = length f.read_only * 64;
  bytes_written = length f.read_write * 64;
}

-- `calculateResourceFee`; the kilobytes are rounded up.
unfoldable pub calculate_resource_fee : LedgerResources → ℕ
calculate_resource_fee r =
    (r.entries_read + r.entries_written) * base_fee
    + ((r.bytes_read + r.bytes_written + 1023) / 1024) * base_fee

-- `preFlightSimulate`. The product with 1.2 is exact here, since the fee is a multiple of 100.
unfoldable pub pre_flight_simulate : Footprint → FeeEstimate
pre_flight_simulate f =
    let fee = calculate_resource_fee (simulate_ledger_footprint f) in
    record {
      resource_fee = fee;
      min_fee = fee;
      max_fee = fee * 3;
      recommended_fee = (fee * 12) / 10;
    }

unfoldable pub is_in : String → List String → Bool
is_in k [] = false
is_in k (j ∷ js) = str_eq j k || is_in k js

-- `new Set(keys)`, as the keys that are not yet in it, and `deduplicateKeys`.
unfoldable pub fresh_keys : List String → List String → List String
fresh_keys seen [] = []
fresh_keys seen (k ∷ ks) =
    let skipped = fresh_keys seen ks in
    let kept = fresh_keys (k ∷ seen) ks in if is_in k seen then skipped else k ∷ kept

unfoldable pub deduplicate_keys : List String → List String
deduplicate_keys keys = fresh_keys [] keys

unfoldable pub optimize_footprint : Footprint → Footprint
optimize_footprint f = record {
  read_only = deduplicate_keys f.read_only;
  read_write = deduplicate_keys f.read_write;
}
