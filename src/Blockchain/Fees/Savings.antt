-- ===== src/Blockchain/Fees/Savings.antt =====
-- src/core/blockchain/fee_optimizer.ts: what the optimisation keeps and what it saves.
use iot_billing_backend.Common.{
  ℕ, ◌+◌, ◌≤◌, ◌≡◌, refl, String, not, ◌&&◌, List, [], ◌∷◌, length, str_eq, eq_iff, if◌then◌else◌,
  arith,
}
use iot_billing_backend.Blockchain.Fees.{
  Footprint, simulate_ledger_footprint, calculate_resource_fee, pre_flight_simulate, is_in,
  fresh_keys, deduplicate_keys, optimize_footprint,
}

-- How often a key stands in a list.
unfoldable pub count : String → List String → ℕ
count k [] = 0
count k (j ∷ js) = let rest = count k js in if str_eq j k then rest + 1 else rest

length-fresh_keys : (seen keys : List String) → length (fresh_keys seen keys) ≤ length keys
unfolding fresh_keys
length-fresh_keys seen [] = omega arith
length-fresh_keys seen (k ∷ ks) =
    ground (arith, length-fresh_keys seen ks, length-fresh_keys (k ∷ seen) ks)

count-fresh_keys :
    (k : String) (seen keys : List String)
    → count k (fresh_keys seen keys) ≡ (if is_in k keys && not (is_in k seen) then 1 else 0)
unfolding fresh_keys count is_in
count-fresh_keys k seen [] = refl
count-fresh_keys k seen (j ∷ ks) =
    ground (arith, eq_iff j k, count-fresh_keys k seen ks, count-fresh_keys k (j ∷ seen) ks)

fee_mono :
    (f g : Footprint)
    → length f.read_only ≤ length g.read_only
    → length f.read_write ≤ length g.read_write
    → (pre_flight_simulate f).resource_fee ≤ (pre_flight_simulate g).resource_fee
unfolding pre_flight_simulate calculate_resource_fee simulate_ledger_footprint
fee_mono f g le le' = omega (arith, le, le')

-- `optimizeFootprint` never costs more: the resource fee of the optimised footprint is at most that
-- of the footprint, every key that was in a list is in it exactly once, no other key is, and the
-- recommended fee of any footprint lies between its least and its greatest fee.
pub optimize_footprint_lem :
    (f : Footprint) (k : String)
    → let g = optimize_footprint f in
      ((pre_flight_simulate g).resource_fee ≤ (pre_flight_simulate f).resource_fee)
      × (count k g.read_only ≡ (if is_in k f.read_only then 1 else 0))
      × (count k g.read_write ≡ (if is_in k f.read_write then 1 else 0))
      × ((pre_flight_simulate f).min_fee ≤ (pre_flight_simulate f).recommended_fee)
      × ((pre_flight_simulate f).recommended_fee ≤ (pre_flight_simulate f).max_fee)
unfolding optimize_footprint deduplicate_keys pre_flight_simulate is_in
optimize_footprint_lem f k = (
  fee_mono (optimize_footprint f) f (length-fresh_keys [] f.read_only)
      (length-fresh_keys [] f.read_write),
  ground (arith, count-fresh_keys k [] f.read_only),
  ground (arith, count-fresh_keys k [] f.read_write),
  omega arith,
  omega arith,
)
