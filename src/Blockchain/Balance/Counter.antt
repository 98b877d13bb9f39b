-- ===== src/Blockchain/Balance/Counter.antt =====
-- src/core/blockchain/balance_manager.ts: how often accounts are reconciled, and to what.
use iot_billing_backend.Common.{
  ℕ, ◌+◌, ◌*◌, ◌<◌, ◌≡◌, Bool, true, some, List, [], ◌∷◌, length, leb, arith, Bool-cases, inl, inr,
  ◌↔◌, ◌≢◌,
}
use iot_billing_backend.Common.Int.{ℤ, pos, eq_of_parts, -ℤ_parts, ◌-ℤ◌, eqb_ℤ}
use iot_billing_backend.Blockchain.Balance.{
  reconciliation_threshold, HorizonReply, ReconciliationResult, reconciled, Outcome, not_due, due,
  record_transaction, record_all,
}

unfoldable pub reconciliations : List Outcome → ℕ
reconciliations [] = 0
reconciliations (not_due ∷ os) = reconciliations os
reconciliations (due r ∷ os) = reconciliations os + 1

-- One reconciliation in every hundred recorded transactions, whatever their accounts and whether it
-- fails: from a count under a hundred, the count and the transactions make up a hundred for each
-- reconciliation and the count at the end, which is under a hundred again.
pub record_all_counts :
    (count : ℕ) (on_reconcile : ReconciliationResult → Bool) (calls : List (ℤ × HorizonReply))
    → count < 100
    → let (outcomes, end) = record_all count on_reconcile calls in
      (count + length calls ≡ 100 * reconciliations outcomes + end) × (end < 100)
unfolding record_all record_transaction reconciliations
record_all_counts count on_reconcile [] h = (omega arith, h)
record_all_counts count on_reconcile ((local, reply) ∷ calls) h =
    elim (Bool-cases (leb reconciliation_threshold (count + 1))) [
      | inl full ↦
          let (counted, small) = record_all_counts 0 on_reconcile calls (omega arith) in
          rw (full) (ground (arith, counted, full, h), small)
      | inr below ↦
          let (counted, small) =
            record_all_counts (count + 1) on_reconcile calls (ground (arith, below)) in
          rw (below) (ground (arith, counted, h), small)
    ]

zero_difference : (a : ℤ) (n : ℕ) → (eqb_ℤ (a -ℤ pos n) (pos 0) ≡ true) ↔ (a ≡ pos n)
unfolding ◌-ℤ◌
zero_difference a n = (
  λ same. eq_of_parts a (pos n) (ground (arith, same, -ℤ_parts a (pos n))),
  λ same. rw (same) (ground (arith, -ℤ_parts (pos n) (pos n))),
)

-- A reconciliation that ends well leaves the local balance at the ledger's, and reports a correction
-- exactly where they differed.
pub reconciled_agrees :
    (local : ℤ) (on_reconcile : ReconciliationResult → Bool) (n : ℕ) (r : ReconciliationResult)
    → reconciled local on_reconcile (some n) ≡ some r
    → (r.local_balance ≡ pos n)
      × (r.on_chain_balance ≡ pos n)
      × ((r.corrected ≡ true) ↔ (local ≢ pos n))
unfolding reconciled
reconciled_agrees local on_reconcile n r done = elim (Bool-cases (eqb_ℤ (local -ℤ pos n) (pos 0))) [
  | inl same ↦ ground (arith, done, same, zero_difference local n)
  | inr different ↦ ground (arith, done, different, zero_difference local n)
]
