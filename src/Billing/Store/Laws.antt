-- ===== src/Billing/Store/Laws.antt =====
-- What the in-memory store of src/billing/billing_cycle_repository.ts promises.
use iot_billing_backend.Common.{
  ℕ, ◌+◌, ◌≡◌, refl, ◌↔◌, String, true, false, some, arith, str_eq, eq_iff, if◌then◌else◌,
  Option-cases, Bool-cases, inl, inr, not, ◌||◌,
}
use iot_billing_backend.Common.Dict.{get, get-put}
use iot_billing_backend.Billing.StateMachine.{BillingCycleState}
use iot_billing_backend.Billing.Store.{Store, apply_transition, record_finalization, has_key}

-- `applyTransition` returns true exactly when the cycle exists with the expected state and the
-- expected lock version.
pub apply_transition_iff :
    (s : Store) (id : String) (from to : BillingCycleState) (v : ℕ)
    → ((apply_transition s id from to v).1 ≡ true)
      ↔ (get id s.cycles ≡ some (record { state = from; lock_version = v }))
unfolding apply_transition
apply_transition_iff s id from to v = (ground arith, ground arith)

-- After `applyTransition` any cycle reads as it did before, except that the named cycle of a call
-- that returned true has the new state and the next lock version.
pub get-apply_transition :
    (s : Store) (id j : String) (from to : BillingCycleState) (v : ℕ)
    → let (s', won) = apply_transition s id from to v in
      get j s'.cycles ≡ (
        if won
        then (if str_eq id j
            then some (record { state = to; lock_version = v + 1 })
            else get j s.cycles)
        else get j s.cycles)
unfolding apply_transition
get-apply_transition s id j from to v = elim (Option-cases (get id s.cycles)) [
  | inl e ↦ rw (e, apply_transition) refl
  | inr (c, e) ↦
      ground
        (arith, get-put id j (record { state = to; lock_version = c.lock_version + 1 }) s.cycles)
]

-- Compare-and-set: once a transition that expected a lock version has been applied, no transition
-- of that cycle that expects the same version is, whatever states it names.
pub apply_transition_once :
    (s : Store) (id : String) (from to from' to' : BillingCycleState) (v : ℕ)
    → (apply_transition s id from to v).1 ≡ true
    → (apply_transition (apply_transition s id from to v).0 id from' to' v).1 ≡ false
apply_transition_once s id from to from' to' v won =
    elim (Bool-cases (apply_transition s' id from' to' v).1) [
      | inr lost ↦ lost
      | inl again ↦ ground (
        arith,
        won,
        (apply_transition_iff s' id from' to' v).0 again,
        get-apply_transition s id id from to v,
        eq_iff id id,
      )
    ]
  where
    s' : Store
    s' = (apply_transition s id from to v).0

-- `recordFinalization` returns true exactly when the key was not recorded. Afterwards the key is
-- recorded, every other key is recorded exactly if it was, and the cycles are unchanged.
pub record_finalization_lem :
    (s : Store) (cycle_id key other : String)
    → let (s', fresh) = record_finalization s cycle_id key in
      (fresh ≡ not (has_key key s.idempotency_keys))
      × (has_key other s'.idempotency_keys ≡ (str_eq key other || has_key other s.idempotency_keys))
      × (s'.cycles ≡ s.cycles)
unfolding record_finalization has_key
record_finalization_lem s cycle_id key other = ground (arith, eq_iff key other)
