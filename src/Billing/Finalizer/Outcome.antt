-- ===== src/Billing/Finalizer/Outcome.antt =====
-- What one undisturbed call of `finalizeBillingCycle` does on an OPEN cycle, branch by branch.
use iot_billing_backend.Common.{
  ℕ, ◌+◌, ◌≡◌, String, true, false, none, some, ◌∷◌, arith, eq_iff, ◌⊎◌,
}
use iot_billing_backend.Common.Dict.{get, get-put}
use iot_billing_backend.Billing.StateMachine.{opened, finalizing, finalized, assert_transition}
use iot_billing_backend.Billing.Store.{get_cycle, apply_transition, record_finalization, has_key}
use iot_billing_backend.Billing.Store.Laws.{apply_transition_iff, get-apply_transition}
use iot_billing_backend.Billing.Finalizer.{
  Call, World, resolved, result, was_finalized, not_open, completes, fails, key_of,
  finalize_billing_cycle, gate,
}

-- A retry of a cycle that is FINALIZING.
finalize-finalizing :
    (id : String) (retry : Call) (w : World) (v : ℕ)
    → retry.cycle_id ≡ id
    → get id w.store.cycles ≡ some (record { state = finalizing; lock_version = v })
    → finalize_billing_cycle retry w ≡ (resolved (result id not_open (some finalizing) none), w)
unfolding finalize_billing_cycle get_cycle
finalize-finalizing id retry w v same e = ground (arith, same, e)

module _ (c : Call) (v : ℕ) (w : World)
    (is_taken : get c.cycle_id w.store.cycles
      ≡ some (record { state = finalizing; lock_version = v + 1 })) where
  gate_completes :
      has_key (key_of c) w.store.idempotency_keys ≡ false
      → c.compute_finalization ≡ completes
      → let (r, w') = gate c v w in
        (r ≡ resolved (result c.cycle_id was_finalized (some finalized) (some (key_of c))))
        × (get c.cycle_id w'.store.cycles
            ≡ some (record { state = finalized; lock_version = v + 1 + 1 }))
        × (has_key (key_of c) w'.store.idempotency_keys ≡ true)
        × (w'.charges ≡ c.cycle_id ∷ w.charges)
  unfolding gate record_finalization apply_transition has_key assert_transition
  gate_completes fresh whole = (
    ground arith,
    ground (
      arith,
      is_taken,
      get-put c.cycle_id c.cycle_id (record { state = finalized; lock_version = v + 1 + 1 })
          w.store.cycles,
      eq_iff c.cycle_id c.cycle_id,
    ),
    ground (arith, is_taken, eq_iff (key_of c) (key_of c)),
    ground arith,
  )

  gate_interrupted :
      (has_key (key_of c) w.store.idempotency_keys ≡ true) ⊎ (c.compute_finalization ≡ fails)
      → get c.cycle_id (gate c v w).1.store.cycles
        ≡ some (record { state = finalizing; lock_version = v + 1 })
  unfolding gate record_finalization
  gate_interrupted broken = ground (arith, is_taken)

module _ (c : Call) (v : ℕ) (w : World)
    (is_open : get c.cycle_id w.store.cycles
      ≡ some (record { state = opened; lock_version = v })) where
  -- The world after the first transition, which an undisturbed call wins.
  taken : World
  taken = record w { store = (apply_transition w.store c.cycle_id opened finalizing v).0 }

  finalize-gate : finalize_billing_cycle c w ≡ gate c v taken
  unfolding finalize_billing_cycle get_cycle assert_transition taken
  finalize-gate =
      ground
        (arith, is_open, (apply_transition_iff w.store c.cycle_id opened finalizing v).1 is_open)

  get-taken :
      get c.cycle_id taken.store.cycles ≡ some (record { state = finalizing; lock_version = v + 1 })
  unfolding taken
  get-taken = ground (
    arith,
    get-apply_transition w.store c.cycle_id c.cycle_id opened finalizing v,
    (apply_transition_iff w.store c.cycle_id opened finalizing v).1 is_open,
    eq_iff c.cycle_id c.cycle_id,
  )

  keys-taken : taken.store.idempotency_keys ≡ w.store.idempotency_keys
  unfolding taken apply_transition
  keys-taken = ground arith

  -- A call for an OPEN cycle, with a key that is not recorded and a computation that completes,
  -- resolves to `finalized` with its key. The cycle is then FINALIZED, two lock versions on, the
  -- key is recorded, and the computation was invoked exactly once more.
  pub finalize_completes :
      has_key (key_of c) w.store.idempotency_keys ≡ false
      → c.compute_finalization ≡ completes
      → let (r, w') = finalize_billing_cycle c w in
        (r ≡ resolved (result c.cycle_id was_finalized (some finalized) (some (key_of c))))
        × (get c.cycle_id w'.store.cycles
            ≡ some (record { state = finalized; lock_version = v + 1 + 1 }))
        × (has_key (key_of c) w'.store.idempotency_keys ≡ true)
        × (w'.charges ≡ c.cycle_id ∷ w.charges)
  unfolding taken
  finalize_completes fresh whole =
      rw finalize-gate (gate_completes c v taken get-taken (rw keys-taken fresh) whole)

  -- A call for an OPEN cycle whose key is recorded already, or whose computation throws, leaves the
  -- cycle FINALIZING. From then on every call for that cycle resolves to `not_open` and changes
  -- nothing, whatever its key: the cycle is never finalized by a retry.
  pub interrupted_sticks :
      (retry : Call)
      → retry.cycle_id ≡ c.cycle_id
      → (has_key (key_of c) w.store.idempotency_keys ≡ true) ⊎ (c.compute_finalization ≡ fails)
      → let w' = (finalize_billing_cycle c w).1 in
        (get c.cycle_id w'.store.cycles
          ≡ some (record { state = finalizing; lock_version = v + 1 }))
        × (finalize_billing_cycle retry w'
            ≡ (resolved (result c.cycle_id not_open (some finalizing) none), w'))
  interrupted_sticks retry same broken =
      let stuck : get c.cycle_id (finalize_billing_cycle c w).1.store.cycles
          ≡ some (record { state = finalizing; lock_version = v + 1 }) =
        rw finalize-gate (gate_interrupted c v taken get-taken (rw keys-taken broken)) in
      (
        stuck,
        finalize-finalizing c.cycle_id retry (finalize_billing_cycle c w).1 (v + 1) same stuck,
      )
