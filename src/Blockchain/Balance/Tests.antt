-- ===== src/Blockchain/Balance/Tests.antt =====
-- src/core/blockchain/balance_manager.ts: concrete balances.
use iot_billing_backend.Common.{◌≡◌, refl, some, true, [], ◌∷◌, ◌++◌, arith}
use iot_billing_backend.Common.Int.{pos}
use iot_billing_backend.Blockchain.Balance.{
  dot, big_int, before_dot, after_dot, pad_end, fraction_of, in_stroops, xlm_to_stroops, balances,
  reconcile_account, reconciled, fetch_on_chain_balance, native_stroops, find_native,
}
use iot_billing_backend.Blockchain.Balance.Stroops.{codes, value, fixed, xlm_to_stroops_lem}
use iot_billing_backend.Common.Int.{◌-ℤ◌}

-- 12.5 is 125000000 stroops.
xlm_to_stroops_lem_example :
    xlm_to_stroops (codes (1 ∷ 2 ∷ []) ++ (dot ∷ codes (5 ∷ []))) ≡ some 125000000
unfolding value fixed
xlm_to_stroops_lem_example =
    xlm_to_stroops_lem (1 ∷ 2 ∷ []) (5 ∷ []) (omega arith, (omega arith, tt)) (omega arith, tt)

-- A balance without a dot.
whole_test : xlm_to_stroops (51 ∷ []) ≡ some 30000000
unfolding xlm_to_stroops in_stroops fraction_of before_dot after_dot big_int pad_end
whole_test = refl

-- A debt that the ledger does not know is corrected.
reconcile_test :
    reconcile_account (pos 7) (λ r. true) (balances (("native", 48 ∷ []) ∷ []))
    ≡ some (record {
      local_balance = pos 0;
      on_chain_balance = pos 0;
      corrected = true;
      discrepancy = pos 7;
    })
unfolding reconcile_account reconciled fetch_on_chain_balance native_stroops find_native
    xlm_to_stroops in_stroops fraction_of before_dot after_dot big_int pad_end ◌-ℤ◌
reconcile_test = refl
