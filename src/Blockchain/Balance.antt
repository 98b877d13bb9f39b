-- ===== src/Blockchain/Balance.antt =====
-- src/core/blockchain/balance_manager.ts: `xlmToStroops` and `BalanceManager`. Texts are lists of
-- character codes; `BigInt` reads decimal digits and refuses all else (signs, blanks and prefixes,
-- which no balance has, are left out).
pub mod Stroops
pub mod Counter
mod Tests
use iot_billing_backend.Common.{
  ℕ, zero, suc, ◌+◌, ◌-◌, ◌*◌, String, Bool, true, false, not, ◌&&◌, Option, none, some, List, [],
  ◌∷◌, length, ltb, leb, ◌==◌, str_eq, if◌then◌else◌,
}
use iot_billing_backend.Common.Int.{ℤ, pos, ◌-ℤ◌, eqb_ℤ}
use iot_billing_backend.Common.Result.{Result, ok, throws}

abbrev pub stroop_decimals : ℕ
stroop_decimals = 10000000

abbrev pub reconciliation_threshold : ℕ
reconciliation_threshold = 100

abbrev pub dot : ℕ
dot = 46

-- `BigInt` of a text, from the number read so far.
unfoldable pub big_int : ℕ → List ℕ → Option ℕ
big_int n [] = some n
big_int n (c ∷ cs) =
    let rest = big_int (n * 10 + (c - 48)) cs in if leb 48 c && leb c 57 then rest else none

-- `split('.')`: the first part, and what stands behind it.
unfoldable pub before_dot : List ℕ → List ℕ
before_dot [] = []
before_dot (c ∷ cs) = let rest = before_dot cs in if c == dot then [] else c ∷ rest

unfoldable pub after_dot : List ℕ → List ℕ
after_dot [] = []
after_dot (c ∷ cs) = let rest = after_dot cs in if c == dot then cs else rest

unfoldable pub slice : ℕ → List ℕ → List ℕ
slice zero cs = []
slice (suc n) [] = []
slice (suc n) (c ∷ cs) = c ∷ slice n cs

unfoldable pub pad_end : ℕ → List ℕ → List ℕ
pad_end zero cs = cs
pad_end (suc n) [] = 48 ∷ pad_end n []
pad_end (suc n) (c ∷ cs) = c ∷ pad_end n cs

unfoldable pub fraction_of : List ℕ → List ℕ
fraction_of part = if ltb 7 (length part) then slice 7 part else pad_end 7 part

unfoldable pub in_stroops : Option ℕ → Option ℕ → Option ℕ
in_stroops none fraction = none
in_stroops (some whole) none = none
in_stroops (some whole) (some fraction) = some (whole * stroop_decimals + fraction)

-- `xlmToStroops`; none where `BigInt` throws.
unfoldable pub xlm_to_stroops : List ℕ → Option ℕ
xlm_to_stroops balance =
    in_stroops (big_int 0 (before_dot balance))
      (big_int 0 (fraction_of (before_dot (after_dot balance))))

-- The reply of Horizon: none at all, a bad status, or the balances, each with its asset type.
pub data HorizonReply : Type 0 where
  unreachable : HorizonReply
  bad_status : HorizonReply
  balances : List (String × List ℕ) → HorizonReply

unfoldable pub find_native : List (String × List ℕ) → Option (List ℕ)
find_native [] = none
find_native ((asset, balance) ∷ bs) =
    let rest = find_native bs in if str_eq asset "native" then some balance else rest

unfoldable pub native_stroops : Option (List ℕ) → Option ℕ
native_stroops none = none
native_stroops (some balance) = xlm_to_stroops balance

-- `fetchOnChainBalance`; none where it throws.
unfoldable pub fetch_on_chain_balance : HorizonReply → Option ℕ
fetch_on_chain_balance unreachable = none
fetch_on_chain_balance bad_status = none
fetch_on_chain_balance (balances bs) = native_stroops (find_native bs)

pub record ReconciliationResult : Type 0 where
  pub local_balance : ℤ
  pub on_chain_balance : ℤ
  pub corrected : Bool
  pub discrepancy : ℤ

-- `reconcileAccount` with the balance that was fetched; `on_reconcile` says whether the callback of
-- that name fulfils. None is the error.
unfoldable pub reconciled :
    ℤ → (ReconciliationResult → Bool) → Option ℕ → Option ReconciliationResult
reconciled local on_reconcile none = none
reconciled local on_reconcile (some n) =
    let discrepancy = local -ℤ pos n in
    let corrected = not (eqb_ℤ discrepancy (pos 0)) in
    let result : ReconciliationResult = record {
      local_balance = if corrected then pos n else local;
      on_chain_balance = pos n;
      corrected = corrected;
      discrepancy = discrepancy;
    } in
    if corrected && not (on_reconcile result) then none else some result

unfoldable pub reconcile_account :
    ℤ → (ReconciliationResult → Bool) → HorizonReply → Option ReconciliationResult
reconcile_account local on_reconcile reply =
    reconciled local on_reconcile (fetch_on_chain_balance reply)

-- What a recorded transaction leads to: nothing, or a reconciliation with its result.
pub data Outcome : Type 0 where
  not_due : Outcome
  due : Option ReconciliationResult → Outcome

-- `recordTransaction` on the counter.
unfoldable pub record_transaction :
    ℕ → ℤ → (ReconciliationResult → Bool) → HorizonReply → Outcome × ℕ
record_transaction count local on_reconcile reply =
    let result = reconcile_account local on_reconcile reply in
    if leb reconciliation_threshold (count + 1) then (due result, 0) else (not_due, count + 1)

unfoldable pub record_all :
    ℕ → (ReconciliationResult → Bool) → List (ℤ × HorizonReply) → List Outcome × ℕ
record_all count on_reconcile [] = ([], count)
record_all count on_reconcile ((local, reply) ∷ calls) =
    let (outcome, count') = record_transaction count local on_reconcile reply in
    let (outcomes, end) = record_all count' on_reconcile calls in (outcome ∷ outcomes, end)
