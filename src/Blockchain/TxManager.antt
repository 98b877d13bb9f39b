-- ===== src/Blockchain/TxManager.antt =====
-- src/core/blockchain/tx_manager.ts: TransactionManager over the nonce pool and an RPC client, of
-- which there is only what each submission gives.
pub mod Submit
use Prim.Native.String.{String, ◌++◌}
use iot_billing_backend.Common.{
  ℕ, ◌+◌, ◌-◌, Bool, true, false, ◌&&◌, ◌||◌, not, Option, none, some, List, [], ◌∷◌, ltb, leb,
  ◌==◌, if◌then◌else◌,
}
use iot_billing_backend.Common.Dict.{Dict, get, put}
use iot_billing_backend.Common.Int.{ℤ}
use iot_billing_backend.Common.Result.{Result, ok, throws}
use iot_billing_backend.Events.LockId.{codes}
use iot_billing_backend.Blockchain.NoncePool.{NoncePool, acquire, release, synchronize}

pub data Status : Type 0 where
  pending submitted confirmed failed : Status

-- The fields that `JSON.stringify` writes into an envelope, besides the method's name.
pub record Envelope : Type 0 where
  pub contract_id : String
  pub device_id : String
  pub usage_amount : ℤ
  pub sequence_number : ℕ

pub record TransactionRecord : Type 0 where
  pub id : String
  pub worker_id : String
  pub sequence_number : ℕ
  pub envelope : Envelope
  pub status : Status
  pub created_at : ℕ
  pub confirmed_at : Option ℕ
  pub error : Option String

-- What `rpcClient.submitTransaction` does: it returns, or throws an error with a message.
pub data Reply : Type 0 where
  accepted : Reply
  refused : String → Reply

-- The manager with its pool, and the envelopes that were sent, newest first.
pub record Manager : Type 0 where
  pub transactions : Dict TransactionRecord
  pub nonce_pool : NoncePool
  pub sent : List Envelope

-- /tx_bad_seq/i.test(message)
abbrev lower : ℕ → ℕ
lower c = if leb 65 c && leb c 90 then c + 32 else c

abbrev starts_with : List ℕ → List ℕ → Bool
starts_with [] cs = true
starts_with (p ∷ ps) [] = false
starts_with (p ∷ ps) (c ∷ cs) = p == lower c && starts_with ps cs

abbrev contains : List ℕ → List ℕ → Bool
contains ps [] = starts_with ps []
contains ps (c ∷ cs) = starts_with ps (c ∷ cs) || contains ps cs

unfoldable pub is_bad_seq : String → Bool
is_bad_seq message = contains (codes "tx_bad_seq") (codes message)

-- The arguments of `submitChargeUsage`.
pub record Charge : Type 0 where
  pub worker_id : String
  pub device_id : String
  pub usage_amount : ℤ
  pub contract_id : String

unfoldable pub build_charge_envelope : Charge → ℕ → Envelope
build_charge_envelope c seq = record {
  contract_id = c.contract_id;
  device_id = c.device_id;
  usage_amount = c.usage_amount;
  sequence_number = seq;
}

abbrev pub new_record : Charge → String → ℕ → ℕ → TransactionRecord
new_record c id seq now = record {
  id = id;
  worker_id = c.worker_id;
  sequence_number = seq;
  envelope = build_charge_envelope c seq;
  status = pending;
  created_at = now;
  confirmed_at = none;
  error = none;
}

-- Up to the submission: a nonce, and a pending record under the minted id.
unfoldable pub prepare : Charge → String → ℕ → Manager → TransactionRecord × Manager
unfolding build_charge_envelope
prepare c id now m =
    let (seq, pool) = acquire c.worker_id now m.nonce_pool in
    (
      new_record c id seq now,
      record {
        transactions = put id (new_record c id seq now) m.transactions;
        nonce_pool = pool;
        sent = build_charge_envelope c seq ∷ m.sent;
      },
    )

-- The record is shared with the map, so an assignment to it is a write under its id.
abbrev pub update : TransactionRecord → Manager → TransactionRecord × Manager
update r m = (r, record m { transactions = put r.id r m.transactions })

abbrev error_text : String → String
error_text message = if is_bad_seq message then "ERR:" ++ message else message

-- The end of a call without a retry.
unfoldable pub conclude : Reply → TransactionRecord → Manager → TransactionRecord × Manager
conclude accepted r m = update (record r { status = submitted }) m
conclude (refused message) r m =
    let (r', m') = update (record r { status = failed; error = some (error_text message) }) m in
    (r', record m' { nonce_pool = release r.worker_id m.nonce_pool })

-- The call with `isRetry`.
unfoldable pub retry : Charge → String → ℕ → Reply → Manager → TransactionRecord × Manager
unfolding prepare conclude
retry c id now reply m = let (r, m') = prepare c id now m in conclude reply r m'

-- Whether a first submission is tried again.
unfoldable pub wants_retry : Reply → Bool
unfolding is_bad_seq
wants_retry accepted = false
wants_retry (refused message) = is_bad_seq message

-- Both nonce calls before the second submission; a failed synchronization is only logged.
abbrev pub prepare_retry : Charge → Option ℕ → Manager → Manager
prepare_retry c ledger m = record m {
  nonce_pool = (synchronize ledger (release c.worker_id m.nonce_pool)).1;
}

-- What a call draws from outside: two minted ids, the clock, the ledger and two replies.
pub record Outside : Type 0 where
  pub first_id : String
  pub second_id : String
  pub now : ℕ
  pub ledger : Option ℕ
  pub first_reply : Reply
  pub second_reply : Reply

-- By whether the first submission is tried again.
unfoldable pub submit_with : Bool → Charge → Outside → Manager → TransactionRecord × Manager
unfolding prepare conclude retry
submit_with true c o m =
    let (r, m') = prepare c o.first_id o.now m in
    retry c o.second_id o.now o.second_reply (prepare_retry c o.ledger m')
submit_with false c o m = let (r, m') = prepare c o.first_id o.now m in conclude o.first_reply r m'

unfoldable pub submit_charge_usage : Charge → Outside → Manager → TransactionRecord × Manager
unfolding submit_with wants_retry
submit_charge_usage c o m = submit_with (wants_retry o.first_reply) c o m

pub data NotFound : Type 0 where
  transaction_not_found : String → NotFound

unfoldable pub confirm_transaction : String → ℕ → Manager → Result NotFound (Unit {0}) × Manager
confirm_transaction id now m = elim (get id m.transactions) [
  | none ↦ (throws (transaction_not_found id), m)
  | some r ↦ (
    ok tt,
    record m {
      transactions =
          put id (record r { status = confirmed; confirmed_at = some now }) m.transactions;
    },
  )
]
