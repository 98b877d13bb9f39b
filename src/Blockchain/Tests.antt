-- ===== src/Blockchain/Tests.antt =====
-- Runs of the theorems on small inputs.
use iot_billing_backend.Common.{◌+◌, ◌≡◌, false, some, List, [], ◌∷◌, if◌then◌else◌}
use iot_billing_backend.Common.Int.{pos}
use iot_billing_backend.Common.Dict.{get}
use iot_billing_backend.Blockchain.NoncePool.{NoncePool}
use iot_billing_backend.Blockchain.RpcClient.{
  CircuitBreakerConfig, new_client, Event, submits, replies, delays, handle_all,
}
use iot_billing_backend.Blockchain.RpcClient.Breaker.{Healthy, submitted, handle_all-Healthy}
use iot_billing_backend.Blockchain.TxManager.{
  Charge, Outside, Manager, refused, accepted, submit_charge_usage, build_charge_envelope,
  wants_retry,
}
use iot_billing_backend.Blockchain.TxManager.Submit.{
  status_of, final_reply, submit_charge_usage_lem,
}

abbrev pool : NoncePool
pool = record { nonces = []; seq_counter = 7 }

abbrev config : CircuitBreakerConfig
config = record { failure_threshold = 2; success_threshold = 1; timeout_ms = 10 }

abbrev outage : List Event
outage =
    submits 0
    ∷ submits 1
    ∷ submits 2
    ∷ replies false
    ∷ replies false
    ∷ delays 9
    ∷ replies false
    ∷ []

handle_all-Healthy_example : Healthy 2 (submitted 2 outage) (handle_all outage (new_client config))
handle_all-Healthy_example = handle_all-Healthy 2 config outage

abbrev charge : Charge
charge = record { worker_id = "w"; device_id = "d"; usage_amount = pos 5; contract_id = "c" }

abbrev outside : Outside
outside = record {
  first_id = "1";
  second_id = "2";
  now = 4;
  ledger = some 20;
  first_reply = refused "Error: TX_BAD_SEQ";
  second_reply = accepted;
}

abbrev manager : Manager
manager = record { transactions = []; nonce_pool = pool; sent = [] }

submit_charge_usage_lem_example :
    let (res, m') = submit_charge_usage charge outside manager in
    (res.status ≡ status_of (final_reply outside))
    × (get res.id m'.transactions ≡ some res)
    × (m'.sent ≡ (
        if wants_retry (refused "Error: TX_BAD_SEQ")
        then res.envelope ∷ build_charge_envelope charge (7 + 1) ∷ []
        else res.envelope ∷ []))
submit_charge_usage_lem_example = submit_charge_usage_lem charge outside manager
