-- ===== src/Blockchain/TxManager/Submit.antt =====
-- What a call of `submitChargeUsage` leaves behind.
use iot_billing_backend.Common.{
  ◌+◌, ◌≡◌, String, Bool, true, false, some, ◌∷◌, if◌then◌else◌, str_eq, refl, sym, ◌∙◌,
}
use mathlib.Core.Path.{subst}
use iot_billing_backend.Common.Dict.{get, get-put, get-put_self}
use iot_billing_backend.Blockchain.NoncePool.{acquire}
use iot_billing_backend.Blockchain.TxManager.{
  Status, submitted, failed, Reply, accepted, refused, TransactionRecord, Manager, Charge, Outside,
  build_charge_envelope, new_record, prepare, conclude, retry, wants_retry, submit_with,
  submit_charge_usage, prepare_retry,
}

-- The status that a reply gives.
abbrev pub status_of : Reply → Status
status_of accepted = submitted
status_of (refused message) = failed

-- The reply that decides, and how many envelopes are sent.
abbrev pub final_reply : Outside → Reply
final_reply o = if wants_retry o.first_reply then o.second_reply else o.first_reply

conclude_lem :
    (reply : Reply) (r : TransactionRecord) (m : Manager)
    → let (res, m') = conclude reply r m in
      (res.status ≡ status_of reply)
      × (get res.id m'.transactions ≡ some res)
      × (m'.sent ≡ m.sent)
      × (res.envelope ≡ r.envelope)
      × (res.id ≡ r.id)
unfolding conclude
conclude_lem accepted r m = (refl, get-put_self r.id _ m.transactions, refl, refl, refl)
conclude_lem (refused message) r m = (refl, get-put_self r.id _ m.transactions, refl, refl, refl)

submit_with_lem :
    (again : Bool) (c : Charge) (o : Outside) (m : Manager)
    → let (res, m') = submit_with again c o m in
      (res.status ≡ status_of (if again then o.second_reply else o.first_reply))
      × (get res.id m'.transactions ≡ some res)
      × (m'.sent ≡ (
          if again
          then res.envelope ∷ build_charge_envelope c (m.nonce_pool.seq_counter + 1) ∷ m.sent
          else res.envelope ∷ m.sent))
unfolding submit_with acquire prepare retry
submit_with_lem true c o m =
    let first = (prepare c o.first_id o.now m).1 in
    let (r, m') = prepare c o.second_id o.now (prepare_retry c o.ledger first) in
    let (status, stored, sent, envelope, id) = conclude_lem o.second_reply r m' in
    (status, stored, rw (envelope, sent) refl)
submit_with_lem false c o m =
    let (r, m') = prepare c o.first_id o.now m in
    let (status, stored, sent, envelope, id) = conclude_lem o.first_reply r m' in
    (status, stored, rw (envelope, sent) refl)

-- A call sends one envelope, or two when the first reply is a bad sequence number: then the second
-- reply decides. The record that it returns is stored under its id, is `submitted` exactly when the
-- deciding reply accepts it and `failed` otherwise, and has the envelope that was sent last.
pub submit_charge_usage_lem :
    (c : Charge) (o : Outside) (m : Manager)
    → let (res, m') = submit_charge_usage c o m in
      (res.status ≡ status_of (final_reply o))
      × (get res.id m'.transactions ≡ some res)
      × (m'.sent ≡ (
          if wants_retry o.first_reply
          then res.envelope ∷ build_charge_envelope c (m.nonce_pool.seq_counter + 1) ∷ m.sent
          else res.envelope ∷ m.sent))
unfolding submit_charge_usage
submit_charge_usage_lem c o m = submit_with_lem (wants_retry o.first_reply) c o m

-- What concludes one record does not touch another.
conclude_other :
    (reply : Reply) (r : TransactionRecord) (m : Manager) (id : String)
    → str_eq r.id id ≡ false
    → get id (conclude reply r m).1.transactions ≡ get id m.transactions
unfolding conclude
conclude_other accepted r m id h = rw (get-put r.id id _ m.transactions, h) refl
conclude_other (refused message) r m id h = rw (get-put r.id id _ m.transactions, h) refl

submit_with_pending :
    (c : Charge) (o : Outside) (m : Manager)
    → str_eq o.second_id o.first_id ≡ false
    → get o.first_id (submit_with true c o m).1.transactions
      ≡ some (new_record c o.first_id (m.nonce_pool.seq_counter + 1) o.now)
unfolding submit_with acquire prepare retry
submit_with_pending c o m other =
    let first = (prepare c o.first_id o.now m).1 in
    let (r, m') = prepare c o.second_id o.now (prepare_retry c o.ledger first) in
    conclude_other o.second_reply r m' o.first_id other
    ∙ get-put o.second_id o.first_id _ _
    ∙ rw (other) (get-put_self o.first_id _ m.transactions)

-- After a retry the record of the first submission stays in the map as `pending`, with the nonce
-- of the refused envelope: no code path settles it.
pub retry_leaves_pending :
    (c : Charge) (o : Outside) (m : Manager)
    → wants_retry o.first_reply ≡ true
    → str_eq o.second_id o.first_id ≡ false
    → get o.first_id (submit_charge_usage c o m).1.transactions
      ≡ some (new_record c o.first_id (m.nonce_pool.seq_counter + 1) o.now)
unfolding submit_charge_usage
retry_leaves_pending c o m e other =
    subst
      (λ again.
        get o.first_id (submit_with again c o m).1.transactions
        ≡ some (new_record c o.first_id (m.nonce_pool.seq_counter + 1) o.now))
      (sym e) (submit_with_pending c o m other)
