-- ===== src/Blockchain/EventBus/Tests.antt =====
-- src/core/blockchain/ledger_event_bus.ts: concrete runs, with numbers written in unary.
use iot_billing_backend.Common.{
  ℕ, zero, suc, String, ◌≡◌, refl, ap, ◌∙◌, true, false, none, some, List, [], ◌∷◌, length, arith,
}
use text.Mathlib.TextBridge.{of_list, to_list, to_list-of_list}
use Prim.Native.Char.{Char}
use iot_billing_backend.Common.Dict.{get}
use iot_billing_backend.Common.Result.{ok}
use iot_billing_backend.Ingestion.Backpressure.{record_all, record_seq}
use iot_billing_backend.Blockchain.EventBus.{
  Numerals, LedgerEvent, busy_group, Bus, publish, read_fields, to_event, pending_or_fresh, consume,
}
use iot_billing_backend.Blockchain.EventBus.Fields.{IsObject}
use iot_billing_backend.Blockchain.EventBus.Delivery.{
  reply_of, as_delivered, consume_delivers, seq_key_wins,
}

abbrev ones : ℕ → List Char
ones zero = []
ones (suc n) = "1" ∷ ones n

length-ones : (n : ℕ) → length (ones n) ≡ n
length-ones zero = refl
length-ones (suc n) = ap suc (length-ones n)

abbrev unary : Numerals
unary = record {
  to_string = λ n. of_list (ones n);
  of_string = λ s. some (length (to_list s));
  read_back = λ n. ap some (ap length (to_list-of_list (ones n)) ∙ length-ones n);
}

abbrev fifth : LedgerEvent
fifth = record { sequence = 5; payload = ("hash", "ab") ∷ [] }

abbrev eighth : LedgerEvent
eighth = record { sequence = 8; payload = ("hash", "cd") ∷ ("txs", "2") ∷ [] }

abbrev misnamed : LedgerEvent
misnamed = record { sequence = 9; payload = ("seq", "11") ∷ [] }

abbrev bus : Bus
bus = record { stream_key = "billing:events"; group_ready = false; last_seq = some 4 }

abbrev batch : List (String × LedgerEvent)
batch = ("1-0", fifth) ∷ ("2-0", eighth) ∷ []

consume_delivers_example :
    consume unary bus busy_group
      (reply_of unary bus.stream_key [])
      (reply_of unary bus.stream_key batch)
    ≡ ok (
      (record { id = "1-0"; delivered_sequence = some 5; delivered_payload = ("hash", "ab") ∷ [] })
          ∷ (record {
            id = "2-0";
            delivered_sequence = some 8;
            delivered_payload = ("hash", "cd") ∷ ("txs", "2") ∷ [];
          })
          ∷ [],
      (record { expected_seq = 6; observed_seq = 8; missing_count = 2 }) ∷ [],
      record { stream_key = "billing:events"; group_ready = true; last_seq = some 8 },
    )
unfolding pending_or_fresh record_all as_delivered record_seq IsObject get
consume_delivers_example =
    consume_delivers unary bus busy_group [] batch (ground arith) tt
      (((refl, tt), refl), (((refl, (refl, tt)), refl), tt))

seq_key_wins_example :
    let r =
      to_event unary
        (record { entry_id = "3-0"; fields = read_fields (publish unary misnamed) [] }) in
    (r.delivered_sequence ≡ unary.of_string "11") × (get "seq" r.delivered_payload ≡ none)
unfolding IsObject get
seq_key_wins_example = seq_key_wins unary "3-0" misnamed "11" (refl, tt) refl
