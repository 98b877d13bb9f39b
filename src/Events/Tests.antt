-- ===== src/Events/Tests.antt =====
-- Runs of the code of src/ingestion/eventStore.ts on small logs.
use iot_billing_backend.Common.{◌+◌, ◌*◌, ◌%◌, ◌≡◌, refl, String, List, [], ◌∷◌, ◌&&◌, arith, leb}
use iot_billing_backend.Common.Result.{ok}
use iot_billing_backend.Events.{BillingEvent, new_event, max_sequence, has_sequence, append_event}
use iot_billing_backend.Events.LockId.{tenant_lock_id, mix, mix_lem}
use iot_billing_backend.Events.Append.{
  IsUnique, Appended, append_event_alone, append_event-Appended, append_all, calls_of,
  append_all_numbers,
}

lock_id : tenant_lock_id "ab" ≡ 3105
unfolding tenant_lock_id
lock_id = refl

mix_lem_test : mix 4000000000 97 ≡ (31 * 4000000000 + 97) % 4294967296
mix_lem_test = mix_lem 4000000000 97 (omega arith)

abbrev log : List BillingEvent
log =
    new_event "t" 3 "charge" "{}" ∷ new_event "u" 1 "charge" "{}" ∷ new_event "t" 1 "open" "{}" ∷ []

log-IsUnique : IsUnique log
unfolding has_sequence
log-IsUnique = (refl, (refl, (refl, tt)))

append_event_alone_test :
    append_event [] "t" "close" "{}" log
    ≡ (ok (new_event "t" 4 "close" "{}"), new_event "t" 4 "close" "{}" ∷ log)
unfolding max_sequence
append_event_alone_test = append_event_alone "t" "close" "{}" log

-- Another writer takes number 4 between the first SELECT and the first INSERT.
abbrev others : List (List BillingEvent)
others = (new_event "t" 4 "x" "{}" ∷ []) ∷ []

append_event-Appended_example :
    Appended "t" "close" "{}" log (append_event others "t" "close" "{}" log)
append_event-Appended_example = append_event-Appended others "t" "close" "{}" log log-IsUnique

abbrev calls : List (String × String × String)
calls = ("t", "a", "{}") ∷ ("u", "a", "{}") ∷ ("t", "b", "{}") ∷ []

append_all_numbers_example :
    (has_sequence "t" 2 (append_all calls []) ≡ (leb 1 2 && leb 2 (calls_of "t" calls)))
    × IsUnique (append_all calls [])
append_all_numbers_example = append_all_numbers "t" 2 calls
