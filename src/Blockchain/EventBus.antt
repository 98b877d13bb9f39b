-- ===== src/Blockchain/EventBus.antt =====
-- src/core/blockchain/ledger_event_bus.ts: `LedgerEventBus`. The replies of Redis are arguments.
pub mod Fields
pub mod Delivery
mod Tests
use iot_billing_backend.Common.{
  ℕ, String, ◌≡◌, Bool, true, false, not, Option, none, some, List, [], ◌∷◌, ◌++◌, map, str_eq,
  if◌then◌else◌,
}
use iot_billing_backend.Common.Dict.{Dict, get, put, delete}
use iot_billing_backend.Common.Result.{Result, ok, throws}
use iot_billing_backend.Ingestion.Backpressure.{LedgerGap, record_all}

-- `String(n)` and `Number(s)` of JavaScript, the latter none where it is no natural number.
pub record Numerals : Type 0 where
  pub to_string : ℕ → String
  pub of_string : String → Option ℕ
  pub read_back : (n : ℕ) → of_string (to_string n) ≡ some n

pub record LedgerEvent : Type 0 where
  pub sequence : ℕ
  pub payload : Dict String

pub record DeliveredEvent : Type 0 where
  pub id : String
  pub delivered_sequence : Option ℕ
  pub delivered_payload : Dict String

pub record StreamEntry : Type 0 where
  pub entry_id : String
  pub fields : Dict String

-- The reply of XREADGROUP: streams with their entries, each with its flat fields.
abbrev pub Reply : Type 0
Reply = Option (List (String × List (String × List String)))

-- The reply of XGROUP CREATE.
pub data GroupReply : Type 0 where
  created : GroupReply
  busy_group : GroupReply
  failed : GroupReply

pub data Error : Type 0 where
  group_error : Error

pub record Bus : Type 0 where
  pub stream_key : String
  pub group_ready : Bool
  pub last_seq : Option ℕ

-- `publish`: the payload's entries, one after another, behind the sequence number.
unfoldable pub flat : Dict String → List String
flat [] = []
flat ((k, v) ∷ d) = k ∷ v ∷ flat d

unfoldable pub publish : Numerals → LedgerEvent → List String
publish num e = "seq" ∷ num.to_string e.sequence ∷ flat e.payload

-- `parseStreamReply`: the inner loop, over two fields at a time; a last single one is left out.
unfoldable pub read_fields : List String → Dict String → Dict String
read_fields [] acc = acc
read_fields (k ∷ []) acc = acc
read_fields (k ∷ v ∷ rest) acc = read_fields rest (put k v acc)

unfoldable pub read_entries : List (String × List String) → List StreamEntry
read_entries [] = []
read_entries ((i, flat_fields) ∷ entries) =
    (record { entry_id = i; fields = read_fields flat_fields [] }) ∷ read_entries entries

unfoldable pub read_streams :
    String → List (String × List (String × List String)) → List StreamEntry
read_streams key [] = []
read_streams key ((k, entries) ∷ streams) =
    let rest = read_streams key streams in
    if str_eq k key then read_entries entries ++ rest else rest

unfoldable pub parse_stream_reply : Reply → String → List StreamEntry
parse_stream_reply none key = []
parse_stream_reply (some raw) key = read_streams key raw

unfoldable pub number_of : Numerals → Option String → Option ℕ
number_of num none = none
number_of num (some s) = num.of_string s

-- `toDelivered`: the events, and the sequence numbers that the gap detector gets.
unfoldable pub to_event : Numerals → StreamEntry → DeliveredEvent
to_event num entry = record {
  id = entry.entry_id;
  delivered_sequence = number_of num (get "seq" entry.fields);
  delivered_payload = delete "seq" entry.fields;
}

unfoldable pub recorded : List DeliveredEvent → List ℕ
recorded [] = []
recorded (e ∷ es) = elim e.delivered_sequence [ none ↦ recorded es | some s ↦ s ∷ recorded es ]

-- The events, the gaps that the detector reports, and the bus after them.
unfoldable pub to_delivered :
    Numerals → Bus → List StreamEntry → List DeliveredEvent × List LedgerGap × Bus
to_delivered num b entries =
    let events = map (to_event num) entries in
    let (gaps, last) = record_all (recorded events) b.last_seq in
    (events, gaps, record b { last_seq = last })

unfoldable pub ensure_group : Bus → GroupReply → Result Error Bus
ensure_group b reply = if b.group_ready then ok b else elim reply [
  | created ↦ ok (record b { group_ready = true })
  | busy_group ↦ ok (record b { group_ready = true })
  | failed ↦ throws group_error
]

unfoldable pub pending_or_fresh : {A : Type 0} → List A → List A → List A
pending_or_fresh [] fresh = fresh
pending_or_fresh (e ∷ es) fresh = e ∷ es

-- `consume`: the consumer's own pending entries, or else new ones.
unfoldable pub consumed :
    Numerals
    → List StreamEntry
    → Result Error Bus
    → Result Error (List DeliveredEvent × List LedgerGap × Bus)
consumed num entries (ok b) = ok (to_delivered num b entries)
consumed num entries (throws e) = throws e

unfoldable pub consume :
    Numerals
    → Bus
    → GroupReply
    → Reply
    → Reply
    → Result Error (List DeliveredEvent × List LedgerGap × Bus)
consume num b group pending fresh =
    let pending_entries = parse_stream_reply pending b.stream_key in
    let fresh_entries = parse_stream_reply fresh b.stream_key in
    consumed num (pending_or_fresh pending_entries fresh_entries) (ensure_group b group)
