-- ===== src/Blockchain/EventBus/Delivery.antt =====
-- src/core/blockchain/ledger_event_bus.ts: what is published is what `consume` delivers.
use iot_billing_backend.Common.{
  String, ◌≡◌, ◌≢◌, refl, ◌∙◌, ap, Bool-cases, inl, inr, true, none, some, List, [], ◌∷◌, map,
  eq_iff, All,
}
use iot_billing_backend.Common.Dict.{Dict, get, put, delete, get-delete}
use iot_billing_backend.Common.Result.{Result, ok, throws}
use iot_billing_backend.Ingestion.Backpressure.{record_all}
use iot_billing_backend.Blockchain.EventBus.{
  Numerals, LedgerEvent, DeliveredEvent, StreamEntry, Reply, GroupReply, created, busy_group,
  failed, Error, group_error, Bus, flat, publish, read_fields, read_entries, read_streams,
  parse_stream_reply, number_of, to_event, recorded, to_delivered, ensure_group, pending_or_fresh,
  consumed, consume,
}
use iot_billing_backend.Blockchain.EventBus.Fields.{
  IsObject, Apart, read_fields-flat, get-read_fields, Apart-empty, delete_absent, append_nothing,
}

-- The reply that holds published events under their entry ids, in the stream of the bus.
unfoldable pub published : Numerals → List (String × LedgerEvent) → List (String × List String)
published num [] = []
published num ((i, e) ∷ es) = (i, publish num e) ∷ published num es

abbrev pub reply_of : Numerals → String → List (String × LedgerEvent) → Reply
reply_of num key es = some ((key, published num es) ∷ [])

-- A payload is an object without the key of the sequence number.
abbrev pub IsPublishable : String × LedgerEvent → Type 0
IsPublishable (i, e) = IsObject e.payload × (get "seq" e.payload ≡ none)

unfoldable pub as_delivered : String × LedgerEvent → DeliveredEvent
as_delivered (i, e) = record {
  id = i;
  delivered_sequence = some e.sequence;
  delivered_payload = e.payload;
}

unfoldable pub entries_of : Numerals → List (String × LedgerEvent) → List StreamEntry
entries_of num [] = []
entries_of num ((i, e) ∷ es) =
    (record { entry_id = i; fields = ("seq", num.to_string e.sequence) ∷ e.payload })
    ∷ entries_of num es

pub publish_event :
    (num : Numerals) (e : LedgerEvent)
    → IsObject e.payload
    → get "seq" e.payload ≡ none
    → read_fields (publish num e) [] ≡ ("seq", num.to_string e.sequence) ∷ e.payload
unfolding publish flat IsObject Apart get
publish_event num e object absent =
    let fields : Dict String = ("seq", num.to_string e.sequence) ∷ e.payload in
    read_fields-flat fields [] (absent, object) (Apart-empty fields)

read_published :
    (num : Numerals) (es : List (String × LedgerEvent))
    → All IsPublishable es
    → read_entries (published num es) ≡ entries_of num es
unfolding read_entries published entries_of
read_published num [] all = refl
read_published num ((i, e) ∷ es) ((object, absent), all) =
    rw (publish_event num e object absent, read_published num es all) refl

parse_published :
    (num : Numerals) (key : String) (es : List (String × LedgerEvent))
    → All IsPublishable es
    → parse_stream_reply (reply_of num key es) key ≡ entries_of num es
unfolding parse_stream_reply read_streams
parse_published num key es all =
    rw ((eq_iff key key).1 refl)
      (append_nothing (read_entries (published num es)) ∙ read_published num es all)

events_of :
    (num : Numerals) (es : List (String × LedgerEvent))
    → All IsPublishable es
    → map (to_event num) (entries_of num es) ≡ map as_delivered es
unfolding entries_of to_event as_delivered number_of get delete
events_of num [] all = refl
events_of num ((i, e) ∷ es) ((object, absent), all) =
    rw (num.read_back e.sequence, delete_absent "seq" e.payload absent, events_of num es all) refl

recorded_of :
    (es : List (String × LedgerEvent))
    → recorded (map as_delivered es) ≡ map (λ ie. ie.1.sequence) es
unfolding recorded as_delivered
recorded_of [] = refl
recorded_of (ie ∷ es) = ap (λ r. ie.1.sequence ∷ r) (recorded_of es)

started :
    (b : Bus) (group : GroupReply)
    → group ≢ failed
    → (elim group as (λ x. Result Error Bus) [
      | created ↦ ok (record b { group_ready = true })
      | busy_group ↦ ok (record b { group_ready = true })
      | failed ↦ throws group_error
    ])
      ≡ ok (record b { group_ready = true })
started b created works = refl
started b busy_group works = refl
started b failed works = absurd (works refl)

ensured :
    (b : Bus) (group : GroupReply)
    → group ≢ failed
    → ensure_group b group ≡ ok (record b { group_ready = true })
unfolding ensure_group
ensured b group works = elim (Bool-cases b.group_ready) [
  | inl ready ↦ rw (ready) refl
  | inr unready ↦ rw (unready) (started b group works)
]

to_delivered_of :
    (num : Numerals) (b : Bus) (es : List (String × LedgerEvent))
    → All IsPublishable es
    → to_delivered num b (entries_of num es) ≡ (
      map as_delivered es,
      (record_all (map (λ ie. ie.1.sequence) es) b.last_seq).0,
      record b { last_seq = (record_all (map (λ ie. ie.1.sequence) es) b.last_seq).1 },
    )
unfolding to_delivered
to_delivered_of num b es all = rw (events_of num es all, recorded_of es) refl

chosen_of :
    (num : Numerals) (p f : List (String × LedgerEvent))
    → pending_or_fresh (entries_of num p) (entries_of num f) ≡ entries_of num (pending_or_fresh p f)
unfolding pending_or_fresh entries_of
chosen_of num [] f = refl
chosen_of num (e ∷ es) f = refl

chosen-All :
    (p f : List (String × LedgerEvent))
    → All IsPublishable p
    → All IsPublishable f
    → All IsPublishable (pending_or_fresh p f)
unfolding pending_or_fresh
chosen-All [] f all all' = all'
chosen-All (e ∷ es) f all all' = all

-- Where XGROUP works, `consume` delivers exactly what was published, each event with its entry's id,
-- its sequence number and its whole payload: the pending events if there are any, else the new
-- ones; and the gap detector has recorded their sequence numbers in order. Payloads are objects
-- without a key "seq".
pub consume_delivers :
    (num : Numerals) (b : Bus) (group : GroupReply) (pending fresh : List (String × LedgerEvent))
    → group ≢ failed
    → All IsPublishable pending
    → All IsPublishable fresh
    → let batch = pending_or_fresh pending fresh in
      let (gaps, last) = record_all (map (λ ie. ie.1.sequence) batch) b.last_seq in
      consume num b group (reply_of num b.stream_key pending) (reply_of num b.stream_key fresh)
      ≡ ok (map as_delivered batch, gaps, record b { group_ready = true; last_seq = last })
unfolding consume consumed
consume_delivers num b group pending fresh works all all' =
    rw
      (
        ensured b group works,
        parse_published num b.stream_key pending all,
        parse_published num b.stream_key fresh all',
        chosen_of num pending fresh,
      )
      (ap ok (
        to_delivered_of num (record b { group_ready = true }) (pending_or_fresh pending fresh)
          (chosen-All pending fresh all all')))

-- `publish` puts the sequence number under the key "seq" and the payload's keys behind it: an event
-- whose payload has a key "seq" is delivered with that value for its sequence number, whatever its
-- own was, and without the key.
pub seq_key_wins :
    (num : Numerals) (i : String) (e : LedgerEvent) (v : String)
    → IsObject e.payload
    → get "seq" e.payload ≡ some v
    → let r = to_event num (record { entry_id = i; fields = read_fields (publish num e) [] }) in
      (r.delivered_sequence ≡ num.of_string v) × (get "seq" r.delivered_payload ≡ none)
unfolding to_event publish read_fields number_of
seq_key_wins num i e v object there =
    let read = get-read_fields "seq" e.payload (put "seq" (num.to_string e.sequence) []) object in
    (
      rw (read, there) refl,
      rw
          (get-delete "seq" "seq"
            (read_fields (flat e.payload) (put "seq" (num.to_string e.sequence) [])))
          refl,
    )
