-- ===== src/Blockchain/EventBus/Fields.antt =====
-- src/core/blockchain/ledger_event_bus.ts: the fields of an entry, written and read back.
use iot_billing_backend.Common.{
  String, ◌≡◌, refl, sym, ap, ◌∙◌, none, some, List, [], ◌∷◌, ◌++◌, eq_iff, arith,
}
use iot_billing_backend.Common.Dict.{Dict, get, put, delete, get-put}
use iot_billing_backend.Blockchain.EventBus.{flat, read_fields}

-- The keys of a JavaScript object are distinct.
unfoldable pub IsObject : Dict String → Type 0
IsObject [] = Unit {0}
IsObject ((k, v) ∷ d) = (get k d ≡ none) × IsObject d

-- No key of the first stands in the second.
unfoldable pub Apart : Dict String → Dict String → Type 0
Apart [] acc = Unit {0}
Apart ((k, v) ∷ d) acc = (get k acc ≡ none) × Apart d acc

put_fresh : (k v : String) (d : Dict String) → get k d ≡ none → put k v d ≡ d ++ ((k, v) ∷ [])
unfolding get put
put_fresh k v [] absent = refl
put_fresh k v ((j, w) ∷ d) absent = ground (arith, absent, put_fresh k v d)

Apart-put :
    (k v : String) (d acc : Dict String) → get k d ≡ none → Apart d acc → Apart d (put k v acc)
unfolding Apart get
Apart-put k v [] acc absent apart = tt
Apart-put k v ((j, w) ∷ d) acc absent (free, apart) = (
  ground (arith, absent, free, get-put k j v acc, eq_iff j k, eq_iff k j),
  Apart-put k v d acc (ground (arith, absent)) apart,
)

pub append_nothing {ℓ} : {A : Type ℓ} (acc : List A) → acc ++ [] ≡ acc
append_nothing [] = refl
append_nothing (p ∷ acc) = ap (λ r. p ∷ r) (append_nothing acc)

append_one :
    (acc d : Dict String) (kv : String × String) → (acc ++ (kv ∷ [])) ++ d ≡ acc ++ (kv ∷ d)
append_one [] d kv = refl
append_one (p ∷ acc) d kv = ap (λ r. p ∷ r) (append_one acc d kv)

pub read_fields-flat :
    (d acc : Dict String) → IsObject d → Apart d acc → read_fields (flat d) acc ≡ acc ++ d
unfolding read_fields flat IsObject Apart
read_fields-flat [] acc object apart = sym (append_nothing acc)
read_fields-flat ((k, v) ∷ d) acc (single, object) (free, apart) =
    read_fields-flat d (put k v acc) object (Apart-put k v d acc single apart)
    ∙ (rw (put_fresh k v acc free) (append_one acc d (k, v)))

-- A read of a field after the loop: the last one written counts.
pub get-read_fields :
    (k : String) (d acc : Dict String)
    → IsObject d
    → get k (read_fields (flat d) acc) ≡ (elim (get k d) [ none ↦ get k acc | some v ↦ some v ])
unfolding read_fields flat get IsObject
get-read_fields k [] acc object = refl
get-read_fields k ((j, v) ∷ d) acc (single, object) =
    ground (arith, single, eq_iff j k, get-put j k v acc, get-read_fields k d (put j v acc) object)

pub Apart-empty : (d : Dict String) → Apart d []
unfolding Apart get
Apart-empty [] = tt
Apart-empty (p ∷ d) = (refl, Apart-empty d)

pub delete_absent : (k : String) (d : Dict String) → get k d ≡ none → delete k d ≡ d
unfolding get delete
delete_absent k [] absent = refl
delete_absent k ((j, v) ∷ d) absent = ground (arith, absent, delete_absent k d)
