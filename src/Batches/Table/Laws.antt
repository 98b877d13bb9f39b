-- ===== src/Batches/Table/Laws.antt =====
-- What the statements of src/ingestion/batchManager.ts do to a lookup.
use iot_billing_backend.Common.{
  ℕ, ◌≤◌, ◌≡◌, ◌≢◌, refl, String, true, ◌&&◌, Option, none, some, List, [], ◌∷◌, if◌then◌else◌,
  arith, str_eq, eq_iff, Option-cases, Bool-cases, inl, inr,
}
use iot_billing_backend.Batches.Types.{BatchState, opened, Batch}
use iot_billing_backend.Batches.Table.{
  state_eq, find_batch, update_state, meets, open_batch_of, latest,
}

abbrev pub updated : String → BatchState → BatchState → Option Batch → Option Batch
updated id from to none = none
updated id from to (some b) =
    some (if str_eq b.id id && state_eq b.state from then record b { state = to } else b)

-- The guarded UPDATE, as a lookup sees it.
pub find-update :
    (j id : String) (from to : BatchState) (bs : List Batch)
    → find_batch j (update_state id from to bs) ≡ updated id from to (find_batch j bs)
unfolding find_batch update_state
find-update j id from to [] = refl
find-update j id from to (b ∷ bs) = ground (arith, find-update j id from to bs)

pub find-id : (j : String) (bs : List Batch) {b : Batch} → find_batch j bs ≡ some b → b.id ≡ j
unfolding find_batch
find-id j [] h = cc
find-id j (x ∷ bs) {b} h = ground (arith, eq_iff x.id j, find-id j bs {b = b})

-- The UPDATE meets the row that a lookup finds in the expected state.
pub meets_found :
    (id : String) (from : BatchState) (bs : List Batch) {b : Batch}
    → find_batch id bs ≡ some b
    → state_eq b.state from ≡ true
    → meets id from bs ≡ true
unfolding find_batch meets
meets_found id from [] h e = cc
meets_found id from (x ∷ bs) {b} h e = ground (arith, meets_found id from bs {b = b})

-- No OPEN batch of a device starts after `n`.
abbrev pub OpenUpTo : ℕ → String → List Batch → Type 0
OpenUpTo n device [] = Unit {0}
OpenUpTo n device (b ∷ bs) =
    (str_eq b.device_id device ≡ true → b.state ≡ opened → b.batch_start ≤ n) × OpenUpTo n device bs

-- What a read of the device's OPEN batch gives: nothing, or one of the latest.
abbrev pub Newest : String → List Batch → Option Batch → Type 0
Newest device bs none = OpenUpTo 0 device bs
Newest device bs (some c) = OpenUpTo c.batch_start device bs

pub OpenUpTo-mono :
    (m n : ℕ) (device : String) (bs : List Batch)
    → m ≤ n
    → OpenUpTo m device bs
    → OpenUpTo n device bs
OpenUpTo-mono m n device [] h o = tt
OpenUpTo-mono m n device (b ∷ bs) h o =
    (λ d e. omega (arith, o.0 d e), OpenUpTo-mono m n device bs h o.1)

Newest-cons :
    (device : String) (b : Batch) (bs : List Batch) (o : Option Batch)
    → Newest device bs o
    → Newest device
        (b ∷ bs)
        (if str_eq b.device_id device && state_eq b.state opened then some (latest b o) else o)
Newest-cons device b bs none h =
    elim (Bool-cases (str_eq b.device_id device && state_eq b.state opened)) [
      | inl is_open ↦
          rw is_open ((λ d o. omega arith), OpenUpTo-mono 0 b.batch_start device bs (omega arith) h)
      | inr other ↦ rw other ((λ d o. absurd (ground arith)), h)
    ]
Newest-cons device b bs (some c) h =
    elim (Bool-cases (str_eq b.device_id device && state_eq b.state opened)) [
      | inl is_open ↦ rw is_open (
        (λ d o. ground arith),
        OpenUpTo-mono c.batch_start (latest b (some c)).batch_start device bs (ground arith) h,
      )
      | inr other ↦ rw other ((λ d o. absurd (ground arith)), h)
    ]

pub open_batch_of-Newest :
    (device : String) (bs : List Batch) → Newest device bs (open_batch_of device bs)
unfolding open_batch_of
open_batch_of-Newest device [] = tt
open_batch_of-Newest device (b ∷ bs) =
    Newest-cons device b bs (open_batch_of device bs) (open_batch_of-Newest device bs)

pub OpenUpTo-update :
    (n : ℕ) (device id : String) (from to : BatchState) (bs : List Batch)
    → to ≢ opened
    → OpenUpTo n device bs
    → OpenUpTo n device (update_state id from to bs)
unfolding update_state
OpenUpTo-update n device id from to [] ne o = tt
OpenUpTo-update n device id from to (b ∷ bs) ne o =
    (ground (arith, o.0), OpenUpTo-update n device id from to bs ne o.1)

pub open_batch_of-le :
    (n : ℕ) (device : String) (bs : List Batch) {c : Batch}
    → OpenUpTo n device bs
    → open_batch_of device bs ≡ some c
    → c.batch_start ≤ n
unfolding open_batch_of
open_batch_of-le n device [] o e = cc
open_batch_of-le n device (b ∷ bs) {c} o e = elim (Option-cases (open_batch_of device bs)) [
  | inl f ↦ ground (arith, o.0)
  | inr (d, f) ↦ ground (arith, o.0, open_batch_of-le n device bs {c = d} o.1 f)
]

-- An OPEN batch in front of batches that start no later is the one that is read.
pub open_batch_of-first :
    (n : ℕ) (b : Batch) (bs : List Batch)
    → b.state ≡ opened
    → n ≤ b.batch_start
    → OpenUpTo n b.device_id bs
    → open_batch_of b.device_id (b ∷ bs) ≡ some b
unfolding open_batch_of
open_batch_of-first n b bs is_open h o = elim (Option-cases (open_batch_of b.device_id bs)) [
  | inl e ↦ ground (arith, eq_iff b.device_id b.device_id, e)
  | inr (c, e) ↦
      ground
        (arith, eq_iff b.device_id b.device_id, e, open_batch_of-le n b.device_id bs {c = c} o e)
]
