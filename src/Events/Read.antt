-- ===== src/Events/Read.antt =====
-- `readEvents` of src/ingestion/eventStore.ts: order, and reading page by page.
use iot_billing_backend.Common.{
  ℕ, zero, suc, ◌≤◌, ◌<◌, ◌≡◌, ◌≢◌, refl, String, false, List, [], ◌∷◌, ◌++◌, arith, str_eq, eq_iff,
  if◌then◌else◌, ltb, leb, take, drop, take-append-drop, take_all, length-take-le, length, ◌&&◌,
  Bool-cases, inl, inr, All,
}
use iot_billing_backend.Events.{
  BillingEvent, has_sequence, events_after, insert_sorted, read_events,
}
use iot_billing_backend.Events.Append.{IsUnique}
use mathlib.Core.Path.{subst}

-- The sequence numbers rise strictly, and stand above `after`.
abbrev pub IsAscending : ℕ → List BillingEvent → Type 0
IsAscending after [] = Unit {0}
IsAscending after (e ∷ es) = (after < e.sequence) × IsAscending e.sequence es

-- The sequence number of the last event of a page, where the next page goes on.
abbrev pub last_sequence : ℕ → List BillingEvent → ℕ
last_sequence after [] = after
last_sequence after (e ∷ es) = last_sequence e.sequence es

above : ℕ → List BillingEvent → List BillingEvent
above m [] = []
above m (e ∷ es) = if ltb m e.sequence then e ∷ above m es else above m es

above-insert_sorted :
    (m : ℕ) (e : BillingEvent) (xs : List BillingEvent)
    → above m (insert_sorted e xs)
      ≡ (if ltb m e.sequence then insert_sorted e (above m xs) else above m xs)
unfolding above insert_sorted
above-insert_sorted m e [] = ground arith
above-insert_sorted m e (x ∷ xs) = ground (arith, above-insert_sorted m e xs)

above-events_after :
    (t : String) (after m : ℕ) (es : List BillingEvent)
    → after ≤ m
    → above m (events_after t after es) ≡ events_after t m es
unfolding above events_after
above-events_after t after m [] h = refl
above-events_after t after m (e ∷ es) h =
    ground
      (arith, above-events_after t after m es h, above-insert_sorted m e (events_after t after es))

IsAscending-mono : (m n : ℕ) (xs : List BillingEvent) → m ≤ n → IsAscending n xs → IsAscending m xs
IsAscending-mono m n [] h a = tt
IsAscending-mono m n (x ∷ xs) h a = (omega arith, a.1)

above-IsAscending : (m : ℕ) (xs : List BillingEvent) → IsAscending m xs → above m xs ≡ xs
unfolding above
above-IsAscending m [] h = refl
above-IsAscending m (x ∷ xs) h =
    ground (arith, above-IsAscending m xs (IsAscending-mono m x.sequence xs (omega arith) h.1))

last_sequence-le :
    (after n : ℕ) (xs : List BillingEvent)
    → IsAscending after xs
    → after ≤ last_sequence after (take n xs)
last_sequence-le after zero xs h = omega arith
last_sequence-le after (suc n) [] h = omega arith
last_sequence-le after (suc n) (x ∷ xs) h = omega (arith, h.0, last_sequence-le x.sequence n xs h.1)

above-last :
    (after n : ℕ) (xs : List BillingEvent)
    → IsAscending after xs
    → above (last_sequence after (take n xs)) xs ≡ drop n xs
unfolding above
above-last after zero xs h = above-IsAscending after xs h
above-last after (suc n) [] h = refl
above-last after (suc n) (x ∷ xs) h =
    ground (arith, last_sequence-le x.sequence n xs h.1, above-last x.sequence n xs h.1)

has_sequence-insert_sorted :
    (t : String) (n : ℕ) (e : BillingEvent) (xs : List BillingEvent)
    → has_sequence t n (insert_sorted e xs) ≡ has_sequence t n (e ∷ xs)
unfolding has_sequence insert_sorted
has_sequence-insert_sorted t n e [] = refl
has_sequence-insert_sorted t n e (x ∷ xs) = ground (arith, has_sequence-insert_sorted t n e xs)

has_sequence-events_after :
    (t : String) (after n : ℕ) (es : List BillingEvent)
    → has_sequence t n (events_after t after es) ≡ (ltb after n && has_sequence t n es)
unfolding has_sequence events_after
has_sequence-events_after t after n [] = ground arith
has_sequence-events_after t after n (e ∷ es) = ground (
  arith,
  has_sequence-events_after t after n es,
  has_sequence-insert_sorted t n e (events_after t after es),
)

insert_sorted-IsAscending :
    (after : ℕ) (e : BillingEvent) (xs : List BillingEvent)
    → after < e.sequence
    → All (λ x. x.sequence ≢ e.sequence) xs
    → IsAscending after xs
    → IsAscending after (insert_sorted e xs)
unfolding insert_sorted
insert_sorted-IsAscending after e [] h ne a = (h, tt)
insert_sorted-IsAscending after e (x ∷ xs) h ne a =
    ground (arith, ne.0, insert_sorted-IsAscending x.sequence e xs)

insert_sorted-All :
    (P : BillingEvent → Type 0) (e : BillingEvent) (xs : List BillingEvent)
    → P e
    → All P xs
    → All P (insert_sorted e xs)
unfolding insert_sorted
insert_sorted-All P e [] p a = (p, tt)
insert_sorted-All P e (x ∷ xs) p a = elim (Bool-cases (leb e.sequence x.sequence)) [
  | inl le ↦ rw le (p, a)
  | inr gt ↦ rw gt (a.0, insert_sorted-All P e xs p a.1)
]

events_after-differ :
    (t : String) (after n : ℕ) (es : List BillingEvent)
    → has_sequence t n es ≡ false
    → All (λ x. x.sequence ≢ n) (events_after t after es)
unfolding events_after has_sequence
events_after-differ t after n [] h = tt
events_after-differ t after n (e ∷ es) h =
    elim (Bool-cases (str_eq e.tenant_id t && ltb after e.sequence)) [
      | inl kept ↦ rw kept (
          insert_sorted-All (λ x. x.sequence ≢ n) e (events_after t after es) (ground arith)
            (events_after-differ t after n es (ground arith)))
      | inr left ↦ rw left (events_after-differ t after n es (ground arith))
    ]

events_after-IsAscending :
    (t : String) (after : ℕ) (es : List BillingEvent)
    → IsUnique es
    → IsAscending after (events_after t after es)
unfolding events_after
events_after-IsAscending t after [] u = tt
events_after-IsAscending t after (e ∷ es) u = elim (Bool-cases (str_eq e.tenant_id t)) [
  | inl mine ↦
      let e_t = (eq_iff e.tenant_id t).0 mine in
      ground (
        arith,
        events_after-IsAscending t after es u.1,
        insert_sorted-IsAscending after e (events_after t after es),
        events_after-differ t after e.sequence es
            (subst (λ s. has_sequence s e.sequence es ≡ false) e_t u.0),
      )
  | inr other ↦ rw other (events_after-IsAscending t after es u.1)
]

take-IsAscending :
    (after n : ℕ) (xs : List BillingEvent) → IsAscending after xs → IsAscending after (take n xs)
take-IsAscending after zero xs h = tt
take-IsAscending after (suc n) [] h = tt
take-IsAscending after (suc n) (x ∷ xs) h = (h.0, take-IsAscending x.sequence n xs h.1)

-- A page of `readEvents` is in strictly rising order of sequence numbers, all above `afterSeq`,
-- and no longer than the limit.
pub read_events_sorted :
    (t : String) (after limit : ℕ) (es : List BillingEvent)
    → IsUnique es
    → IsAscending after (read_events t after limit es)
      × (length (read_events t after limit es) ≤ limit)
unfolding read_events
read_events_sorted t after limit es u = (
  take-IsAscending after limit (events_after t after es) (events_after-IsAscending t after es u),
  length-take-le limit (events_after t after es),
)

-- With a limit that is large enough, a read returns exactly the tenant's numbers above `afterSeq`.
pub read_events_complete :
    (t : String) (after limit n : ℕ) (es : List BillingEvent)
    → length (events_after t after es) ≤ limit
    → has_sequence t n (read_events t after limit es) ≡ (ltb after n && has_sequence t n es)
unfolding read_events
read_events_complete t after limit n es h =
    rw (take_all limit (events_after t after es) h) (has_sequence-events_after t after n es)

-- Reading on from the last number of a page loses and repeats nothing: the page, followed by all
-- that a later read from there can return, is all that there was to read.
pub read_events_pages :
    (t : String) (after limit : ℕ) (es : List BillingEvent)
    → IsUnique es
    → let page = read_events t after limit es in
      page ++ events_after t (last_sequence after page) es ≡ events_after t after es
unfolding read_events
read_events_pages t after limit es u =
    let xs = events_after t after es in
    let asc = events_after-IsAscending t after es u in
    rw
      (← above-events_after t after (last_sequence after (take limit xs)) es
        (last_sequence-le after limit xs asc))
      (rw (above-last after limit xs asc) (take-append-drop limit xs))
