-- ===== src/Events/Append.antt =====
-- `appendEvent` of src/ingestion/eventStore.ts: sequence numbers.
use iot_billing_backend.Common.{
  leb, ◌&&◌, ℕ, zero, suc, ◌+◌, ◌≤◌, ◌<◌, ◌≡◌, refl, String, true, false, List, [], ◌∷◌, arith,
  str_eq, eq_iff, if◌then◌else◌, Bool-cases, inl, inr,
}
use mathlib.Core.Path.{subst}
use native.Mathlib.Nat.{zero-add}
use iot_billing_backend.Common.Result.{Result, ok, throws}
use iot_billing_backend.Events.{
  BillingEvent, SequenceConflictError, max_sequence, has_sequence, insert_event, append_attempts,
  append_event, max_retry_attempts, insert_all, new_event, next, rest,
}

-- No row of a tenant stands above the tenant's maximum.
pub has_sequence-le :
    (t : String) (n : ℕ) (es : List BillingEvent)
    → has_sequence t n es ≡ true
    → n ≤ max_sequence t es
unfolding has_sequence max_sequence
has_sequence-le t n [] h = cc
has_sequence-le t n (e ∷ es) h = ground (arith, has_sequence-le t n es)

-- UNIQUE (tenant_id, sequence).
abbrev pub IsUnique : List BillingEvent → Type 0
IsUnique [] = Unit {0}
IsUnique (e ∷ es) = (has_sequence e.tenant_id e.sequence es ≡ false) × IsUnique es

-- The tenant's numbers are 1, 2, ..., k: those and no others.
abbrev pub IsNumbered : String → ℕ → List BillingEvent → Type 0
IsNumbered t k es = (n : ℕ) → has_sequence t n es ≡ (leb 1 n && leb n k)

-- With no writer that bypasses the lock, `appendEvent` succeeds at once with the number after the
-- tenant's maximum, and adds just its row.
pub append_event_alone :
    (t ty p : String) (es : List BillingEvent)
    → append_event [] t ty p es ≡ (
      ok (new_event t (max_sequence t es + 1) ty p),
      new_event t (max_sequence t es + 1) ty p ∷ es,
    )
unfolding append_event insert_event insert_all
append_event_alone t ty p es = ground (arith, has_sequence-le t (max_sequence t es + 1) es)

pub insert_event-IsUnique :
    (e : BillingEvent) (es : List BillingEvent) → IsUnique es → IsUnique (insert_event e es).0
unfolding insert_event
insert_event-IsUnique e es u = ground arith

insert_all-IsUnique : (xs es : List BillingEvent) → IsUnique es → IsUnique (insert_all xs es)
unfolding insert_all
insert_all-IsUnique [] es u = u
insert_all-IsUnique (x ∷ xs) es u =
    insert_all-IsUnique xs (insert_event x es).0 (insert_event-IsUnique x es u)

max_sequence-insert_event :
    (t : String) (e : BillingEvent) (es : List BillingEvent)
    → max_sequence t es ≤ max_sequence t (insert_event e es).0
unfolding insert_event max_sequence
max_sequence-insert_event t e es = ground arith

max_sequence-insert_all :
    (t : String) (xs es : List BillingEvent) → max_sequence t es ≤ max_sequence t (insert_all xs es)
unfolding insert_all
max_sequence-insert_all t [] es = omega arith
max_sequence-insert_all t (x ∷ xs) es =
    omega
      (arith, max_sequence-insert_event t x es, max_sequence-insert_all t xs (insert_event x es).0)

-- What a call that began with the table `es` has done, by how it ended.
abbrev pub Appended :
    String
    → String
    → String
    → List BillingEvent
    → Result SequenceConflictError BillingEvent × List BillingEvent
    → Type 0
Appended t ty p es (ok e, es') =
    (max_sequence t es < e.sequence)
    × (e ≡ new_event t e.sequence ty p)
    × (has_sequence t e.sequence es' ≡ true)
    × IsUnique es'
Appended t ty p es (throws x, es') =
    (x ≡ record { tenant_id = t; attempts = max_retry_attempts }) × IsUnique es'

Appended-mono :
    (t ty p : String) (es es' : List BillingEvent)
    (r : Result SequenceConflictError BillingEvent × List BillingEvent)
    → max_sequence t es ≤ max_sequence t es'
    → Appended t ty p es' r
    → Appended t ty p es r
Appended-mono t ty p es es' (ok e, es2) h a = (omega arith, a.1, a.2, a.3)
Appended-mono t ty p es es' (throws x, es2) h a = a

insert_event_done :
    (e : BillingEvent) (es : List BillingEvent)
    → (insert_event e es).1 ≡ true
    → has_sequence e.tenant_id e.sequence (insert_event e es).0 ≡ true
unfolding insert_event has_sequence
insert_event_done e es h = ground (arith, eq_iff e.tenant_id e.tenant_id)

append_attempts-Appended :
    (n : ℕ) (others : List (List BillingEvent)) (t ty p : String) (es : List BillingEvent)
    → IsUnique es
    → Appended t ty p es (append_attempts n others t ty p es)
unfolding append_attempts
append_attempts-Appended zero others t ty p es u = (refl, u)
append_attempts-Appended (suc n) others t ty p es u =
    let event = new_event t (max_sequence t es + 1) ty p in
    let seen = insert_all (next others) es in
    let seen-IsUnique = insert_all-IsUnique (next others) es u in
    let stays-IsUnique = insert_event-IsUnique event seen seen-IsUnique in
    elim (Bool-cases (insert_event event seen).1) [
      | inl done ↦ rw done (omega arith, refl, insert_event_done event seen done, stays-IsUnique)
      | inr conflict ↦ rw conflict (
          Appended-mono t ty p es (insert_event event seen).0 _
            (omega (
              arith,
              max_sequence-insert_all t (next others) es,
              max_sequence-insert_event t event seen,
            ))
            (append_attempts-Appended n (rest others) t ty p (insert_event event seen).0
              stays-IsUnique))
    ]

-- Whatever other writers insert between the SELECT and the INSERT of each attempt, the table keeps
-- UNIQUE (tenant_id, sequence). A call that returns has its row in the table, with a number above
-- every number that the tenant had when the call began; any other call throws the conflict error
-- of three attempts.
pub append_event-Appended :
    (others : List (List BillingEvent)) (t ty p : String) (es : List BillingEvent)
    → IsUnique es
    → Appended t ty p es (append_event others t ty p es)
unfolding append_event
append_event-Appended = append_attempts-Appended max_retry_attempts

-- A sequence of calls, for any tenants: (tenant, type, payload).
unfoldable pub append_all : List (String × String × String) → List BillingEvent → List BillingEvent
append_all [] es = es
append_all ((t, ty, p) ∷ calls) es = append_all calls (append_event [] t ty p es).1

-- How many of the calls are a tenant's.
abbrev pub calls_of : String → List (String × String × String) → ℕ
calls_of t [] = 0
calls_of t ((s, ty, p) ∷ calls) = (if str_eq s t then 1 else 0) + calls_of t calls

append-IsNumbered :
    (u t ty p : String) (k : ℕ) (es : List BillingEvent)
    → IsNumbered u k es
    → max_sequence u es ≡ k
    → IsNumbered u
        ((if str_eq t u then 1 else 0) + k)
        (new_event t (max_sequence t es + 1) ty p ∷ es)
unfolding has_sequence
append-IsNumbered u t ty p k es c m n = ground (arith, eq_iff t u, c n, m)

abbrev Numbered : String → ℕ → List BillingEvent → Type 0
Numbered u n es = IsNumbered u n es × (max_sequence u es ≡ n) × IsUnique es

max_sequence-new_event :
    (u t ty p : String) (es : List BillingEvent)
    → max_sequence u (new_event t (max_sequence t es + 1) ty p ∷ es)
      ≡ (if str_eq t u then 1 else 0) + max_sequence u es
unfolding max_sequence
max_sequence-new_event u t ty p es = ground (arith, eq_iff t u)

append_all-Numbered :
    (u : String) (k : ℕ) (calls : List (String × String × String)) (es : List BillingEvent)
    → Numbered u k es
    → Numbered u (calls_of u calls + k) (append_all calls es)
unfolding append_all
append_all-Numbered u k [] es h = rw zero-add h
append_all-Numbered u k ((t, ty, p) ∷ calls) es h =
    let one = (if str_eq t u then 1 else 0) in
    let step : Numbered u (one + k) (append_event [] t ty p es).1 =
      rw (append_event_alone t ty p es) (
        append-IsNumbered u t ty p k es h.0 h.1,
        rw (max_sequence-new_event u t ty p es, h.1),
        ground (arith, h.2, has_sequence-le t (max_sequence t es + 1) es),
      ) in
    let rest = append_all-Numbered u (one + k) calls (append_event [] t ty p es).1 step in
    subst (λ n. Numbered u n (append_all calls (append_event [] t ty p es).1)) (omega arith) rest

-- Calls that nobody bypasses give each tenant, from an empty table, exactly the numbers 1, 2, ...,
-- n, where n is how many of the calls are the tenant's; and no number of a tenant is given twice.
pub append_all_numbers :
    (u : String) (n : ℕ) (calls : List (String × String × String))
    → (has_sequence u n (append_all calls []) ≡ (leb 1 n && leb n (calls_of u calls)))
      × IsUnique (append_all calls [])
append_all_numbers u n calls =
    let begin : Numbered u 0 [] =
      ((λ m. unfold has_sequence in ground arith), unfold max_sequence in refl, tt) in
    let (numbers, m, un) = append_all-Numbered u 0 calls [] begin in
    (rw (numbers n) (ground arith), un)
