-- ===== src/Ingestion/Budget/Total.antt =====
-- The memory of all connections together, over any run of updates and releases.
use iot_billing_backend.Common.{
  ℕ, ◌*◌, ◌/◌, ◌≤◌, ◌≡◌, String, Bool, true, false, List, [], ◌∷◌, ltb, arith, sum_by, length, All,
  inl, inr, ◌⊎◌, str_eq, Bool-cases, refl,
}
use native.Mathlib.Nat.{mul-le-mul_right, mul-div-le}
use iot_billing_backend.Common.Dict.{Dict, put, delete}
use iot_billing_backend.Ingestion.Budget.{
  Tracker, new_tracker, Event, update, release, handle, handle_all, get_total_buffer_bytes,
  update_connection_buffer, release_connection,
}

abbrev Within : ℕ → Dict ℕ → Type 0
Within b d = All (λ c. c.1 ≤ b) d

put-Within : (b : ℕ) (k : String) (v : ℕ) (d : Dict ℕ) → Within b d → v ≤ b → Within b (put k v d)
unfolding put
put-Within b k v [] h le = (le, tt)
put-Within b k v ((j, w) ∷ d) h le = elim (Bool-cases (str_eq j k)) [
  | inl e ↦ rw (e) (le, h.1)
  | inr e ↦ rw (e) (h.0, put-Within b k v d h.1 le)
]

delete-Within : (b : ℕ) (k : String) (d : Dict ℕ) → Within b d → Within b (delete k d)
unfolding delete
delete-Within b k [] h = h
delete-Within b k ((j, w) ∷ d) h = elim (Bool-cases (str_eq j k)) [
  | inl e ↦ rw (e) (delete-Within b k d h.1)
  | inr e ↦ rw (e) (h.0, delete-Within b k d h.1)
]

abbrev some_shed : List String → Bool
some_shed [] = false
some_shed (x ∷ xs) = true

-- Every buffer is within the budget of one connection, or a connection was shed.
abbrev Sound : ℕ → Tracker → Type 0
Sound b t =
    (t.per_connection_budget_bytes ≡ b) × (Within b t.buffer_bytes ⊎ (some_shed t.shed ≡ true))

update-Sound :
    (b : ℕ) (id : String) (n : ℕ) (t : Tracker)
    → Sound b t
    → Sound b (update_connection_buffer id n t).1
unfolding update_connection_buffer
update-Sound b id n t (same, h) = elim (Bool-cases (ltb t.per_connection_budget_bytes n)) [
  | inl e ↦ rw (e) (same, inr refl)
  | inr e ↦ rw (e) (
    same,
    elim h [
      | inl w ↦ inl (put-Within b id n t.buffer_bytes w (ground (arith, e, same)))
      | inr s ↦ inr s
    ],
  )
]

handle-Sound : (b : ℕ) (e : Event) (t : Tracker) → Sound b t → Sound b (handle e t)
unfolding handle release_connection
handle-Sound b (update id n) t h = update-Sound b id n t h
handle-Sound b (release id) t (same, h) =
    (same, elim h [ inl w ↦ inl (delete-Within b id t.buffer_bytes w) | inr s ↦ inr s ])

handle_all-Sound : (b : ℕ) (es : List Event) (t : Tracker) → Sound b t → Sound b (handle_all es t)
unfolding handle_all
handle_all-Sound b [] t h = h
handle_all-Sound b (e ∷ es) t h = handle_all-Sound b es (handle e t) (handle-Sound b e t h)

sum-Within : (b : ℕ) (d : Dict ℕ) → Within b d → sum_by (λ c. c.1) d ≤ length d * b
sum-Within b [] h = omega arith
sum-Within b (c ∷ d) h = grind (arith, sum-Within b d h.1, h.0)

within_total : (total m n s : ℕ) → n ≤ m → s ≤ n * (total / m) → s ≤ total
within_total total m n s le h = omega (arith, mul-le-mul_right (total / m) le, mul-div-le total m)

-- As long as no connection was shed and at most `max_connections` are tracked, all buffers
-- together keep within the total budget that the tracker was made with.
pub total_within_budget :
    (total_budget max_connections : ℕ) (es : List Event)
    → (handle_all es (new_tracker total_budget max_connections)).shed ≡ []
    → length (handle_all es (new_tracker total_budget max_connections)).buffer_bytes
      ≤ max_connections
    → get_total_buffer_bytes (handle_all es (new_tracker total_budget max_connections))
      ≤ total_budget
unfolding get_total_buffer_bytes
total_within_budget total_budget max_connections es none_shed few =
    let b = total_budget / max_connections in
    let t = handle_all es (new_tracker total_budget max_connections) in
    elim (handle_all-Sound b es (new_tracker total_budget max_connections) (refl, inl tt)).1 [
      | inr s ↦ absurd (ground (arith, s, none_shed))
      | inl w ↦
          within_total total_budget max_connections (length t.buffer_bytes)
            (sum_by (λ c. c.1) t.buffer_bytes) few (sum-Within b t.buffer_bytes w)
    ]
