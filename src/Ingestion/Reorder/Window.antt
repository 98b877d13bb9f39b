-- ===== src/Ingestion/Reorder/Window.antt =====
-- The size of the reorder buffer, and that nothing in sequence waits in it.
use iot_billing_backend.Common.{
  ℕ, zero, suc, ◌+◌, ◌≤◌, ◌<◌, ◌≡◌, Bool, true, false, none, some, List, [], ◌∷◌, ltb, leb, ◌==◌,
  length, arith, refl, Bool-cases, Option-cases, inl, inr,
}
use iot_billing_backend.Ingestion.Reorder.{
  Buffer, remove_member, zadd, first_at, remove_score, below, without_max, zpopmax, drain, deliver,
  park, submit, submit_as, submit_all, new_buffer,
}

length-remove_member : (frame : ℕ) (z : List (ℕ × ℕ)) → length (remove_member frame z) ≤ length z
unfolding remove_member
length-remove_member frame [] = omega arith
length-remove_member frame ((s, m) ∷ z) = ground (arith, length-remove_member frame z)

length-remove_score : (score : ℕ) (z : List (ℕ × ℕ)) → length (remove_score score z) ≤ length z
unfolding remove_score
length-remove_score score [] = omega arith
length-remove_score score ((s, m) ∷ z) = ground (arith, length-remove_score score z)

-- An entry that is found is removed.
remove_score-lt :
    (score m : ℕ) (z : List (ℕ × ℕ))
    → first_at score z ≡ some m
    → length (remove_score score z) < length z
unfolding first_at remove_score
remove_score-lt score m [] e = cc
remove_score-lt score m ((s, n) ∷ z) e =
    ground (arith, e, remove_score-lt score m z, length-remove_score score z)

length-without_max : (e : ℕ × ℕ) (z : List (ℕ × ℕ)) → length (without_max e z) ≡ length z
unfolding without_max
length-without_max e [] = refl
length-without_max e (x ∷ z) = elim (Bool-cases (below e x)) [
  | inl b ↦ rw (b) (omega (arith, length-without_max x z))
  | inr b ↦ rw (b) (omega (arith, length-without_max e z))
]

-- Removals leave nothing at a score where there was nothing.
module _ (score : ℕ) where
  first_at-remove_member :
      (frame : ℕ) (z : List (ℕ × ℕ))
      → first_at score z ≡ none
      → first_at score (remove_member frame z) ≡ none
  unfolding first_at remove_member
  first_at-remove_member frame [] h = refl
  first_at-remove_member frame ((s, m) ∷ z) h = elim (Bool-cases (m == frame)) [
    | inl e ↦ rw (e) (first_at-remove_member frame z (ground (arith, h)))
    | inr e ↦ rw (e) (ground (arith, h, first_at-remove_member frame z))
  ]

  first_at-without_max :
      (e : ℕ × ℕ) (z : List (ℕ × ℕ))
      → first_at score (e ∷ z) ≡ none
      → first_at score (without_max e z) ≡ none
  unfolding first_at without_max
  first_at-without_max e [] h = refl
  first_at-without_max e (x ∷ z) h = elim (Bool-cases (below e x)) [
    | inl b ↦ rw (b) (ground (arith, h, first_at-without_max x z))
    | inr b ↦ rw (b) (ground (arith, h, first_at-without_max e z))
  ]

-- The loop ends for want of a frame, never of fuel, and does not grow the set.
drain_enough :
    (fuel from : ℕ) (z : List (ℕ × ℕ))
    → length z ≤ fuel
    → let (frames, delivered, rest) = drain fuel from z in
      (first_at (delivered + 1) rest ≡ none) × (length rest ≤ length z)
unfolding drain
drain_enough zero from [] h = (refl, omega arith)
drain_enough zero from (x ∷ z) h = absurd (omega arith)
drain_enough (suc n) from z h = elim (Option-cases (first_at (from + 1) z)) [
  | inl e ↦ rw (e, drain) (e, omega arith)
  | inr (m, e) ↦
      let smaller = remove_score-lt (from + 1) m z e in
      let (nothing, bound) = drain_enough n (from + 1) (remove_score (from + 1) z) (omega arith) in
      rw (e, drain) (nothing, omega arith)
]

-- The set keeps within the window, and the next frame in sequence is not in it.
pub Kept : Buffer → Type 0
Kept b = (length b.zset ≤ b.max_window) × (first_at (b.delivered + 1) b.zset ≡ none)

deliver-Kept : (frame : ℕ) (b : Buffer) → Kept b → Kept (deliver frame b).1
unfolding Kept deliver
deliver-Kept frame b (short, none_next) =
    let (nothing, bound) = drain_enough (length b.zset) (b.delivered + 1) b.zset (omega arith) in
    (omega (arith, bound), nothing)

park-Kept :
    (s frame : ℕ) (b : Buffer) → (s == b.delivered + 1) ≡ false → Kept b → Kept (park s frame b)
unfolding Kept park zadd zpopmax first_at
park-Kept s frame b other (short, none_next) =
    let z = remove_member frame b.zset in
    let absent = first_at-remove_member (b.delivered + 1) frame b.zset none_next in
    elim (Bool-cases (ltb b.max_window (suc (length z)))) [
      | inl e ↦ rw (e) (
        omega (arith, length-without_max (s, frame) z, length-remove_member frame b.zset),
        first_at-without_max (b.delivered + 1) (s, frame) z (rw (other) absent),
      )
      | inr e ↦ rw (e) (ground (arith, e), rw (other) absent)
    ]

submit_as-Kept :
    (old next : Bool) (s frame : ℕ) (b : Buffer)
    → (s == b.delivered + 1) ≡ next
    → Kept b
    → Kept (submit_as old next s frame b).1
unfolding submit_as
submit_as-Kept true next s frame b e h = h
submit_as-Kept false true s frame b e h = deliver-Kept frame b h
submit_as-Kept false false s frame b e h = park-Kept s frame b e h

submit_all-Kept_from :
    (frame_of : ℕ → ℕ) (ss : List ℕ) (b : Buffer) → Kept b → Kept (submit_all frame_of ss b).1
unfolding submit_all submit
submit_all-Kept_from frame_of [] b h = h
submit_all-Kept_from frame_of (s ∷ ss) b h =
    submit_all-Kept_from frame_of ss (submit s (frame_of s) b).1
      (submit_as-Kept (leb s b.delivered) (s == b.delivered + 1) s (frame_of s) b refl h)

-- After any run of submissions the buffer holds at most `max_window` frames, and the frame that is
-- next in sequence is never among them: the loop that empties the buffer does not stop early.
pub submit_all-Kept :
    (frame_of : ℕ → ℕ) (ss : List ℕ) (max_window : ℕ)
    → Kept (submit_all frame_of ss (new_buffer max_window)).1
unfolding Kept first_at
submit_all-Kept frame_of ss max_window =
    submit_all-Kept_from frame_of ss (new_buffer max_window) (omega arith, refl)
