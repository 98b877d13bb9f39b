-- ===== src/Ingestion/Reorder/Delivery.antt =====
-- The order of what the reorder buffer delivers, and the bounds of the buffer.
use iot_billing_backend.Common.{
  ℕ, zero, suc, ◌+◌, ◌≡◌, Bool, true, false, some, List, [], ◌∷◌, ◌++◌, ltb, leb, ◌==◌, length, All,
  arith, refl, sym, ap, length-append, ◌∙◌, Bool-cases, Option-cases, inl, inr,
}
use mathlib.Core.Path.{subst}
use iot_billing_backend.Ingestion.Reorder.{
  Buffer, new_buffer, remove_member, zadd, first_at, remove_score, below, without_max, zpopmax,
  drain, deliver, park, submit, submit_as, submit_all,
}

module _ (frame_of : ℕ → ℕ) where
  -- Every entry is the frame of its number.
  abbrev Own : List (ℕ × ℕ) → Type 0
  Own z = All (λ e. frame_of e.0 ≡ e.1) z

  -- The frames of the numbers after a given one, one after another.
  pub InOrder : ℕ → List ℕ → Type 0
  InOrder from [] = Unit
  InOrder from (m ∷ ms) = (frame_of (from + 1) ≡ m) × InOrder (from + 1) ms

  remove_member-Own : (frame : ℕ) (z : List (ℕ × ℕ)) → Own z → Own (remove_member frame z)
  unfolding remove_member
  remove_member-Own frame [] h = h
  remove_member-Own frame ((s, m) ∷ z) h = elim (Bool-cases (m == frame)) [
    | inl e ↦ rw (e) (remove_member-Own frame z h.1)
    | inr e ↦ rw (e) (h.0, remove_member-Own frame z h.1)
  ]

  remove_score-Own : (score : ℕ) (z : List (ℕ × ℕ)) → Own z → Own (remove_score score z)
  unfolding remove_score
  remove_score-Own score [] h = h
  remove_score-Own score ((s, m) ∷ z) h = elim (Bool-cases (s == score)) [
    | inl e ↦ rw (e) (remove_score-Own score z h.1)
    | inr e ↦ rw (e) (h.0, remove_score-Own score z h.1)
  ]

  without_max-Own :
      (e : ℕ × ℕ) (z : List (ℕ × ℕ)) → frame_of e.0 ≡ e.1 → Own z → Own (without_max e z)
  unfolding without_max
  without_max-Own e [] p h = h
  without_max-Own e (x ∷ z) p h = elim (Bool-cases (below e x)) [
    | inl b ↦ rw (b) (p, without_max-Own x z h.0 h.1)
    | inr b ↦ rw (b) (h.0, without_max-Own e z p h.1)
  ]

  -- What is found at a score is the frame of that number.
  first_at-Own :
      (score m : ℕ) (z : List (ℕ × ℕ)) → Own z → first_at score z ≡ some m → frame_of score ≡ m
  unfolding first_at
  first_at-Own score m [] h e = cc
  first_at-Own score m ((s, n) ∷ z) h e = elim (Bool-cases (s == score)) [
    | inr other ↦ first_at-Own score m z h.1 (ground (arith, e, other))
    | inl same ↦
        let at : s ≡ score = ground (arith, same) in
        let own : frame_of score ≡ n = rw⁻¹ (at) h.0 in
        elim (Option-cases (first_at score z)) [
          | inl nothing ↦ own ∙ (ground (arith, e, same, nothing))
          | inr (k, k_is) ↦
              let other = first_at-Own score k z h.1 k_is in
              ground (arith, e, same, k_is, own, other)
        ]
  ]

  -- The loop delivers the frames of consecutive numbers and counts them.
  drain_lem :
      (fuel from : ℕ) (z : List (ℕ × ℕ))
      → Own z
      → let (frames, delivered, rest) = drain fuel from z in
        InOrder from frames × (delivered ≡ from + length frames) × Own rest
  unfolding drain InOrder
  drain_lem zero from z h = (tt, omega arith, h)
  drain_lem (suc n) from z h = elim (Option-cases (first_at (from + 1) z)) [
    | inl e ↦ rw (e, drain) (tt, omega arith, h)
    | inr (m, e) ↦
        let (ih_frames, ih_count, ih_own) =
          drain_lem n (from + 1) (remove_score (from + 1) z) (remove_score-Own (from + 1) z h) in
        rw (e, drain)
          ((first_at-Own (from + 1) m z h e, ih_frames), omega (arith, ih_count), ih_own)
  ]

  InOrder-append :
      (from end : ℕ) (xs ys : List ℕ)
      → InOrder from xs
      → end ≡ from + length xs
      → InOrder end ys
      → InOrder from (xs ++ ys)
  unfolding InOrder
  InOrder-append from end [] ys h e k = subst (λ n. InOrder n ys) (omega arith) k
  InOrder-append from end (x ∷ xs) ys h e k =
      (h.0, InOrder-append (from + 1) end xs ys h.1 (omega arith) k)

  deliver_lem :
      (s : ℕ) (b : Buffer)
      → s ≡ b.delivered + 1
      → Own b.zset
      → let (out, b') = deliver (frame_of s) b in
        InOrder b.delivered out × (b'.delivered ≡ b.delivered + length out) × Own b'.zset
  unfolding deliver InOrder
  deliver_lem s b e h =
      let (frames, count, own) = drain_lem (length b.zset) (b.delivered + 1) b.zset h in
      ((ap frame_of (sym e), frames), omega (arith, count), own)

  zpopmax-Own : (z : List (ℕ × ℕ)) → Own z → Own (zpopmax z)
  unfolding zpopmax
  zpopmax-Own [] h = h
  zpopmax-Own (e ∷ z) h = without_max-Own e z h.0 h.1

  park-Own : (s : ℕ) (b : Buffer) → Own b.zset → Own (park s (frame_of s) b).zset
  unfolding park zadd
  park-Own s b h =
      let own = remove_member-Own (frame_of s) b.zset h in
      elim (Bool-cases (ltb b.max_window (suc (length (remove_member (frame_of s) b.zset))))) [
        | inl e ↦ rw (e) (without_max-Own (s, frame_of s) _ refl own)
        | inr e ↦ rw (e) (refl, own)
      ]

  submit_as_lem :
      (old next : Bool) (s : ℕ) (b : Buffer)
      → (s == b.delivered + 1) ≡ next
      → Own b.zset
      → let (out, b') = submit_as old next s (frame_of s) b in
        InOrder b.delivered out × (b'.delivered ≡ b.delivered + length out) × Own b'.zset
  unfolding submit_as InOrder park
  submit_as_lem true next s b e h = (tt, omega arith, h)
  submit_as_lem false true s b e h = deliver_lem s b (ground (arith, e)) h
  submit_as_lem false false s b e h = (tt, ground arith, park-Own s b h)

  submit_all_lem :
      (ss : List ℕ) (b : Buffer)
      → Own b.zset
      → let (out, b') = submit_all frame_of ss b in
        InOrder b.delivered out × (b'.delivered ≡ b.delivered + length out)
  unfolding submit_all InOrder submit
  submit_all_lem [] b h = (tt, omega arith)
  submit_all_lem (s ∷ ss) b h =
      let (out, count, own) = submit_as_lem (leb s b.delivered) (s == b.delivered + 1) s b refl h in
      let (more, total) = submit_all_lem ss (submit s (frame_of s) b).1 own in
      (
        InOrder-append b.delivered (submit s (frame_of s) b).1.delivered _ _ out count more,
        omega (
          arith,
          count,
          total,
          length-append (submit s (frame_of s) b).0
              (submit_all frame_of ss (submit s (frame_of s) b).1).0,
        ),
      )

-- Whatever frames a device submits, in whatever order, however often, and whichever are evicted:
-- if a number always comes with the same frame, the frames that are delivered are those of 1, 2,
-- 3, ..., each exactly once and in this order, and the counter is how many they are.
pub submit_all-InOrder :
    (frame_of : ℕ → ℕ) (ss : List ℕ) (max_window : ℕ)
    → let (out, b) = submit_all frame_of ss (new_buffer max_window) in
      InOrder frame_of 0 out × (b.delivered ≡ length out)
submit_all-InOrder frame_of ss max_window =
    let (order, count) = submit_all_lem frame_of ss (new_buffer max_window) tt in
    (order, omega (arith, count))
