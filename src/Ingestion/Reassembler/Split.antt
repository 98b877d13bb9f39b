-- ===== src/Ingestion/Reassembler/Split.antt =====
-- The messages in a stream of bytes do not depend on how it is cut into chunks.
use iot_billing_backend.Common.{
  ℕ, suc, ◌+◌, ◌≤◌, ◌≡◌, false, List, [], ◌∷◌, ◌++◌, ◌==◌, length, arith, refl, sym, Bool-cases,
  inl, inr, length-append, append_nil, append_assoc, All,
}
use iot_billing_backend.Ingestion.Reassembler.{
  Reassembler, split_messages, begin_with, append, append_all, new_reassembler,
}

begin_with-append :
    (b : ℕ) (ms : List (List ℕ)) (r ys : List ℕ) (q : List (List ℕ) × List ℕ)
    → q ≡ (ms ++ (split_messages (r ++ ys)).0, (split_messages (r ++ ys)).1)
    → (b == 0) ≡ false
    → begin_with b q ≡ (
      (begin_with b (ms, r)).0 ++ (split_messages ((begin_with b (ms, r)).1 ++ ys)).0,
      (split_messages ((begin_with b (ms, r)).1 ++ ys)).1,
    )
unfolding split_messages begin_with
begin_with-append b [] r ys q h e = rw (h, e) refl
begin_with-append b (m ∷ ms) r ys q h e = rw (h) refl

-- The messages of the front stay, and what the front leaves over comes before the rest.
pub split_messages-append :
    (xs ys : List ℕ)
    → split_messages (xs ++ ys) ≡ (
      (split_messages xs).0 ++ (split_messages ((split_messages xs).1 ++ ys)).0,
      (split_messages ((split_messages xs).1 ++ ys)).1,
    )
unfolding split_messages
split_messages-append [] ys = refl
split_messages-append (b ∷ xs) ys = elim (Bool-cases (b == 0)) [
  | inl e ↦ rw (e, split_messages-append xs ys) refl
  | inr e ↦ rw (e) (
      begin_with-append b (split_messages xs).0 (split_messages xs).1 ys (split_messages (xs ++ ys))
        (split_messages-append xs ys) e)
]

length-begin_with :
    (b : ℕ) (q : List (List ℕ) × List ℕ) → length (begin_with b q).1 ≤ suc (length q.1)
unfolding begin_with
length-begin_with b ([], r) = omega arith
length-begin_with b (m ∷ ms, r) = omega arith

begin_with_rest :
    (b : ℕ) (q : List (List ℕ) × List ℕ)
    → (b == 0) ≡ false
    → split_messages q.1 ≡ ([], q.1)
    → split_messages (begin_with b q).1 ≡ ([], (begin_with b q).1)
unfolding split_messages begin_with
begin_with_rest b ([], r) e h = rw (e, h) refl
begin_with_rest b (m ∷ ms, r) e h = h

pub length-split_messages : (xs : List ℕ) → length (split_messages xs).1 ≤ length xs
unfolding split_messages begin_with
length-split_messages [] = omega arith
length-split_messages (b ∷ xs) = elim (Bool-cases (b == 0)) [
  | inl e ↦ rw (e) (omega (arith, length-split_messages xs))
  | inr e ↦
      rw (e) (omega (arith, length-begin_with b (split_messages xs), length-split_messages xs))
]

-- What is left over holds no terminator.
pub split_messages_rest :
    (xs : List ℕ) → split_messages (split_messages xs).1 ≡ ([], (split_messages xs).1)
unfolding split_messages
split_messages_rest [] = refl
split_messages_rest (b ∷ xs) = elim (Bool-cases (b == 0)) [
  | inl e ↦ rw (e) (split_messages_rest xs)
  | inr e ↦ rw (e) (begin_with_rest b (split_messages xs) e (split_messages_rest xs))
]

unfoldable pub concat : List (List ℕ) → List ℕ
concat [] = []
concat (c ∷ cs) = c ++ concat cs

-- The fields that a call of `append` within the limit sets.
append_accepts :
    (c : List ℕ) (r : Reassembler)
    → r.closed ≡ false
    → length r.buffer + length c ≤ r.max_size
    → ((append c r).0.messages ≡ (split_messages (r.buffer ++ c)).0)
      × ((append c r).1.buffer ≡ (split_messages (r.buffer ++ c)).1)
      × ((append c r).1.closed ≡ false)
      × ((append c r).1.max_size ≡ r.max_size)
unfolding append
append_accepts c r o h =
    (ground (arith, o), ground (arith, o), ground (arith, o), ground (arith, o))

append_all_split :
    (cs : List (List ℕ)) (r : Reassembler)
    → r.closed ≡ false
    → split_messages r.buffer ≡ ([], r.buffer)
    → length r.buffer + length (concat cs) ≤ r.max_size
    → ((append_all cs r).0 ≡ (split_messages (r.buffer ++ concat cs)).0)
      × ((append_all cs r).1.buffer ≡ (split_messages (r.buffer ++ concat cs)).1)
unfolding append_all concat
append_all_split [] r o clean h = rw (append_nil r.buffer, clean) (refl, refl)
append_all_split (c ∷ cs) r o clean h =
    let short : length r.buffer + length c ≤ r.max_size =
      omega (arith, length-append c (concat cs)) in
    let (msgs, buf, op, mx) = append_accepts c r o short in
    let ih =
      append_all_split cs (append c r).1 op (rw (buf) (split_messages_rest (r.buffer ++ c))) (
        rw (buf, mx)
          (omega (
            arith,
            length-split_messages (r.buffer ++ c),
            length-append r.buffer c,
            length-append c (concat cs),
          ))) in
    (
      rw
          (
            sym (append_assoc r.buffer c (concat cs)),
            split_messages-append (r.buffer ++ c) (concat cs),
            ih.0,
            msgs,
            buf,
          )
          refl,
      rw
          (
            sym (append_assoc r.buffer c (concat cs)),
            split_messages-append (r.buffer ++ c) (concat cs),
            ih.1,
            buf,
          )
          refl,
    )

-- The bytes of messages, each with its terminator.
unfoldable pub encode : List (List ℕ) → List ℕ
encode [] = []
encode (m ∷ ms) = m ++ 0 ∷ encode ms

-- A message holds no terminator.
abbrev pub Plain : List ℕ → Type 0
Plain m = All (λ b. (b == 0) ≡ false) m

split_messages-front :
    (m bs : List ℕ) (ms : List (List ℕ)) (r : List ℕ)
    → Plain m
    → split_messages bs ≡ (ms, r)
    → split_messages (m ++ 0 ∷ bs) ≡ (m ∷ ms, r)
unfolding split_messages begin_with
split_messages-front [] bs ms r plain h = rw (h) refl
split_messages-front (b ∷ m) bs ms r plain h =
    rw (plain.0, split_messages-front m bs ms r plain.1 h) refl

split_messages-encode : (ms : List (List ℕ)) → All Plain ms → split_messages (encode ms) ≡ (ms, [])
unfolding split_messages encode
split_messages-encode [] h = refl
split_messages-encode (m ∷ ms) h =
    split_messages-front m (encode ms) ms [] h.0 (split_messages-encode ms h.1)

-- Messages without zero bytes, each ended by a terminator and then cut into chunks anywhere, come
-- out as they were, in order, and leave an empty buffer, if all the bytes together keep within the
-- limit.
pub append_all_messages :
    (max_size : ℕ) (cs ms : List (List ℕ))
    → All Plain ms
    → concat cs ≡ encode ms
    → length (concat cs) ≤ max_size
    → let (out, r) = append_all cs (new_reassembler max_size) in (out ≡ ms) × (r.buffer ≡ [])
unfolding split_messages
append_all_messages max_size cs ms plain same h =
    let (msgs, buf) = append_all_split cs (new_reassembler max_size) refl refl (omega arith) in
    (
      rw (msgs, same, split_messages-encode ms plain) refl,
      rw (buf, same, split_messages-encode ms plain) refl,
    )
