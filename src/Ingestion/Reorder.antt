-- ===== src/Ingestion/Reorder.antt =====
-- src/core/ingestion/validator.ts: RedisReorderBuffer for one device. The sorted set is a list of
-- (sequence number, frame), one entry per number.
pub mod Delivery
pub mod Window
use iot_billing_backend.Common.{
  ℕ, zero, suc, ◌+◌, ◌-◌, Bool, true, false, Option, none, some, List, [], ◌∷◌, ◌++◌, ltb, leb,
  ◌==◌, if◌then◌else◌, length,
}

-- A frame is a number that stands for its JSON text, in the order of the texts. The fields are the
-- three keys of the device.
pub record Buffer : Type 0 where
  pub max_window : ℕ
  pub delivered : ℕ
  pub zset : List (ℕ × ℕ)
  pub drops : ℕ

abbrev pub new_buffer : ℕ → Buffer
new_buffer max_window = record { max_window = max_window; delivered = 0; zset = []; drops = 0 }

-- ZADD: a member has one score.
unfoldable pub remove_member : ℕ → List (ℕ × ℕ) → List (ℕ × ℕ)
remove_member frame [] = []
remove_member frame ((s, m) ∷ z) =
    let rest = remove_member frame z in if m == frame then rest else (s, m) ∷ rest

unfoldable pub zadd : ℕ → ℕ → List (ℕ × ℕ) → List (ℕ × ℕ)
unfolding remove_member
zadd score frame z = (score, frame) ∷ remove_member frame z

-- ZRANGEBYSCORE of one score, its first member: the least one.
abbrev least : ℕ → Option ℕ → Option ℕ
least m none = some m
least m (some n) = some (if ltb m n then m else n)

unfoldable pub first_at : ℕ → List (ℕ × ℕ) → Option ℕ
first_at score [] = none
first_at score ((s, m) ∷ z) =
    let rest = first_at score z in if s == score then least m rest else rest

-- ZREMRANGEBYSCORE of one score.
unfoldable pub remove_score : ℕ → List (ℕ × ℕ) → List (ℕ × ℕ)
remove_score score [] = []
remove_score score ((s, m) ∷ z) =
    let rest = remove_score score z in if s == score then rest else (s, m) ∷ rest

-- ZPOPMAX: the highest score, and of equal scores the greatest member.
abbrev pub below : ℕ × ℕ → ℕ × ℕ → Bool
below (s, m) (t, n) = if s == t then ltb m n else ltb s t

-- The list without its highest entry, of an entry and the others.
unfoldable pub without_max : ℕ × ℕ → List (ℕ × ℕ) → List (ℕ × ℕ)
without_max e [] = []
without_max e (x ∷ z) = if below e x then e ∷ without_max x z else x ∷ without_max e z

unfoldable pub zpopmax : List (ℕ × ℕ) → List (ℕ × ℕ)
unfolding without_max
zpopmax [] = []
zpopmax (e ∷ z) = without_max e z

-- The `while` loop: each round removes an entry, so as many rounds as there are entries are enough.
unfoldable pub drain : ℕ → ℕ → List (ℕ × ℕ) → List ℕ × ℕ × List (ℕ × ℕ)
unfolding first_at remove_score
drain zero delivered z = ([], delivered, z)
drain (suc n) delivered z =
    let (frames, end, rest) = drain n (delivered + 1) (remove_score (delivered + 1) z) in
    elim (first_at (delivered + 1) z) [
      | none ↦ ([], delivered, z)
      | some frame ↦ (frame ∷ frames, end, rest)
    ]

-- An in-sequence frame, and the contiguous ones behind it.
unfoldable pub deliver : ℕ → Buffer → List ℕ × Buffer
unfolding drain
deliver frame b =
    let (frames, delivered, z) = drain (length b.zset) (b.delivered + 1) b.zset in
    (frame ∷ frames, record b { delivered = delivered; zset = z })

-- A frame from further ahead, and the eviction.
unfoldable pub park : ℕ → ℕ → Buffer → Buffer
unfolding zadd zpopmax
park seq frame b =
    let z = zadd seq frame b.zset in
    if ltb b.max_window (length z)
    then record b { zset = zpopmax z; drops = b.drops + 1 }
    else record b { zset = z }

-- By whether the number was delivered already, and whether it is the next one.
unfoldable pub submit_as : Bool → Bool → ℕ → ℕ → Buffer → List ℕ × Buffer
unfolding deliver park
submit_as true next seq frame b = ([], b)
submit_as false true seq frame b = deliver frame b
submit_as false false seq frame b = ([], park seq frame b)

unfoldable pub submit : ℕ → ℕ → Buffer → List ℕ × Buffer
unfolding submit_as
submit seq frame b = submit_as (leb seq b.delivered) (seq == b.delivered + 1) seq frame b

-- What a run of submissions delivers, where the frame of a number is given by a function.
unfoldable pub submit_all : (ℕ → ℕ) → List ℕ → Buffer → List ℕ × Buffer
unfolding submit
submit_all frame_of [] b = ([], b)
submit_all frame_of (s ∷ ss) b =
    let (frames, b') = submit s (frame_of s) b in
    let (more, end) = submit_all frame_of ss b' in (frames ++ more, end)
