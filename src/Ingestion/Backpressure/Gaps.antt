-- ===== src/Ingestion/Backpressure/Gaps.antt =====
-- What the gap detector counts over a run of deliveries.
use iot_billing_backend.Common.{
  ℕ, suc, ◌+◌, ◌≡◌, some, List, [], ◌∷◌, ltb, if◌then◌else◌, arith, sum_by,
}
use iot_billing_backend.Ingestion.Backpressure.{record_seq, record_all}

-- How many deliveries are above all before them, when `last` came last.
unfoldable pub fresh_count : ℕ → List ℕ → ℕ
fresh_count last [] = 0
fresh_count last (s ∷ ss) =
    let skipped = fresh_count last ss in
    let taken = fresh_count s ss in if ltb last s then suc taken else skipped

unfoldable pub highest : ℕ → List ℕ → ℕ
highest last [] = last
highest last (s ∷ ss) = highest (if ltb last s then s else last) ss

-- However deliveries are repeated or reordered after the number `last`: the detector ends at the
-- highest number, and the numbers that its gaps report missing, with the new deliveries, make up
-- the whole distance from `last` to there.
pub record_all_counts :
    (ss : List ℕ) (last : ℕ)
    → ((record_all ss (some last)).1 ≡ some (highest last ss))
      × (last + fresh_count last ss + sum_by (λ g. g.missing_count) (record_all ss (some last)).0
          ≡ highest last ss)
unfolding record_all record_seq fresh_count highest
record_all_counts [] last = ground arith
record_all_counts (s ∷ ss) last = (
  ground (arith, record_all_counts ss last, record_all_counts ss s),
  ground (arith, record_all_counts ss last, record_all_counts ss s),
)
