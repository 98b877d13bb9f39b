-- ===== src/Batches/LockId.antt =====
-- `batchLockId` of src/ingestion/batchManager.ts: FNV-1a on 32 bits.
use iot_billing_backend.Common.{ℕ, ◌*◌, ◌%◌, ◌<◌, String, List, [], ◌∷◌, arith}
use iot_billing_backend.Events.LockId.{codes}
use Prim.Native.Nat.{bit_xor}

-- `h ^= c; h = Math.imul(h, 0x01000193) >>> 0`
unfoldable pub fnv_round : ℕ → ℕ → ℕ
fnv_round h c = bit_xor h c * 16777619 % 4294967296

unfoldable pub fnv : ℕ → List ℕ → ℕ
unfolding fnv_round
fnv h [] = h
fnv h (c ∷ cs) = fnv (fnv_round h c) cs

-- `h & 0x7fffffff`
unfoldable pub batch_lock_id : String → ℕ
unfolding fnv
batch_lock_id id = fnv 2166136261 (codes id) % 2147483648

-- The key of every batch is a number below 2^31, so it fits an int4.
pub batch_lock_id-lt : (id : String) → batch_lock_id id < 2147483648
unfolding batch_lock_id
batch_lock_id-lt id = omega arith
