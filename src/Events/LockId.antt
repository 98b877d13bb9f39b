-- ===== src/Events/LockId.antt =====
-- `tenantLockId` of src/ingestion/eventStore.ts; `compositeLockId` of
-- src/core/ingestion/lock_manager.ts has the same loop. An int32 is kept as its bit pattern.
use Prim.Native.Char.{code}
use Prim.Native.String.{String}
use iot_billing_backend.Common.{
  ℕ, ◌+◌, ◌-◌, ◌*◌, ◌%◌, ◌≤◌, ◌<◌, ◌≡◌, List, [], ◌∷◌, ltb, if◌then◌else◌, arith,
}
use iot_billing_backend.Common.Int.{ℤ, pos, negsuc}

-- The UTF-16 units of an ASCII text.
abbrev pub codes : String → List ℕ
codes String.[] = []
codes (String.◌∷◌ c s) = code c ∷ codes s

-- `hash = (hash << 5) - hash + chr; hash |= 0`, on the bit pattern.
unfoldable pub mix : ℕ → ℕ → ℕ
mix hash chr = (hash * 32 % 4294967296 + 4294967296 - hash + chr) % 4294967296

unfoldable pub hash_codes : ℕ → List ℕ → ℕ
unfolding mix
hash_codes hash [] = hash
hash_codes hash (c ∷ cs) = hash_codes (mix hash c) cs

-- `Math.abs` of the int32 with a bit pattern.
unfoldable pub abs32 : ℕ → ℕ
abs32 h = if ltb h 2147483648 then h else 4294967296 - h

unfoldable pub tenant_lock_id : String → ℕ
unfolding hash_codes abs32
tenant_lock_id tenant_id = abs32 (hash_codes 0 (codes tenant_id))

-- The integer that a bit pattern stands for.
abbrev pub signed : ℕ → ℤ
signed h = if ltb h 2147483648 then pos h else negsuc (4294967295 - h)

hash_codes-lt : (h : ℕ) (cs : List ℕ) → h < 4294967296 → hash_codes h cs < 4294967296
unfolding hash_codes
hash_codes-lt h [] l = l
hash_codes-lt h (c ∷ cs) l = hash_codes-lt (mix h c) cs (unfold mix in omega arith)

-- The lock key of every tenant lies between 0 and 2^31, both included, so it fits the bigint that
-- the advisory lock takes.
pub tenant_lock_id_bounded : (t : String) → tenant_lock_id t ≤ 2147483648
unfolding tenant_lock_id
tenant_lock_id_bounded t = ground (arith, hash_codes-lt 0 (codes t))

-- On the bit pattern, one round of the loop is `31 * hash + chr` as an int32.
pub mix_lem : (h c : ℕ) → h < 4294967296 → mix h c ≡ (31 * h + c) % 4294967296
unfolding mix
mix_lem h c l = omega arith
