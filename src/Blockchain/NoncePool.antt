-- ===== src/Blockchain/NoncePool.antt =====
-- src/core/blockchain/nonce_pool.ts: the sequence numbers of one account. The queue of `acquire` is
-- emptied in one go once the first synchronization is over, so a call is one step.
pub mod Issue
use iot_billing_backend.Common.{
  ℕ, ◌+◌, String, Bool, true, false, ◌||◌, Option, none, some, List, [], ◌∷◌, ltb, if◌then◌else◌,
  length,
}
use iot_billing_backend.Common.Dict.{Dict, put, delete}
use iot_billing_backend.Common.Result.{Result, ok, throws}

pub record NonceEntry : Type 0 where
  pub sequence_number : ℕ
  pub reserved : Bool
  pub acquired_at : ℕ

pub record NoncePool : Type 0 where
  pub nonces : Dict NonceEntry
  pub seq_counter : ℕ

pub data HorizonError : Type 0 where
  unreachable : HorizonError

abbrev new_entry : ℕ → ℕ → NonceEntry
new_entry seq now = record { sequence_number = seq; reserved = true; acquired_at = now }

unfoldable pub acquire : String → ℕ → NoncePool → ℕ × NoncePool
unfolding put
acquire worker_id now p = (
  p.seq_counter + 1,
  record {
    nonces = put worker_id (new_entry (p.seq_counter + 1) now) p.nonces;
    seq_counter = p.seq_counter + 1;
  },
)

unfoldable pub release : String → NoncePool → NoncePool
unfolding delete
release worker_id p = record p { nonces = delete worker_id p.nonces }

unfoldable pub reset_counter : ℕ → NoncePool → NoncePool
reset_counter new_seq p = record p { seq_counter = new_seq }

unfoldable pub get_active_count : NoncePool → ℕ
get_active_count p = length p.nonces

-- With what `fetchAccountSequence` gives; `none` for its failure.
unfoldable pub synchronize : Option ℕ → NoncePool → Result HorizonError (Unit {0}) × NoncePool
synchronize none p = (throws unreachable, p)
synchronize (some ledger_seq) p = (
  ok tt,
  if ltb p.seq_counter ledger_seq
        || ltb (ledger_seq + 1) p.seq_counter
        || ltb (p.seq_counter + 1) ledger_seq
      then record p { seq_counter = ledger_seq }
      else p,
)

-- The nonces of calls one after another, and the pool after them.
unfoldable pub acquire_all : List String → ℕ → NoncePool → List ℕ × NoncePool
unfolding acquire
acquire_all [] now p = ([], p)
acquire_all (w ∷ ws) now p =
    let (seq, p') = acquire w now p in let (seqs, end) = acquire_all ws now p' in (seq ∷ seqs, end)
