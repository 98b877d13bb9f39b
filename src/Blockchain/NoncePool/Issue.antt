-- ===== src/Blockchain/NoncePool/Issue.antt =====
-- Which nonces are issued, without and with a synchronization in between.
use iot_billing_backend.Common.{
  ℕ, ◌+◌, ◌≤◌, ◌≡◌, String, none, some, List, [], ◌∷◌, length, arith, refl,
}
use iot_billing_backend.Blockchain.NoncePool.{NoncePool, acquire, acquire_all, synchronize}

-- n consecutive numbers after a given one.
unfoldable pub following : ℕ → List String → List ℕ
following n [] = []
following n (w ∷ ws) = (n + 1) ∷ following (n + 1) ws

-- Calls with no synchronization or reset between them get consecutive nonces, in order, from the
-- one after the counter, and the counter ends at the last of them.
pub acquire_all_consecutive :
    (ws : List String) (now : ℕ) (p : NoncePool)
    → ((acquire_all ws now p).0 ≡ following p.seq_counter ws)
      × ((acquire_all ws now p).1.seq_counter ≡ p.seq_counter + length ws)
unfolding acquire_all following
acquire_all_consecutive [] now p = (refl, omega arith)
acquire_all_consecutive (w ∷ ws) now p =
    let (seqs, counter) = acquire_all_consecutive ws now (acquire w now p).1 in
    (rw (seqs) refl, omega (arith, counter))

-- After a synchronization that reaches the ledger the next nonce is the first or the second that
-- the ledger has not seen. One that fails changes nothing.
pub synchronize_bounds :
    (ledger now : ℕ) (w : String) (p : NoncePool)
    → let next = (acquire w now (synchronize (some ledger) p).1).0 in
      (ledger + 1 ≤ next) × (next ≤ ledger + 2) × ((synchronize none p).1 ≡ p)
unfolding synchronize acquire
synchronize_bounds ledger now w p = (ground arith, ground arith, refl)

-- When two nonces or more are out that the ledger has not seen yet, a synchronization forgets
-- them: the next call gets the nonce that the first of them has.
pub synchronize_reissues :
    (v w u : String) (ws : List String) (now : ℕ) (p : NoncePool)
    → let (seqs, out) = acquire_all (v ∷ w ∷ ws) now p in
      (acquire u now (synchronize (some p.seq_counter) out).1).0 ≡ (acquire v now p).0
unfolding synchronize acquire
synchronize_reissues v w u ws now p = ground (arith, acquire_all_consecutive (v ∷ w ∷ ws) now p)
