-- ===== src/Blockchain/Listener/Tasks.antt =====
-- src/core/blockchain/event_listener.ts: the attempts of a batch, counted.
use iot_billing_backend.Common.{
  ℕ, zero, suc, ◌+◌, ◌-◌, ◌*◌, ◌≤◌, ◌<◌, ◌≡◌, refl, ◌&&◌, some, List, [], ◌∷◌, ◌++◌, ltb, leb, ◌==◌,
  ==_iff, if◌then◌else◌, arith,
}
use iot_billing_backend.Blockchain.Listener.{Tasks, new_tasks, attempt_of, drop_task, retry_task}

-- How often a ledger stands in a list, and among the tasks.
unfoldable pub count : ℕ → List ℕ → ℕ
count k [] = 0
count k (j ∷ js) = (if j == k then 1 else 0) + count k js

unfoldable pub running : ℕ → Tasks → ℕ
running k [] = 0
running k ((j, a) ∷ ts) = (if j == k then 1 else 0) + running k ts

-- The attempts that are left.
unfoldable pub tries : Tasks → ℕ
tries [] = 0
tries ((j, a) ∷ ts) = 1 + (2 - a) + tries ts

pub count-append :
    (k j : ℕ) (js : List ℕ) → count k (js ++ (j ∷ [])) ≡ count k js + (if j == k then 1 else 0)
unfolding count
count-append k j [] = omega arith
count-append k j (i ∷ is) = omega (arith, count-append k j is)

pub running-new_tasks :
    (k n seq : ℕ) → running k (new_tasks n seq) ≡ (if leb seq k && ltb k (seq + n) then 1 else 0)
unfolding running new_tasks
running-new_tasks k zero seq = ground arith
running-new_tasks k (suc n) seq = ground (arith, running-new_tasks k n (seq + 1))

pub tries-new_tasks : (n seq : ℕ) → tries (new_tasks n seq) ≡ 3 * n
unfolding tries new_tasks
tries-new_tasks zero seq = refl
tries-new_tasks (suc n) seq = omega (arith, tries-new_tasks n (seq + 1))

pub running-drop_task :
    (k seq a : ℕ) (ts : Tasks)
    → attempt_of seq ts ≡ some a
    → running k (drop_task seq ts) + (if seq == k then 1 else 0) ≡ running k ts
unfolding running drop_task attempt_of
running-drop_task k seq a [] e = cc
running-drop_task k seq a ((j, b) ∷ ts) e =
    ground (arith, e, running-drop_task k seq a ts, ==_iff j seq)

pub tries-drop_task :
    (seq a : ℕ) (ts : Tasks) → attempt_of seq ts ≡ some a → tries (drop_task seq ts) + 1 ≤ tries ts
unfolding tries drop_task attempt_of
tries-drop_task seq a [] e = absurd cc
tries-drop_task seq a ((j, b) ∷ ts) e = ground (arith, e, tries-drop_task seq a ts)

pub running-retry_task : (k seq : ℕ) (ts : Tasks) → running k (retry_task seq ts) ≡ running k ts
unfolding running retry_task
running-retry_task k seq [] = refl
running-retry_task k seq ((j, b) ∷ ts) = ground (arith, running-retry_task k seq ts)

pub tries-retry_task :
    (seq a : ℕ) (ts : Tasks)
    → attempt_of seq ts ≡ some a
    → a < 2
    → tries (retry_task seq ts) + 1 ≡ tries ts
unfolding tries retry_task attempt_of
tries-retry_task seq a [] e early = cc
tries-retry_task seq a ((j, b) ∷ ts) e early = ground (arith, e, early, tries-retry_task seq a ts)
