-- ===== src/Blockchain/Listener/Retries.antt =====
-- src/core/blockchain/event_listener.ts: a ledger is given up after three failed attempts, and then
-- counted as an error.
use mathlib.Core.Path.{subst}
use iot_billing_backend.Common.{
  ℕ, zero, suc, ◌+◌, ◌-◌, ◌*◌, ◌/◌, ◌≤◌, ◌≡◌, refl, Bool, true, false, ◌||◌, Option, none, some,
  List, [], ◌∷◌, ◌++◌, ltb, leb, ◌==◌, min, length, length-append, if◌then◌else◌, arith, Bool-cases,
  inl, inr,
}
use iot_billing_backend.Blockchain.Listener.{
  Synchronizer, Stage, idle, syncing, checkpointing, finished, failed, Tasks, new_tasks, next_batch,
  attempt_of, drop_task, retry_task, batch_done, with_tasks, settle, written, Event, settles,
  writes, handle_at, handle, handle_all, checkpoint_interval, max_retries, max_gap, catch_up,
}
use iot_billing_backend.Blockchain.Listener.Tasks.{count, count-append}

-- The failed attempts of a ledger's task.
unfoldable tried : ℕ → Tasks → ℕ
tried k [] = 0
tried k ((j, a) ∷ ts) = (if j == k then a else 0) + tried k ts

unfoldable tried_at : ℕ → Stage → ℕ
tried_at k (syncing batch_start batch_end ts) = tried k ts
tried_at k _ = 0

-- How many attempts at the ledger fail.
unfoldable pub failures : ℕ → List Event → ℕ
failures k [] = 0
failures k (settles seq false ∷ es) = (if seq == k then 1 else 0) + failures k es
failures k (_ ∷ es) = failures k es

tried-new_tasks : (k n seq : ℕ) → tried k (new_tasks n seq) ≡ 0
unfolding tried new_tasks
tried-new_tasks k zero seq = refl
tried-new_tasks k (suc n) seq = ground (arith, tried-new_tasks k n (seq + 1))

tried-drop_task :
    (k seq a : ℕ) (ts : Tasks)
    → attempt_of seq ts ≡ some a
    → tried k (drop_task seq ts) + (if seq == k then a else 0) ≡ tried k ts
unfolding tried drop_task attempt_of
tried-drop_task k seq a [] e = absurd cc
tried-drop_task k seq a ((j, b) ∷ ts) e = ground (arith, e, tried-drop_task k seq a ts)

tried-retry_task :
    (k seq a : ℕ) (ts : Tasks)
    → attempt_of seq ts ≡ some a
    → tried k (retry_task seq ts) ≡ tried k ts + (if seq == k then 1 else 0)
unfolding tried retry_task attempt_of
tried-retry_task k seq a [] e = absurd cc
tried-retry_task k seq a ((j, b) ∷ ts) e = ground (arith, e, tried-retry_task k seq a ts)

module _ (concurrency : ℕ) (base : Synchronizer) (k : ℕ) where
  -- Errors are the skipped ledgers, and `n` failures pay for three times the skips of `k`, besides
  -- the failed attempts `open_tries` of its tasks.
  unfoldable PaidWith : ℕ → ℕ → Synchronizer → Type 0
  PaidWith open_tries n s =
      (s.error_count + length base.skipped ≡ base.error_count + length s.skipped)
      × (3 * count k s.skipped + open_tries ≤ 3 * count k base.skipped + n)

  unfoldable Paid : ℕ → Synchronizer → Type 0
  Paid n s = PaidWith (tried_at k s.stage) n s

  next_batch-Paid :
      (n b : ℕ) (s : Synchronizer) → PaidWith 0 n s → Paid n (next_batch concurrency b s)
  unfolding next_batch Paid PaidWith tried_at
  next_batch-Paid n b s (errors, paid) = elim (Bool-cases (leb b s.target_ledger)) [
    | inl within ↦
        let be = min (b + concurrency - 1) s.target_ledger in
        simp within (errors, omega (arith, paid, tried-new_tasks k (be + 1 - b) b))
    | inr past ↦ simp past (errors, paid)
  ]

  with_tasks-Paid :
      (n b be : ℕ) (ts : Tasks) (s : Synchronizer)
      → PaidWith (tried k ts) n s
      → Paid n (with_tasks concurrency b be ts s)
  unfolding with_tasks batch_done Paid PaidWith tried_at tried
  with_tasks-Paid n b be (t ∷ ts) s h = h
  with_tasks-Paid n b be [] s (errors, paid) =
      elim (Bool-cases (
        ltb ((b - 1) / checkpoint_interval) (be / checkpoint_interval)
        || (be == s.target_ledger))) [
          | inl due ↦ simp due (errors, paid)
          | inr early ↦ simp early (
              next_batch-Paid n (b + concurrency) (record s { last_synced_ledger = be })
                (errors, paid))
        ]

  settle-Paid :
      (n b be : ℕ) (ts : Tasks) (seq : ℕ) (good : Bool) (a : Option ℕ) (s : Synchronizer)
      → attempt_of seq ts ≡ a
      → s.stage ≡ syncing b be ts
      → PaidWith (tried k ts) n s
      → Paid (failures k (settles seq good ∷ []) + n) (settle concurrency b be ts seq good a s)
  unfolding settle PaidWith failures
  settle-Paid n b be ts seq true none s e at (errors, paid) =
      unfold Paid PaidWith tried_at in rw (at) (errors, omega (arith, paid))
  settle-Paid n b be ts seq false none s e at (errors, paid) =
      unfold Paid PaidWith tried_at in rw (at) (errors, omega (arith, paid))
  settle-Paid n b be ts seq true (some a) s e at (errors, paid) =
      with_tasks-Paid (0 + n) b be (drop_task seq ts)
        (record s { processed = s.processed ++ (seq ∷ []) })
        (errors, omega (arith, paid, tried-drop_task k seq a ts e))
  settle-Paid n b be ts seq false (some a) s e at (errors, paid) =
      elim (Bool-cases (ltb a (max_retries - 1))) [
        | inl early ↦ simp early (
            unfold Paid PaidWith tried_at in
            (errors, omega (arith, paid, tried-retry_task k seq a ts e)))
        | inr late ↦ simp late (
            with_tasks-Paid _ b be (drop_task seq ts)
              (record s { skipped = s.skipped ++ (seq ∷ []); error_count = s.error_count + 1 })
              (
                omega (arith, errors, length-append s.skipped (seq ∷ [])),
                ground
                    (arith, late, paid, tried-drop_task k seq a ts e, count-append k seq s.skipped),
              ))
      ]

  kept-Paid :
      (n : ℕ) (e : Event) (st : Stage) (s : Synchronizer)
      → s.stage ≡ st
      → PaidWith (tried_at k st) n s
      → Paid (failures k (e ∷ []) + n) s
  unfolding Paid PaidWith
  kept-Paid n e st s at (errors, paid) = rw (at) (errors, omega (arith, paid))

  written-Paid :
      (n next ledger : ℕ) (good : Bool) (s : Synchronizer)
      → PaidWith 0 n s
      → Paid (0 + n) (written concurrency next ledger good s)
  unfolding written PaidWith
  written-Paid n next ledger true s (errors, paid) =
      next_batch-Paid (0 + n) next (record s { persisted = some ledger })
        (errors, omega (arith, paid))
  written-Paid n next ledger false s (errors, paid) =
      unfold Paid PaidWith tried_at in (errors, omega (arith, paid))

  handle_at-Paid :
      (n : ℕ) (e : Event) (st : Stage) (s : Synchronizer)
      → s.stage ≡ st
      → PaidWith (tried_at k st) n s
      → Paid (failures k (e ∷ []) + n) (handle_at concurrency e st s)
  unfolding handle_at tried_at
  handle_at-Paid n (settles seq good) (syncing b be ts) s at h =
      settle-Paid n b be ts seq good (attempt_of seq ts) s refl at h
  handle_at-Paid n (settles seq good) idle s at h = kept-Paid n (settles seq good) idle s at h
  handle_at-Paid n (settles seq good) (checkpointing next ledger) s at h =
      kept-Paid n (settles seq good) (checkpointing next ledger) s at h
  handle_at-Paid n (settles seq good) finished s at h =
      kept-Paid n (settles seq good) finished s at h
  handle_at-Paid n (settles seq good) failed s at h = kept-Paid n (settles seq good) failed s at h
  handle_at-Paid n (writes good) (checkpointing next ledger) s at h =
      unfold failures in written-Paid n next ledger good s h
  handle_at-Paid n (writes good) idle s at h = kept-Paid n (writes good) idle s at h
  handle_at-Paid n (writes good) (syncing b be ts) s at h =
      kept-Paid n (writes good) (syncing b be ts) s at h
  handle_at-Paid n (writes good) finished s at h = kept-Paid n (writes good) finished s at h
  handle_at-Paid n (writes good) failed s at h = kept-Paid n (writes good) failed s at h

  failures_cons :
      (n : ℕ) (e : Event) (es : List Event)
      → failures k es + (failures k (e ∷ []) + n) ≡ failures k (e ∷ es) + n
  unfolding failures
  failures_cons n (settles seq true) es = omega arith
  failures_cons n (settles seq false) es = omega arith
  failures_cons n (writes good) es = omega arith

  handle_all-Paid :
      (n : ℕ) (es : List Event) (s : Synchronizer)
      → Paid n s
      → Paid (failures k es + n) (handle_all concurrency es s)
  unfolding handle_all handle
  handle_all-Paid n [] s h = unfold failures in subst (λ m. Paid m s) (omega arith) h
  handle_all-Paid n (e ∷ es) s h =
      subst (λ m. Paid m (handle_all concurrency es (handle_at concurrency e s.stage s)))
        (failures_cons n e es)
        (handle_all-Paid (failures k (e ∷ []) + n) es (handle_at concurrency e s.stage s)
          (handle_at-Paid n e s.stage s refl (unfold Paid in h)))

started-Paid :
    (concurrency from_ledger to_ledger : ℕ) (s : Synchronizer) (k : ℕ)
    → Paid concurrency s k 0 (catch_up concurrency from_ledger to_ledger s)
unfolding catch_up PaidWith
started-Paid concurrency from_ledger to_ledger s k =
    next_batch-Paid concurrency s k 0 (from_ledger + 1)
      (record s { target_ledger = min to_ledger (from_ledger + max_gap); in_progress = true })
      (refl, omega arith)

-- Whatever settles in a call of `catchUp`: the errors that are counted are the ledgers that are
-- skipped, and for each time that a ledger is skipped three attempts at it have failed.
pub skips_paid :
    (concurrency from_ledger to_ledger : ℕ) (es : List Event) (s : Synchronizer) (k : ℕ)
    → let r = handle_all concurrency es (catch_up concurrency from_ledger to_ledger s) in
      (r.error_count + length s.skipped ≡ s.error_count + length r.skipped)
      × (3 * count k r.skipped ≤ 3 * count k s.skipped + failures k es)
unfolding Paid PaidWith
skips_paid concurrency from_ledger to_ledger es s k =
    let (errors, paid) =
      handle_all-Paid concurrency s k 0 es (catch_up concurrency from_ledger to_ledger s)
        (started-Paid concurrency from_ledger to_ledger s k) in
    (errors, omega (arith, paid))
