-- ===== src/Blockchain/Listener/Work.antt =====
-- src/core/blockchain/event_listener.ts: what a call of `catchUp` waits for, and how long.
use mathlib.Core.Path.{subst}
use iot_billing_backend.Common.{
  ℕ, ◌+◌, ◌-◌, ◌*◌, ◌/◌, ◌≤◌, ◌≡◌, refl, ◌∙◌, Bool, true, false, ◌||◌, Option, none, some, List, [],
  ◌∷◌, ◌++◌, ltb, leb, ◌==◌, min, if◌then◌else◌, arith, Bool-cases, inl, inr,
}
use iot_billing_backend.Blockchain.Listener.{
  Synchronizer, Stage, idle, syncing, checkpointing, finished, failed, Tasks, next_batch,
  attempt_of, drop_task, batch_done, with_tasks, settle, written, Event, settles, writes, handle_at,
  handle, handle_all, checkpoint_interval, max_retries,
}
use iot_billing_backend.Blockchain.Listener.Tasks.{
  tries, tries-new_tasks, tries-drop_task, tries-retry_task,
}
use iot_billing_backend.Blockchain.Listener.Sound.{InBatch, SoundAt, Sound, handle_at-Sound}

-- Whether the call waits for what the event settles.
abbrev pub is_running : Option ℕ → Bool
is_running none = false
is_running (some attempt) = true

unfoldable pub expected : Event → Stage → Bool
expected (settles seq good) (syncing batch_start batch_end ts) = is_running (attempt_of seq ts)
expected (writes good) (checkpointing next ledger) = true
expected _ _ = false

-- How many of the events were waited for.
unfoldable pub taken : ℕ → List Event → Synchronizer → ℕ
taken concurrency [] s = 0
taken concurrency (e ∷ es) s =
    (if expected e s.stage then 1 else 0) + taken concurrency es (handle concurrency e s)

-- At most so many events are still waited for.
unfoldable pub work_at : Stage → ℕ → ℕ
work_at idle target = 0
work_at (syncing batch_start batch_end ts) target = tries ts + 1 + 4 * (target - batch_end)
work_at (checkpointing next ledger) target = 1 + 4 * (target + 1 - next)
work_at finished target = 0
work_at failed target = 0

-- The target stays, and at most `n` events are still waited for.
unfoldable pub WorkLeft : ℕ → ℕ → Synchronizer → Type 0
WorkLeft target n s = (s.target_ledger ≡ target) × (work_at s.stage target ≤ n)

step_bound :
    (waits : Bool) (later work' work : ℕ)
    → later ≤ work'
    → work' ≤ work - (if waits then 1 else 0)
    → (waits ≡ true → 1 ≤ work)
    → (if waits then 1 else 0) + later ≤ work
step_bound true later work' work bound less works = omega (arith, bound, less, works refl)
step_bound false later work' work bound less works = omega (arith, bound, less)

module _ (concurrency : ℕ) (some_at_once : 1 ≤ concurrency) where
  pub next_batch-WorkLeft :
      (b : ℕ) (s : Synchronizer)
      → 1 ≤ b
      → WorkLeft s.target_ledger (4 * (s.target_ledger + 1 - b)) (next_batch concurrency b s)
  unfolding next_batch WorkLeft work_at
  next_batch-WorkLeft b s positive = elim (Bool-cases (leb b s.target_ledger)) [
    | inl within ↦
        let be = min (b + concurrency - 1) s.target_ledger in
        simp within
          (refl, ground (arith, within, some_at_once, positive, tries-new_tasks (be + 1 - b) b))
    | inr past ↦ simp past (refl, omega arith)
  ]

  with_tasks-WorkLeft :
      (b be : ℕ) (ts : Tasks) (s : Synchronizer)
      → 1 ≤ b
      → b ≤ s.target_ledger
      → be ≡ min (b + concurrency - 1) s.target_ledger
      → WorkLeft s.target_ledger
          (tries ts + 1 + 4 * (s.target_ledger - be))
          (with_tasks concurrency b be ts s)
  unfolding with_tasks batch_done WorkLeft work_at tries
  with_tasks-WorkLeft b be (t ∷ ts) s positive within ends = (refl, omega arith)
  with_tasks-WorkLeft b be [] s positive within ends =
      elim (Bool-cases (
        ltb ((b - 1) / checkpoint_interval) (be / checkpoint_interval)
        || (be == s.target_ledger))) [
          | inl due ↦ simp due (refl, omega (arith, ends, some_at_once))
          | inr early ↦ simp early (
              let (same, less) =
                next_batch-WorkLeft (b + concurrency) (record s { last_synced_ledger = be })
                  (omega (arith, positive)) in
              (same, omega (arith, less, ends, some_at_once)))
        ]

  settle-WorkLeft :
      (b be : ℕ) (ts : Tasks) (seq : ℕ) (good : Bool) (a : ℕ) (s : Synchronizer)
      → attempt_of seq ts ≡ some a
      → 1 ≤ b
      → b ≤ s.target_ledger
      → be ≡ min (b + concurrency - 1) s.target_ledger
      → WorkLeft s.target_ledger
          (tries ts + 4 * (s.target_ledger - be))
          (settle concurrency b be ts seq good (some a) s)
  unfolding settle WorkLeft work_at
  settle-WorkLeft b be ts seq true a s e positive within ends =
      let (same, less) =
        with_tasks-WorkLeft b be (drop_task seq ts)
          (record s { processed = s.processed ++ (seq ∷ []) }) positive within ends in
      (same, omega (arith, less, tries-drop_task seq a ts e))
  settle-WorkLeft b be ts seq false a s e positive within ends =
      elim (Bool-cases (ltb a (max_retries - 1))) [
        | inl early ↦
            simp early (refl, omega (arith, tries-retry_task seq a ts e (ground (arith, early))))
        | inr late ↦ simp late (
            let (same, less) =
              with_tasks-WorkLeft b be (drop_task seq ts)
                (record s { skipped = s.skipped ++ (seq ∷ []); error_count = s.error_count + 1 })
                positive within ends in
            (same, omega (arith, less, tries-drop_task seq a ts e)))
      ]

  module _ (starting_ledger from : ℕ) (old : ℕ → ℕ) where
    kept-WorkLeft :
        (st : Stage) (s : Synchronizer)
        → s.stage ≡ st
        → WorkLeft s.target_ledger (work_at st s.target_ledger - 0) s
    unfolding WorkLeft
    kept-WorkLeft st s at = (refl, rw (at) (omega arith))

    settled_or_not :
        (b be : ℕ) (ts : Tasks) (seq : ℕ) (good : Bool) (a : Option ℕ) (s : Synchronizer)
        → attempt_of seq ts ≡ a
        → s.stage ≡ syncing b be ts
        → InBatch concurrency starting_ledger from old b be ts s
        → WorkLeft s.target_ledger
            (work_at (syncing b be ts) s.target_ledger - (if is_running a then 1 else 0))
            (settle concurrency b be ts seq good a s)
    unfolding InBatch settle
    settled_or_not b be ts seq good none s e at h = kept-WorkLeft (syncing b be ts) s at
    settled_or_not b be ts seq good (some a) s e at (last, within, ends, begun, near, accounts) =
        unfold WorkLeft work_at in
        let (same, less) =
          settle-WorkLeft b be ts seq good a s e (omega (arith, last)) within ends in
        (same, omega (arith, less))

    handle_at-WorkLeft :
        (e : Event) (st : Stage) (s : Synchronizer)
        → s.stage ≡ st
        → SoundAt concurrency starting_ledger from old st s
        → WorkLeft s.target_ledger
            (work_at st s.target_ledger - (if expected e st then 1 else 0))
            (handle_at concurrency e st s)
    unfolding handle_at expected SoundAt
    handle_at-WorkLeft (settles seq good) (syncing b be ts) s at h =
        settled_or_not b be ts seq good (attempt_of seq ts) s refl at h
    handle_at-WorkLeft (settles seq good) idle s at h = kept-WorkLeft idle s at
    handle_at-WorkLeft (settles seq good) (checkpointing next ledger) s at h =
        kept-WorkLeft (checkpointing next ledger) s at
    handle_at-WorkLeft (settles seq good) finished s at h = kept-WorkLeft finished s at
    handle_at-WorkLeft (settles seq good) failed s at h = kept-WorkLeft failed s at
    handle_at-WorkLeft (writes true) (checkpointing next ledger) s at
          (last, ends, positive, begun, behind, accounts) =
        unfold WorkLeft work_at written in
        let (same, less) =
          next_batch-WorkLeft next (record s { persisted = some ledger }) positive in
        (same, omega (arith, less))
    handle_at-WorkLeft (writes false) (checkpointing next ledger) s at h =
        unfold WorkLeft work_at written in (refl, omega arith)
    handle_at-WorkLeft (writes good) idle s at h = kept-WorkLeft idle s at
    handle_at-WorkLeft (writes good) (syncing b be ts) s at h = kept-WorkLeft (syncing b be ts) s at
    handle_at-WorkLeft (writes good) finished s at h = kept-WorkLeft finished s at
    handle_at-WorkLeft (writes good) failed s at h = kept-WorkLeft failed s at

    expected_works :
        (e : Event) (st : Stage) (target : ℕ) → expected e st ≡ true → 1 ≤ work_at st target
    unfolding expected work_at
    expected_works (settles seq good) (syncing b be ts) target waits = omega arith
    expected_works (settles seq good) idle target waits = absurd cc
    expected_works (settles seq good) (checkpointing next ledger) target waits = absurd cc
    expected_works (settles seq good) finished target waits = absurd cc
    expected_works (settles seq good) failed target waits = absurd cc
    expected_works (writes good) (checkpointing next ledger) target waits = omega arith
    expected_works (writes good) idle target waits = absurd cc
    expected_works (writes good) (syncing b be ts) target waits = absurd cc
    expected_works (writes good) finished target waits = absurd cc
    expected_works (writes good) failed target waits = absurd cc

    -- A run waits for no more events than there is work at its beginning, and keeps the target.
    pub taken_bound :
        (es : List Event) (s : Synchronizer)
        → Sound concurrency starting_ledger from old s
        → ((handle_all concurrency es s).target_ledger ≡ s.target_ledger)
          × (taken concurrency es s ≤ work_at s.stage s.target_ledger)
    unfolding taken handle_all handle WorkLeft
    taken_bound [] s h = (refl, omega arith)
    taken_bound (e ∷ es) s h =
        let s' = handle_at concurrency e s.stage s in
        let (same, less) = handle_at-WorkLeft e s.stage s refl h in
        let (same', bound) =
          taken_bound es s' (
            handle_at-Sound concurrency starting_ledger from old some_at_once e s.stage s refl h) in
        let bound' = subst (λ t. taken concurrency es s' ≤ work_at s'.stage t) same bound in
        (
          same' ∙ same,
          step_bound (expected e s.stage) (taken concurrency es s')
              (work_at s'.stage s.target_ledger) (work_at s.stage s.target_ledger) bound' less
              (expected_works e s.stage s.target_ledger),
        )
