-- ===== src/Blockchain/Listener/Waiting.antt =====
-- src/core/blockchain/event_listener.ts: a batch that is waited for has attempts.
use mathlib.Core.Path.{subst}
use iot_billing_backend.Common.{
  ℕ, zero, suc, ◌+◌, ◌-◌, ◌/◌, ◌≤◌, ◌≡◌, refl, sym, Bool, true, false, ◌||◌, Option, none, some,
  List, [], ◌∷◌, ◌++◌, ltb, leb, ◌==◌, min, arith, Bool-cases, inl, inr,
}
use iot_billing_backend.Blockchain.Listener.{
  Synchronizer, Stage, idle, syncing, checkpointing, finished, failed, Tasks, new_tasks, next_batch,
  attempt_of, drop_task, retry_task, batch_done, with_tasks, settle, written, Event, settles,
  writes, handle_at, handle, handle_all, checkpoint_interval, max_retries,
}
use iot_billing_backend.Blockchain.Listener.Sound.{SoundAt, Sound, handle_at-Sound}
use iot_billing_backend.Blockchain.Listener.Work.{is_running}

-- A call that waits for attempts has some, and it is not idle.
unfoldable pub HasTasks : Stage → Type 0
HasTasks idle = ⊥
HasTasks (syncing b be []) = ⊥
HasTasks (syncing b be (t ∷ ts)) = Unit {0}
HasTasks (checkpointing next ledger) = Unit {0}
HasTasks finished = Unit {0}
HasTasks failed = Unit {0}

pub first_running :
    (seq a : ℕ) (ts : Tasks) → is_running (attempt_of seq ((seq, a) ∷ ts)) ≡ false → ⊥
unfolding attempt_of
first_running seq a ts stopped = ground (arith, stopped)

retry-HasTasks :
    (b be seq : ℕ) (ts : Tasks)
    → HasTasks (syncing b be ts)
    → HasTasks (syncing b be (retry_task seq ts))
unfolding HasTasks retry_task
retry-HasTasks b be seq [] h = h
retry-HasTasks b be seq ((k, a) ∷ ts) h = elim (Bool-cases (k == seq)) [
  | inl same ↦ simp same tt
  | inr different ↦ simp different tt
]

new-HasTasks : (b be n seq : ℕ) → 1 ≤ n → HasTasks (syncing b be (new_tasks n seq))
unfolding HasTasks new_tasks
new-HasTasks b be zero seq h = absurd (omega (arith, h))
new-HasTasks b be (suc n) seq h = tt

module _ (concurrency : ℕ) (some_at_once : 1 ≤ concurrency) where
  pub next_batch-HasTasks :
      (b : ℕ) (s : Synchronizer) → 1 ≤ b → HasTasks (next_batch concurrency b s).stage
  unfolding next_batch HasTasks
  next_batch-HasTasks b s positive = elim (Bool-cases (leb b s.target_ledger)) [
    | inl within ↦
        let be = min (b + concurrency - 1) s.target_ledger in
        simp within (
          unfold HasTasks in
          new-HasTasks b be (be + 1 - b) b (ground (arith, within, some_at_once, positive)))
    | inr past ↦ simp past tt
  ]

  with_tasks-HasTasks :
      (b be : ℕ) (ts : Tasks) (s : Synchronizer) → HasTasks (with_tasks concurrency b be ts s).stage
  unfolding with_tasks batch_done HasTasks
  with_tasks-HasTasks b be (t ∷ ts) s = tt
  with_tasks-HasTasks b be [] s =
      elim (Bool-cases (
        ltb ((b - 1) / checkpoint_interval) (be / checkpoint_interval)
        || (be == s.target_ledger))) [
          | inl due ↦ simp due tt
          | inr early ↦ simp early (
              unfold HasTasks in
              next_batch-HasTasks (b + concurrency) (record s { last_synced_ledger = be })
                (omega (arith, some_at_once)))
        ]

  settle-HasTasks :
      (b be : ℕ) (ts : Tasks) (seq : ℕ) (good : Bool) (a : Option ℕ) (s : Synchronizer)
      → s.stage ≡ syncing b be ts
      → HasTasks (syncing b be ts)
      → HasTasks (settle concurrency b be ts seq good a s).stage
  unfolding settle
  settle-HasTasks b be ts seq good none s at h = subst HasTasks (sym at) h
  settle-HasTasks b be ts seq true (some a) s at h =
      with_tasks-HasTasks b be (drop_task seq ts)
        (record s { processed = s.processed ++ (seq ∷ []) })
  settle-HasTasks b be ts seq false (some a) s at h = elim (Bool-cases (ltb a (max_retries - 1))) [
    | inl early ↦ simp early (retry-HasTasks b be seq ts h)
    | inr late ↦ simp late (
        with_tasks-HasTasks b be (drop_task seq ts)
          (record s { skipped = s.skipped ++ (seq ∷ []); error_count = s.error_count + 1 }))
  ]

  module _ (starting_ledger from : ℕ) (old : ℕ → ℕ) where
    handle_at-HasTasks :
        (e : Event) (st : Stage) (s : Synchronizer)
        → s.stage ≡ st
        → SoundAt concurrency starting_ledger from old st s
        → HasTasks st
        → HasTasks (handle_at concurrency e st s).stage
    unfolding handle_at written SoundAt
    handle_at-HasTasks (settles seq good) (syncing b be ts) s at sound h =
        settle-HasTasks b be ts seq good (attempt_of seq ts) s at h
    handle_at-HasTasks (settles seq good) idle s at sound h = subst HasTasks (sym at) h
    handle_at-HasTasks (settles seq good) (checkpointing next ledger) s at sound h =
        subst HasTasks (sym at) h
    handle_at-HasTasks (settles seq good) finished s at sound h = subst HasTasks (sym at) h
    handle_at-HasTasks (settles seq good) failed s at sound h = subst HasTasks (sym at) h
    handle_at-HasTasks (writes true) (checkpointing next ledger) s at
          (last, ends, positive, begun, behind, accounts) h =
        next_batch-HasTasks next (record s { persisted = some ledger }) positive
    handle_at-HasTasks (writes false) (checkpointing next ledger) s at sound h =
        unfold HasTasks in tt
    handle_at-HasTasks (writes good) idle s at sound h = subst HasTasks (sym at) h
    handle_at-HasTasks (writes good) (syncing b be ts) s at sound h = subst HasTasks (sym at) h
    handle_at-HasTasks (writes good) finished s at sound h = subst HasTasks (sym at) h
    handle_at-HasTasks (writes good) failed s at sound h = subst HasTasks (sym at) h

    pub handle_all-HasTasks :
        (es : List Event) (s : Synchronizer)
        → Sound concurrency starting_ledger from old s
        → HasTasks s.stage
        → HasTasks (handle_all concurrency es s).stage
    unfolding handle_all handle
    handle_all-HasTasks [] s sound h = h
    handle_all-HasTasks (e ∷ es) s sound h =
        handle_all-HasTasks es (handle_at concurrency e s.stage s)
          (handle_at-Sound concurrency starting_ledger from old some_at_once e s.stage s refl sound)
          (handle_at-HasTasks e s.stage s refl sound h)
