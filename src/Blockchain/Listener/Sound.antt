-- ===== src/Blockchain/Listener/Sound.antt =====
-- src/core/blockchain/event_listener.ts: what holds of a call of `catchUp` whatever settles.
use iot_billing_backend.Common.{
  ℕ, ◌+◌, ◌-◌, ◌/◌, ◌≤◌, ◌<◌, ◌≡◌, refl, ap, sym, Bool, true, false, ◌&&◌, ◌||◌, Option, none, some,
  List, [], ◌∷◌, ◌++◌, ltb, leb, ◌==◌, min, if◌then◌else◌, arith, Bool-cases, inl, inr,
}
use mathlib.Core.Path.{subst}
use iot_billing_backend.Blockchain.Listener.{
  Synchronizer, Stage, idle, syncing, checkpointing, finished, failed, Tasks, start, next_batch,
  attempt_of, drop_task, batch_done, with_tasks, settle, written, Event, settles, writes, handle_at,
  handle, handle_all, checkpoint_interval, max_retries,
}
use iot_billing_backend.Blockchain.Listener.Tasks.{
  count, running, count-append, running-new_tasks, running-drop_task, running-retry_task,
}

-- The ledger that the synchronizer would go on from after a crash and a `start`.
unfoldable pub restart : ℕ → Synchronizer → ℕ
restart starting_ledger s = (start starting_ledger s).last_synced_ledger

-- How often a ledger has been processed or given up.
abbrev pub done_times : ℕ → Synchronizer → ℕ
done_times k s = count k s.processed + count k s.skipped

-- One if the ledger lies after the one and up to the other.
abbrev pub between : ℕ → ℕ → ℕ → ℕ
between from to k = if ltb from k && leb k to then 1 else 0

module _ (concurrency starting_ledger from : ℕ) (old : ℕ → ℕ) where
  -- It would go on from the last synced ledger's stretch of 64, and not ahead of it.
  unfoldable pub Near : Synchronizer → Type 0
  Near s =
      (restart starting_ledger s ≤ s.last_synced_ledger)
      × (restart starting_ledger s / 64 ≡ s.last_synced_ledger / 64)

  unfoldable pub Behind : Synchronizer → Type 0
  Behind s =
      (restart starting_ledger s ≤ s.last_synced_ledger)
      × (s.last_synced_ledger < restart starting_ledger s + 64 + concurrency)

  -- All ledgers up to `reached` are done once, but for those among the tasks.
  unfoldable pub Accounts : ℕ → Tasks → Synchronizer → Type 0
  Accounts reached ts s = (k : ℕ) → done_times k s + running k ts ≡ old k + between from reached k

  -- At the head of the loop.
  unfoldable pub Before : ℕ → Synchronizer → Type 0
  Before batch_start s =
      (batch_start ≤ s.target_ledger → s.last_synced_ledger + 1 ≡ batch_start)
      × (s.target_ledger < batch_start
          → (s.last_synced_ledger ≡ s.target_ledger) × (s.persisted ≡ some s.target_ledger))
      × (from ≤ s.last_synced_ledger)
      × Near s
      × Accounts s.last_synced_ledger [] s

  unfoldable pub InBatch : ℕ → ℕ → Tasks → Synchronizer → Type 0
  InBatch batch_start batch_end ts s =
      (s.last_synced_ledger + 1 ≡ batch_start)
      × (batch_start ≤ s.target_ledger)
      × (batch_end ≡ min (batch_start + concurrency - 1) s.target_ledger)
      × (from ≤ s.last_synced_ledger)
      × Near s
      × Accounts batch_end ts s

  unfoldable pub SoundAt : Stage → Synchronizer → Type 0
  SoundAt idle s = Behind s
  SoundAt (syncing batch_start batch_end ts) s = InBatch batch_start batch_end ts s
  SoundAt (checkpointing next ledger) s =
      (s.last_synced_ledger ≡ ledger)
      × (ledger ≡ min (next - 1) s.target_ledger)
      × (1 ≤ next)
      × (from ≤ ledger)
      × Behind s
      × Accounts ledger [] s
  SoundAt finished s =
      (s.in_progress ≡ false)
      × (s.last_synced_ledger ≡ s.target_ledger)
      × (s.persisted ≡ some s.target_ledger)
      × Near s
      × Accounts s.last_synced_ledger [] s
  SoundAt failed s = (s.in_progress ≡ false) × Behind s × Accounts s.last_synced_ledger [] s

  abbrev pub Sound : Synchronizer → Type 0
  Sound s = SoundAt s.stage s

  module _ (some_at_once : 1 ≤ concurrency) where
    pub next_batch-Sound :
        (batch_start : ℕ) (s : Synchronizer)
        → 1 ≤ batch_start
        → Before batch_start s
        → Sound (next_batch concurrency batch_start s)
    unfolding next_batch Before SoundAt InBatch Accounts Near restart start running
    next_batch-Sound b s positive (more, over, begun, near, accounts) =
        elim (Bool-cases (leb b s.target_ledger)) [
          | inl within ↦
              let last = more (ground (arith, within)) in
              let be = min (b + concurrency - 1) s.target_ledger in
              simp within (
                last,
                ground (arith, within),
                refl,
                begun,
                near,
                λ k. ground (
                  arith,
                  within,
                  last,
                  begun,
                  some_at_once,
                  positive,
                  accounts k,
                  running-new_tasks k (be + 1 - b) b,
                ),
              )
          | inr past ↦
              let (last, row) = over (ground (arith, past)) in
              simp past (refl, last, row, near, accounts)
        ]

    batch_done-Sound :
        (b be : ℕ) (s : Synchronizer) → InBatch b be [] s → Sound (batch_done concurrency b be s)
    unfolding batch_done InBatch SoundAt Accounts Near Behind restart start Before
    batch_done-Sound b be s (last, within, ends, begun, (le, near), accounts) =
        elim (Bool-cases (
          ltb ((b - 1) / checkpoint_interval) (be / checkpoint_interval)
          || (be == s.target_ledger))) [
            | inl due ↦ simp due (
              refl,
              omega (arith, ends),
              omega (arith, some_at_once),
              omega (arith, ends, last, begun, within, some_at_once),
              (
                omega (arith, ends, last, le, within, some_at_once),
                omega (arith, ends, last, near, le, within, some_at_once),
              ),
              accounts,
            )
            | inr early ↦ simp early (
                next_batch-Sound (b + concurrency) (record s { last_synced_ledger = be })
                  (omega (arith, some_at_once))
                  (
                    (λ more. omega (arith, ends, more, some_at_once)),
                    (λ over. ground (arith, early, ends, over, within, some_at_once)),
                    omega (arith, ends, last, begun, within, some_at_once),
                    (
                      omega (arith, ends, last, le, within, some_at_once),
                      ground (arith, early, ends, last, near, within, some_at_once),
                    ),
                    accounts,
                  ))
          ]

    with_tasks-Sound :
        (b be : ℕ) (ts : Tasks) (s : Synchronizer)
        → InBatch b be ts s
        → Sound (with_tasks concurrency b be ts s)
    unfolding with_tasks SoundAt InBatch Near Accounts restart start
    with_tasks-Sound b be [] s h = batch_done-Sound b be s h
    with_tasks-Sound b be (t ∷ ts) s h = h

    settle-Sound :
        (b be : ℕ) (ts : Tasks) (seq : ℕ) (good : Bool) (a : Option ℕ) (s : Synchronizer)
        → attempt_of seq ts ≡ a
        → s.stage ≡ syncing b be ts
        → InBatch b be ts s
        → Sound (settle concurrency b be ts seq good a s)
    unfolding settle InBatch Accounts Near restart start
    settle-Sound b be ts seq good none s e at h =
        subst (λ st. SoundAt st s) (sym at) (unfold SoundAt InBatch Accounts Near in h)
    settle-Sound b be ts seq true (some a) s e at (last, within, ends, begun, near, accounts) =
        with_tasks-Sound b be (drop_task seq ts)
          (record s { processed = s.processed ++ (seq ∷ []) })
          (
            last,
            within,
            ends,
            begun,
            near,
            λ k.
                omega (
                  arith,
                  accounts k,
                  count-append k seq s.processed,
                  running-drop_task k seq a ts e,
                ),
          )
    settle-Sound b be ts seq false (some a) s e at (last, within, ends, begun, near, accounts) =
        elim (Bool-cases (ltb a (max_retries - 1))) [
          | inl early ↦ simp early (
              unfold SoundAt in
              (
                last,
                within,
                ends,
                begun,
                near,
                λ k. omega (arith, accounts k, running-retry_task k seq ts),
              ))
          | inr late ↦ simp late (
              with_tasks-Sound b be (drop_task seq ts)
                (record s { skipped = s.skipped ++ (seq ∷ []); error_count = s.error_count + 1 })
                (
                  last,
                  within,
                  ends,
                  begun,
                  near,
                  λ k. omega (
                    arith,
                    accounts k,
                    count-append k seq s.skipped,
                    running-drop_task k seq a ts e,
                  ),
                ))
        ]

    written-Sound :
        (next ledger : ℕ) (good : Bool) (s : Synchronizer)
        → SoundAt (checkpointing next ledger) s
        → Sound (written concurrency next ledger good s)
    unfolding written SoundAt Before Near Behind Accounts restart start
    written-Sound next ledger true s (last, ends, positive, begun, behind, accounts) =
        next_batch-Sound next (record s { persisted = some ledger }) positive
          (
            (λ more. omega (arith, last, ends, more, positive)),
            (λ over. (omega (arith, last, ends, over), ap some (omega (arith, ends, over)))),
            omega (arith, last, begun),
            (omega (arith, last), ap (λ n. n / 64) (sym last)),
            rw last accounts,
          )
    written-Sound next ledger false s (last, ends, positive, begun, behind, accounts) =
        (refl, behind, rw last accounts)

    pub handle_at-Sound :
        (e : Event) (st : Stage) (s : Synchronizer)
        → s.stage ≡ st
        → SoundAt st s
        → Sound (handle_at concurrency e st s)
    unfolding handle_at
    handle_at-Sound (settles seq good) (syncing b be ts) s at h =
        settle-Sound b be ts seq good (attempt_of seq ts) s refl at (unfold SoundAt in h)
    handle_at-Sound (settles seq good) idle s at h = subst (λ st. SoundAt st s) (sym at) h
    handle_at-Sound (settles seq good) (checkpointing next ledger) s at h =
        subst (λ st. SoundAt st s) (sym at) h
    handle_at-Sound (settles seq good) finished s at h = subst (λ st. SoundAt st s) (sym at) h
    handle_at-Sound (settles seq good) failed s at h = subst (λ st. SoundAt st s) (sym at) h
    handle_at-Sound (writes good) (checkpointing next ledger) s at h =
        written-Sound next ledger good s h
    handle_at-Sound (writes good) idle s at h = subst (λ st. SoundAt st s) (sym at) h
    handle_at-Sound (writes good) (syncing b be ts) s at h = subst (λ st. SoundAt st s) (sym at) h
    handle_at-Sound (writes good) finished s at h = subst (λ st. SoundAt st s) (sym at) h
    handle_at-Sound (writes good) failed s at h = subst (λ st. SoundAt st s) (sym at) h

    pub handle_all-Sound :
        (es : List Event) (s : Synchronizer) → Sound s → Sound (handle_all concurrency es s)
    unfolding handle_all handle
    handle_all-Sound [] s h = h
    handle_all-Sound (e ∷ es) s h =
        handle_all-Sound es (handle concurrency e s) (handle_at-Sound e s.stage s refl h)
