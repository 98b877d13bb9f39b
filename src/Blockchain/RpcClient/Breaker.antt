-- ===== src/Blockchain/RpcClient/Breaker.antt =====
-- What runs of the RPC client do to its circuit and its queue.
use iot_billing_backend.Common.{
  ℕ, ◌+◌, ◌≤◌, ◌≡◌, Bool, true, false, List, [], ◌∷◌, length, length-append, arith, refl, ◌++◌,
  ◌==◌, if◌then◌else◌,
}
use mathlib.Core.Path.{subst}
use iot_billing_backend.Blockchain.RpcClient.{
  closed, CircuitBreakerConfig, max_queue_size, Verdict, Waiting, for_delay, for_reply, Client,
  new_client, submit_transaction, on_delay, on_reply, Event, submits, delays, replies, resets,
  handle, handle_all,
}

-- How often a request stands in the queue, is out, and is settled.
unfoldable pub queued : ℕ → List ℕ → ℕ
queued k [] = 0
queued k (r ∷ rs) = (if r == k then 1 else 0) + queued k rs

abbrev pub sent : ℕ → Waiting → ℕ
sent k (for_reply r) = if r == k then 1 else 0
sent k _ = 0

unfoldable pub settled_times : ℕ → List (ℕ × Verdict) → ℕ
settled_times k [] = 0
settled_times k ((r, v) ∷ vs) = (if r == k then 1 else 0) + settled_times k vs

queued-append : (k : ℕ) (q q' : List ℕ) → queued k (q ++ q') ≡ queued k q + queued k q'
unfolding queued
queued-append k [] q' = omega arith
queued-append k (r ∷ rs) q' = omega (arith, queued-append k rs q')

abbrev pub is_delayed : Waiting → Bool
is_delayed for_delay = true
is_delayed _ = false

-- How often the request is submitted.
abbrev pub submitted : ℕ → List Event → ℕ
submitted k [] = 0
submitted k (submits r ∷ es) = (if r == k then 1 else 0) + submitted k es
submitted k (e ∷ es) = submitted k es

-- The circuit is closed, no back-off delay is waited for, the queue keeps within its size, and the
-- request `k` has `n` places.
abbrev pub Healthy : ℕ → ℕ → Client → Type 0
Healthy k n c =
    (c.state ≡ closed)
    × (is_delayed c.waiting ≡ false)
    × (length c.request_queue ≤ max_queue_size)
    × (queued k c.request_queue + sent k c.waiting + settled_times k c.settled ≡ n)

module _ (k : ℕ) where
  submit_transaction-Healthy :
      (r n : ℕ) (c : Client)
      → Healthy k n c
      → Healthy k (n + submitted k (submits r ∷ [])) (submit_transaction r c)
  unfolding submit_transaction queued settled_times
  submit_transaction-Healthy r n c (s, d, q, h) = (
    ground (arith, s),
    ground (arith, s, d),
    ground (arith, s, d, q, length-append c.request_queue (r ∷ [])),
    ground (arith, s, d, q, h, queued-append k c.request_queue (r ∷ [])),
  )

  on_reply-Healthy :
      (good : Bool) (n : ℕ) (c : Client) → Healthy k n c → Healthy k n (on_reply good c)
  unfolding on_reply queued settled_times
  on_reply-Healthy true n c (s, d, q, h) =
      (ground (arith, s), ground (arith, s, d), ground (arith, s, q), ground (arith, s, h))
  on_reply-Healthy false n c (s, d, q, h) =
      (ground (arith, s), ground (arith, s, d), ground (arith, s, q), ground (arith, s, h))

  handle-Healthy :
      (e : Event) (n : ℕ) (c : Client)
      → Healthy k n c
      → Healthy k (n + submitted k (e ∷ [])) (handle e c)
  unfolding handle on_delay
  handle-Healthy (submits r) n c h = submit_transaction-Healthy r n c h
  handle-Healthy (delays now) n c (s, d, q, h) =
      (ground (arith, s, d), ground (arith, d), ground (arith, d, q), ground (arith, d, h))
  handle-Healthy (replies good) n c h =
      subst (λ m. Healthy k m (on_reply good c)) (omega arith) (on_reply-Healthy good n c h)
  handle-Healthy resets n c (s, d, q, h) = (refl, d, q, omega (arith, h))

  submitted_cons :
      (n : ℕ) (e : Event) (es : List Event)
      → n + submitted k (e ∷ []) + submitted k es ≡ n + submitted k (e ∷ es)
  submitted_cons n (submits r) es = omega arith
  submitted_cons n (delays now) es = omega arith
  submitted_cons n (replies good) es = omega arith
  submitted_cons n resets es = omega arith

  handle_all-Healthy_from :
      (es : List Event) (n : ℕ) (c : Client)
      → Healthy k n c
      → Healthy k (n + submitted k es) (handle_all es c)
  unfolding handle_all
  handle_all-Healthy_from [] n c h = subst (λ m. Healthy k m c) (omega arith) h
  handle_all-Healthy_from (e ∷ es) n c h =
      subst (λ m. Healthy k m (handle_all es (handle e c))) (submitted_cons n e es)
        (handle_all-Healthy_from es (n + submitted k (e ∷ [])) (handle e c)
          (handle-Healthy e n c h))

  -- Whatever replies come, and however many of them are failures: the circuit never opens and no
  -- back-off delay is ever waited for, since nothing calls `onFailure`. The queue never exceeds its
  -- maximum. And no request is lost or answered twice: each request stands in the queue, is out and
  -- is settled as often, in all, as it was submitted.
  pub handle_all-Healthy :
      (config : CircuitBreakerConfig) (es : List Event)
      → Healthy k (submitted k es) (handle_all es (new_client config))
  unfolding queued settled_times
  handle_all-Healthy config es =
      subst (λ m. Healthy k m (handle_all es (new_client config))) (omega arith)
        (handle_all-Healthy_from es 0 (new_client config) (refl, refl, omega arith, refl))
