-- ===== src/Pool/Counts/Run.antt =====
-- `Counted` through every event of TenantAwarePoolProxy.
use iot_billing_backend.Common.{
  ℕ, ◌+◌, ◌-◌, ◌≡◌, String, Bool, true, false, Option, none, some, List, [], ◌∷◌, if◌then◌else◌,
  length, str_eq, eq_iff, arith, refl, Bool-cases, inl, inr,
}
use iot_billing_backend.Common.Dict.{get, get-put, get-delete}
use iot_billing_backend.Pool.{
  Verdict, connect_failed, setup_failed, Stage, connecting, setting_up, InFlight, Proxy, new_proxy,
  count_in, get_tenant_active_count,
}
use iot_billing_backend.Pool.Events.{
  settle, resume_at, resume_with, give_back, release_with, enqueue, connect, has_schema, leave,
  on_connected, grant, on_set_up, resume, find_client, remove_client, drop_active, release, Event,
  connects, resumes, releases, wakes, handle, handle_all,
}
use iot_billing_backend.Pool.Counts.{clients_of, holding, is_setup_failure, Counted}
use iot_billing_backend.Pool.Counts.Rounds.{next_round-Counted, process_queue-Counted}

grant-Counted :
    (f : InFlight) (p : Proxy)
    → p.in_flight ≡ some f
    → f.stage ≡ setting_up
    → Counted p
    → Counted (leave (grant f.request p))
unfolding get_tenant_active_count count_in
grant-Counted f p flies stage (each, ten, total, room, out) =
    let t = f.request.tenant_id in
    (
      (λ u. ground (
        arith,
        each u,
        each t,
        eq_iff t u,
        get-put t u (count_in t p.tenant_active + 1) p.tenant_active,
      )),
      (λ u. ground (arith, ten u, flies)),
      ground (arith, total),
      ground (arith, room, flies),
      ground (arith, out, flies, stage),
    )

settle-Counted :
    (v : Verdict) (f : InFlight) (p : Proxy)
    → p.in_flight ≡ some f
    → Counted p
    → is_setup_failure v ≡ holding (some f)
    → Counted (leave (settle v f.request p))
settle-Counted v f p flies (each, ten, total, room, out) h = (
  each,
  (λ u. ground (arith, ten u, flies)),
  total,
  ground (arith, room, flies),
  ground (arith, out, flies, h),
)

clients_of-remove :
    (u t : String) (id : ℕ) (cs : List (ℕ × String))
    → find_client id cs ≡ some t
    → (clients_of u (remove_client id cs) + (if str_eq t u then 1 else 0) ≡ clients_of u cs)
      × (length (remove_client id cs) + 1 ≡ length cs)
unfolding find_client remove_client
clients_of-remove u t id [] e = cc
clients_of-remove u t id ((j, w) ∷ cs) e =
    (ground (arith, e, clients_of-remove u t id cs), ground (arith, e, clients_of-remove u t id cs))

count_in-drop_active :
    (t u : String) (p : Proxy)
    → count_in u (drop_active t p) ≡ count_in u p.tenant_active - (if str_eq t u then 1 else 0)
unfolding get_tenant_active_count count_in
count_in-drop_active t u p = ground (
  arith,
  eq_iff t u,
  get-put t u (count_in t p.tenant_active - 1) p.tenant_active,
  get-delete t u p.tenant_active,
)

on_connected-Counted :
    (came : Bool) (now : ℕ) (f : InFlight) (p : Proxy)
    → p.in_flight ≡ some f
    → f.stage ≡ connecting
    → Counted p
    → Counted (on_connected came now f p)
unfolding on_connected
on_connected-Counted false now f p flies stage h =
    next_round-Counted now (leave (settle connect_failed f.request p)) refl
      (settle-Counted connect_failed f p flies h (ground (arith, stage)))
on_connected-Counted true now f p flies stage (each, ten, total, room, out) =
    elim (Bool-cases (has_schema f.request.tenant_id)) [
      | inl named ↦ rw (named) (
        each,
        (λ u. ground (arith, ten u, flies)),
        total,
        ground (arith, room, flies),
        ground (arith, out, flies, stage),
      )
      | inr unnamed ↦ rw (unnamed) (
          next_round-Counted now
            (leave (settle setup_failed f.request (record p { checked_out = p.checked_out + 1 })))
            refl
            (
              each,
              (λ u. ground (arith, ten u, flies)),
              total,
              ground (arith, room, flies),
              ground (arith, out, flies, stage),
            ))
    ]

on_set_up-Counted :
    (done : Bool) (now : ℕ) (f : InFlight) (p : Proxy)
    → p.in_flight ≡ some f
    → f.stage ≡ setting_up
    → Counted p
    → Counted (on_set_up done now f p)
unfolding on_set_up
on_set_up-Counted true now f p flies stage h =
    next_round-Counted now (leave (grant f.request p)) refl (grant-Counted f p flies stage h)
on_set_up-Counted false now f p flies stage h =
    next_round-Counted now (leave (settle setup_failed f.request p)) refl
      (settle-Counted setup_failed f p flies h (ground (arith, stage)))

resume_at-Counted :
    (s : Stage) (f : InFlight) (came : Bool) (now : ℕ) (p : Proxy)
    → p.in_flight ≡ some f
    → f.stage ≡ s
    → Counted p
    → Counted (resume_at s f came now p)
unfolding resume_at
resume_at-Counted connecting f came now p e s_is h = on_connected-Counted came now f p e s_is h
resume_at-Counted setting_up f came now p e s_is h = on_set_up-Counted came now f p e s_is h

resume_with-Counted :
    (o : Option InFlight) (came : Bool) (now : ℕ) (p : Proxy)
    → p.in_flight ≡ o
    → Counted p
    → Counted (resume_with o came now p)
unfolding resume_with
resume_with-Counted none came now p e h = h
resume_with-Counted (some f) came now p e h = resume_at-Counted f.stage f came now p e refl h

resume-Counted : (came : Bool) (now : ℕ) (p : Proxy) → Counted p → Counted (resume came now p)
unfolding resume
resume-Counted came now p h = resume_with-Counted p.in_flight came now p refl h

give_back-Counted :
    (id : ℕ) (t : String) (p : Proxy)
    → find_client id p.outstanding ≡ some t
    → Counted p
    → Counted (give_back id t p)
give_back-Counted id t p e (each, ten, total, room, out) = (
  (λ u.
      ground (arith, each u, count_in-drop_active t u p, clients_of-remove u t id p.outstanding e)),
  (λ u. ground (arith, ten u, clients_of-remove u t id p.outstanding e)),
  ground (arith, total, clients_of-remove t t id p.outstanding e),
  ground (arith, room, clients_of-remove t t id p.outstanding e),
  ground (arith, out, clients_of-remove t t id p.outstanding e),
)

release_with-Counted :
    (o : Option String) (id now : ℕ) (p : Proxy)
    → find_client id p.outstanding ≡ o
    → Counted p
    → Counted (release_with o id now p)
unfolding release_with
release_with-Counted none id now p e h = h
release_with-Counted (some t) id now p e h =
    process_queue-Counted now (give_back id t p) (give_back-Counted id t p e h)

release-Counted : (id now : ℕ) (p : Proxy) → Counted p → Counted (release id now p)
unfolding release
release-Counted id now p h = release_with-Counted (find_client id p.outstanding) id now p refl h

handle-Counted : (e : Event) (p : Proxy) → Counted p → Counted (handle e p)
unfolding handle connect
handle-Counted (connects id t now) p h = process_queue-Counted now (enqueue id t now p) h
handle-Counted (resumes came now) p h = resume-Counted came now p h
handle-Counted (releases id now) p h = release-Counted id now p h
handle-Counted (wakes now) p h = process_queue-Counted now p h

handle_all-Counted_from : (es : List Event) (p : Proxy) → Counted p → Counted (handle_all es p)
unfolding handle_all
handle_all-Counted_from [] p h = h
handle_all-Counted_from (e ∷ es) p h =
    handle_all-Counted_from es (handle e p) (handle-Counted e p h)

-- Whatever connects, settled `await`s, releases and timers come in whatever order: each tenant's
-- count is that of its unreleased clients and, with the request on its way, at most 10; the global
-- count is that of all unreleased clients and, with the request on its way, at most the maximum.
-- The clients that pg misses are the unreleased ones, the one in hand, and one more for every
-- request whose set-up failed: those are never given back.
pub handle_all-Counted :
    (global_max : ℕ) (has_pool : Bool) (es : List Event)
    → Counted (handle_all es (new_proxy global_max has_pool))
unfolding count_in get
handle_all-Counted global_max has_pool es =
    handle_all-Counted_from es (new_proxy global_max has_pool)
      (λ t. refl, λ t. omega arith, refl, omega arith, refl)
