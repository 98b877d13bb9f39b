-- ===== src/Pool/Events.antt =====
-- TenantAwarePoolProxy: `connect`, the stretches of `processQueue` and the `release` of a client.
use iot_billing_backend.Common.{
  ℕ, ◌+◌, ◌-◌, String, Bool, true, false, Option, none, some, List, [], ◌∷◌, ◌++◌, leb, ◌==◌,
  if◌then◌else◌, map,
}
use iot_billing_backend.Common.Dict.{Dict, put, delete}
use iot_billing_backend.Common.Result.{ok, throws}
use iot_billing_backend.Events.LockId.{codes}
use iot_billing_backend.Pool.{
  Waiting, Verdict, granted, timed_out, connect_failed, setup_failed, no_pool, Stage, connecting,
  setting_up, InFlight, Proxy, get_tenant_active_count, connection_wait_timeout_ms,
}
use iot_billing_backend.Pool.Schema.{tenant_schema_name}
use iot_billing_backend.Pool.Picking.{includes, compact_fair_order, pick_next_request}

abbrev pub settle : Verdict → Waiting → Proxy → Proxy
settle v r p = record p { settled = (r.id, v) ∷ p.settled }

-- rejectTimedOut: what stays in the queue, and what is rejected.
unfoldable pub still_waiting : ℕ → List Waiting → List Waiting
still_waiting now [] = []
still_waiting now (r ∷ rs) =
    let rest = still_waiting now rs in
    if leb connection_wait_timeout_ms (now - r.enqueued_at) then rest else r ∷ rest

unfoldable pub expired : ℕ → List Waiting → List (ℕ × Verdict)
expired now [] = []
expired now (r ∷ rs) =
    let rest = expired now rs in
    if leb connection_wait_timeout_ms (now - r.enqueued_at) then (r.id, timed_out) ∷ rest else rest

unfoldable pub reject_timed_out : ℕ → Proxy → Proxy
unfolding still_waiting expired
reject_timed_out now p = record p {
  wait_queue = still_waiting now p.wait_queue;
  fair_order = compact_fair_order (still_waiting now p.wait_queue) p.fair_order;
  settled = expired now p.wait_queue ++ p.settled;
}

-- `splice` of one request.
unfoldable pub remove_waiting : ℕ → List Waiting → List Waiting
remove_waiting id [] = []
remove_waiting id (r ∷ rs) = let rest = remove_waiting id rs in if r.id == id then rs else r ∷ rest

abbrev pub take_request : Waiting → Proxy → Proxy
take_request r p = record p {
  wait_queue = remove_waiting r.id p.wait_queue;
  fair_order = compact_fair_order (remove_waiting r.id p.wait_queue) p.fair_order;
  in_flight = some (record { request = r; stage = connecting });
}

abbrev pub dispatch : Option Waiting → Proxy → Proxy
dispatch none p = p
dispatch (some r) p = take_request r p

abbrev pub is_empty : List Waiting → Bool
is_empty [] = true
is_empty (r ∷ rs) = false

-- The `while` loop up to its first `await`, or to its end. The loop's own tests of an empty queue
-- are `pick_next_request`'s: it finds nothing there.
unfoldable pub next_round : ℕ → Proxy → Proxy
unfolding reject_timed_out
next_round now p =
    if is_empty p.wait_queue
    then p
    else (let p' = reject_timed_out now p in dispatch (pick_next_request p') p')

-- `processQueue` by what is on its way and whether there is a pool. While it runs already it
-- returns; a missing pool rejects everything.
unfoldable pub process_with : Option InFlight → Bool → ℕ → Proxy → Proxy
unfolding next_round
process_with (some f) has_pool now p = p
process_with none true now p = next_round now p
process_with none false now p = record p {
  wait_queue = [];
  fair_order = [];
  settled = map (λ r. (r.id, no_pool)) p.wait_queue ++ p.settled;
}

unfoldable pub process_queue : ℕ → Proxy → Proxy
unfolding process_with
process_queue now p = process_with p.in_flight p.has_pool now p

abbrev pub enqueue : ℕ → String → ℕ → Proxy → Proxy
enqueue id t now p = record p {
  wait_queue = p.wait_queue ++ (record { id = id; tenant_id = t; enqueued_at = now }) ∷ [];
  fair_order = if includes p.fair_order t then p.fair_order else p.fair_order ++ t ∷ [];
}

unfoldable pub connect : ℕ → String → ℕ → Proxy → Proxy
unfolding process_queue
connect id t now p = process_queue now (enqueue id t now p)

-- Whether `tenantSchemaName` returns.
abbrev pub has_schema : String → Bool
has_schema t = elim (tenant_schema_name (codes t)) [ ok s ↦ true | throws e ↦ false ]

abbrev pub leave : Proxy → Proxy
leave p = record p { in_flight = none }

-- `pool.connect()` settles. A client for a tenant without a schema is not given back.
unfoldable pub on_connected : Bool → ℕ → InFlight → Proxy → Proxy
unfolding next_round
on_connected came now f p =
    if came
    then (let p' = record p { checked_out = p.checked_out + 1 } in
        if has_schema f.request.tenant_id
        then record p' { in_flight = some (record f { stage = setting_up }) }
        else next_round now (leave (settle setup_failed f.request p')))
    else next_round now (leave (settle connect_failed f.request p))

abbrev pub grant : Waiting → Proxy → Proxy
grant r p = record p {
  global_active = p.global_active + 1;
  tenant_active = put r.tenant_id (get_tenant_active_count r.tenant_id p + 1) p.tenant_active;
  outstanding = (r.id, r.tenant_id) ∷ p.outstanding;
  settled = (r.id, granted) ∷ p.settled;
}

-- The query that sets the search path settles. Where it fails, the client is not given back.
unfoldable pub on_set_up : Bool → ℕ → InFlight → Proxy → Proxy
unfolding next_round
on_set_up done now f p =
    if done
    then next_round now (leave (grant f.request p))
    else next_round now (leave (settle setup_failed f.request p))

-- What the current `await` gives, where `processQueue` waits.
unfoldable pub resume_at : Stage → InFlight → Bool → ℕ → Proxy → Proxy
unfolding on_connected on_set_up
resume_at connecting f came now p = on_connected came now f p
resume_at setting_up f came now p = on_set_up came now f p

unfoldable pub resume_with : Option InFlight → Bool → ℕ → Proxy → Proxy
unfolding resume_at
resume_with none came now p = p
resume_with (some f) came now p = resume_at f.stage f came now p

unfoldable pub resume : Bool → ℕ → Proxy → Proxy
unfolding resume_with
resume came now p = resume_with p.in_flight came now p

-- The tenant of a granted client that was not released yet, and the rest of them.
unfoldable pub find_client : ℕ → List (ℕ × String) → Option String
find_client id [] = none
find_client id ((j, t) ∷ cs) = let rest = find_client id cs in if j == id then some t else rest

unfoldable pub remove_client : ℕ → List (ℕ × String) → List (ℕ × String)
remove_client id [] = []
remove_client id ((j, t) ∷ cs) =
    let rest = remove_client id cs in if j == id then cs else (j, t) ∷ rest

abbrev pub drop_active : String → Proxy → Dict ℕ
drop_active t p =
    let current = get_tenant_active_count t p in
    if leb current 1 then delete t p.tenant_active else put t (current - 1) p.tenant_active

abbrev pub give_back : ℕ → String → Proxy → Proxy
give_back id t p = record p {
  global_active = p.global_active - 1;
  tenant_active = drop_active t p;
  outstanding = remove_client id p.outstanding;
  checked_out = p.checked_out - 1;
}

-- The first `release` of a granted client; of a later one the proxy takes no notice.
unfoldable pub release_with : Option String → ℕ → ℕ → Proxy → Proxy
unfolding process_queue
release_with none id now p = p
release_with (some t) id now p = process_queue now (give_back id t p)

unfoldable pub release : ℕ → ℕ → Proxy → Proxy
unfolding release_with
release id now p = release_with (find_client id p.outstanding) id now p

pub data Event : Type 0 where
  connects : ℕ → String → ℕ → Event
  resumes : Bool → ℕ → Event
  releases : ℕ → ℕ → Event
  wakes : ℕ → Event

unfoldable pub handle : Event → Proxy → Proxy
handle (connects id t now) p = connect id t now p
handle (resumes came now) p = resume came now p
handle (releases id now) p = release id now p
handle (wakes now) p = process_queue now p

unfoldable pub handle_all : List Event → Proxy → Proxy
handle_all [] p = p
handle_all (e ∷ es) p = handle_all es (handle e p)
