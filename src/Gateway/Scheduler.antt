-- ===== src/Gateway/Scheduler.antt =====
-- gateway/scheduler.py: least outstanding requests, ties broken by a rotating cursor. `_lock` is held
-- over code without an `await`, so a call of either method is one atomic step.
pub mod Least
pub mod Choice
pub mod Slots
pub mod Order
pub mod Rotation
use Prim.Native.Nat.{min}
use distributed_model_server.Prelude.{
  ℕ, ◌+◌, ◌-◌, ◌%◌, Text, Bool, not, ◌&&◌, List, [], ◌∷◌, ◌++◌, Option, none, some, text_eq,
  text_leb, ltb, ◌==◌, any_by, filter_by, length, get_elem?, if◌then◌else◌,
}
use distributed_model_server.Errors.{default_no_healthy_worker, default_gateway_at_capacity}
use distributed_model_server.Gateway.Config.{GatewayConfig}
use distributed_model_server.Gateway.Events.{Event, outstanding_set, routed}
use distributed_model_server.Gateway.Registry.{
  Workers, WorkerNode, is_healthy, Emits, find_worker, update_worker,
}
use distributed_model_server.Gateway.State.{
  GatewayState, Result, ok, raised, crashed, Action, on_worker,
}

-- `worker_id in exclude_ids`
unfoldable pub mem_id : Text → List Text → Bool
mem_id wid ids = any_by (text_eq wid) ids

unfoldable pub healthy_workers : Workers → Workers
healthy_workers ws = filter_by (λ w. is_healthy w.state) ws

unfoldable pub is_available : GatewayConfig → List Text → WorkerNode → Bool
unfolding mem_id
is_available c exclude w =
    not (mem_id w.worker_id exclude)
    && ltb w.outstanding_requests c.gateway_max_outstanding_per_worker

unfoldable pub least : ℕ → Workers → ℕ
least m [] = m
least m (w ∷ ws) = least (min m w.outstanding_requests) ws

-- `min(w.outstanding_requests for w in eligible)`
unfoldable pub min_outstanding : Workers → ℕ
unfolding least
min_outstanding [] = 0
min_outstanding (w ∷ ws) = least w.outstanding_requests ws

insert_by_id : WorkerNode → Workers → Workers
insert_by_id w [] = w ∷ []
insert_by_id w (v ∷ vs) =
    if text_leb w.worker_id v.worker_id then w ∷ v ∷ vs else v ∷ insert_by_id w vs

-- `candidates.sort(key=lambda w: w.worker_id)`
unfoldable pub sort_by_id : Workers → Workers
unfolding insert_by_id text_leb
sort_by_id [] = []
sort_by_id (w ∷ ws) = insert_by_id w (sort_by_id ws)

unfoldable pub candidates : Workers → Workers
unfolding sort_by_id min_outstanding
candidates eligible =
    sort_by_id (filter_by (λ w. w.outstanding_requests == min_outstanding eligible) eligible)

-- `candidates[self._cursor % len(candidates)]`, and the new cursor.
take_turn : ℕ → Workers → Result (WorkerNode × ℕ)
take_turn cursor cs = elim (get_elem? cs (cursor % length cs)) [
  | none ↦ crashed
  | some w ↦ ok (w, (cursor + 1) % length cs)
]

choose_eligible : ℕ → Workers → Result (WorkerNode × ℕ)
unfolding take_turn candidates
choose_eligible cursor [] = raised default_gateway_at_capacity
choose_eligible cursor (w ∷ ws) = take_turn cursor (candidates (w ∷ ws))

choose_healthy : GatewayConfig → List Text → ℕ → Workers → Result (WorkerNode × ℕ)
unfolding choose_eligible is_available
choose_healthy c exclude cursor [] = raised default_no_healthy_worker
choose_healthy c exclude cursor (w ∷ ws) =
    choose_eligible cursor (filter_by (is_available c exclude) (w ∷ ws))

-- The choice of `select_worker`, with its two guards.
unfoldable pub choose : GatewayConfig → List Text → ℕ → Workers → Result (WorkerNode × ℕ)
unfolding choose_healthy healthy_workers
choose c exclude cursor ws = choose_healthy c exclude cursor (healthy_workers ws)

abbrev pub add_request : WorkerNode → WorkerNode
add_request w = record w { outstanding_requests = w.outstanding_requests + 1 }

-- What `select_worker` writes once it has chosen.
unfoldable pub reserve : WorkerNode → ℕ → GatewayState → GatewayState
unfolding update_worker
reserve w cursor g = record g {
  workers = update_worker w.worker_id add_request g.workers;
  cursor = cursor;
  trace = routed w.worker_id ∷ outstanding_set w.worker_id (w.outstanding_requests + 1) ∷ g.trace;
}

unfoldable pub select_worker : GatewayConfig → List Text → Action WorkerNode
unfolding choose reserve
select_worker c exclude g = elim (choose c exclude g.cursor g.workers) [
  | ok (w, cursor) ↦ (ok (add_request w), reserve w cursor g)
  | raised e ↦ (raised e, g)
  | crashed ↦ (crashed, g)
]

-- The body of `release_worker` once the worker was found.
abbrev pub drop_request : WorkerNode → Emits WorkerNode
drop_request w =
    if ltb 0 w.outstanding_requests
    then (
      record w { outstanding_requests = w.outstanding_requests - 1 },
      outstanding_set w.worker_id (w.outstanding_requests - 1) ∷ [],
    )
    else (w, [])

unfoldable pub release_worker : Text → GatewayState → GatewayState
unfolding on_worker
release_worker wid g = on_worker wid drop_request g
