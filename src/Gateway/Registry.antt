-- ===== src/Gateway/Registry.antt =====
-- gateway/registry.py: the workers that the gateway knows and the state machine of their health.
pub mod Health
pub mod Thresholds
pub mod Gauge
mod Tests
use distributed_model_server.Prelude.{
  ℕ, ◌+◌, Text, Bool, true, false, ◌&&◌, List, [], ◌∷◌, map, Option, none, some, text_eq, leb,
  any_by, if◌then◌else◌,
}
use distributed_model_server.Protocol.{WorkerState, StatusResponse}
use distributed_model_server.Gateway.Config.{GatewayConfig}
use distributed_model_server.Gateway.Events.{
  Event, healthy_set, logged, worker_marked_unhealthy, worker_healthy, worker_recovered,
  worker_ejected,
}

pub data HealthState : Type 0 where
  starting healthy unhealthy draining : HealthState

-- `connected` says whether `channel` and `stub`, which are set and cleared together, are there.
pub record WorkerNode : Type 0 where
  pub worker_id : Text
  pub address : Text
  pub state : HealthState
  pub outstanding_requests : ℕ
  pub consecutive_failures : ℕ
  pub consecutive_successes : ℕ
  pub last_successful_check : ℕ
  pub connected : Bool

unfoldable pub new_node : Text × Text → WorkerNode
new_node (wid, addr) = record {
  worker_id = wid;
  address = addr;
  state = starting;
  outstanding_requests = 0;
  consecutive_failures = 0;
  consecutive_successes = 0;
  last_successful_check = 0;
  connected = false;
}

unfoldable pub get_stub : WorkerNode → WorkerNode
get_stub w = record w { connected = true }

unfoldable pub close : WorkerNode → WorkerNode
close w = record w { connected = false }

-- `state == HealthState.HEALTHY`
abbrev pub is_healthy : HealthState → Bool
is_healthy healthy = true
is_healthy _ = false

abbrev pub is_starting : HealthState → Bool
is_starting starting = true
is_starting _ = false

abbrev pub is_unhealthy : HealthState → Bool
is_unhealthy unhealthy = true
is_unhealthy _ = false

abbrev pub reports_draining : WorkerState → Bool
reports_draining WorkerState.draining = true
reports_draining _ = false

-- `state in (WORKER_STATE_READY, WORKER_STATE_STARTING)`
abbrev reports_usable : WorkerState → Bool
reports_usable WorkerState.ready = true
reports_usable WorkerState.starting = true
reports_usable _ = false

-- `workers`, a dict by worker id in insertion order.
abbrev pub Workers : Type 0
Workers = List WorkerNode

-- `workers.get(worker_id)`
unfoldable pub find_worker : Text → Workers → Option WorkerNode
find_worker wid [] = none
find_worker wid (w ∷ ws) = if text_eq w.worker_id wid then some w else find_worker wid ws

-- A write through the object that `workers[worker_id]` refers to.
unfoldable pub update_worker : Text → (WorkerNode → WorkerNode) → Workers → Workers
update_worker wid f [] = []
update_worker wid f (w ∷ ws) =
    if text_eq w.worker_id wid then f w ∷ ws else w ∷ update_worker wid f ws

unfoldable pub new_workers : GatewayConfig → Workers
unfolding new_node
new_workers c = map new_node c.workers

unfoldable pub is_any_worker_healthy : Workers → Bool
is_any_worker_healthy ws = any_by (λ w. is_healthy w.state) ws

-- A method on one worker returns the worker and the events that it emitted, newest first.
abbrev pub Emits : Type 0 → Type 0
Emits A = A × List Event

-- The body of `mark_unhealthy_immediately` once the worker was found.
unfoldable pub mark_unhealthy : GatewayConfig → WorkerNode → Emits WorkerNode
mark_unhealthy c w =
    if is_healthy w.state
    then (
      record w {
        state = unhealthy;
        consecutive_failures = c.health_failure_threshold;
        consecutive_successes = 0;
      },
      logged worker_marked_unhealthy w.worker_id ∷ healthy_set w.worker_id 0 ∷ [],
    )
    else (w, [])

unfoldable pub record_probe_failure : GatewayConfig → WorkerNode → Emits WorkerNode
record_probe_failure c w =
    let failed : WorkerNode = record w {
      consecutive_successes = 0;
      consecutive_failures = w.consecutive_failures + 1;
    } in
    if is_healthy w.state && leb c.health_failure_threshold (w.consecutive_failures + 1)
    then (
      record failed { state = unhealthy },
      logged worker_ejected w.worker_id ∷ healthy_set w.worker_id 0 ∷ [],
    )
    else (failed, [])

-- What `await stub.GetStatus(…)` came to.
pub data ProbeReply : Type 0 where
  status : StatusResponse → ProbeReply
  rpc_error : ProbeReply

abbrev pub is_compatible : GatewayConfig → StatusResponse → Bool
is_compatible c r =
    text_eq r.model_version c.model_version
    && (text_eq r.model_sha256 c.model_sha256 && reports_usable r.state)

record_probe_success : GatewayConfig → ℕ → WorkerNode → Emits WorkerNode
record_probe_success c now w =
    let seen : WorkerNode = record w {
      consecutive_failures = 0;
      consecutive_successes = w.consecutive_successes + 1;
      last_successful_check = now;
    } in
    if is_starting w.state && leb 1 (w.consecutive_successes + 1)
    then (
      record seen { state = healthy },
      logged worker_healthy w.worker_id ∷ healthy_set w.worker_id 1 ∷ [],
    )
    else if is_unhealthy w.state && leb c.health_recovery_threshold (w.consecutive_successes + 1)
    then (
      record seen { state = healthy },
      logged worker_recovered w.worker_id ∷ healthy_set w.worker_id 1 ∷ [],
    )
    else (seen, [])

-- The rest of one round of `_poll_worker_health`, from the reply to the sleep, at loop time `now`.
-- `get_stub` ran before the call.
unfoldable pub probe : GatewayConfig → ℕ → ProbeReply → WorkerNode → Emits WorkerNode
unfolding record_probe_failure record_probe_success get_stub
probe c now rpc_error w = record_probe_failure c (get_stub w)
probe c now (status r) w =
    if reports_draining r.state
    then (
      record (get_stub w) { state = draining; consecutive_failures = 0; consecutive_successes = 0 },
      healthy_set w.worker_id 0 ∷ [],
    )
    else if is_compatible c r
    then record_probe_success c now (get_stub w)
    else record_probe_failure c (get_stub w)
