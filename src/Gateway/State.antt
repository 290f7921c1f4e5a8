-- ===== src/Gateway/State.antt =====
-- The objects that the requests of one gateway share: the registry's workers (gateway/registry.py), the
-- scheduler's cursor (gateway/scheduler.py) and the trace of metrics and log lines, newest first.
-- A call that raises keeps what it wrote before.
use distributed_model_server.Prelude.{ℕ, Text, Bool, List, [], ◌++◌, map, none, some, false, true}
use distributed_model_server.Errors.{AppError}
use distributed_model_server.Gateway.Config.{GatewayConfig}
use distributed_model_server.Gateway.Events.{Event}
use distributed_model_server.Gateway.Registry.{
  Workers, WorkerNode, Emits, find_worker, update_worker, new_workers, mark_unhealthy, close,
}

pub record GatewayState : Type 0 where
  pub workers : Workers
  -- `_poller_tasks`, each task by the id of the worker that it polls
  pub pollers : List Text
  pub stopping : Bool
  pub cursor : ℕ
  pub trace : List Event

-- `crashed` is any exception that is no `AppError`, a cancellation included.
pub data Result {ℓ} (A : Type ℓ) : Type ℓ where
  ok : A → Result A
  raised : AppError → Result A
  crashed : Result A

abbrev pub Action : Type 0 → Type 0
Action A = GatewayState → Result A × GatewayState

unfoldable pub init : GatewayConfig → GatewayState
unfolding new_workers
init c = record { workers = new_workers c; pollers = []; stopping = false; cursor = 0; trace = [] }

unfoldable pub emit : List Event → GatewayState → GatewayState
emit es g = record g { trace = es ++ g.trace }

-- A method called on the worker object with this id, if there is one.
unfoldable pub on_worker : Text → (WorkerNode → Emits WorkerNode) → GatewayState → GatewayState
unfolding emit find_worker update_worker
on_worker wid f g = elim (find_worker wid g.workers) [
  | none ↦ g
  | some w ↦ emit (f w).1 (record g { workers = update_worker wid (λ _. (f w).0) g.workers })
]

-- `WorkerRegistry.mark_unhealthy_immediately`
unfoldable pub mark_unhealthy_immediately : GatewayConfig → Text → GatewayState → GatewayState
unfolding on_worker mark_unhealthy
mark_unhealthy_immediately c wid g = on_worker wid (mark_unhealthy c) g

-- `WorkerRegistry.start`
unfoldable pub start : GatewayState → GatewayState
start g = record g { stopping = false; pollers = g.pollers ++ map (λ w. w.worker_id) g.workers }

-- `WorkerRegistry.stop`, with the tasks gone that it cancelled and awaited.
unfoldable pub stop : GatewayState → GatewayState
unfolding close
stop g = record g { stopping = true; pollers = []; workers = map close g.workers }
