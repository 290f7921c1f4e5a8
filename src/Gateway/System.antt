-- ===== src/Gateway/System.antt =====
-- The event loop of the gateway: its steps run one at a time and between them any task may come next, so
-- a run is a sequence of steps. A step is a prediction up to its next await, a write to the health of a
-- worker, or the start or stop of the registry.
pub mod Conservation
pub mod Boot
use distributed_model_server.Prelude.{
  remove_at, ℕ, zero, suc, ◌+◌, Text, List, [], ◌∷◌, Option, none, some, get_elem?,
}
use distributed_model_server.Protocol.{PredictRequest}
use distributed_model_server.Gateway.Config.{GatewayConfig}
use distributed_model_server.Gateway.Registry.Health.{HealthWrite, write_health}
use distributed_model_server.Gateway.State.{GatewayState, init, start, stop, on_worker}
use distributed_model_server.Gateway.Client.{
  Call, Reply, Progress, waiting, finished, begin, resume,
}

-- The gateway and the predictions that wait for an RPC.
pub record System : Type 0 where
  pub gateway : GatewayState
  pub calls : List Call

pub data Step : Type 0 where
  -- a prediction starts: request, timeout in milliseconds, the two readings of the clock
  arrives : PredictRequest → ℕ → ℕ → ℕ → Step
  -- the RPC of the waiting prediction at this position ends
  replies : ℕ → Reply → ℕ → ℕ → Step
  -- a poller gets a reply, or another prediction marks the worker
  writes : Text → HealthWrite → Step
  starts stops : Step

abbrev pub add_waiting : Progress → List Call → List Call
add_waiting (waiting k) ks = k ∷ ks
add_waiting (finished r) ks = ks

abbrev pub boot : GatewayConfig → System
boot c = record { gateway = init c; calls = [] }

settle : Progress × GatewayState → List Call → System
settle (p, g) ks = record { gateway = g; calls = add_waiting p ks }

unfoldable pub step : GatewayConfig → Step → System → System
unfolding settle begin resume on_worker write_health start stop
step c (arrives request timeout_ms t0 t1) s =
    settle (begin c request timeout_ms t0 t1 s.gateway) s.calls
step c (replies i reply t1 t2) s = elim (get_elem? s.calls i) [
  | none ↦ s
  | some k ↦ settle (resume c k reply t1 t2 s.gateway) (remove_at i s.calls)
]
step c (writes wid x) s = record s { gateway = on_worker wid (write_health c x) s.gateway }
step c starts s = record s { gateway = start s.gateway }
step c stops s = record s { gateway = stop s.gateway }

unfoldable pub run : GatewayConfig → List Step → System → System
unfolding step
run c [] s = s
run c (x ∷ xs) s = run c xs (step c x s)
