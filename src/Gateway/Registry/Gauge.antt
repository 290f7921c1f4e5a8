-- ===== src/Gateway/Registry/Gauge.antt =====
-- The gauge `gateway_worker_healthy` against the state that it shows.
use distributed_model_server.Prelude.{
  ℕ, Text, ◌≡◌, Bool, false, List, [], ◌∷◌, Option, none, some, arith, text_eq, text_eq_refl, ◌==◌,
  if◌then◌else◌,
}
use distributed_model_server.Gateway.Config.{GatewayConfig}
use distributed_model_server.Gateway.Events.{Event, healthy_set}
use distributed_model_server.Gateway.Registry.{
  is_healthy, WorkerNode, status, rpc_error, record_probe_failure, record_probe_success, get_stub,
}
use distributed_model_server.Gateway.Registry.Health.{HealthWrite, probed, marked, write_health}

-- The value of a worker's gauge after some events, newest first, if it was `old` before them.
abbrev pub gauge : Text → List Event → Option ℕ → Option ℕ
gauge wid [] old = old
gauge wid (healthy_set v n ∷ es) old = if text_eq v wid then some n else gauge wid es old
gauge wid (_ ∷ es) old = gauge wid es old

-- A gauge that was never set shows nothing.
abbrev pub shows_healthy : Option ℕ → Bool
shows_healthy none = false
shows_healthy (some n) = n == 1

-- The gauge of a worker is 1 exactly while the worker is healthy: each write to its health leaves them
-- in agreement if they agreed before.
pub gauge-write_health :
    (c : GatewayConfig) (x : HealthWrite) (w : WorkerNode) (old : Option ℕ)
    → shows_healthy old ≡ is_healthy w.state
    → let (w', es) = write_health c x w in
      shows_healthy (gauge w.worker_id es old) ≡ is_healthy w'.state
unfolding write_health record_probe_failure record_probe_success get_stub
gauge-write_health c (probed now (status r)) w old h = ground (arith, text_eq_refl w.worker_id)
gauge-write_health c (probed now rpc_error) w old h = ground (arith, text_eq_refl w.worker_id)
gauge-write_health c marked w old h = ground (arith, text_eq_refl w.worker_id)
