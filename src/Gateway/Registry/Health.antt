-- ===== src/Gateway/Registry/Health.antt =====
-- The writes to a worker's health in the order in which the event loop runs them, and the transitions
-- that they may make.
use distributed_model_server.Prelude.{ℕ, ◌≤◌, ◌<◌, ◌≡◌, ◌⊎◌, List, [], ◌∷◌, arith}
use distributed_model_server.Gateway.Config.{GatewayConfig}
use distributed_model_server.Gateway.Registry.{
  HealthState, starting, healthy, unhealthy, draining, WorkerNode, ProbeReply, status, rpc_error,
  Emits, probe, mark_unhealthy, record_probe_failure, record_probe_success, get_stub,
}

-- A round of the poller that got its reply at loop time `now`, or a prediction that found the worker
-- unavailable.
pub data HealthWrite : Type 0 where
  probed : ℕ → ProbeReply → HealthWrite
  marked : HealthWrite

unfoldable pub write_health : GatewayConfig → HealthWrite → WorkerNode → Emits WorkerNode
unfolding probe mark_unhealthy
write_health c (probed now reply) w = probe c now reply w
write_health c marked w = mark_unhealthy c w

unfoldable pub run_health : GatewayConfig → List HealthWrite → WorkerNode → WorkerNode
run_health c [] w = w
run_health c (x ∷ xs) w = run_health c xs (write_health c x w).0

-- The arrows of the health state machine.
pub data Transition (s t : HealthState) : Type 0 where
  stay : t ≡ s → Transition s t
  start_up : s ≡ starting → t ≡ healthy → Transition s t
  eject : s ≡ healthy → t ≡ unhealthy → Transition s t
  recover : s ≡ unhealthy → t ≡ healthy → Transition s t
  drain : t ≡ draining → Transition s t

pub record IsWellFormed (c : GatewayConfig) (w : WorkerNode) : Type 0 where
  pub one_streak : (w.consecutive_failures ≡ 0) ⊎ (w.consecutive_successes ≡ 0)
  pub starting_unseen : w.state ≡ starting → w.consecutive_successes ≡ 0
  pub healthy_below : w.state ≡ healthy → w.consecutive_failures < c.health_failure_threshold
  pub unhealthy_below : w.state ≡ unhealthy → w.consecutive_successes < c.health_recovery_threshold

module _ (c : GatewayConfig) (w : WorkerNode) where
  record_probe_failure-IsWellFormed :
      1 ≤ c.health_recovery_threshold
      → IsWellFormed c w
      → IsWellFormed c (record_probe_failure c (get_stub w)).0
  unfolding record_probe_failure get_stub
  record_probe_failure-IsWellFormed hr v = ground arith

  record_probe_success-IsWellFormed :
      (now : ℕ)
      → 1 ≤ c.health_failure_threshold
      → IsWellFormed c w
      → IsWellFormed c (record_probe_success c now (get_stub w)).0
  unfolding record_probe_success get_stub
  record_probe_success-IsWellFormed now hf v = ground arith

-- With thresholds of at least one, every write to a worker's health keeps the counters consistent with its state: one of the two streaks
-- is empty, and each lies below the threshold at which the state would have changed.
pub write_health-IsWellFormed :
    (c : GatewayConfig) (x : HealthWrite) (w : WorkerNode)
    → 1 ≤ c.health_failure_threshold
    → 1 ≤ c.health_recovery_threshold
    → IsWellFormed c w
    → IsWellFormed c (write_health c x w).0
unfolding write_health
write_health-IsWellFormed c (probed now (status r)) w hf hr v = ground (
  arith,
  record_probe_failure-IsWellFormed c w hr v,
  record_probe_success-IsWellFormed c w now hf v,
)
write_health-IsWellFormed c (probed now rpc_error) w hf hr v =
    record_probe_failure-IsWellFormed c w hr v
write_health-IsWellFormed c marked w hf hr v = ground arith

-- Every write to a worker's health follows an arrow of the state machine.
pub write_health-Transition :
    (c : GatewayConfig) (x : HealthWrite) (w : WorkerNode)
    → Transition w.state (write_health c x w).0.state
unfolding write_health record_probe_failure record_probe_success get_stub
write_health-Transition c (probed now (status r)) w =
    grind (arith, stay, start_up, eject, recover, drain)
write_health-Transition c (probed now rpc_error) w =
    grind (arith, stay, start_up, eject, recover, drain)
write_health-Transition c marked w = grind (arith, stay, start_up, eject, recover, drain)

-- Probes and marks leave the identity, the address and the reservations of a worker alone.
pub write_health_frame :
    (c : GatewayConfig) (x : HealthWrite) (w : WorkerNode)
    → ((write_health c x w).0.worker_id ≡ w.worker_id)
      × ((write_health c x w).0.address ≡ w.address)
      × ((write_health c x w).0.outstanding_requests ≡ w.outstanding_requests)
unfolding write_health record_probe_failure record_probe_success get_stub
write_health_frame c (probed now (status r)) w = ground arith
write_health_frame c (probed now rpc_error) w = ground arith
write_health_frame c marked w = ground arith

write_health_draining :
    (c : GatewayConfig) (x : HealthWrite) (w : WorkerNode)
    → w.state ≡ draining
    → (write_health c x w).0.state ≡ draining
unfolding write_health record_probe_failure record_probe_success get_stub
write_health_draining c (probed now (status r)) w h = ground arith
write_health_draining c (probed now rpc_error) w h = ground arith
write_health_draining c marked w h = ground arith

-- No sequence of replies to probes and of markings takes a worker out of `draining`.
pub run_health_draining :
    (c : GatewayConfig) (xs : List HealthWrite) (w : WorkerNode)
    → w.state ≡ draining
    → (run_health c xs w).state ≡ draining
unfolding run_health
run_health_draining c [] w h = h
run_health_draining c (x ∷ xs) w h = run_health_draining c xs _ (write_health_draining c x w h)
