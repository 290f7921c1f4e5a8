-- ===== src/Gateway/Registry/Tests.antt =====
-- Writes to the health of one worker.
use distributed_model_server.Prelude.{◌≡◌, refl, inl, codes, List, [], ◌∷◌, arith, text_eq, some}
use distributed_model_server.Protocol.{WorkerState}
use distributed_model_server.Gateway.Registry.{
  healthy, unhealthy, draining, status, rpc_error, is_healthy,
}
use distributed_model_server.Gateway.Registry.Health.{
  HealthWrite, probed, marked, write_health, run_health, IsWellFormed, Transition,
  write_health-IsWellFormed, write_health-Transition, write_health_frame, run_health_draining,
}
use distributed_model_server.Gateway.Registry.Thresholds.{run_health_ejection, run_health_recovery}
use distributed_model_server.Gateway.Registry.Gauge.{gauge, shows_healthy, gauge-write_health}
use distributed_model_server.Gateway.Samples.{config, reply_in, node}

abbrev probes : HealthWrite → List HealthWrite
probes x = x ∷ x ∷ x ∷ []

run_health_ejection_example :
    (run_health config (probes (probed 7 rpc_error)) (node healthy)).state ≡ unhealthy
run_health_ejection_example =
    run_health_ejection config (probes (probed 7 rpc_error)) (node healthy) (tt, (tt, (tt, tt)))
      refl (omega arith)

run_health_recovery_example :
    (run_health config
      (probes (probed 7 (status (reply_in WorkerState.ready))))
      (node unhealthy)).state
    ≡ healthy
unfolding text_eq
run_health_recovery_example =
    run_health_recovery config (probes (probed 7 (status (reply_in WorkerState.ready))))
      (node unhealthy) ((refl, refl), ((refl, refl), ((refl, refl), tt))) refl (omega arith)

run_health_draining_example :
    (run_health config
      (probes (probed 7 (status (reply_in WorkerState.ready))))
      (node draining)).state
    ≡ draining
run_health_draining_example =
    run_health_draining config (probes (probed 7 (status (reply_in WorkerState.ready))))
      (node draining) refl

marked_follows_arrow : Transition healthy (write_health config marked (node healthy)).0.state
marked_follows_arrow = write_health-Transition config marked (node healthy)

write_health-IsWellFormed_example :
    IsWellFormed config (write_health config (probed 7 rpc_error) (node healthy)).0
write_health-IsWellFormed_example =
    write_health-IsWellFormed config (probed 7 rpc_error) (node healthy) (omega arith) (omega arith)
      (record {
        one_streak = inl refl;
        starting_unseen = λ e. refl;
        healthy_below = λ e. omega arith;
        unhealthy_below = λ e. omega arith;
      })

write_health_frame_example :
    ((write_health config marked (node healthy)).0.worker_id ≡ codes "w1")
    × ((write_health config marked (node healthy)).0.address ≡ codes "w1:50051")
    × ((write_health config marked (node healthy)).0.outstanding_requests ≡ 1)
write_health_frame_example = write_health_frame config marked (node healthy)

gauge-write_health_example :
    let (w, es) = write_health config marked (node healthy) in
    shows_healthy (gauge (codes "w1") es (some 1)) ≡ is_healthy w.state
gauge-write_health_example = gauge-write_health config marked (node healthy) (some 1) refl
