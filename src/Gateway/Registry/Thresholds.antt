-- ===== src/Gateway/Registry/Thresholds.antt =====
-- How many probes in a row eject a worker and how many bring it back.
use distributed_model_server.Prelude.{
  ℕ, ◌+◌, ◌<◌, ◌≡◌, refl, true, false, List, [], ◌∷◌, arith, length, leb, if◌then◌else◌,
}
use distributed_model_server.Gateway.Config.{GatewayConfig}
use distributed_model_server.Gateway.Registry.{
  healthy, unhealthy, WorkerNode, ProbeReply, status, rpc_error, probe, is_compatible,
  reports_draining, record_probe_failure, record_probe_success, get_stub,
}
use distributed_model_server.Gateway.Registry.Health.{
  HealthWrite, probed, marked, write_health, run_health,
}

-- The call failed, or the worker that answered is not draining and not compatible.
abbrev pub IsFailing : GatewayConfig → ProbeReply → Type 0
IsFailing c rpc_error = Unit
IsFailing c (status r) = (reports_draining r.state ≡ false) × (is_compatible c r ≡ false)

-- The worker answered with the expected model and with a state in which it counts as usable.
abbrev pub IsPassing : GatewayConfig → ProbeReply → Type 0
IsPassing c rpc_error = ⊥
IsPassing c (status r) = (reports_draining r.state ≡ false) × (is_compatible c r ≡ true)

-- Probes alone, each of them with a reply in `P`.
abbrev pub OnlyProbes : (ProbeReply → Type 0) → List HealthWrite → Type 0
OnlyProbes P [] = Unit
OnlyProbes P (probed now r ∷ xs) = P r × OnlyProbes P xs
OnlyProbes P (marked ∷ xs) = ⊥

module _ (c : GatewayConfig) (now : ℕ) (w : WorkerNode) where
  probe_failing :
      (r : ProbeReply) → IsFailing c r → probe c now r w ≡ record_probe_failure c (get_stub w)
  unfolding probe
  probe_failing rpc_error h = refl
  probe_failing (status r) h = ground arith

  probe_passing :
      (r : ProbeReply) → IsPassing c r → probe c now r w ≡ record_probe_success c now (get_stub w)
  unfolding probe
  probe_passing rpc_error h = elim h [ ]
  probe_passing (status r) h = ground arith

  failing_unhealthy :
      (r : ProbeReply) → IsFailing c r → w.state ≡ unhealthy → (probe c now r w).0.state ≡ unhealthy
  unfolding record_probe_failure get_stub
  failing_unhealthy r h u = ground (arith, probe_failing r h)

  failing_healthy :
      (r : ProbeReply)
      → IsFailing c r
      → w.state ≡ healthy
      → ((probe c now r w).0.state ≡ (
          if leb c.health_failure_threshold (w.consecutive_failures + 1)
          then unhealthy
          else healthy))
        × ((probe c now r w).0.consecutive_failures ≡ w.consecutive_failures + 1)
  unfolding record_probe_failure get_stub
  failing_healthy r h u = ground (arith, probe_failing r h)

  passing_healthy :
      (r : ProbeReply) → IsPassing c r → w.state ≡ healthy → (probe c now r w).0.state ≡ healthy
  unfolding record_probe_success get_stub
  passing_healthy r h u = ground (arith, probe_passing r h)

  passing_unhealthy :
      (r : ProbeReply)
      → IsPassing c r
      → w.state ≡ unhealthy
      → ((probe c now r w).0.state ≡ (
          if leb c.health_recovery_threshold (w.consecutive_successes + 1)
          then healthy
          else unhealthy))
        × ((probe c now r w).0.consecutive_successes ≡ w.consecutive_successes + 1)
  unfolding record_probe_success get_stub
  passing_unhealthy r h u = ground (arith, probe_passing r h)

module _ (c : GatewayConfig) where
  run_failing_unhealthy :
      (xs : List HealthWrite) (w : WorkerNode)
      → OnlyProbes (IsFailing c) xs
      → w.state ≡ unhealthy
      → (run_health c xs w).state ≡ unhealthy
  unfolding run_health write_health
  run_failing_unhealthy [] w h u = u
  run_failing_unhealthy (probed now r ∷ xs) w h u =
      run_failing_unhealthy xs _ h.1 (failing_unhealthy c now w r h.0 u)
  run_failing_unhealthy (marked ∷ xs) w h u = elim h [ ]

  run_passing_healthy :
      (xs : List HealthWrite) (w : WorkerNode)
      → OnlyProbes (IsPassing c) xs
      → w.state ≡ healthy
      → (run_health c xs w).state ≡ healthy
  unfolding run_health write_health
  run_passing_healthy [] w h u = u
  run_passing_healthy (probed now r ∷ xs) w h u =
      run_passing_healthy xs _ h.1 (passing_healthy c now w r h.0 u)
  run_passing_healthy (marked ∷ xs) w h u = elim h [ ]

  -- A healthy worker that fails probes in a row is unhealthy exactly when the probes and the failures
  -- that it had before reach the failure threshold; below the threshold it stays healthy.
  pub run_health_ejection :
      (xs : List HealthWrite) (w : WorkerNode)
      → OnlyProbes (IsFailing c) xs
      → w.state ≡ healthy
      → w.consecutive_failures < c.health_failure_threshold
      → (run_health c xs w).state ≡ (
          if leb c.health_failure_threshold (w.consecutive_failures + length xs)
          then unhealthy
          else healthy)
  unfolding run_health write_health
  run_health_ejection [] w h u b = ground arith
  run_health_ejection (probed now r ∷ xs) w h u b = ground (
    arith,
    failing_healthy c now w r h.0 u,
    run_health_ejection xs (probe c now r w).0 h.1,
    run_failing_unhealthy xs (probe c now r w).0 h.1,
  )
  run_health_ejection (marked ∷ xs) w h u b = elim h [ ]

  -- An unhealthy worker that passes probes in a row is healthy exactly when the probes and the
  -- successes that it had before reach the recovery threshold; below it the worker stays unhealthy.
  pub run_health_recovery :
      (xs : List HealthWrite) (w : WorkerNode)
      → OnlyProbes (IsPassing c) xs
      → w.state ≡ unhealthy
      → w.consecutive_successes < c.health_recovery_threshold
      → (run_health c xs w).state ≡ (
          if leb c.health_recovery_threshold (w.consecutive_successes + length xs)
          then healthy
          else unhealthy)
  unfolding run_health write_health
  run_health_recovery [] w h u b = ground arith
  run_health_recovery (probed now r ∷ xs) w h u b = ground (
    arith,
    passing_unhealthy c now w r h.0 u,
    run_health_recovery xs (probe c now r w).0 h.1,
    run_passing_healthy xs (probe c now r w).0 h.1,
  )
  run_health_recovery (marked ∷ xs) w h u b = elim h [ ]
