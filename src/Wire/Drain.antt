-- ===== src/Wire/Drain.antt =====
-- What a signal to a worker does at the gateway.
use distributed_model_server.Prelude.{ℕ, ◌≡◌, refl, Text, List, Option, arith}
use distributed_model_server.Protocol.{WorkerState, PredictRequest, StatusCode}
use distributed_model_server.Gateway.Config.{GatewayConfig}
use distributed_model_server.Gateway.Registry.{HealthState, WorkerNode, status, probe}
use distributed_model_server.Gateway.Registry.Health.{HealthWrite, run_health, run_health_draining}
use distributed_model_server.Gateway.Scheduler.Choice.{IsEligible}
use distributed_model_server.Worker.Config.{WorkerConfig}
use distributed_model_server.Worker.Server.{
  Servicer, ends, aborts, begin_predict, get_status, sig_handler,
}
use distributed_model_server.Worker.Server.Lifecycle.{WorkerEvent, serve_run, run_draining}

module _ (wc : WorkerConfig) (clock : ℕ → ℕ) where
  -- The worker got a signal, and then anything else happened to it.
  abbrev pub signalled : List WorkerEvent → Servicer → Servicer
  signalled xs s = serve_run wc clock xs (sig_handler s)

  signalled_draining :
      (xs : List WorkerEvent) (s : Servicer) → (signalled xs s).state ≡ WorkerState.draining
  unfolding sig_handler
  signalled_draining xs s = run_draining wc clock xs (sig_handler s) refl

  draining_refuses :
      (request : PredictRequest) (remaining : Option ℕ) (s : Servicer)
      → s.state ≡ WorkerState.draining
      → begin_predict wc clock request remaining s
        ≡ (ends (aborts StatusCode.failed_precondition "WORKER_NOT_READY"), s)
  unfolding begin_predict
  draining_refuses request remaining s h = ground arith

  -- After a signal a worker accepts no prediction any more, whatever happens to it: each call of
  -- `Predict` is aborted and changes nothing.
  pub signalled-begin_predict :
      (xs : List WorkerEvent) (s : Servicer) (request : PredictRequest) (remaining : Option ℕ)
      → begin_predict wc clock request remaining (signalled xs s)
        ≡ (ends (aborts StatusCode.failed_precondition "WORKER_NOT_READY"), signalled xs s)
  signalled-begin_predict xs s request remaining =
      draining_refuses request remaining (signalled xs s) (signalled_draining xs s)

  module _ (c : GatewayConfig) where
    probe-get_status :
        (s : Servicer) (now : ℕ) (w : WorkerNode)
        → s.state ≡ WorkerState.draining
        → (probe c now (status (get_status wc s).0) w).0.state ≡ HealthState.draining
    unfolding probe get_status
    probe-get_status s now w h = ground arith

    -- Once the gateway has polled a worker after its signal, it sends it no request any more, whatever
    -- other probes and markings follow.
    pub signalled-IsEligible :
        (xs : List WorkerEvent) (s : Servicer) (now : ℕ) (w : WorkerNode) (hs : List HealthWrite)
        (exclude : List Text)
        → let polled = (probe c now (status (get_status wc (signalled xs s)).0) w).0 in
          ¬ IsEligible c exclude (run_health c hs polled)
    signalled-IsEligible xs s now w hs exclude el =
        let drains =
          run_health_draining c hs _
            (probe-get_status (signalled xs s) now w (signalled_draining xs s)) in
        clash _ drains el.is_up
      where
        clash : (t : HealthState) → t ≡ HealthState.draining → t ≡ HealthState.healthy → ⊥
        clash t h k = ground arith
