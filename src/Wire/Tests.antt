-- ===== src/Wire/Tests.antt =====
-- Calls of a worker at concrete inputs.
use distributed_model_server.Gateway.Samples.{config}
use distributed_model_server.Prelude.{◌≡◌, String, codes, [], ◌∷◌, some}
use distributed_model_server.Errors.{code, worker_queue_full}
use distributed_model_server.Protocol.{PredictRequest, StatusCode}
use distributed_model_server.Gateway.Client.{map_rpc_error}
use distributed_model_server.Gateway.Registry.{status, rpc_error, probe, new_node}
use distributed_model_server.Gateway.Registry.Health.{probed, marked, run_health}
use distributed_model_server.Gateway.Scheduler.Choice.{IsEligible}
use distributed_model_server.Worker.Samples.{worker_config, ticks}
use distributed_model_server.Worker.Server.{
  Servicer, new_servicer, server_started, ends, aborts, begin_predict, get_status, on_error,
}
use distributed_model_server.Worker.Server.Lifecycle.{advances, shuts_down}
use distributed_model_server.Wire.Predict.{Begins, begin_predict-Begins}
use distributed_model_server.Wire.Failure.{on_error-map_rpc_error}
use distributed_model_server.Wire.Drain.{signalled, signalled-begin_predict, signalled-IsEligible}

abbrev request : PredictRequest
request = record { request_id = codes "r1"; model_version = codes "v1"; inputs = codes "good" ∷ [] }

abbrev up : Servicer
up = server_started new_servicer

begin_predict-Begins_example :
    Begins worker_config ticks request
      (some 1000000)
      up
      (begin_predict worker_config ticks request (some 1000000) up)
begin_predict-Begins_example = begin_predict-Begins worker_config ticks request (some 1000000) up

on_error-map_rpc_error_example :
    (status : StatusCode) × (detail : String) × ((on_error
        (worker_queue_full "Worker queue capacity reached.")
        up).0
      ≡ aborts status detail)
    × (code (map_rpc_error status detail) ≡ "WORKER_QUEUE_FULL")
unfolding code
on_error-map_rpc_error_example =
    on_error-map_rpc_error (worker_queue_full "Worker queue capacity reached.") up

signalled-begin_predict_example :
    begin_predict worker_config ticks request
      (some 1000000)
      (signalled worker_config ticks (advances ∷ shuts_down ∷ []) up)
    ≡ (
      ends (aborts StatusCode.failed_precondition "WORKER_NOT_READY"),
      signalled worker_config ticks (advances ∷ shuts_down ∷ []) up,
    )
signalled-begin_predict_example =
    signalled-begin_predict worker_config ticks (advances ∷ shuts_down ∷ []) up request
      (some 1000000)

signalled-IsEligible_example : ¬ IsEligible config [] (
    run_health config
      (marked ∷ probed 9 rpc_error ∷ [])
      (probe config 7
        (status (get_status worker_config (signalled worker_config ticks (advances ∷ []) up)).0)
        (new_node (codes "w1", codes "w1:50051"))).0)
signalled-IsEligible_example =
    signalled-IsEligible worker_config ticks config (advances ∷ []) up 7
      (new_node (codes "w1", codes "w1:50051")) (marked ∷ probed 9 rpc_error ∷ []) []
