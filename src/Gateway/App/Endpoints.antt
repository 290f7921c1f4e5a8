-- ===== src/Gateway/App/Endpoints.antt =====
-- gateway/app.py: the endpoints. `predict` is cut at the await of the client: `predict_begin` checks the
-- request and starts the prediction, `predict_end` makes the response of its result.
use distributed_model_server.Prelude.{ℕ, String, Text, Bool, ◌&&◌, List, [], Option, if◌then◌else◌}
use distributed_model_server.Errors.{
  AppError, ErrorBody, to_dict, status_code, default_invalid_request,
}
use distributed_model_server.Protocol.{Prediction, WorkerTiming, Millis, PredictRequest}
use distributed_model_server.Gateway.Config.{GatewayConfig}
use distributed_model_server.Gateway.Registry.{is_any_worker_healthy}
use distributed_model_server.Gateway.State.{GatewayState, Result, ok, raised, crashed}
use distributed_model_server.Gateway.Client.{Progress, begin, GatewayPredictionResult}
use distributed_model_server.Gateway.App.Json.{Json}
use distributed_model_server.Gateway.App.Validation.{Arguments, validate}

pub data Body : Type 0 where
  -- `{"request_id": …, "error": {…}}`
  failed : Text → ErrorBody → Body
  -- request id, model version, worker id, attempts, predictions, timing and the total time
  predicted : Text → Text → Text → ℕ → List Prediction → WorkerTiming → Millis → Body
  -- `{"status": …}`
  status_is : String → Body
  -- a text that is no JSON
  plain_text : Text → Body

pub record Response : Type 0 where
  pub status_code : ℕ
  pub body : Body

-- What `call_next` comes to: a response, an `AppError`, or another exception.
pub data Handled : Type 0 where
  responds : Response → Handled
  raises : AppError → Handled
  crashes : Handled

abbrev pub error_response : Text → AppError → Response
error_response request_id e = record {
  status_code = status_code e;
  body = failed request_id (to_dict e);
}

unfoldable pub validation_exception_handler : Response
unfolding to_dict
validation_exception_handler = record {
  status_code = 400;
  body = failed [] (to_dict default_invalid_request);
}

unfoldable pub health_live : Response
health_live = record { status_code = 200; body = status_is "live" }

unfoldable pub health_ready : Bool → GatewayState → Response
unfolding is_any_worker_healthy
health_ready accepting_requests g =
    if accepting_requests && is_any_worker_healthy g.workers
    then record { status_code = 200; body = status_is "ready" }
    else record { status_code = 503; body = status_is "not_ready" }

-- `latest` is what `generate_latest` gave.
unfoldable pub metrics : Text → Response
metrics latest = record { status_code = 200; body = plain_text latest }

-- The checks, and then the start of the prediction: `t0` and `t1` are readings of the loop's clock.
pub data Opened : Type 0 where
  refused : Handled → Opened
  predicting : Arguments → Progress → Opened

unfoldable pub open_prediction :
    GatewayConfig → ℕ → ℕ → Result Arguments → GatewayState → Opened × GatewayState
unfolding begin
open_prediction c t0 t1 (ok a) g =
    let request : PredictRequest = record {
      request_id = a.request_id;
      model_version = a.model_version;
      inputs = a.inputs;
    } in
    let (p, g1) = begin c request a.timeout_ms t0 t1 g in (predicting a p, g1)
open_prediction c t0 t1 (raised e) g = (refused (raises e), g)
open_prediction c t0 t1 crashed g = (refused crashes, g)

unfoldable pub predict_begin :
    GatewayConfig → Text → Option Json → ℕ → ℕ → GatewayState → Opened × GatewayState
unfolding validate open_prediction
predict_begin c generated payload t0 t1 g = open_prediction c t0 t1 (validate c generated payload) g

unfoldable pub predict_end : Arguments → Millis → Result GatewayPredictionResult → Handled
predict_end a total_ms (ok r) = responds (record {
  status_code = 200;
  body =
      predicted a.request_id a.model_version r.worker_id r.attempts r.predictions r.worker_timing
        total_ms;
})
predict_end a total_ms (raised e) = responds (error_response a.request_id e)
predict_end a total_ms crashed = crashes
