-- ===== src/Worker/Server.antt =====
-- worker/server.py: the handlers of the gRPC service, cut where `Predict` awaits its result, and the
-- states that `serve` takes the worker through. `context.abort` raises, so it ends the handler; each of
-- its calls is a status code and a detail.
pub mod Lifecycle
pub mod Process
use distributed_model_server.Prelude.{
  ℕ, ◌+◌, String, Text, Bool, true, false, not, ◌||◌, List, [], ◌∷◌, map, Option, none, some,
  length, ltb, ◌==◌, text_eq, if◌then◌else◌,
}
use distributed_model_server.Errors.{
  AppError, worker_queue_full, deadline_exceeded, code as error_code,
}
use distributed_model_server.Protocol.{
  Double, WorkerState, PredictRequest, PredictResponse, Prediction, StatusResponse, StatusCode,
}
use distributed_model_server.Worker.Config.{WorkerConfig, batcher_settings}
use distributed_model_server.Worker.Batcher.Defs.{
  BatcherResult, Future, pending, cancelled, result, exception, Batcher, new_batcher, read,
}
use distributed_model_server.Worker.Batcher.Loop.{
  Admission, awaits, refused, Inference, queue_depth, enqueue, cancel_future, advance, time_out,
  infer, close,
}

-- The label of WORKER_REQUESTS_TOTAL.
pub data RequestsResult : Type 0 where
  success queue_full deadline_passed error : RequestsResult

pub record Servicer : Type 0 where
  pub state : WorkerState
  pub batcher : Batcher
  -- WORKER_REQUESTS_TOTAL.labels(result).inc(), newest first
  pub requests_total : List RequestsResult
  -- WORKER_QUEUE_DEPTH
  pub depth_gauge : ℕ

unfoldable pub new_servicer : Servicer
new_servicer = record {
  state = WorkerState.starting;
  batcher = new_batcher;
  requests_total = [];
  depth_gauge = 0;
}

-- How `Predict` ends: the call of `context.abort`, a response, or a cancellation of the handler.
pub data Outcome : Type 0 where
  aborts : StatusCode → String → Outcome
  responds : PredictResponse → Outcome
  interrupted : Outcome

abbrev pub count : RequestsResult → Servicer → Servicer
count r s = record s { requests_total = r ∷ s.requests_total }

-- The handlers of the errors that `enqueue` or the future raised.
unfoldable pub on_error : AppError → Servicer → Outcome × Servicer
unfolding error_code
on_error (worker_queue_full _) s =
    (aborts StatusCode.resource_exhausted "WORKER_QUEUE_FULL", count queue_full s)
on_error (deadline_exceeded _) s =
    (aborts StatusCode.deadline_exceeded "DEADLINE_EXCEEDED", count deadline_passed s)
on_error e s = (aborts StatusCode.internal (error_code e), count error s)

unfoldable pub response_of : WorkerConfig → PredictRequest → BatcherResult → PredictResponse
response_of c request r = record {
  request_id = request.request_id;
  model_version = c.model_version;
  worker_id = c.worker_id;
  predictions = map (λ p. record { label = p.0; score = p.1 }) r.predictions;
  timing = record {
    queue_ms = r.queue_ms;
    preprocess_ms = r.preprocess_ms;
    inference_ms = r.inference_ms;
    postprocess_ms = r.postprocess_ms;
    worker_total_ms = r.worker_total_ms;
  };
}

-- `Predict` up to the await of the result: an end, or the future that it awaits.
pub data Begun : Type 0 where
  ends : Outcome → Begun
  waits : ℕ → Begun

unfoldable pub on_admission : Servicer → Admission × Batcher → Begun × Servicer
unfolding on_error
on_admission s (awaits i, b) = (waits i, record s { batcher = b })
on_admission s (refused e, b) = let (o, s1) = on_error e (record s { batcher = b }) in (ends o, s1)

-- The rest of the checks, from the time that the call has left: `time_remaining()` is not negative, and a
-- call without a deadline has none.
unfoldable pub admit :
    WorkerConfig → (ℕ → ℕ) → PredictRequest → Option ℕ → Servicer → Begun × Servicer
unfolding on_admission enqueue
admit c clock request none s = (ends (aborts StatusCode.deadline_exceeded "DEADLINE_EXCEEDED"), s)
admit c clock request (some t) s =
    if ltb 0 t
    then (let (now, b) = read clock s.batcher in
        on_admission s
          (enqueue (batcher_settings c) clock request.request_id request.inputs (now + t) b))
    else (ends (aborts StatusCode.deadline_exceeded "DEADLINE_EXCEEDED"), s)

abbrev pub is_ready : WorkerState → Bool
is_ready WorkerState.ready = true
is_ready _ = false

unfoldable pub begin_predict :
    WorkerConfig → (ℕ → ℕ) → PredictRequest → Option ℕ → Servicer → Begun × Servicer
unfolding admit
begin_predict c clock request remaining s =
    if not (is_ready s.state)
    then (ends (aborts StatusCode.failed_precondition "WORKER_NOT_READY"), s)
    else if (length request.inputs == 0) || ltb 8 (length request.inputs)
    then (ends (aborts StatusCode.invalid_argument "INVALID_REQUEST"), s)
    else if not (text_eq request.model_version c.model_version)
    then (ends (aborts StatusCode.invalid_argument "UNSUPPORTED_MODEL"), s)
    else admit c clock request remaining s

-- `Predict` from the await on, once the future is done; before that it goes on waiting.
unfoldable pub finish_predict :
    WorkerConfig → PredictRequest → Future → Servicer → Option (Outcome × Servicer)
unfolding on_error response_of
finish_predict c request pending s = none
finish_predict c request cancelled s = some (interrupted, s)
finish_predict c request (exception e) s = some (on_error e s)
finish_predict c request (result r) s = some (responds (response_of c request r), count success s)

unfoldable pub get_status : WorkerConfig → Servicer → StatusResponse × Servicer
unfolding queue_depth
get_status c s = (
  record {
    worker_id = c.worker_id;
    model_version = c.model_version;
    model_sha256 = c.model_sha256;
    state = s.state;
    queue_depth = queue_depth s.batcher;
    queue_capacity = c.queue_capacity;
    active_batches = 0;
  },
  record s { depth_gauge = queue_depth s.batcher },
)

-- The line after `await server.start()`.
unfoldable pub server_started : Servicer → Servicer
server_started s = record s { state = WorkerState.ready }

-- `_sig_handler`
unfoldable pub sig_handler : Servicer → Servicer
sig_handler s = record s { state = WorkerState.draining }

-- The `finally` of `serve` up to the await of `server.stop`.
unfoldable pub shut_down : (ℕ → ℕ) → Servicer → Servicer
unfolding close
shut_down clock s = record s { state = WorkerState.draining; batcher = close clock s.batcher }
