-- ===== src/Gateway/Client.antt =====
-- gateway/client.py: one prediction, cut at the only point where the coroutine is suspended, the await of
-- the RPC. `begin` runs up to it and `resume` from it; the lock of the scheduler is never contended.
-- Loop time is a number of microseconds; each reading of the clock is an argument.
pub mod Dispatch
pub mod Accounts
pub mod Retry
pub mod Jobs
use Prim.Native.String.{◌++◌ as ◌<>◌}
use distributed_model_server.Prelude.{
  ℕ, ◌+◌, ◌-◌, ◌*◌, String, codes, contains, Text, Bool, true, false, ◌&&◌, List, [], ◌∷◌, ◌==◌,
  leb, if◌then◌else◌,
}
use distributed_model_server.Errors.{
  AppError, deadline_exceeded, worker_unavailable, internal_server, default_unsupported_model,
  default_invalid_request, default_worker_queue_full, default_worker_unavailable,
  default_deadline_exceeded, default_internal_server,
}
use distributed_model_server.Protocol.{
  Prediction, PredictRequest, PredictResponse, WorkerTiming, StatusCode,
}
use distributed_model_server.Gateway.Config.{GatewayConfig}
use distributed_model_server.Gateway.Events.{rpc_failed, retried, attempted, failed}
use distributed_model_server.Gateway.Registry.{WorkerNode, get_stub}
use distributed_model_server.Gateway.State.{
  GatewayState, Result, ok, raised, crashed, emit, on_worker, mark_unhealthy_immediately,
}
use distributed_model_server.Gateway.Scheduler.{select_worker, release_worker}

-- One unit of `timeout_ms` in microseconds.
abbrev pub ms : ℕ → ℕ
ms n = n * 1000

-- `grpc.StatusCode.….name`
unfoldable pub code_name : StatusCode → String
code_name StatusCode.ok = "OK"
code_name StatusCode.cancelled = "CANCELLED"
code_name StatusCode.unknown = "UNKNOWN"
code_name StatusCode.invalid_argument = "INVALID_ARGUMENT"
code_name StatusCode.deadline_exceeded = "DEADLINE_EXCEEDED"
code_name StatusCode.not_found = "NOT_FOUND"
code_name StatusCode.already_exists = "ALREADY_EXISTS"
code_name StatusCode.permission_denied = "PERMISSION_DENIED"
code_name StatusCode.unauthenticated = "UNAUTHENTICATED"
code_name StatusCode.resource_exhausted = "RESOURCE_EXHAUSTED"
code_name StatusCode.failed_precondition = "FAILED_PRECONDITION"
code_name StatusCode.aborted = "ABORTED"
code_name StatusCode.out_of_range = "OUT_OF_RANGE"
code_name StatusCode.unimplemented = "UNIMPLEMENTED"
code_name StatusCode.internal = "INTERNAL"
code_name StatusCode.unavailable = "UNAVAILABLE"
code_name StatusCode.data_loss = "DATA_LOSS"

-- `_map_rpc_error`, which always raises: the error that it raises.
unfoldable pub map_rpc_error : StatusCode → String → AppError
unfolding contains code_name
map_rpc_error StatusCode.invalid_argument details =
    if contains (codes details) (codes "UNSUPPORTED_MODEL")
    then default_unsupported_model
    else default_invalid_request
map_rpc_error StatusCode.resource_exhausted _ = default_worker_queue_full
map_rpc_error StatusCode.failed_precondition _ = default_worker_unavailable
map_rpc_error StatusCode.deadline_exceeded _ = default_deadline_exceeded
map_rpc_error StatusCode.internal _ = default_internal_server
map_rpc_error other _ = internal_server ("gRPC error: " <> code_name other)

abbrev pub is_unavailable : StatusCode → Bool
is_unavailable StatusCode.unavailable = true
is_unavailable _ = false

-- The arguments of `predict` and what it computed before the loop.
pub record Job : Type 0 where
  pub request : PredictRequest
  pub gateway_deadline : ℕ

-- A prediction suspended in `await stub.Predict(req, timeout=remaining)`; `later` holds the attempts
-- that the loop has left.
pub record Call : Type 0 where
  pub job : Job
  pub exclude_ids : List Text
  pub attempt : ℕ
  pub later : List ℕ
  pub worker_id : Text
  pub timeout : ℕ

-- `rpc_error` is an `AioRpcError`; `interrupted` is any other exception, a cancellation included.
pub data Reply : Type 0 where
  answered : PredictResponse → Reply
  rpc_error : StatusCode → String → Reply
  interrupted : Reply

pub record GatewayPredictionResult : Type 0 where
  pub worker_id : Text
  pub attempts : ℕ
  pub predictions : List Prediction
  pub worker_timing : WorkerTiming

pub data Progress : Type 0 where
  waiting : Call → Progress
  finished : Result GatewayPredictionResult → Progress

-- What the `try` statement of one attempt comes to, before its `finally`.
pub data Attempt : Type 0 where
  done : Result GatewayPredictionResult → Attempt
  again : List Text → Attempt

-- The round from the return of `select_worker` to the RPC.
send : Job → List Text → ℕ → List ℕ → ℕ → Result WorkerNode × GatewayState → Progress × GatewayState
unfolding on_worker get_stub
send job exclude attempt later now (raised e, g) = (finished (raised e), g)
send job exclude attempt later now (crashed, g) = (finished crashed, g)
send job exclude attempt later now (ok w, g) = (
  waiting (record {
    job = job;
    exclude_ids = exclude;
    attempt = attempt;
    later = later;
    worker_id = w.worker_id;
    timeout = job.gateway_deadline - now;
  }),
  on_worker w.worker_id (λ v. (get_stub v, [])) g,
)

-- One round of the loop from its head at loop time `now` to the RPC.
pub attempt_rpc :
    GatewayConfig → Job → List Text → ℕ → List ℕ → ℕ → GatewayState → Progress × GatewayState
unfolding select_worker send
attempt_rpc c job exclude attempt later now g =
    if leb job.gateway_deadline now
    then (finished (raised (deadline_exceeded "Gateway deadline exceeded before RPC dispatch.")), g)
    else send job exclude attempt later now (select_worker c exclude g)

-- `for attempt in …`, with the `raise` behind the loop.
pub next_attempt :
    GatewayConfig → Job → List Text → List ℕ → ℕ → GatewayState → Progress × GatewayState
unfolding attempt_rpc
next_attempt c job exclude [] now g =
    (finished (raised (worker_unavailable "Prediction failed after retries.")), g)
next_attempt c job exclude (attempt ∷ later) now g = attempt_rpc c job exclude attempt later now g

-- `predict` from its start: `t0` is read for the deadline and `t1` in the first round.
unfoldable pub begin :
    GatewayConfig → PredictRequest → ℕ → ℕ → ℕ → GatewayState → Progress × GatewayState
unfolding next_attempt
begin c request timeout_ms t0 t1 g =
    let job : Job = record { request = request; gateway_deadline = t0 + ms timeout_ms } in
    next_attempt c job [] (1 ∷ 2 ∷ []) t1 g

unfoldable pub result_of : Call → PredictResponse → GatewayPredictionResult
result_of k r = record {
  worker_id = k.worker_id;
  attempts = k.attempt;
  predictions = r.predictions;
  worker_timing = r.timing;
}

-- The `except` clause at loop time `now`.
on_rpc_error :
    GatewayConfig → Call → StatusCode → String → ℕ → GatewayState → Attempt × GatewayState
unfolding map_rpc_error mark_unhealthy_immediately emit
on_rpc_error c k status details now g =
    let g1 = emit (rpc_failed k.worker_id status ∷ []) g in
    if is_unavailable status
    then (let g2 = mark_unhealthy_immediately c k.worker_id g1 in
        if (k.attempt == 1) && leb (now + ms c.min_retry_budget_ms) k.job.gateway_deadline
        then (again (k.worker_id ∷ k.exclude_ids), emit (retried attempted ∷ []) g2)
        else (
          done (raised (worker_unavailable "Worker unavailable and retry budget exhausted.")),
          emit (retried failed ∷ []) g2,
        ))
    else (done (raised (map_rpc_error status details)), g1)

pub handle : GatewayConfig → Call → Reply → ℕ → GatewayState → Attempt × GatewayState
unfolding on_rpc_error result_of
handle c k (answered r) now g = (done (ok (result_of k r)), g)
handle c k (rpc_error status details) now g = on_rpc_error c k status details now g
handle c k interrupted now g = (done crashed, g)

-- What follows the `finally`: the end, or the next round at loop time `now`.
continue_with : GatewayConfig → Call → Attempt → ℕ → GatewayState → Progress × GatewayState
unfolding next_attempt
continue_with c k (done r) now g = (finished r, g)
continue_with c k (again exclude) now g = next_attempt c k.job exclude k.later now g

-- From the end of the RPC to the next RPC or the end of `predict`. The clock is read at `t1` in the
-- handler of an error and at `t2` at the head of the next round.
unfoldable pub resume :
    GatewayConfig → Call → Reply → ℕ → ℕ → GatewayState → Progress × GatewayState
unfolding handle release_worker continue_with
resume c k reply t1 t2 g =
    let (a, g1) = handle c k reply t1 g in continue_with c k a t2 (release_worker k.worker_id g1)
