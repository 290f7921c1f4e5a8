-- ===== src/Gateway/Events.antt =====
-- gateway/metrics.py and the log lines: what the gateway's operations write to the outside. An
-- operation adds its events to a trace, newest first.
use distributed_model_server.Prelude.{ℕ, Text}
use distributed_model_server.Protocol.{StatusCode}

pub data LogEvent : Type 0 where
  worker_marked_unhealthy worker_healthy worker_recovered worker_ejected : LogEvent

pub data RetryResult : Type 0 where
  attempted failed : RetryResult

pub data Event : Type 0 where
  -- GATEWAY_WORKER_HEALTHY.labels(worker_id).set(n)
  healthy_set : Text → ℕ → Event
  -- GATEWAY_WORKER_OUTSTANDING.labels(worker_id).set(n)
  outstanding_set : Text → ℕ → Event
  -- GATEWAY_ROUTING_TOTAL.labels(worker_id).inc()
  routed : Text → Event
  -- GATEWAY_RPC_FAILURES_TOTAL.labels(worker_id, grpc_code).inc()
  rpc_failed : Text → StatusCode → Event
  -- GATEWAY_RETRIES_TOTAL.labels(result).inc()
  retried : RetryResult → Event
  -- logger.log(level, event, worker_id=worker_id)
  logged : LogEvent → Text → Event
