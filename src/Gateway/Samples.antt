-- ===== src/Gateway/Samples.antt =====
-- A gateway with two workers, for the tests.
use distributed_model_server.Prelude.{codes, true, false, [], ◌∷◌}
use distributed_model_server.Protocol.{StatusResponse, WorkerState}
use distributed_model_server.Gateway.Config.{GatewayConfig}
use distributed_model_server.Gateway.Registry.{HealthState, healthy, WorkerNode}
use distributed_model_server.Gateway.State.{GatewayState}

abbrev pub config : GatewayConfig
config = record {
  model_version = codes "v1";
  model_sha256 = codes "23ea";
  http_max_body_bytes = 65536;
  max_inputs_per_request = 8;
  max_input_bytes = 4096;
  max_total_input_bytes = 32768;
  min_timeout_ms = 100;
  max_timeout_ms = 10000;
  default_timeout_ms = 1000;
  gateway_max_outstanding_per_worker = 32;
  health_interval_ms = 1000;
  health_timeout_ms = 250;
  health_failure_threshold = 3;
  health_recovery_threshold = 2;
  min_retry_budget_ms = 50;
  workers = (codes "w1", codes "w1:50051") ∷ (codes "w2", codes "w2:50051") ∷ [];
}

abbrev pub reply_in : WorkerState → StatusResponse
reply_in s = record {
  worker_id = codes "w1";
  model_version = codes "v1";
  model_sha256 = codes "23ea";
  state = s;
  queue_depth = 0;
  queue_capacity = 64;
  active_batches = 0;
}

abbrev pub node : HealthState → WorkerNode
node s = record {
  worker_id = codes "w1";
  address = codes "w1:50051";
  state = s;
  outstanding_requests = 1;
  consecutive_failures = 0;
  consecutive_successes = 0;
  last_successful_check = 0;
  connected = true;
}

abbrev pub other_node : WorkerNode
other_node = record (node healthy) { worker_id = codes "w2"; address = codes "w2:50051" }

abbrev pub two_workers : GatewayState
two_workers = record {
  workers = node healthy ∷ other_node ∷ [];
  pollers = [];
  stopping = false;
  cursor = 0;
  trace = [];
}
