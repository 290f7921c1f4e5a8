-- ===== src/Worker/Samples.antt =====
-- A worker, its clock and its model, for the tests.
use distributed_model_server.Prelude.{ℕ, Text, codes}
use distributed_model_server.Protocol.{Double}
use distributed_model_server.Worker.Config.{WorkerConfig}

abbrev pub worker_config : WorkerConfig
worker_config = record {
  worker_id = codes "w1";
  model_version = codes "v1";
  model_sha256 = codes "23ea";
  model_dir = codes "artifacts/model";
  grpc_port = 50051;
  metrics_port = 9100;
  queue_capacity = 64;
  max_batch_requests = 8;
  max_batch_items = 32;
  max_batch_delay_ms = 5;
  max_tokens_per_input = 128;
  ort_intra_op_threads = 1;
  ort_inter_op_threads = 1;
}

-- Every reading of the clock is a microsecond later.
abbrev pub ticks : ℕ → ℕ
ticks n = n

-- A model that answers with its input.
abbrev pub answer : Text → Text × Double
answer t = (t, 0)
