-- ===== src/Worker/Config.antt =====
-- worker/config.py: the settings of a worker. A field holds what its environment variable or its default
-- gave; numbers are taken to be non-negative.
use distributed_model_server.Prelude.{ℕ, Text}
use distributed_model_server.Worker.Batcher.Defs.{Settings}

pub record WorkerConfig : Type 0 where
  pub worker_id : Text
  pub model_version : Text
  pub model_sha256 : Text
  pub model_dir : Text
  pub grpc_port : ℕ
  pub metrics_port : ℕ
  pub queue_capacity : ℕ
  pub max_batch_requests : ℕ
  pub max_batch_items : ℕ
  pub max_batch_delay_ms : ℕ
  pub max_tokens_per_input : ℕ
  pub ort_intra_op_threads : ℕ
  pub ort_inter_op_threads : ℕ

-- The arguments of `Batcher(…)` in `serve`.
abbrev pub batcher_settings : WorkerConfig → Settings
batcher_settings c = record {
  queue_capacity = c.queue_capacity;
  max_batch_requests = c.max_batch_requests;
  max_batch_items = c.max_batch_items;
  max_batch_delay_ms = c.max_batch_delay_ms;
}
