-- ===== src/Protocol.antt =====
-- proto/inference/v1/inference.proto: the messages between the gateway and a worker. A score is a
-- double by its 64 bits; a duration in milliseconds is an exact number of microseconds.
use distributed_model_server.Prelude.{ℕ, Text, List}

abbrev pub Double : Type 0
Double = ℕ

abbrev pub Millis : Type 0
Millis = ℕ

pub data WorkerState : Type 0 where
  unspecified starting ready draining : WorkerState

pub record PredictRequest : Type 0 where
  pub request_id : Text
  pub model_version : Text
  pub inputs : List Text

pub record Prediction : Type 0 where
  pub label : Text
  pub score : Double

pub record WorkerTiming : Type 0 where
  pub queue_ms : Millis
  pub preprocess_ms : Millis
  pub inference_ms : Millis
  pub postprocess_ms : Millis
  pub worker_total_ms : Millis

pub record PredictResponse : Type 0 where
  pub request_id : Text
  pub model_version : Text
  pub worker_id : Text
  pub predictions : List Prediction
  pub timing : WorkerTiming

pub record StatusResponse : Type 0 where
  pub worker_id : Text
  pub model_version : Text
  pub model_sha256 : Text
  pub state : WorkerState
  pub queue_depth : ℕ
  pub queue_capacity : ℕ
  pub active_batches : ℕ

-- The canonical status codes of gRPC, an enumeration of the grpc package that both sides name.
pub data StatusCode : Type 0 where
  ok cancelled unknown invalid_argument deadline_exceeded not_found already_exists : StatusCode
  permission_denied unauthenticated resource_exhausted failed_precondition aborted : StatusCode
  out_of_range unimplemented internal unavailable data_loss : StatusCode
