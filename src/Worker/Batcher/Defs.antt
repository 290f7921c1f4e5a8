-- ===== src/Worker/Batcher/Defs.antt =====
-- The state of a `Batcher`, its futures and its clock.
use distributed_model_server.Prelude.{
  ℕ, ◌+◌, Text, Bool, true, false, List, [], Option, none, ◌==◌, if◌then◌else◌,
}
use distributed_model_server.Errors.{AppError}
use distributed_model_server.Protocol.{Double, Millis}

pub record BatcherResult : Type 0 where
  pub predictions : List (Text × Double)
  pub queue_ms : Millis
  pub preprocess_ms : Millis
  pub inference_ms : Millis
  pub postprocess_ms : Millis
  pub worker_total_ms : Millis

-- `asyncio.Future`
pub data Future : Type 0 where
  pending cancelled : Future
  result : BatcherResult → Future
  exception : AppError → Future

-- A future is the number under which it was created.
pub record RequestEnvelope : Type 0 where
  pub request_id : Text
  pub inputs : List Text
  pub local_deadline : ℕ
  pub enqueue_time : ℕ
  pub future : ℕ

pub record Settings : Type 0 where
  pub queue_capacity : ℕ
  pub max_batch_requests : ℕ
  pub max_batch_items : ℕ
  pub max_batch_delay_ms : ℕ

-- What `_process_batch` has gathered: the envelopes that are still wanted, their inputs in a row, and
-- the bounds of each envelope's part of that row.
pub record Work : Type 0 where
  pub valid_batch : List RequestEnvelope
  pub flattened_inputs : List Text
  pub slices : List (ℕ × ℕ)
  pub idx : ℕ

-- Where the loop task is: not running, at the head of the loop, collecting a batch, or in the await of
-- the executor.
pub data Phase : Type 0 where
  ended top : Phase
  collecting : List RequestEnvelope → ℕ → ℕ → Phase
  executing : Work → ℕ → Phase

pub record Batcher : Type 0 where
  -- `_queue`, its front first
  pub queue : List RequestEnvelope
  pub next_envelope : Option RequestEnvelope
  pub stopping : Bool
  pub phase : Phase
  -- the futures by number; one that is not created yet counts as pending
  pub futures : ℕ → Future
  pub created : ℕ
  pub readings : ℕ

abbrev pub is_pending : Future → Bool
is_pending pending = true
is_pending _ = false

-- `future.done()`
abbrev pub done : Batcher → ℕ → Bool
done b i = if is_pending (b.futures i) then false else true

abbrev pub update : (ℕ → Future) → ℕ → Future → ℕ → Future
update fs i f j = if i == j then f else fs j

-- `set_result`, `set_exception` and `cancel` on a future that is not done.
abbrev pub complete : ℕ → Future → Batcher → Batcher
complete i f b = record b { futures = update b.futures i f }

-- A reading of the clock.
abbrev pub read : (ℕ → ℕ) → Batcher → ℕ × Batcher
read clock b = (clock b.readings, record b { readings = b.readings + 1 })

abbrev pub go_to : Phase → Batcher → Batcher
go_to p b = record b { phase = p }

abbrev pub new_batcher : Batcher
new_batcher = record {
  queue = [];
  next_envelope = none;
  stopping = false;
  phase = ended;
  futures = λ _. pending;
  created = 0;
  readings = 0;
}
