-- ===== src/Worker/Batcher/Run.antt =====
-- The tasks of the worker's event loop as a sequence of steps on the batcher.
use distributed_model_server.Prelude.{ℕ, Text, List, [], ◌∷◌}
use distributed_model_server.Worker.Batcher.Defs.{Settings, Batcher}
use distributed_model_server.Worker.Batcher.Loop.{
  Inference, enqueue, cancel_future, advance, time_out, infer, close,
}

pub data Event : Type 0 where
  -- a call of `enqueue`: request id, inputs and local deadline
  enqueues : Text → List Text → ℕ → Event
  cancels : ℕ → Event
  advances times_out closes : Event
  infers : Inference → Event

unfoldable pub step : Settings → (ℕ → ℕ) → Event → Batcher → Batcher
step s clock (enqueues request_id inputs local_deadline) b =
    (enqueue s clock request_id inputs local_deadline b).1
step s clock (cancels i) b = cancel_future i b
step s clock advances b = advance s clock b
step s clock times_out b = time_out clock b
step s clock closes b = close clock b
step s clock (infers r) b = infer clock r b

unfoldable pub run : Settings → (ℕ → ℕ) → List Event → Batcher → Batcher
unfolding step
run s clock [] b = b
run s clock (x ∷ xs) b = run s clock xs (step s clock x b)
