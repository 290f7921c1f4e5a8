-- ===== src/Worker/Server/Lifecycle.antt =====
-- The tasks of the worker's event loop once `serve` has started the server: calls of the two handlers,
-- steps of the batcher, a signal, and the `finally` of `serve`.
use distributed_model_server.Prelude.{ℕ, ◌≡◌, refl, List, [], ◌∷◌, Option, arith}
use distributed_model_server.Protocol.{WorkerState, PredictRequest}
use distributed_model_server.Worker.Config.{WorkerConfig, batcher_settings}
use distributed_model_server.Worker.Batcher.Defs.{Batcher, Future}
use distributed_model_server.Worker.Batcher.Loop.{
  Inference, cancel_future, advance, time_out, infer,
}
use distributed_model_server.Worker.Server.{
  Servicer, begin_predict, get_status, sig_handler, shut_down, on_error, Outcome, finish_predict,
}

pub data WorkerEvent : Type 0 where
  -- a call of `Predict`, with the time that its context has left
  predicts : PredictRequest → Option ℕ → WorkerEvent
  -- the future that a call of `Predict` awaits is looked at
  wakes : PredictRequest → ℕ → WorkerEvent
  -- a client cancels the call that awaits this future
  cancels : ℕ → WorkerEvent
  advances times_out : WorkerEvent
  infers : Inference → WorkerEvent
  gets_status signals shuts_down : WorkerEvent

abbrev on_batcher : (Batcher → Batcher) → Servicer → Servicer
on_batcher f s = record s { batcher = f s.batcher }

after : Option (Outcome × Servicer) → Servicer → Servicer
after Option.none s = s
after (Option.some (o, s1)) s = s1

unfoldable pub serve_step : WorkerConfig → (ℕ → ℕ) → WorkerEvent → Servicer → Servicer
unfolding begin_predict finish_predict cancel_future advance time_out infer get_status sig_handler
    shut_down after
serve_step c clock (predicts request remaining) s = (begin_predict c clock request remaining s).1
serve_step c clock (wakes request i) s = after (finish_predict c request (s.batcher.futures i) s) s
serve_step c clock (cancels i) s = on_batcher (cancel_future i) s
serve_step c clock advances s = on_batcher (advance (batcher_settings c) clock) s
serve_step c clock times_out s = on_batcher (time_out clock) s
serve_step c clock (infers r) s = on_batcher (infer clock r) s
serve_step c clock gets_status s = (get_status c s).1
serve_step c clock signals s = sig_handler s
serve_step c clock shuts_down s = shut_down clock s

unfoldable pub serve_run : WorkerConfig → (ℕ → ℕ) → List WorkerEvent → Servicer → Servicer
unfolding serve_step
serve_run c clock [] s = s
serve_run c clock (x ∷ xs) s = serve_run c clock xs (serve_step c clock x s)

module _ (c : WorkerConfig) (clock : ℕ → ℕ) where
  finish_draining :
      (request : PredictRequest) (f : Future) (s : Servicer)
      → s.state ≡ WorkerState.draining
      → (after (finish_predict c request f s) s).state ≡ WorkerState.draining
  unfolding finish_predict after on_error
  finish_draining request f s h = ground arith

  begin_draining :
      (request : PredictRequest) (remaining : Option ℕ) (s : Servicer)
      → s.state ≡ WorkerState.draining
      → (begin_predict c clock request remaining s).1.state ≡ WorkerState.draining
  unfolding begin_predict
  begin_draining request remaining s h = ground arith

  step_draining :
      (x : WorkerEvent) (s : Servicer)
      → s.state ≡ WorkerState.draining
      → (serve_step c clock x s).state ≡ WorkerState.draining
  unfolding serve_step get_status sig_handler shut_down
  step_draining (predicts request remaining) s h = begin_draining request remaining s h
  step_draining (wakes request i) s h = finish_draining request (s.batcher.futures i) s h
  step_draining (cancels i) s h = h
  step_draining advances s h = h
  step_draining times_out s h = h
  step_draining (infers r) s h = h
  step_draining gets_status s h = h
  step_draining signals s h = refl
  step_draining shuts_down s h = refl

  pub run_draining :
      (xs : List WorkerEvent) (s : Servicer)
      → s.state ≡ WorkerState.draining
      → (serve_run c clock xs s).state ≡ WorkerState.draining
  unfolding serve_run
  run_draining [] s h = h
  run_draining (x ∷ xs) s h = run_draining xs (serve_step c clock x s) (step_draining x s h)
