-- ===== src/Worker/Server/Process.antt =====
-- worker/server.py as a process: calls of `Predict` run side by side with the task of the batcher, from the
-- start of the server to the `finally` of `serve`. A call is cut at the await of its future; it is over once
-- it is answered.
pub mod Sound
pub mod Ended
pub mod Answers
mod Tests
use distributed_model_server.Prelude.{
  remove_at, ℕ, zero, suc, ◌+◌, List, [], ◌∷◌, Option, none, some, get_elem?,
}
use distributed_model_server.Protocol.{PredictRequest, WorkerState}
use distributed_model_server.Worker.Config.{WorkerConfig, batcher_settings}
use distributed_model_server.Worker.Batcher.Defs.{Future, Batcher}
use distributed_model_server.Worker.Batcher.Loop.{
  Inference, cancel_future, advance, time_out, infer,
}
use distributed_model_server.Worker.Server.{
  Servicer, new_servicer, Outcome, interrupted, Begun, ends, waits, begin_predict, finish_predict,
  get_status, server_started, sig_handler, shut_down,
}

-- A call that awaits a future.
pub record Waiting : Type 0 where
  pub request : PredictRequest
  pub future : ℕ

-- A call that is over, and how.
pub record Answered : Type 0 where
  pub request : PredictRequest
  pub outcome : Outcome

pub record Process : Type 0 where
  pub servicer : Servicer
  pub calls : List Waiting
  -- newest first
  pub answered : List Answered

pub data ProcessStep : Type 0 where
  -- a call of `Predict`, with the time that its context has left
  predicts : PredictRequest → Option ℕ → ProcessStep
  -- the call at this place looks at its future
  wakes : ℕ → ProcessStep
  -- the client cancels the call at this place
  interrupts : ℕ → ProcessStep
  advances times_out : ProcessStep
  infers : Inference → ProcessStep
  gets_status starts signals shuts_down : ProcessStep

abbrev pub add_answer : PredictRequest → Outcome → Process → Process
add_answer request o p = record p {
  answered = record { request = request; outcome = o } ∷ p.answered;
}

abbrev pub begun : PredictRequest → Begun × Servicer → Process → Process
begun request (ends o, s) p = add_answer request o (record p { servicer = s })
begun request (waits i, s) p = record p {
  servicer = s;
  calls = record { request = request; future = i } ∷ p.calls;
}

abbrev pub finished : ℕ → PredictRequest → Option (Outcome × Servicer) → Process → Process
finished n request none p = p
finished n request (some (o, s)) p =
    add_answer request o (record p { servicer = s; calls = remove_at n p.calls })

unfoldable pub wake : WorkerConfig → ℕ → Option Waiting → Process → Process
unfolding finish_predict
wake c n none p = p
wake c n (some w) p =
    finished n w.request
      (finish_predict c w.request (p.servicer.batcher.futures w.future) p.servicer) p

-- `CancelledError` is no `Exception`: it leaves the handler, and the future that it awaits is cancelled.
unfoldable pub interrupt : ℕ → Option Waiting → Process → Process
unfolding cancel_future
interrupt n none p = p
interrupt n (some w) p = add_answer w.request interrupted (record p {
  servicer = record p.servicer { batcher = cancel_future w.future p.servicer.batcher };
  calls = remove_at n p.calls;
})

abbrev pub on_batcher : (Batcher → Batcher) → Process → Process
on_batcher f p = record p { servicer = record p.servicer { batcher = f p.servicer.batcher } }

unfoldable pub process_step : WorkerConfig → (ℕ → ℕ) → ProcessStep → Process → Process
unfolding begin_predict wake interrupt advance time_out infer get_status server_started sig_handler
    shut_down
process_step c clock (predicts request remaining) p =
    begun request (begin_predict c clock request remaining p.servicer) p
process_step c clock (wakes n) p = wake c n (get_elem? p.calls n) p
process_step c clock (interrupts n) p = interrupt n (get_elem? p.calls n) p
process_step c clock advances p = on_batcher (advance (batcher_settings c) clock) p
process_step c clock times_out p = on_batcher (time_out clock) p
process_step c clock (infers r) p = on_batcher (infer clock r) p
process_step c clock gets_status p = record p { servicer = (get_status c p.servicer).1 }
process_step c clock starts p = record p { servicer = server_started p.servicer }
process_step c clock signals p = record p { servicer = sig_handler p.servicer }
process_step c clock shuts_down p = record p { servicer = shut_down clock p.servicer }

unfoldable pub process_run : WorkerConfig → (ℕ → ℕ) → List ProcessStep → Process → Process
unfolding process_step
process_run c clock [] p = p
process_run c clock (x ∷ xs) p = process_run c clock xs (process_step c clock x p)

unfoldable pub new_process : Process
unfolding new_servicer
new_process = record { servicer = new_servicer; calls = []; answered = [] }
