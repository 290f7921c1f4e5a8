-- ===== src/Worker/Server/Process/Answers.antt =====
-- The worker's answers over any run of its process.
use distributed_model_server.Prelude.{
  ℕ, ◌≡◌, refl, sym, subst, Text, List, [], ◌∷◌, Option, none, some, get_elem?, All, All-get_elem?,
}
use distributed_model_server.Protocol.{Double}
use distributed_model_server.Worker.Config.{WorkerConfig, batcher_settings}
use distributed_model_server.Worker.Batcher.Loop.{cancel_future}
use distributed_model_server.Worker.Batcher.Run.{
  Event, cancels, advances, times_out, closes, infers, step,
}
use distributed_model_server.Worker.Batcher.Contract.{Service, no_requests}
use distributed_model_server.Worker.Batcher.Matches.{Matches}
use distributed_model_server.Worker.Batcher.Results.{IsSound}
use distributed_model_server.Worker.Batcher.Refines.{HonestStep, step-Answers, new_batcher-Matches}
use distributed_model_server.Worker.Server.{
  Servicer, interrupted, get_status, server_started, sig_handler, shut_down,
}
use distributed_model_server.Worker.Server.Process.{
  Waiting, Process, ProcessStep, predicts, wakes, interrupts, advances as steps,
  times_out as expires, infers as executes, gets_status, starts, signals, shuts_down, wake,
  interrupt, on_batcher, process_step, process_run, new_process,
}
use distributed_model_server.Worker.Server.Process.Sound.{
  IsAnswered, IsCall, Follows, IsSoundProcess, moves-IsSoundProcess, begin_predict-IsSoundProcess,
}
use distributed_model_server.Worker.Server.Process.Ended.{ends-Follows, finished-IsSoundProcess}

module _ (c : WorkerConfig) (clock : ℕ → ℕ) (answer : Text → Text × Double) where
  -- An inference that ends with an output answers each input of its batch by itself.
  abbrev pub HonestHere : ProcessStep → Process → Type 0
  HonestHere (executes r) p =
      HonestStep (batcher_settings c) clock answer (infers r) p.servicer.batcher.phase
  HonestHere _ p = Unit

  unfoldable pub HonestRun : List ProcessStep → Process → Type 0
  unfolding process_step
  HonestRun [] p = Unit
  HonestRun (x ∷ xs) p = HonestHere x p × HonestRun xs (process_step c clock x p)

  wake-IsSoundProcess :
      (n : ℕ) (o : Option Waiting) (v : Service) (p : Process)
      → Follows c clock answer v p
      → get_elem? p.calls n ≡ o
      → IsSoundProcess c clock answer (wake c n o p)
  unfolding wake
  wake-IsSoundProcess n none v p h e = (v, h)
  wake-IsSoundProcess n (some w) v p h e =
      finished-IsSoundProcess c clock answer n w (p.servicer.batcher.futures w.future) v p h
        (All-get_elem? (IsCall c clock answer v) p.calls n w h.calls e)
        (subst (λ fs. IsSound clock answer v w.future (fs w.future)) h.matching.outcome
          (h.sound w.future))

  interrupt-IsSoundProcess :
      (n : ℕ) (o : Option Waiting) (v : Service) (p : Process)
      → Follows c clock answer v p
      → IsSoundProcess c clock answer (interrupt n o p)
  unfolding interrupt step
  interrupt-IsSoundProcess n none v p h = (v, h)
  interrupt-IsSoundProcess n (some w) v p h =
      let b = p.servicer.batcher in
      let s = record p.servicer { batcher = cancel_future w.future b } in
      let (v', h') =
        moves-IsSoundProcess c clock answer (cancels w.future) v p s h
          (step-Answers (batcher_settings c) clock answer (cancels w.future) v b tt h.matching) in
      (
        v',
        ends-Follows c clock answer n w.request interrupted v' (record p { servicer = s }) s h'
            h'.matching tt,
      )

  on_batcher-IsSoundProcess :
      (x : Event) (v : Service) (p : Process)
      → HonestStep (batcher_settings c) clock answer x p.servicer.batcher.phase
      → Follows c clock answer v p
      → IsSoundProcess c clock answer (on_batcher (step (batcher_settings c) clock x) p)
  on_batcher-IsSoundProcess x v p honest h =
      let b = p.servicer.batcher in
      moves-IsSoundProcess c clock answer x v p
        (record p.servicer { batcher = step (batcher_settings c) clock x b }) h
        (step-Answers (batcher_settings c) clock answer x v b honest h.matching)

  -- A step that writes only other fields of the servicer.
  writes-Follows :
      (v : Service) (p : Process) (s : Servicer)
      → s.batcher ≡ p.servicer.batcher
      → Follows c clock answer v p
      → Follows c clock answer v (record p { servicer = s })
  writes-Follows v p s e h = record {
    matching = subst (Matches (batcher_settings c) clock answer v) (sym e) h.matching;
    sound = h.sound;
    calls = h.calls;
    answered = h.answered;
  }

  process_step-IsSoundProcess :
      (x : ProcessStep) (p : Process)
      → HonestHere x p
      → IsSoundProcess c clock answer p
      → IsSoundProcess c clock answer (process_step c clock x p)
  unfolding process_step step get_status server_started sig_handler shut_down
  process_step-IsSoundProcess (predicts request remaining) p honest (v, h) =
      begin_predict-IsSoundProcess c clock answer request remaining v p h
  process_step-IsSoundProcess (wakes n) p honest (v, h) =
      wake-IsSoundProcess n (get_elem? p.calls n) v p h refl
  process_step-IsSoundProcess (interrupts n) p honest (v, h) =
      interrupt-IsSoundProcess n (get_elem? p.calls n) v p h
  process_step-IsSoundProcess steps p honest (v, h) = on_batcher-IsSoundProcess advances v p tt h
  process_step-IsSoundProcess expires p honest (v, h) = on_batcher-IsSoundProcess times_out v p tt h
  process_step-IsSoundProcess (executes r) p honest (v, h) =
      on_batcher-IsSoundProcess (infers r) v p honest h
  process_step-IsSoundProcess gets_status p honest (v, h) =
      (v, writes-Follows v p (get_status c p.servicer).1 refl h)
  process_step-IsSoundProcess starts p honest (v, h) =
      (v, writes-Follows v p (server_started p.servicer) refl h)
  process_step-IsSoundProcess signals p honest (v, h) =
      (v, writes-Follows v p (sig_handler p.servicer) refl h)
  process_step-IsSoundProcess shuts_down p honest (v, h) =
      let (v', h') = on_batcher-IsSoundProcess closes v p tt h in
      (v', writes-Follows v' _ (shut_down clock p.servicer) refl h')

  process_run-IsSoundProcess :
      (xs : List ProcessStep) (p : Process)
      → HonestRun xs p
      → IsSoundProcess c clock answer p
      → IsSoundProcess c clock answer (process_run c clock xs p)
  unfolding process_run HonestRun
  process_run-IsSoundProcess [] p honest h = h
  process_run-IsSoundProcess (x ∷ xs) p honest h =
      process_run-IsSoundProcess xs (process_step c clock x p) honest.1
        (process_step-IsSoundProcess x p honest.0 h)

  new_process-IsSoundProcess : IsSoundProcess c clock answer new_process
  unfolding new_process
  new_process-IsSoundProcess = (
    no_requests,
    record {
      matching = new_batcher-Matches (batcher_settings c) clock answer;
      sound = λ i. tt;
      calls = tt;
      answered = tt;
    },
  )

  -- If the model answers each input by itself, then in any run of the worker, with calls, cancellations,
  -- rounds of the batcher, inferences, signals and the shutdown in any order, each response has the id of
  -- its request, the version that it asked for, the worker's id, and the model's answer to each of the
  -- request's inputs in their order; and a call that is aborted is so with one of six pairs of a status code
  -- and a detail, with INVALID_REQUEST only for no or more than eight inputs and with UNSUPPORTED_MODEL only
  -- for another version than the worker's.
  pub process_run-All-IsAnswered :
      (xs : List ProcessStep)
      → HonestRun xs new_process
      → All (IsAnswered c clock answer) (process_run c clock xs new_process).answered
  process_run-All-IsAnswered xs honest =
      (process_run-IsSoundProcess xs new_process honest new_process-IsSoundProcess).1.answered
