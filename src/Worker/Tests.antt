-- ===== src/Worker/Tests.antt =====
-- Runs of the batcher with a queue of two places that exercise its properties.
use distributed_model_server.Prelude.{
  ℕ, false, ◌≡◌, refl, ◌≤◌, Text, codes, List, [], ◌∷◌, map, arith,
}
use distributed_model_server.Protocol.{Double}
use distributed_model_server.Worker.Model.{fake_predict_batch}
use distributed_model_server.Worker.Model.Judged.{AllJudged, fake_predict_batch-AllJudged}
use distributed_model_server.Worker.Samples.{ticks, answer}
use distributed_model_server.Worker.Batcher.Defs.{
  pending, is_pending, RequestEnvelope, Settings, Work, Phase, top, executing, Batcher, new_batcher,
  read, go_to,
}
use distributed_model_server.Worker.Batcher.Loop.{
  failure, no_work, enqueue, new_envelope, put_nowait, advance, advance_from, fetch_first,
  admit_first, collect, take_more, consider, process_batch, gather, gather_one, submit, output,
  infer, infer_from, deliver, queue_depth, close,
}
use distributed_model_server.Worker.Batcher.Run.{
  Event, enqueues, cancels, advances, infers, run, step,
}
use distributed_model_server.Worker.Batcher.Slices.{deliver_each}
use distributed_model_server.Worker.Batcher.Rounds.{IsWithin}
use distributed_model_server.Worker.Batcher.Answers.{run-deliver_each}
use distributed_model_server.Worker.Batcher.Limits.{run-new_batcher-IsWithin, queue_depth-le}
use distributed_model_server.Worker.Batcher.Futures.{Answered, backlog}
use distributed_model_server.Worker.Batcher.Measure.{measure}
use distributed_model_server.Worker.Batcher.Liveness.{AllDone, work_off, run_answers_all}
use distributed_model_server.Worker.Batcher.Fifo.{accepted, run_keeps_accepted}
use distributed_model_server.Worker.Batcher.Shutdown.{run-close_pending}
use distributed_model_server.Worker.Batcher.Contract.{Service, no_requests, ServeAll}
use distributed_model_server.Worker.Batcher.Refines.{Honest, run_refines, run_keeps_answer}

abbrev settings : Settings
settings = record {
  queue_capacity = 2;
  max_batch_requests = 2;
  max_batch_items = 4;
  max_batch_delay_ms = 5;
}

-- Two requests are collected, the second is cancelled, and the batch is executed.
abbrev events : List Event
events =
    enqueues (codes "r1") (codes "good" ∷ []) 100
    ∷ advances
    ∷ enqueues (codes "r2") (codes "bad" ∷ codes "love" ∷ []) 100
    ∷ advances
    ∷ cancels 1
    ∷ advances
    ∷ []

abbrev envelope : ℕ → List Text → RequestEnvelope
envelope i inputs = record {
  request_id = codes "r";
  inputs = inputs;
  local_deadline = 100;
  enqueue_time = 0;
  future = i;
}

abbrev two_requests : Work
two_requests = record {
  valid_batch = envelope 0 (codes "good" ∷ []) ∷ envelope 1 (codes "bad" ∷ codes "love" ∷ []) ∷ [];
  flattened_inputs = codes "good" ∷ codes "bad" ∷ codes "love" ∷ [];
  slices = (0, 1) ∷ (1, 3) ∷ [];
  idx = 3;
}

abbrev executing_batcher : Batcher
executing_batcher = record new_batcher { phase = executing two_requests 3; created = 3 }

run_keeps_accepted_example :
    Answered
      (run settings ticks events new_batcher).futures
      (accepted settings ticks events new_batcher)
      (backlog (run settings ticks events new_batcher))
run_keeps_accepted_example = run_keeps_accepted settings ticks events tt

run-new_batcher-IsWithin_example : IsWithin settings (run settings ticks events new_batcher)
run-new_batcher-IsWithin_example = run-new_batcher-IsWithin settings ticks events

queue_depth-le_example : queue_depth (run settings ticks events new_batcher) ≤ 3
queue_depth-le_example = queue_depth-le settings ticks events (omega arith)

-- Two requests are collected and the batch is executed.
abbrev full_batch : List Event
full_batch =
    enqueues (codes "r1") (codes "good" ∷ []) 100
    ∷ advances
    ∷ enqueues (codes "r2") (codes "bad" ∷ codes "love" ∷ []) 100
    ∷ advances
    ∷ advances
    ∷ []

abbrev executed : Batcher
executed = run settings ticks full_batch new_batcher

abbrev work_of : Phase → Work
work_of (executing w start) = w
work_of _ = no_work

abbrev start_of : Phase → ℕ
start_of (executing w start) = start
start_of _ = 0

executed_phase : executed.phase ≡ executing (work_of executed.phase) (start_of executed.phase)
unfolding run step enqueue new_envelope put_nowait advance advance_from fetch_first admit_first
    collect take_more consider process_batch gather gather_one submit
executed_phase = refl

run-deliver_each_example :
    let w = work_of executed.phase in
    let (finish, b) = read ticks executed in
    infer ticks (output (map answer w.flattened_inputs) 1 2 3) executed
    ≡ go_to top
        (deliver_each ticks (start_of executed.phase) finish (1, 2, 3) answer w.valid_batch b)
run-deliver_each_example =
    run-deliver_each settings ticks answer full_batch (work_of executed.phase)
      (start_of executed.phase) 1 2 3 executed_phase

run-close_pending_example :
    (run settings ticks
        (advances ∷ infers (output [] 1 2 3) ∷ [])
        (close ticks executing_batcher)).futures
      0
    ≡ pending
run-close_pending_example =
    run-close_pending settings ticks 0 (advances ∷ infers (output [] 1 2 3) ∷ []) executing_batcher
      tt refl tt

run_answers_all_example :
    AllDone
      (run settings ticks
        (work_off settings ticks failure (measure executed) executed)
        executed).futures
      (accepted settings ticks full_batch new_batcher)
run_answers_all_example = run_answers_all settings ticks failure full_batch tt

abbrev judged_texts : List Text
judged_texts = codes "Not GOOD" ∷ codes "a glove" ∷ codes "lo ve" ∷ []

fake_predict_batch-AllJudged_example :
    (answers : List (Text × Double)) × (fake_predict_batch judged_texts
      ≡ output answers 100 500 100)
    × AllJudged judged_texts answers
fake_predict_batch-AllJudged_example = fake_predict_batch-AllJudged judged_texts

judged :
    fake_predict_batch judged_texts
    ≡ output
        ((codes "positive", 4606732058837280358)
          ∷ (codes "positive", 4606732058837280358)
          ∷ (codes "negative", 4591870180066957722)
          ∷ [])
        100
        500
        100
unfolding fake_predict_batch
judged = refl

-- The batch is executed and answered, and a failure comes when nothing is left to do.
abbrev answered : List Event
answered =
    enqueues (codes "r1") (codes "good" ∷ []) 100
    ∷ advances
    ∷ enqueues (codes "r2") (codes "bad" ∷ codes "love" ∷ []) 100
    ∷ advances
    ∷ advances
    ∷ infers (output (map answer (codes "good" ∷ codes "bad" ∷ codes "love" ∷ [])) 1 2 3)
    ∷ []

answered-Honest : Honest settings ticks answer answered new_batcher
unfolding run step enqueue new_envelope put_nowait advance advance_from fetch_first admit_first
    collect take_more consider process_batch gather gather_one submit Honest
answered-Honest = (tt, (tt, (tt, (tt, (tt, (refl, tt))))))

run_refines_example :
    (v : Service) × ServeAll ticks answer answered no_requests v
    × (v.outcome ≡ (run settings ticks answered new_batcher).futures)
    × (v.submitted ≡ (run settings ticks answered new_batcher).created)
run_refines_example = run_refines settings ticks answer answered answered-Honest

second_answered : is_pending ((run settings ticks answered new_batcher).futures 1) ≡ false
unfolding run step enqueue new_envelope put_nowait advance advance_from fetch_first admit_first
    collect take_more consider process_batch gather gather_one submit infer infer_from deliver
second_answered = refl

failing-Honest : (b : Batcher) → Honest settings ticks answer (infers failure ∷ []) b
unfolding Honest
failing-Honest b = (tt, tt)

second_keeps_answer :
    (run settings ticks (infers failure ∷ []) (run settings ticks answered new_batcher)).futures 1
    ≡ (run settings ticks answered new_batcher).futures 1
second_keeps_answer =
    run_keeps_answer settings ticks answer answered (infers failure ∷ []) 1 answered-Honest
      (failing-Honest (run settings ticks answered new_batcher)) second_answered
