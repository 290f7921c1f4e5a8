-- ===== src/Worker/Server/Process/Tests.antt =====
-- A run of the worker with two calls in one batch, and a third that is refused.
use distributed_model_server.Prelude.{
  ◌≡◌, refl, Text, text_eq, codes, List, [], ◌∷◌, map, some, All, length,
}
use distributed_model_server.Protocol.{PredictRequest}
use distributed_model_server.Worker.Samples.{worker_config, ticks, answer}
use distributed_model_server.Worker.Batcher.Loop.{
  output, enqueue, new_envelope, put_nowait, advance, advance_from, fetch_first, admit_first,
  collect, take_more, consider, process_batch, gather, gather_one, submit, time_out, time_out_from,
  infer, infer_from, deliver, deliver_one,
}
use distributed_model_server.Worker.Server.{
  new_servicer, begin_predict, admit, on_admission, server_started, finish_predict, response_of,
}
use distributed_model_server.Worker.Server.Process.{
  ProcessStep, predicts, wakes, advances, times_out, infers, starts, process_step, process_run,
  new_process, wake,
}
use distributed_model_server.Worker.Server.Process.Sound.{IsAnswered}
use distributed_model_server.Worker.Server.Process.Answers.{HonestRun, process_run-All-IsAnswered}

abbrev request_for : Text → List Text → PredictRequest
request_for version inputs = record {
  request_id = codes "r";
  model_version = version;
  inputs = inputs;
}

abbrev steps : List ProcessStep
steps =
    starts
    ∷ predicts (request_for (codes "v1") (codes "good" ∷ [])) (some 100)
    ∷ advances
    ∷ predicts (request_for (codes "v1") (codes "bad" ∷ codes "love" ∷ [])) (some 100)
    ∷ predicts (request_for (codes "v2") (codes "bad" ∷ [])) (some 100)
    ∷ advances
    ∷ times_out
    ∷ infers (output (map answer (codes "good" ∷ codes "bad" ∷ codes "love" ∷ [])) 1 2 3)
    ∷ wakes 0
    ∷ wakes 0
    ∷ []

steps-HonestRun : HonestRun worker_config ticks answer steps new_process
unfolding HonestRun process_step new_process new_servicer server_started begin_predict admit
    on_admission enqueue new_envelope put_nowait advance advance_from fetch_first admit_first
    collect take_more consider process_batch gather gather_one submit time_out time_out_from text_eq
steps-HonestRun = (tt, (tt, (tt, (tt, (tt, (tt, (tt, (refl, (tt, (tt, tt))))))))))

process_run-All-IsAnswered_example :
    All
      (IsAnswered worker_config ticks answer)
      (process_run worker_config ticks steps new_process).answered
process_run-All-IsAnswered_example =
    process_run-All-IsAnswered worker_config ticks answer steps steps-HonestRun

three_answers : length (process_run worker_config ticks steps new_process).answered ≡ 3
unfolding process_run process_step new_process new_servicer server_started begin_predict admit
    on_admission enqueue new_envelope put_nowait advance advance_from fetch_first admit_first
    collect take_more consider process_batch gather gather_one submit time_out time_out_from text_eq
    infer infer_from deliver deliver_one wake finish_predict response_of
three_answers = refl
