-- ===== src/Wire/Served/Tests.antt =====
-- One prediction through a gateway and a worker.
use distributed_model_server.Prelude.{
  ◌≡◌, refl, text_eq, codes, List, [], ◌∷◌, map, some, get_elem?,
}
use distributed_model_server.Protocol.{WorkerState, PredictResponse}
use distributed_model_server.Gateway.Samples.{config, reply_in}
use distributed_model_server.Gateway.Registry.{status, probe}
use distributed_model_server.Gateway.Registry.Health.{probed, write_health}
use distributed_model_server.Gateway.State.{init, start, on_worker}
use distributed_model_server.Gateway.Scheduler.{select_worker}
use distributed_model_server.Gateway.Client.{Call, answered, begin}
use distributed_model_server.Gateway.App.Validation.{Arguments, validate}
use distributed_model_server.Gateway.App.Complete.{payload_of}
use distributed_model_server.Gateway.App.Endpoints.{predicted, predict_begin, open_prediction}
use distributed_model_server.Gateway.App.Middleware.{check_body, absent, check_request}
use distributed_model_server.Gateway.App.RequestId.{request_id_matches}
use distributed_model_server.Gateway.Http.{
  in_flight, HttpStep, requests, proceeds, handles, replies, returns, writes, opens, http_step,
  http_run, http_boot, proceed_task,
}
use distributed_model_server.Gateway.Http.Requests.{request_of}
use distributed_model_server.Worker.Samples.{worker_config, ticks, answer}
use distributed_model_server.Worker.Batcher.Loop.{
  output, enqueue, new_envelope, put_nowait, advance, advance_from, fetch_first, admit_first,
  collect, take_more, consider, process_batch, gather, gather_one, submit, time_out, time_out_from,
  infer, infer_from, deliver, deliver_one,
}
use distributed_model_server.Worker.Server.{
  new_servicer, begin_predict, admit, on_admission, server_started, finish_predict, response_of,
  responds,
}
use distributed_model_server.Worker.Server.Process.{
  ProcessStep, predicts, wakes, advances, times_out, infers, starts, process_step, process_run,
  new_process, wake,
}
use distributed_model_server.Worker.Server.Process.Answers.{HonestRun}
use distributed_model_server.Wire.Served.{http_run-process_run}

abbrev arguments : Arguments
arguments = record {
  request_id = codes "r-1";
  inputs = codes "good" ∷ codes "bad" ∷ [];
  model_version = codes "v1";
  timeout_ms = 1000;
}

-- A worker becomes healthy, and then a prediction comes in and is sent to it.
abbrev http_steps : List HttpStep
http_steps =
    opens
    ∷ writes (codes "w1") (probed 7 (status (reply_in WorkerState.ready)))
    ∷ writes (codes "w1") (probed 9 (status (reply_in WorkerState.ready)))
    ∷ requests absent 90 (codes "id") (some (payload_of arguments))
    ∷ proceeds 0
    ∷ handles 0 1 1 2 3 []
    ∷ []

abbrev call : Call
call = record {
  job = record { request = request_of arguments; gateway_deadline = 1000001 };
  exclude_ids = [];
  attempt = 1;
  later = 2 ∷ [];
  worker_id = codes "w1";
  timeout = 999999;
}

-- The worker batches it alone.
abbrev worker_steps : List ProcessStep
worker_steps =
    starts
    ∷ predicts (request_of arguments) (some 999999)
    ∷ advances
    ∷ times_out
    ∷ infers (output (map answer (codes "good" ∷ codes "bad" ∷ [])) 1 2 3)
    ∷ wakes 0
    ∷ []

worker_steps-HonestRun : HonestRun worker_config ticks answer worker_steps new_process
unfolding HonestRun process_step new_process new_servicer server_started begin_predict admit
    on_admission enqueue new_envelope put_nowait advance advance_from fetch_first admit_first
    collect take_more consider process_batch gather gather_one submit time_out time_out_from text_eq
worker_steps-HonestRun = (tt, (tt, (tt, (tt, (refl, (tt, tt))))))

abbrev response : PredictResponse
response = record {
  request_id = codes "r-1";
  model_version = codes "v1";
  worker_id = codes "w1";
  predictions =
      record { label = codes "good"; score = 0 } ∷ record { label = codes "bad"; score = 0 } ∷ [];
  timing = record {
    queue_ms = 3;
    preprocess_ms = 1;
    inference_ms = 2;
    postprocess_ms = 3;
    worker_total_ms = 5;
  };
}

is_sent :
    get_elem? (http_run config http_steps (http_boot config)).tasks 0
    ≡ some (in_flight arguments call 1)
unfolding http_run http_step init start on_worker write_health probe check_request check_body
    proceed_task predict_begin open_prediction validate begin select_worker text_eq
    request_id_matches
is_sent = refl

is_answered :
    get_elem? (process_run worker_config ticks worker_steps new_process).answered 0
    ≡ some (record { request = call.job.request; outcome = responds response })
unfolding process_run process_step new_process new_servicer server_started begin_predict admit
    on_admission enqueue new_envelope put_nowait advance advance_from fetch_first admit_first
    collect take_more consider process_batch gather gather_one submit time_out time_out_from text_eq
    infer infer_from deliver deliver_one wake finish_predict response_of
is_answered = refl

http_run-process_run_example :
    (http_run config
      (replies 0 (answered response) 4 5 6 ∷ returns 0 ∷ [])
      (http_run config http_steps (http_boot config))).responses
    ≡ some (record {
      status_code = 200;
      body =
          predicted
            (codes "r-1")
            (codes "v1")
            (codes "w1")
            1
            (record { label = codes "good"; score = 0 }
              ∷ record { label = codes "bad"; score = 0 }
              ∷ [])
            response.timing
            5;
    })
      ∷ (http_run config http_steps (http_boot config)).responses
http_run-process_run_example =
    http_run-process_run config worker_config ticks answer http_steps worker_steps 0 0 arguments
      call 1 response 4 5 6 worker_steps-HonestRun is_sent is_answered
