-- ===== src/Wire/Served.antt =====
-- A prediction all the way: the HTTP process of the gateway, the process of a worker, and the response of the
-- one that comes to the other.
mod Tests
use distributed_model_server.Prelude.{
  ℕ, ◌-◌, ◌≡◌, refl, sym, ◌∙◌, ap, subst, map, Text, List, [], ◌∷◌, Option, some, get_elem?,
  All-get_elem?,
}
use distributed_model_server.Protocol.{Double, PredictRequest, PredictResponse, Prediction}
use distributed_model_server.Gateway.Config.{GatewayConfig}
use distributed_model_server.Gateway.Client.{Call, answered}
use distributed_model_server.Gateway.App.Validation.{Arguments}
use distributed_model_server.Gateway.App.Endpoints.{Response, predicted}
use distributed_model_server.Gateway.Http.{
  in_flight, HttpStep, replies, returns, http_run, http_boot,
}
use distributed_model_server.Gateway.Http.Requests.{
  request_of, http_run-request_of, replies-predicted,
}
use distributed_model_server.Worker.Config.{WorkerConfig}
use distributed_model_server.Worker.Server.{responds}
use distributed_model_server.Worker.Server.Process.{Answered, ProcessStep, process_run, new_process}
use distributed_model_server.Worker.Server.Process.Sound.{IsAnswered, IsResponse}
use distributed_model_server.Worker.Server.Process.Answers.{HonestRun, process_run-All-IsAnswered}

module _ (c : GatewayConfig) (w : WorkerConfig) (clock : ℕ → ℕ)
    (answer : Text → Text × Double) where
  worker-IsResponse :
      (ys : List ProcessStep) (n : ℕ) (request : PredictRequest) (r : PredictResponse)
      → HonestRun w clock answer ys new_process
      → get_elem? (process_run w clock ys new_process).answered n
        ≡ some (record { request = request; outcome = responds r })
      → IsResponse w clock answer request r
  worker-IsResponse ys n request r honest e =
      All-get_elem? (IsAnswered w clock answer) (process_run w clock ys new_process).answered n
        (record { request = request; outcome = responds r })
        (process_run-All-IsAnswered w clock answer ys honest) e

  -- After any run of the HTTP process and any run of a worker whose model answers each input by itself:
  -- when a response of the worker to the RPC of a waiting HTTP request arrives and its end has come back
  -- through the middleware, the request is answered with 200, its own id and model version, the worker that was chosen, and the model's answer to each of its own
  -- inputs in their order.
  pub http_run-process_run :
      (xs : List HttpStep) (ys : List ProcessStep) (i n : ℕ) (a : Arguments) (k : Call) (t0 : ℕ)
      (r : PredictResponse) (c1 c2 t1 : ℕ)
      → HonestRun w clock answer ys new_process
      → get_elem? (http_run c xs (http_boot c)).tasks i ≡ some (in_flight a k t0)
      → get_elem? (process_run w clock ys new_process).answered n
        ≡ some (record { request = k.job.request; outcome = responds r })
      → (http_run c
          (replies i (answered r) c1 c2 t1 ∷ returns 0 ∷ [])
          (http_run c xs (http_boot c))).responses
        ≡ some (record {
          status_code = 200;
          body =
              predicted a.request_id a.model_version k.worker_id k.attempt
                (map (λ t. record { label = (answer t).0; score = (answer t).1 }) a.inputs)
                r.timing
                (t1 - t0);
        })
          ∷ (http_run c xs (http_boot c)).responses
  http_run-process_run xs ys i n a k t0 r c1 c2 t1 honest waits sent =
      let s = http_run c xs (http_boot c) in
      let right = (worker-IsResponse ys n k.job.request r honest sent).right in
      let own = ap (λ q. q.inputs) (http_run-request_of c xs i a k t0 waits) in
      replies-predicted c s i a k t0 r c1 c2 t1 waits
      ∙ ap
          (λ ps.
            some (record {
              status_code = 200;
              body =
                  predicted a.request_id a.model_version k.worker_id k.attempt ps r.timing
                    (t1 - t0);
            })
            ∷ s.responses)
          (right ∙ ap (map (λ t. record { label = (answer t).0; score = (answer t).1 })) own)
