-- ===== src/Gateway/Http/Requests.antt =====
-- Each HTTP request that waits for an RPC waits for the answer to its own arguments.
use distributed_model_server.Prelude.{
  remove_at, All-remove_at, ℕ, ◌-◌, ◌≡◌, refl, subst, Text, List, [], ◌∷◌, Option, none, some,
  get_elem?, All, All-get_elem?,
}
use distributed_model_server.Protocol.{PredictRequest, PredictResponse}
use distributed_model_server.Gateway.Config.{GatewayConfig}
use distributed_model_server.Gateway.State.{GatewayState, Result, ok, raised, crashed}
use distributed_model_server.Gateway.Client.{
  Call, Reply, answered, Progress, waiting, finished, begin, resume, result_of,
}
use distributed_model_server.Gateway.Client.Jobs.{IsFor, begin-IsFor, resume-IsFor, resume-answered}
use distributed_model_server.Gateway.App.Json.{Json}
use distributed_model_server.Gateway.App.Validation.{Arguments, validate}
use distributed_model_server.Gateway.App.Endpoints.{
  predicted, open_prediction, predict_begin, predict_end,
}
use distributed_model_server.Gateway.App.Middleware.{
  check_body, Checked, answers, escapes, enters, leave,
}
use distributed_model_server.Gateway.Http.{
  Task, entering, handling, getting, in_flight, returning, HttpGateway, HttpStep, requests, gets,
  proceeds, handles, replies, returns, writes, opens, shuts, carry_on, after_open, after_check,
  after_body, proceed_task, handle_task, reply_task, return_task, http_step, http_run, http_boot,
}

abbrev pub request_of : Arguments → PredictRequest
request_of a = record {
  request_id = a.request_id;
  model_version = a.model_version;
  inputs = a.inputs;
}

abbrev IsOwn : Task → Type 0
IsOwn (entering size generated payload) = Unit
IsOwn (handling generated payload) = Unit
IsOwn (getting e) = Unit
IsOwn (in_flight a k t0) = k.job.request ≡ request_of a
IsOwn (returning h) = Unit

abbrev AllOwn : HttpGateway → Type 0
AllOwn s = All IsOwn s.tasks

carry_on-IsOwn :
    (a : Arguments) (t0 t1 : ℕ) (p : Progress) → IsFor (request_of a) p → IsOwn (carry_on a t0 t1 p)
unfolding carry_on
carry_on-IsOwn a t0 t1 (waiting k) e = e
carry_on-IsOwn a t0 t1 (finished r) e = tt

module _ (c : GatewayConfig) where
  opened-IsOwn :
      (t0 t1 c0 c1 : ℕ) (r : Result Arguments) (g : GatewayState)
      → IsOwn (after_open t0 t1 (open_prediction c c0 c1 r g).0)
  unfolding open_prediction after_open
  opened-IsOwn t0 t1 c0 c1 (ok a) g =
      carry_on-IsOwn a t0 t1 (begin c (request_of a) a.timeout_ms c0 c1 g).0
        (begin-IsFor c (request_of a) a.timeout_ms c0 c1 g)
  opened-IsOwn t0 t1 c0 c1 (raised e) g = tt
  opened-IsOwn t0 t1 c0 c1 crashed g = tt

  after_body-AllOwn :
      (x : Checked) (i : ℕ) (generated : Text) (payload : Option Json) (s : HttpGateway)
      → AllOwn s
      → AllOwn (after_body x i generated payload s)
  after_body-AllOwn (answers response) i generated payload s h = All-remove_at IsOwn i s.tasks h
  after_body-AllOwn escapes i generated payload s h = All-remove_at IsOwn i s.tasks h
  after_body-AllOwn enters i generated payload s h = (tt, All-remove_at IsOwn i s.tasks h)

  proceed_task-AllOwn :
      (i : ℕ) (o : Option Task) (s : HttpGateway) → AllOwn s → AllOwn (proceed_task c i o s)
  unfolding proceed_task check_body
  proceed_task-AllOwn i none s h = h
  proceed_task-AllOwn i (some (entering size g p)) s h =
      after_body-AllOwn (check_body c size) i g p s h
  proceed_task-AllOwn i (some (handling g p)) s h = h
  proceed_task-AllOwn i (some (getting x)) s h = h
  proceed_task-AllOwn i (some (in_flight a k t0)) s h = h
  proceed_task-AllOwn i (some (returning r)) s h = h

  handle_task-AllOwn :
      (i t0 c0 c1 t1 : ℕ) (latest : Text) (o : Option Task) (s : HttpGateway)
      → AllOwn s
      → AllOwn (handle_task c i t0 c0 c1 t1 latest o s)
  unfolding handle_task predict_begin
  handle_task-AllOwn i t0 c0 c1 t1 latest none s h = h
  handle_task-AllOwn i t0 c0 c1 t1 latest (some (entering size g p)) s h = h
  handle_task-AllOwn i t0 c0 c1 t1 latest (some (handling generated payload)) s h = (
    opened-IsOwn t0 t1 c0 c1 (validate c generated payload) s.gateway,
    All-remove_at IsOwn i s.tasks h,
  )
  handle_task-AllOwn i t0 c0 c1 t1 latest (some (getting x)) s h =
      (tt, All-remove_at IsOwn i s.tasks h)
  handle_task-AllOwn i t0 c0 c1 t1 latest (some (in_flight a k t)) s h = h
  handle_task-AllOwn i t0 c0 c1 t1 latest (some (returning r)) s h = h

  reply_task-AllOwn :
      (i : ℕ) (reply : Reply) (c1 c2 t1 : ℕ) (o : Option Task) (s : HttpGateway)
      → get_elem? s.tasks i ≡ o
      → AllOwn s
      → AllOwn (reply_task c i reply c1 c2 t1 o s)
  unfolding reply_task
  reply_task-AllOwn i reply c1 c2 t1 none s e h = h
  reply_task-AllOwn i reply c1 c2 t1 (some (entering size g p)) s e h = h
  reply_task-AllOwn i reply c1 c2 t1 (some (handling g p)) s e h = h
  reply_task-AllOwn i reply c1 c2 t1 (some (getting x)) s e h = h
  reply_task-AllOwn i reply c1 c2 t1 (some (returning r)) s e h = h
  reply_task-AllOwn i reply c1 c2 t1 (some (in_flight a k t0)) s e h = (
    carry_on-IsOwn a t0 t1 (resume c k reply c1 c2 s.gateway).0 (
        subst (λ q. IsFor q (resume c k reply c1 c2 s.gateway).0)
          (All-get_elem? IsOwn s.tasks i (in_flight a k t0) h e)
          (resume-IsFor c k reply c1 c2 s.gateway)),
    All-remove_at IsOwn i s.tasks h,
  )

  return_task-AllOwn :
      (i : ℕ) (o : Option Task) (s : HttpGateway) → AllOwn s → AllOwn (return_task i o s)
  unfolding return_task leave
  return_task-AllOwn i none s h = h
  return_task-AllOwn i (some (entering size g p)) s h = h
  return_task-AllOwn i (some (handling g p)) s h = h
  return_task-AllOwn i (some (getting x)) s h = h
  return_task-AllOwn i (some (in_flight a k t0)) s h = h
  return_task-AllOwn i (some (returning r)) s h = All-remove_at IsOwn i s.tasks h

  after_check-AllOwn :
      (x : Checked) (size : ℕ) (generated : Text) (payload : Option Json) (s : HttpGateway)
      → AllOwn s
      → AllOwn (after_check x size generated payload s)
  after_check-AllOwn (answers response) size generated payload s h = h
  after_check-AllOwn escapes size generated payload s h = h
  after_check-AllOwn enters size generated payload s h = (tt, h)

  http_step-AllOwn : (x : HttpStep) (s : HttpGateway) → AllOwn s → AllOwn (http_step c x s)
  unfolding http_step
  http_step-AllOwn (requests l l2 g p) s h = after_check-AllOwn _ l2 g p s h
  http_step-AllOwn (gets x) s h = (tt, h)
  http_step-AllOwn (proceeds i) s h = proceed_task-AllOwn i (get_elem? s.tasks i) s h
  http_step-AllOwn (handles i t0 c0 c1 t1 latest) s h =
      handle_task-AllOwn i t0 c0 c1 t1 latest (get_elem? s.tasks i) s h
  http_step-AllOwn (replies i r c1 c2 t1) s h =
      reply_task-AllOwn i r c1 c2 t1 (get_elem? s.tasks i) s refl h
  http_step-AllOwn (returns i) s h = return_task-AllOwn i (get_elem? s.tasks i) s h
  http_step-AllOwn (writes w x) s h = h
  http_step-AllOwn opens s h = h
  http_step-AllOwn shuts s h = h

  http_run-AllOwn : (xs : List HttpStep) (s : HttpGateway) → AllOwn s → AllOwn (http_run c xs s)
  unfolding http_run
  http_run-AllOwn [] s h = h
  http_run-AllOwn (x ∷ xs) s h = http_run-AllOwn xs (http_step c x s) (http_step-AllOwn x s h)

  -- In any run of the HTTP process, a request that waits for an RPC waits for one with its own arguments.
  pub http_run-request_of :
      (xs : List HttpStep) (i : ℕ) (a : Arguments) (k : Call) (t0 : ℕ)
      → get_elem? (http_run c xs (http_boot c)).tasks i ≡ some (in_flight a k t0)
      → k.job.request ≡ request_of a
  http_run-request_of xs i a k t0 e =
      All-get_elem? IsOwn (http_run c xs (http_boot c)).tasks i (in_flight a k t0)
        (http_run-AllOwn xs (http_boot c) tt) e

  reply_task-predicted :
      (s : HttpGateway) (i : ℕ) (a : Arguments) (k : Call) (r : PredictResponse) (t0 c1 c2 t1 : ℕ)
      (p : Progress × GatewayState) (g : GatewayState)
      → p ≡ (finished (ok (result_of k r)), g)
      → (return_task 0 (some (carry_on a t0 t1 p.0)) (record s {
        gateway = p.1;
        tasks = carry_on a t0 t1 p.0 ∷ remove_at i s.tasks;
      })).responses
        ≡ some (record {
          status_code = 200;
          body =
              predicted a.request_id a.model_version k.worker_id k.attempt r.predictions r.timing
                (t1 - t0);
        })
          ∷ s.responses
  unfolding return_task carry_on result_of predict_end leave
  reply_task-predicted s i a k r t0 c1 c2 t1 p g e = rw e refl

  -- The reply of a worker becomes the response to the request that waits for it, once it has come back
  -- through the middleware.
  pub replies-predicted :
      (s : HttpGateway) (i : ℕ) (a : Arguments) (k : Call) (t0 : ℕ) (r : PredictResponse)
      (c1 c2 t1 : ℕ)
      → get_elem? s.tasks i ≡ some (in_flight a k t0)
      → (http_run c (replies i (answered r) c1 c2 t1 ∷ returns 0 ∷ []) s).responses
        ≡ some (record {
          status_code = 200;
          body =
              predicted a.request_id a.model_version k.worker_id k.attempt r.predictions r.timing
                (t1 - t0);
        })
          ∷ s.responses
  unfolding http_run http_step reply_task
  replies-predicted s i a k t0 r c1 c2 t1 e = rw e (
      reply_task-predicted s i a k r t0 c1 c2 t1 (resume c k (answered r) c1 c2 s.gateway) _
        (resume-answered c k r c1 c2 s.gateway))
