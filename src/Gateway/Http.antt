-- ===== src/Gateway/Http.antt =====
-- gateway/app.py as a process: HTTP requests run through the middleware and the endpoints while the registry
-- is polled, from the start-up of `lifespan` to its shutdown. A request is cut at the awaits of the
-- middleware, that of its body and that of `call_next` on the way in and on the way out, and at the await of
-- the RPC in the client. The endpoint reads a body that the middleware has read, without a further wait.
pub mod Calls
pub mod Refines
pub mod Gauge
pub mod Draining
pub mod Requests
mod Tests
use distributed_model_server.Prelude.{
  remove_at, ℕ, zero, suc, ◌+◌, ◌-◌, Text, true, false, List, [], ◌∷◌, Option, none, some,
  get_elem?,
}
use distributed_model_server.Protocol.{PredictRequest, Millis}
use distributed_model_server.Gateway.Config.{GatewayConfig}
use distributed_model_server.Gateway.Registry.Health.{HealthWrite, write_health}
use distributed_model_server.Gateway.State.{GatewayState, init, start, stop, on_worker, Result}
use distributed_model_server.Gateway.Client.{
  Call, Reply, Progress, waiting, finished, begin, resume, GatewayPredictionResult,
}
use distributed_model_server.Gateway.App.Json.{Json}
use distributed_model_server.Gateway.App.Validation.{Arguments}
use distributed_model_server.Gateway.App.Endpoints.{
  Response, Handled, responds, Opened, refused, predicting, open_prediction, predict_begin,
  predict_end, health_live, health_ready, metrics,
}
use distributed_model_server.Gateway.App.Middleware.{
  check_body, HttpState, HttpRequest, ContentLength, Checked, answers, escapes, enters,
  check_request, leave, enter,
}

-- The endpoints besides `predict`: `/health/live`, `/health/ready` and `/metrics`.
pub data Endpoint : Type 0 where
  live ready counters : Endpoint

-- A request under way.
pub data Task : Type 0 where
  -- on `/v1/predict`, in the await of its body, with the length of it, the id made for the request, and the
  -- payload
  entering : ℕ → Text → Option Json → Task
  -- in `call_next`, before the endpoint `predict` runs
  handling : Text → Option Json → Task
  -- in `call_next`, before another endpoint runs
  getting : Endpoint → Task
  -- in the await of its RPC, with the reading `t0` of its start
  in_flight : Arguments → Call → ℕ → Task
  -- in `call_next`, after the end of its endpoint
  returning : Handled → Task

pub record HttpGateway : Type 0 where
  pub http : HttpState
  pub gateway : GatewayState
  pub tasks : List Task
  -- what was sent, newest first; `none` is an exception that leaves the middleware
  pub responses : List (Option Response)

pub data HttpStep : Type 0 where
  -- a prediction comes in: its header, the length of its body, the id made for it, and its payload
  requests : ContentLength → ℕ → Text → Option Json → HttpStep
  -- a request on another endpoint comes in
  gets : Endpoint → HttpStep
  -- the body of the request at this place is there, and its length is checked
  proceeds : ℕ → HttpStep
  -- the endpoint of the request at this place runs: `t0`, the readings of the client, `t1`, and what
  -- `generate_latest` gives
  handles : ℕ → ℕ → ℕ → ℕ → ℕ → Text → HttpStep
  -- the RPC of the request at this place ends: the reply, the readings of the client, and `t1`
  replies : ℕ → Reply → ℕ → ℕ → ℕ → HttpStep
  -- the end of `call_next` reaches the middleware of the request at this place
  returns : ℕ → HttpStep
  writes : Text → HealthWrite → HttpStep
  -- the two halves of `lifespan`
  opens shuts : HttpStep

-- The client waits again, or the endpoint makes its response.
abbrev pub carry_on : Arguments → ℕ → ℕ → Progress → Task
unfolding predict_end
carry_on a t0 t1 (waiting k) = in_flight a k t0
carry_on a t0 t1 (finished r) = returning (predict_end a (t1 - t0) r)

abbrev pub after_open : ℕ → ℕ → Opened → Task
unfolding carry_on
after_open t0 t1 (refused h) = returning h
after_open t0 t1 (predicting a p) = carry_on a t0 t1 p

abbrev pub after_check : Checked → ℕ → Text → Option Json → HttpGateway → HttpGateway
after_check (answers response) body_length generated payload s = record s {
  responses = some response ∷ s.responses;
}
after_check escapes body_length generated payload s = record s { responses = none ∷ s.responses }
after_check enters body_length generated payload s = record s {
  tasks = entering body_length generated payload ∷ s.tasks;
}

abbrev pub get_response : Endpoint → Text → HttpGateway → Response
unfolding health_live health_ready metrics
get_response live latest s = health_live
get_response ready latest s = health_ready s.http.accepting_requests s.gateway
get_response counters latest s = metrics latest

-- The length of the body of the request at this place is checked.
abbrev pub after_body : Checked → ℕ → Text → Option Json → HttpGateway → HttpGateway
after_body (answers response) i generated payload s = record s {
  tasks = remove_at i s.tasks;
  responses = some response ∷ s.responses;
}
after_body escapes i generated payload s = record s {
  tasks = remove_at i s.tasks;
  responses = none ∷ s.responses;
}
after_body enters i generated payload s = record s {
  http = enter s.http;
  tasks = handling generated payload ∷ remove_at i s.tasks;
}

unfoldable pub proceed_task : GatewayConfig → ℕ → Option Task → HttpGateway → HttpGateway
unfolding check_body
proceed_task c i (some (entering body_length generated payload)) s =
    after_body (check_body c body_length) i generated payload s
proceed_task c i _ s = s

unfoldable pub handle_task :
    GatewayConfig → ℕ → ℕ → ℕ → ℕ → ℕ → Text → Option Task → HttpGateway → HttpGateway
unfolding after_open predict_begin get_response
handle_task c i t0 c0 c1 t1 latest (some (handling generated payload)) s =
    let (o, g) = predict_begin c generated payload c0 c1 s.gateway in
    record s { gateway = g; tasks = after_open t0 t1 o ∷ remove_at i s.tasks }
handle_task c i t0 c0 c1 t1 latest (some (getting e)) s = record s {
  tasks = returning (responds (get_response e latest s)) ∷ remove_at i s.tasks;
}
handle_task c i t0 c0 c1 t1 latest _ s = s

unfoldable pub reply_task :
    GatewayConfig → ℕ → Reply → ℕ → ℕ → ℕ → Option Task → HttpGateway → HttpGateway
unfolding carry_on resume
reply_task c i reply c1 c2 t1 (some (in_flight a k t0)) s =
    let (p, g) = resume c k reply c1 c2 s.gateway in
    record s { gateway = g; tasks = carry_on a t0 t1 p ∷ remove_at i s.tasks }
reply_task c i reply c1 c2 t1 _ s = s

unfoldable pub return_task : ℕ → Option Task → HttpGateway → HttpGateway
unfolding leave
return_task i (some (returning h)) s =
    let (response, http) = leave (h, s.http) in
    record s { http = http; tasks = remove_at i s.tasks; responses = some response ∷ s.responses }
return_task i _ s = s

unfoldable pub http_step : GatewayConfig → HttpStep → HttpGateway → HttpGateway
unfolding check_request proceed_task handle_task reply_task return_task on_worker write_health start
    stop
-- The body is not there yet, so no length of it is checked.
http_step c (requests length body_length generated payload) s =
    let r : HttpRequest = record { is_predict = true; content_length = length; body_length = 0 } in
    after_check (check_request c r s.http.accepting_requests) body_length generated payload s
http_step c (gets e) s = record s { http = enter s.http; tasks = getting e ∷ s.tasks }
http_step c (proceeds i) s = proceed_task c i (get_elem? s.tasks i) s
http_step c (handles i t0 c0 c1 t1 latest) s =
    handle_task c i t0 c0 c1 t1 latest (get_elem? s.tasks i) s
http_step c (replies i reply c1 c2 t1) s = reply_task c i reply c1 c2 t1 (get_elem? s.tasks i) s
http_step c (returns i) s = return_task i (get_elem? s.tasks i) s
http_step c (writes wid x) s = record s { gateway = on_worker wid (write_health c x) s.gateway }
http_step c opens s = record s {
  http = record s.http { accepting_requests = true };
  gateway = start s.gateway;
}
http_step c shuts s = record s {
  http = record s.http { accepting_requests = false };
  gateway = stop s.gateway;
}

unfoldable pub http_run : GatewayConfig → List HttpStep → HttpGateway → HttpGateway
unfolding http_step
http_run c [] s = s
http_run c (x ∷ xs) s = http_run c xs (http_step c x s)

abbrev pub http_boot : GatewayConfig → HttpGateway
http_boot c = record {
  http = record { accepting_requests = true; active_requests = 0; requests_total = [] };
  gateway = init c;
  tasks = [];
  responses = [];
}
