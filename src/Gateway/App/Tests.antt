-- ===== src/Gateway/App/Tests.antt =====
-- Requests that exercise the checks and the middleware.
use distributed_model_server.Gateway.Samples.{config}
use distributed_model_server.Prelude.{
  ◌≡◌, refl, ◌↔◌, inl, ◌++◌, Text, codes, true, false, [], ◌∷◌, some, text_eq, arith,
}
use distributed_model_server.Gateway.State.{ok, GatewayState}
use distributed_model_server.Gateway.Registry.{healthy, new_node}
use distributed_model_server.Gateway.App.Ready.{SomeHealthy, health_ready_iff}
use distributed_model_server.Gateway.App.Json.{get, utf8_length}
use distributed_model_server.Gateway.App.RequestId.{
  repeat_class, request_id_matches, IsRequestId, request_id_matches_iff,
}
use distributed_model_server.Gateway.App.Validation.{
  Arguments, check_inputs, validate_members, validate,
}
use distributed_model_server.Gateway.App.Accepted.{IsAcceptable, validate-IsAcceptable}
use distributed_model_server.Gateway.App.Complete.{payload_of, validate-payload_of}
use distributed_model_server.Gateway.App.Endpoints.{health_ready}
use distributed_model_server.Gateway.App.Middleware.{HttpState, HttpRequest, absent}

abbrev generated : Text
generated = codes "00ff"

abbrev arguments : Arguments
arguments = record {
  request_id = codes "r-1";
  inputs = codes "good" ∷ codes "bad" ∷ [];
  model_version = codes "v1";
  timeout_ms = 1000;
}

arguments-IsAcceptable : IsAcceptable config generated arguments
unfolding request_id_matches repeat_class utf8_length
arguments-IsAcceptable = record {
  known_id = inl refl;
  some_inputs = omega arith;
  few_inputs = omega arith;
  total = 7;
  sized = (
    omega arith,
    (4, 3, refl, omega arith, (omega arith, (3, 0, refl, omega arith, refl, refl)), refl),
  );
  total_fits = omega arith;
  same_model = refl;
  long_enough = omega arith;
  short_enough = omega arith;
}

arguments_match : request_id_matches arguments.request_id ≡ true
unfolding request_id_matches repeat_class
arguments_match = refl

arguments_validated : validate config generated (some (payload_of arguments)) ≡ ok arguments
unfolding validate validate_members check_inputs get request_id_matches repeat_class utf8_length
    text_eq
arguments_validated = refl

validate-payload_of_example : validate config generated (some (payload_of arguments)) ≡ ok arguments
validate-payload_of_example =
    validate-payload_of config generated arguments arguments-IsAcceptable arguments_match

validate-IsAcceptable_example : IsAcceptable config generated arguments
validate-IsAcceptable_example =
    validate-IsAcceptable config generated (some (payload_of arguments)) arguments
      arguments_validated

-- A request id with a newline at its end.
request_id_matches_iff_example :
    (request_id_matches (codes "r-1" ++ 10 ∷ []) ≡ true) ↔ IsRequestId (codes "r-1" ++ 10 ∷ [])
request_id_matches_iff_example = request_id_matches_iff (codes "r-1" ++ 10 ∷ [])

newline_accepted : request_id_matches (codes "r-1" ++ 10 ∷ []) ≡ true
unfolding request_id_matches repeat_class
newline_accepted = refl

abbrev http_state : HttpState
http_state = record { accepting_requests = true; active_requests = 2; requests_total = [] }

abbrev http_request : HttpRequest
http_request = record { is_predict = true; content_length = absent; body_length = 70000 }

abbrev one_worker : GatewayState
one_worker = record {
  workers = record (new_node (codes "w1", codes "w1:50051")) { state = healthy } ∷ [];
  pollers = [];
  stopping = false;
  cursor = 0;
  trace = [];
}

ready_when_one_healthy :
    ((health_ready true one_worker).status_code ≡ 200)
    ↔ ((true ≡ true) × SomeHealthy one_worker.workers)
ready_when_one_healthy = health_ready_iff true one_worker
