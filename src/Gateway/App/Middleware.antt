-- ===== src/Gateway/App/Middleware.antt =====
-- gateway/app.py: `body_limit_and_metrics_middleware`.
use distributed_model_server.Prelude.{
  ℕ, ◌+◌, ◌-◌, ◌<◌, ◌≤◌, ◌≡◌, ◌≢◌, ◌⊎◌, String, Bool, true, false, not, List, [], ◌∷◌, Option, some,
  none, ltb, if◌then◌else◌,
}
use distributed_model_server.Errors.{
  code, status_code, to_dict, default_service_draining, default_request_too_large,
}
use distributed_model_server.Gateway.Config.{GatewayConfig}
use distributed_model_server.Gateway.App.Endpoints.{
  failed, Response, Handled, responds, raises, crashes, error_response,
}

pub record HttpState : Type 0 where
  pub accepting_requests : Bool
  -- GATEWAY_ACTIVE_REQUESTS
  pub active_requests : ℕ
  -- GATEWAY_REQUESTS_TOTAL.labels(status_code, error_code).inc(), newest first
  pub requests_total : List (ℕ × String)

-- The header `content-length`: `absent` if it is missing or empty, and `malformed`
-- if `int` refuses it. A negative number is under every limit, as `bytes 0` is.
pub data ContentLength : Type 0 where
  absent malformed : ContentLength
  bytes : ℕ → ContentLength

-- A request: whether its path is `/v1/predict`, the header, and the length of its body.
pub record HttpRequest : Type 0 where
  pub is_predict : Bool
  pub content_length : ContentLength
  pub body_length : ℕ

abbrev pub announces_more : ContentLength → ℕ → Bool
announces_more absent limit = false
announces_more malformed limit = false
announces_more (bytes n) limit = ltb limit n

abbrev pub is_malformed : ContentLength → Bool
is_malformed malformed = true
is_malformed _ = false

-- What the checks before the handler come to: a response without it, an exception that the middleware
-- does not catch, or the call of the handler.
pub data Checked : Type 0 where
  answers : Response → Checked
  escapes enters : Checked

unfoldable pub check_body : GatewayConfig → ℕ → Checked
unfolding to_dict status_code
check_body c body_length =
    if ltb c.http_max_body_bytes body_length
    then answers (error_response [] default_request_too_large)
    else enters

unfoldable pub check_length : GatewayConfig → HttpRequest → Checked
unfolding to_dict status_code check_body
check_length c r =
    if is_malformed r.content_length
    then escapes
    else if announces_more r.content_length c.http_max_body_bytes
    then answers (error_response [] default_request_too_large)
    else check_body c r.body_length

unfoldable pub check_request : GatewayConfig → HttpRequest → Bool → Checked
unfolding check_length
check_request c r accepting =
    if not r.is_predict
    then enters
    else if not accepting
    then answers (error_response [] default_service_draining)
    else check_length c r

-- The `try` statement: the response, its status code and the error code for the counter.
abbrev pub settle : Handled → Response × ℕ × String
settle (responds r) = (r, r.status_code, "NONE")
settle (raises e) = (error_response [] e, status_code e, code e)
settle crashes = (
  record {
    status_code = 500;
    body = failed [] (record { code = "INTERNAL_ERROR"; message = "Internal server error." });
  },
  500,
  "INTERNAL_ERROR",
)

-- The `finally` clause.
unfoldable pub leave : Handled × HttpState → Response × HttpState
leave (h, s) =
    let (response, status, error_code) = settle h in
    (
      response,
      record s {
        active_requests = s.active_requests - 1;
        requests_total = (status, error_code) ∷ s.requests_total;
      },
    )

abbrev pub enter : HttpState → HttpState
enter s = record s { active_requests = s.active_requests + 1 }

-- What follows the checks. `call_next` may do anything to the state while it is awaited. The result is
-- `none` if an exception leaves the middleware.
unfoldable pub proceed :
    (HttpState → Handled × HttpState) → HttpState → Checked → Option Response × HttpState
unfolding leave
proceed call_next s (answers response) = (some response, s)
proceed call_next s escapes = (none, s)
proceed call_next s enters = let (response, s1) = leave (call_next (enter s)) in (some response, s1)

unfoldable pub middleware :
    GatewayConfig
    → HttpRequest
    → (HttpState → Handled × HttpState)
    → HttpState
    → Option Response × HttpState
unfolding check_request proceed
middleware c r call_next s = proceed call_next s (check_request c r s.accepting_requests)

-- A prediction that is handed on: the gateway accepts requests, the header is absent or a number within the
-- limit, and so is the length of the body.
pub record Passes (c : GatewayConfig) (r : HttpRequest) (s : HttpState) : Type 0 where
  pub accepting : s.accepting_requests ≡ true
  pub readable : r.content_length ≢ malformed
  pub announced : (n : ℕ) → r.content_length ≡ bytes n → n ≤ c.http_max_body_bytes
  pub sent : r.body_length ≤ c.http_max_body_bytes

-- The ways in which the middleware may deal with a request.
pub data Answers (c : GatewayConfig) (r : HttpRequest) (call_next : HttpState → Handled × HttpState)
    (s : HttpState) : Option Response × HttpState → Type 0 where
  draining :
      r.is_predict ≡ true
      → s.accepting_requests ≡ false
      → Answers c r call_next s (some (error_response [] default_service_draining), s)
  too_large :
      r.is_predict ≡ true
      → s.accepting_requests ≡ true
      → ((n : ℕ) × (r.content_length ≡ bytes n) × (c.http_max_body_bytes < n))
        ⊎ (c.http_max_body_bytes < r.body_length)
      → Answers c r call_next s (some (error_response [] default_request_too_large), s)
  bad_header :
      r.is_predict ≡ true
      → s.accepting_requests ≡ true
      → r.content_length ≡ malformed
      → Answers c r call_next s (none, s)
  handled :
      (r.is_predict ≡ true → Passes c r s)
      → (response : Response) (s' : HttpState) (error_code : String)
      → (s'.requests_total
          ≡ (response.status_code, error_code) ∷ (call_next (enter s)).1.requests_total)
      → (s'.active_requests ≡ (call_next (enter s)).1.active_requests - 1)
      → Answers c r call_next s (some response, s')

module _ (c : GatewayConfig) (r : HttpRequest) (call_next : HttpState → Handled × HttpState)
    (s : HttpState) where
  Leads : Checked → Type 0
  unfolding proceed
  Leads x = Answers c r call_next s (proceed call_next s x)
