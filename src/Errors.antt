-- ===== src/Errors.antt =====
-- shared/errors.py: the hierarchy below `AppError`, one constructor for each class, with the message
-- that the instance was given.
use distributed_model_server.Prelude.{ℕ, String}

pub data AppError : Type 0 where
  invalid_request unsupported_model request_too_large gateway_at_capacity : String → AppError
  worker_queue_full no_healthy_worker worker_unavailable service_draining : String → AppError
  deadline_exceeded internal_server : String → AppError

unfoldable pub code : AppError → String
code (invalid_request _) = "INVALID_REQUEST"
code (unsupported_model _) = "UNSUPPORTED_MODEL"
code (request_too_large _) = "REQUEST_TOO_LARGE"
code (gateway_at_capacity _) = "GATEWAY_AT_CAPACITY"
code (worker_queue_full _) = "WORKER_QUEUE_FULL"
code (no_healthy_worker _) = "NO_HEALTHY_WORKER"
code (worker_unavailable _) = "WORKER_UNAVAILABLE"
code (service_draining _) = "SERVICE_DRAINING"
code (deadline_exceeded _) = "DEADLINE_EXCEEDED"
code (internal_server _) = "INTERNAL_ERROR"

unfoldable pub message : AppError → String
message (invalid_request m) = m
message (unsupported_model m) = m
message (request_too_large m) = m
message (gateway_at_capacity m) = m
message (worker_queue_full m) = m
message (no_healthy_worker m) = m
message (worker_unavailable m) = m
message (service_draining m) = m
message (deadline_exceeded m) = m
message (internal_server m) = m

unfoldable pub status_code : AppError → ℕ
status_code (invalid_request _) = 400
status_code (unsupported_model _) = 400
status_code (request_too_large _) = 413
status_code (gateway_at_capacity _) = 429
status_code (worker_queue_full _) = 429
status_code (no_healthy_worker _) = 503
status_code (worker_unavailable _) = 503
status_code (service_draining _) = 503
status_code (deadline_exceeded _) = 504
status_code (internal_server _) = 500

-- The object `{"code": …, "message": …}` of a response.
pub record ErrorBody : Type 0 where
  pub code : String
  pub message : String

unfoldable pub to_dict : AppError → ErrorBody
unfolding code message
to_dict e = record { code = code e; message = message e }

-- Instances made with no message take the default of their class.
abbrev pub default_invalid_request : AppError
default_invalid_request = invalid_request "Invalid request."

abbrev pub default_unsupported_model : AppError
default_unsupported_model = unsupported_model "Unsupported model version."

abbrev pub default_request_too_large : AppError
default_request_too_large = request_too_large "Request body or payload limit exceeded."

abbrev pub default_gateway_at_capacity : AppError
default_gateway_at_capacity = gateway_at_capacity "All healthy workers are saturated."

abbrev pub default_worker_queue_full : AppError
default_worker_queue_full = worker_queue_full "Worker queue full."

abbrev pub default_no_healthy_worker : AppError
default_no_healthy_worker = no_healthy_worker "No compatible worker is available."

abbrev pub default_worker_unavailable : AppError
default_worker_unavailable = worker_unavailable "Worker unavailable."

abbrev pub default_service_draining : AppError
default_service_draining = service_draining "Service is shutting down."

abbrev pub default_deadline_exceeded : AppError
default_deadline_exceeded = deadline_exceeded "Deadline exceeded."

abbrev pub default_internal_server : AppError
default_internal_server = internal_server "An unexpected internal error occurred."
