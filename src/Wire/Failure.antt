-- ===== src/Wire/Failure.antt =====
-- The errors that the batcher raises, as the gateway's client sees them.
use distributed_model_server.Prelude.{◌≡◌, refl, String}
use distributed_model_server.Errors.{
  AppError, code, worker_queue_full, deadline_exceeded, default_internal_server,
}
use distributed_model_server.Protocol.{StatusCode}
use distributed_model_server.Gateway.Client.{map_rpc_error}
use distributed_model_server.Worker.Server.{Servicer, aborts, on_error}

-- The code that a client of the gateway reads for an error of the worker: its own for the two that the
-- worker tells apart, and `INTERNAL_ERROR` for all others.
abbrev pub seen_code : AppError → String
seen_code (worker_queue_full m) = code (worker_queue_full m)
seen_code (deadline_exceeded m) = code (deadline_exceeded m)
seen_code e = code default_internal_server

-- An error in the worker ends the call with a status that the gateway turns into an error of its own:
-- a full queue and a missed deadline keep their codes, and every other error becomes an internal one.
pub on_error-map_rpc_error :
    (e : AppError) (s : Servicer)
    → (status : StatusCode) × (detail : String) × ((on_error e s).0 ≡ aborts status detail)
      × (code (map_rpc_error status detail) ≡ seen_code e)
unfolding on_error map_rpc_error code
on_error-map_rpc_error (worker_queue_full m) s = (_, _, refl, refl)
on_error-map_rpc_error (deadline_exceeded m) s = (_, _, refl, refl)
on_error-map_rpc_error _ s = (_, _, refl, refl)
