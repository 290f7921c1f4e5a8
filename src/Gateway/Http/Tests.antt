-- ===== src/Gateway/Http/Tests.antt =====
-- Runs of the HTTP process with two workers.
use distributed_model_server.Prelude.{◌≡◌, refl, Text, codes, List, [], ◌∷◌, some, none, text_eq}
use distributed_model_server.Gateway.Config.{
  set_item, lstrip, rstrip, strip, split_commas, split_equals, add_items, post_init,
}
use distributed_model_server.Gateway.Samples.{config}
use distributed_model_server.Gateway.System.Conservation.{IsAccounted}
use distributed_model_server.Gateway.App.Validation.{Arguments}
use distributed_model_server.Gateway.App.Complete.{payload_of}
use distributed_model_server.Gateway.App.Middleware.{absent, bytes}
use distributed_model_server.Gateway.Http.{
  ready, counters, HttpStep, requests, gets, proceeds, handles, returns, opens, shuts, http_step,
  http_run, http_boot,
}
use distributed_model_server.Gateway.Http.Refines.{http_run-IsAccounted}
use distributed_model_server.Gateway.Http.Calls.{loop_of}
use distributed_model_server.Gateway.Http.Gauge.{IsCounted, http_run-IsCounted}
use distributed_model_server.Gateway.Http.Draining.{Drains, http_run-shuts-Drains}

abbrev arguments : Arguments
arguments = record {
  request_id = codes "r-1";
  inputs = codes "good" ∷ [];
  model_version = codes "v1";
  timeout_ms = 1000;
}

-- A prediction comes in before any worker is healthy, a scrape is left waiting, and a second prediction is
-- too long.
abbrev http_steps : List HttpStep
http_steps =
    opens
    ∷ requests absent 90 (codes "id") (some (payload_of arguments))
    ∷ gets ready
    ∷ handles 0 0 0 0 0 []
    ∷ returns 0
    ∷ proceeds 0
    ∷ handles 0 1 1 2 3 []
    ∷ gets counters
    ∷ requests (bytes 70000) 70000 (codes "id") none
    ∷ []

abbrev workers_raw : Text
workers_raw = codes "w1=w1:50051, w2=w2:50051,"

workers_read : config.workers ≡ post_init [] workers_raw
unfolding post_init add_items split_commas split_equals strip lstrip rstrip set_item text_eq
workers_read = refl

http_run-IsAccounted_example :
    IsAccounted config (loop_of (http_run config http_steps (http_boot config)))
http_run-IsAccounted_example = http_run-IsAccounted config workers_raw http_steps workers_read

http_run-IsCounted_example : IsCounted 4 (http_run config http_steps (http_boot config))
http_run-IsCounted_example = http_run-IsCounted config http_steps

http_run-shuts-Drains_example : Drains config (
    http_run config
      (gets ready ∷ [])
      (http_step config shuts (http_run config http_steps (http_boot config))))
http_run-shuts-Drains_example =
    http_run-shuts-Drains config (gets ready ∷ []) (http_run config http_steps (http_boot config))
      tt
