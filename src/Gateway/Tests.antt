-- ===== src/Gateway/Tests.antt =====
-- Runs of the gateway with two workers that exercise the properties of its parts.
use distributed_model_server.Prelude.{
  ◌-◌, ◌≡◌, refl, Text, codes, List, [], ◌∷◌, arith, text_eq, some,
}
use distributed_model_server.Protocol.{PredictRequest, WorkerState, StatusCode}
use distributed_model_server.Gateway.Registry.{WorkerNode, find_worker, status}
use distributed_model_server.Gateway.Registry.Health.{probed}
use distributed_model_server.Gateway.State.{ok, Result}
use distributed_model_server.Gateway.Scheduler.{select_worker, release_worker}
use distributed_model_server.Gateway.Scheduler.Choice.{Selects, select_worker-Selects}
use distributed_model_server.Gateway.Scheduler.Slots.{
  HasUniqueIds, outstanding, outstanding-release_worker, Reserves, select_worker-Reserves,
}
use distributed_model_server.Gateway.Client.{
  Call, Reply, rpc_error as failed_with, begin, resume, finished, GatewayPredictionResult,
}
use distributed_model_server.Gateway.Client.Accounts.{Settles, one, resume-Settles}
use distributed_model_server.Gateway.Client.Retry.{
  first, Resumes, resume-Resumes, Await, drive, predict_ends,
}
use distributed_model_server.Gateway.System.{
  Step, arrives, replies, writes, starts, stops, boot, run,
}
use distributed_model_server.Gateway.Config.{
  post_init, add_items, split_commas, split_equals, strip, lstrip, rstrip, set_item,
}
use distributed_model_server.Gateway.System.Boot.{run-post_init-IsAccounted}
use distributed_model_server.Gateway.System.Conservation.{IsAccounted}
use distributed_model_server.Gateway.Scheduler.{add_request}
use distributed_model_server.Gateway.Scheduler.Rotation.{serve_one, serve_many, serve_many-rotates}
use distributed_model_server.Prelude.{◌+◌, ◌%◌, get_elem?, length}
use mathlib.Core.List.{mem-cons_self, not-mem-nil}
use distributed_model_server.Gateway.Scheduler.Choice.{IsEligible}
use distributed_model_server.Gateway.Scheduler.Order.{IsAscending, IsRival}
use distributed_model_server.Prelude.{Mem, ◌↔◌}
use distributed_model_server.Gateway.Registry.{Workers, WorkerNode, healthy}
use distributed_model_server.Gateway.Samples.{config, reply_in, two_workers, node}

two_workers_unique : HasUniqueIds two_workers.workers
unfolding find_worker text_eq
two_workers_unique = (refl, (refl, tt))

abbrev request : PredictRequest
request = record { request_id = codes "r1"; model_version = codes "v1"; inputs = codes "good" ∷ [] }

abbrev waiting_call : Call
waiting_call = record {
  job = record { request = request; gateway_deadline = 1000000 };
  exclude_ids = [];
  attempt = 1;
  later = 2 ∷ [];
  worker_id = codes "w1";
  timeout = 1000000;
}

abbrev unavailable : Reply
unavailable = failed_with StatusCode.unavailable "connection refused"

-- Both workers come up, two predictions start, the worker of one is lost, and the registry stops.
abbrev steps : List Step
steps =
    starts
    ∷ writes (codes "w1") (probed 1 (status (reply_in WorkerState.ready)))
    ∷ writes (codes "w2") (probed 1 (status (reply_in WorkerState.ready)))
    ∷ arrives request 1000 10 10
    ∷ arrives request 1000 20 20
    ∷ replies 1 unavailable 30 30
    ∷ stops
    ∷ []

select_worker-Selects_example :
    Selects config
      (codes "w1" ∷ [])
      two_workers
      (select_worker config (codes "w1" ∷ []) two_workers)
select_worker-Selects_example = select_worker-Selects config (codes "w1" ∷ []) two_workers

select_worker-Reserves_example :
    Reserves config
      (codes "w1" ∷ [])
      two_workers
      (select_worker config (codes "w1" ∷ []) two_workers)
select_worker-Reserves_example =
    select_worker-Reserves config (codes "w1" ∷ []) two_workers two_workers_unique

outstanding-release_worker_example :
    outstanding (codes "w1") (release_worker (codes "w1") two_workers).workers
    ≡ outstanding (codes "w1") two_workers.workers - 1
unfolding text_eq
outstanding-release_worker_example =
    outstanding-release_worker (codes "w1") (codes "w1") two_workers

resume-Resumes_example :
    Resumes config waiting_call unavailable 5 6
      (resume config waiting_call unavailable 5 6 two_workers)
resume-Resumes_example =
    resume-Resumes config waiting_call unavailable 5 6 two_workers (first refl refl)
      two_workers_unique

waiting_call_settles :
    Settles config
      (λ t. outstanding t two_workers.workers - one (codes "w1") t)
      (resume config waiting_call unavailable 5 6 two_workers)
waiting_call_settles =
    resume-Settles config waiting_call unavailable 5 6 two_workers two_workers_unique

abbrev lost : Await
lost = record { others = λ g. g; reply = unavailable; t1 = 5; t2 = 6 }

predict_ends_example :
    (r : Result GatewayPredictionResult) × ((drive config
        (lost ∷ lost ∷ [])
        (begin config request 1000 0 0 two_workers)).0
      ≡ finished r)
predict_ends_example =
    predict_ends config request 1000 0 0 lost lost two_workers two_workers_unique (λ g u. u)
      (λ g u. u)

abbrev workers_raw : Text
workers_raw = codes "w1=w1:50051, w2=w2:50051,"

config_read : config.workers ≡ post_init [] workers_raw
unfolding post_init add_items split_commas split_equals strip lstrip rstrip set_item text_eq
config_read = refl

run-post_init-IsAccounted_example : IsAccounted config (run config steps (boot config))
run-post_init-IsAccounted_example = run-post_init-IsAccounted config workers_raw steps config_read

first-IsEligible : IsEligible config [] (node healthy)
first-IsEligible = record { is_up = refl; not_excluded = not-mem-nil; has_room = omega arith }

serve_many-rotates_example :
    (cs : Workers) × IsAscending cs
    × ((u : WorkerNode) → Mem u cs ↔ IsRival config [] two_workers.workers u)
    × (w : WorkerNode) × (get_elem? cs ((0 + 3) % length cs) ≡ some w)
    × ((serve_one config [] (serve_many config [] 3 two_workers)).0 ≡ ok (add_request w))
serve_many-rotates_example =
    serve_many-rotates config [] 3 two_workers (node healthy) two_workers_unique mem-cons_self
      first-IsEligible
