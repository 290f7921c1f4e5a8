-- ===== src/Gateway/Client/Jobs.antt =====
-- A prediction stays one for its own request, through both of its attempts.
use distributed_model_server.Prelude.{ℕ, ◌+◌, ◌≡◌, refl, Text, List, [], ◌∷◌, leb, if_cases}
use distributed_model_server.Protocol.{PredictRequest, PredictResponse}
use distributed_model_server.Gateway.Config.{GatewayConfig}
use distributed_model_server.Gateway.Registry.{WorkerNode}
use distributed_model_server.Gateway.State.{GatewayState, Result, ok, raised, crashed}
use distributed_model_server.Gateway.Scheduler.{select_worker, release_worker}
use distributed_model_server.Gateway.Client.{
  Job, Call, Reply, Progress, waiting, finished, Attempt, done, again, send, attempt_rpc,
  next_attempt, begin, handle, continue_with, resume, ms, answered, result_of,
}

abbrev pub IsFor : PredictRequest → Progress → Type 0
IsFor request (waiting k) = k.job.request ≡ request
IsFor request (finished r) = Unit

module _ (c : GatewayConfig) where
  send-IsFor :
      (job : Job) (exclude : List Text) (attempt : ℕ) (later : List ℕ) (now : ℕ)
      → (r : Result WorkerNode × GatewayState)
      → IsFor job.request (send job exclude attempt later now r).0
  unfolding send
  send-IsFor job exclude attempt later now (ok w, g) = refl
  send-IsFor job exclude attempt later now (raised e, g) = tt
  send-IsFor job exclude attempt later now (crashed, g) = tt

  next_attempt-IsFor :
      (job : Job) (exclude : List Text) (attempts : List ℕ) (now : ℕ) (g : GatewayState)
      → IsFor job.request (next_attempt c job exclude attempts now g).0
  unfolding next_attempt attempt_rpc
  next_attempt-IsFor job exclude [] now g = tt
  next_attempt-IsFor job exclude (attempt ∷ later) now g =
      if_cases (λ (r : Progress × GatewayState). IsFor job.request r.0)
        (leb job.gateway_deadline now) (λ _. tt)
        (λ _. send-IsFor job exclude attempt later now (select_worker c exclude g))

  pub begin-IsFor :
      (request : PredictRequest) (timeout_ms t0 t1 : ℕ) (g : GatewayState)
      → IsFor request (begin c request timeout_ms t0 t1 g).0
  unfolding begin
  begin-IsFor request timeout_ms t0 t1 g =
      next_attempt-IsFor (record { request = request; gateway_deadline = t0 + ms timeout_ms }) []
        (1 ∷ 2 ∷ []) t1 g

  continue_with-IsFor :
      (k : Call) (a : Attempt) (now : ℕ) (g : GatewayState)
      → IsFor k.job.request (continue_with c k a now g).0
  unfolding continue_with
  continue_with-IsFor k (done r) now g = tt
  continue_with-IsFor k (again exclude) now g = next_attempt-IsFor k.job exclude k.later now g

  pub resume-IsFor :
      (k : Call) (reply : Reply) (t1 t2 : ℕ) (g : GatewayState)
      → IsFor k.job.request (resume c k reply t1 t2 g).0
  unfolding resume
  resume-IsFor k reply t1 t2 g =
      let (a, g1) = handle c k reply t1 g in
      continue_with-IsFor k a t2 (release_worker k.worker_id g1)

  -- A response ends the prediction.
  pub resume-answered :
      (k : Call) (r : PredictResponse) (t1 t2 : ℕ) (g : GatewayState)
      → resume c k (answered r) t1 t2 g
        ≡ (finished (ok (result_of k r)), release_worker k.worker_id g)
  unfolding resume handle continue_with
  resume-answered k r t1 t2 g = refl
