-- ===== src/Gateway/Client/Dispatch.antt =====
-- One round of the retry loop: what has been reserved when the RPC is sent, and what an error leaves.
use distributed_model_server.Prelude.{
  ℕ, ◌+◌, ◌<◌, ◌≡◌, refl, ◌∙◌, inl, inr, Text, List, [], ◌∷◌, Mem, arith, text_eq, leb, Bool-cases,
  if◌then◌else◌, String,
}
use distributed_model_server.Protocol.{StatusCode}
use distributed_model_server.Gateway.Config.{GatewayConfig}
use distributed_model_server.Gateway.Events.{rpc_failed}
use distributed_model_server.Gateway.Registry.{WorkerNode, get_stub, mark_unhealthy}
use distributed_model_server.Gateway.State.{
  GatewayState, Result, ok, raised, crashed, emit, mark_unhealthy_immediately,
}
use distributed_model_server.Gateway.Scheduler.{select_worker}
use distributed_model_server.Gateway.Scheduler.Slots.{
  HasUniqueIds, outstanding, Reserves, select_worker-Reserves, on_worker-HasUniqueIds,
  outstanding-on_worker,
}
use distributed_model_server.Gateway.Client.{
  Job, Call, Reply, Progress, waiting, finished, attempt_rpc, send, handle, on_rpc_error, answered,
  rpc_error, interrupted,
}

module _ (c : GatewayConfig) (job : Job) (exclude : List Text) (attempt : ℕ) (later : List ℕ)
    (now : ℕ) (g : GatewayState) where
  -- A round ends at the RPC, with a place reserved on a worker that was not tried before and the time
  -- that is left as the timeout, or with an error and an unchanged gateway.
  abbrev pub Dispatches : Progress × GatewayState → Type 0
  Dispatches (waiting k, g') =
      (k.job ≡ job)
      × (k.attempt ≡ attempt)
      × (k.later ≡ later)
      × ¬ Mem k.worker_id exclude
      × (now < job.gateway_deadline)
      × (k.timeout + now ≡ job.gateway_deadline)
      × (outstanding k.worker_id g.workers < c.gateway_max_outstanding_per_worker)
      × ((t : Text)
          → outstanding t g'.workers
            ≡ outstanding t g.workers + (if text_eq k.worker_id t then 1 else 0))
      × HasUniqueIds g'.workers
  Dispatches (finished (raised e), g') = g' ≡ g
  Dispatches (finished _, g') = ⊥

  send-Dispatches :
      (r : Result WorkerNode × GatewayState)
      → now < job.gateway_deadline
      → Reserves c exclude g r
      → Dispatches (send job exclude attempt later now r)
  unfolding send get_stub
  send-Dispatches (ok w, g') early h = (
    refl,
    refl,
    refl,
    h.1,
    early,
    omega arith,
    h.0,
    λ t.
        outstanding-on_worker (λ v. (get_stub v, [])) (λ v. refl) (λ v. refl) w.worker_id t g'
        ∙ h.2 t,
    on_worker-HasUniqueIds (λ v. (get_stub v, [])) (λ v. refl) w.worker_id g' h.3,
  )
  send-Dispatches (raised e, g') early h = h
  send-Dispatches (crashed, g') early h = h

  pub attempt_rpc-Dispatches :
      HasUniqueIds g.workers → Dispatches (attempt_rpc c job exclude attempt later now g)
  unfolding attempt_rpc
  attempt_rpc-Dispatches u = elim (Bool-cases (leb job.gateway_deadline now)) [
    | inl late ↦ rw (late, attempt_rpc) refl
    | inr early ↦
        rw (early, attempt_rpc)
          (send-Dispatches (select_worker c exclude g) (ground arith)
            (select_worker-Reserves c exclude g u))
  ]

-- An operation between two states reserves and releases nothing.
pub record Keeps (g g' : GatewayState) : Type 0 where
  pub same_counts : (t : Text) → outstanding t g'.workers ≡ outstanding t g.workers
  pub unique_ids : HasUniqueIds g.workers → HasUniqueIds g'.workers

module _ (c : GatewayConfig) where
  mark_unhealthy-id : (w : WorkerNode) → (mark_unhealthy c w).0.worker_id ≡ w.worker_id
  unfolding mark_unhealthy
  mark_unhealthy-id w = ground arith

  mark_unhealthy-outstanding :
      (w : WorkerNode) → (mark_unhealthy c w).0.outstanding_requests ≡ w.outstanding_requests
  unfolding mark_unhealthy
  mark_unhealthy-outstanding w = ground arith

  mark_unhealthy_immediately-Keeps :
      (wid : Text) (g : GatewayState) → Keeps g (mark_unhealthy_immediately c wid g)
  unfolding mark_unhealthy_immediately
  mark_unhealthy_immediately-Keeps wid g = record {
    same_counts = λ t.
        outstanding-on_worker (mark_unhealthy c) mark_unhealthy-id mark_unhealthy-outstanding wid t
          g;
    unique_ids = on_worker-HasUniqueIds (mark_unhealthy c) mark_unhealthy-id wid g;
  }

module _ (c : GatewayConfig) (k : Call) where
  on_rpc_error-Keeps :
      (status : StatusCode) (details : String) (now : ℕ) (g : GatewayState)
      → Keeps g (on_rpc_error c k status details now g).1
  unfolding on_rpc_error emit
  on_rpc_error-Keeps status details now g = ground (
    arith,
    mark_unhealthy_immediately-Keeps c k.worker_id (emit (rpc_failed k.worker_id status ∷ []) g),
  )

  pub handle-Keeps :
      (reply : Reply) (now : ℕ) (g : GatewayState) → Keeps g (handle c k reply now g).1
  unfolding handle
  handle-Keeps (answered r) now g = record { same_counts = λ t. refl; unique_ids = λ u. u }
  handle-Keeps (rpc_error status details) now g = on_rpc_error-Keeps status details now g
  handle-Keeps interrupted now g = record { same_counts = λ t. refl; unique_ids = λ u. u }
