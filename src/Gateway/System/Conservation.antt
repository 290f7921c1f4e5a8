-- ===== src/Gateway/System/Conservation.antt =====
-- No reservation is lost and none is made up, over any interleaving of the tasks.
use mathlib.Core.Option
use distributed_model_server.Prelude.{
  All, All-get_elem?, All-remove_at, remove_at, ℕ, zero, suc, ◌+◌, ◌≤◌, ◌≡◌, refl, ap, ◌∙◌, Text,
  List, [], ◌∷◌, map, Option, none, some, arith, get_elem?, Option-cases, inl, inr,
}
use distributed_model_server.Protocol.{PredictRequest}
use distributed_model_server.Gateway.Config.{GatewayConfig}
use distributed_model_server.Gateway.Registry.{Workers, WorkerNode, find_worker, close, new_node}
use distributed_model_server.Gateway.Registry.Health.{HealthWrite, write_health, write_health_frame}
use distributed_model_server.Gateway.State.{GatewayState, init, stop}
use distributed_model_server.Gateway.Scheduler.Slots.{
  HasUniqueIds, outstanding, requests, on_worker-HasUniqueIds, outstanding-on_worker,
}
use distributed_model_server.Gateway.Client.{
  Call, Reply, Progress, waiting, finished, begin, resume,
}
use distributed_model_server.Gateway.Client.Accounts.{
  one, held, Settles, begin-Settles, resume-Settles,
}
use distributed_model_server.Gateway.Client.Retry.{Phase, InPhase, begin-InPhase, resume-InPhase}
use distributed_model_server.Gateway.System.{
  System, Step, arrives, replies, writes, starts, stops, add_waiting, boot, settle, step, run,
}

-- How many of the waiting predictions wait for this worker.
abbrev pub in_flight : Text → List Call → ℕ
in_flight t [] = 0
in_flight t (k ∷ ks) = one k.worker_id t + in_flight t ks

abbrev pub AllInPhase : List Call → Type 0
AllInPhase = All Phase

-- Each worker has as many outstanding requests as predictions wait for it, and no more than the limit.
pub record IsAccounted (c : GatewayConfig) (s : System) : Type 0 where
  pub unique_ids : HasUniqueIds s.gateway.workers
  pub conserved : (t : Text) → outstanding t s.gateway.workers ≡ in_flight t s.calls
  pub within_limit :
      (t : Text) → outstanding t s.gateway.workers ≤ c.gateway_max_outstanding_per_worker
  pub phases : AllInPhase s.calls

in_flight-add_waiting :
    (t : Text) (p : Progress) (ks : List Call)
    → in_flight t (add_waiting p ks) ≡ in_flight t ks + held t p
in_flight-add_waiting t (waiting k) ks = omega arith
in_flight-add_waiting t (finished r) ks = omega arith

in_flight-remove_at :
    (t : Text) (i : ℕ) (ks : List Call) (k : Call)
    → get_elem? ks i ≡ some k
    → in_flight t ks ≡ in_flight t (remove_at i ks) + one k.worker_id t
in_flight-remove_at t i [] k e = cc
in_flight-remove_at t zero (x ∷ ks) k e = ground arith
in_flight-remove_at t (suc i) (x ∷ ks) k e = omega (arith, in_flight-remove_at t i ks k e)

add_waiting-AllInPhase :
    (p : Progress) (ks : List Call) → InPhase p → AllInPhase ks → AllInPhase (add_waiting p ks)
add_waiting-AllInPhase (waiting k) ks h hs = (h, hs)
add_waiting-AllInPhase (finished r) ks h hs = hs

module _ (c : GatewayConfig) where
  settle-IsAccounted :
      (base : Text → ℕ) (r : Progress × GatewayState) (ks : List Call)
      → Settles c base r
      → ((t : Text) → base t ≡ in_flight t ks)
      → ((t : Text) → base t ≤ c.gateway_max_outstanding_per_worker)
      → InPhase r.0
      → AllInPhase ks
      → IsAccounted c (settle r ks)
  unfolding settle
  settle-IsAccounted base r ks st same below p ps = record {
    unique_ids = st.unique_ids;
    conserved = λ t. omega (arith, st.counts t, same t, in_flight-add_waiting t r.0 ks);
    within_limit = st.bounded below;
    phases = add_waiting-AllInPhase r.0 ks p ps;
  }

  arrives-IsAccounted :
      (request : PredictRequest) (timeout_ms t0 t1 : ℕ) (s : System)
      → IsAccounted c s
      → IsAccounted c (step c (arrives request timeout_ms t0 t1) s)
  unfolding step
  arrives-IsAccounted request timeout_ms t0 t1 s v =
      settle-IsAccounted _ (begin c request timeout_ms t0 t1 s.gateway) s.calls
        (begin-Settles c request timeout_ms t0 t1 s.gateway v.unique_ids) v.conserved v.within_limit
        (begin-InPhase c request timeout_ms t0 t1 s.gateway v.unique_ids) v.phases

  replies-IsAccounted :
      (i : ℕ) (reply : Reply) (t1 t2 : ℕ) (s : System)
      → IsAccounted c s
      → IsAccounted c (step c (replies i reply t1 t2) s)
  unfolding step
  replies-IsAccounted i reply t1 t2 s v = elim (Option-cases (get_elem? s.calls i)) [
    | inl gone ↦ rw (gone, step) v
    | inr (k, e) ↦
        rw (e, step)
          (settle-IsAccounted _ (resume c k reply t1 t2 s.gateway) (remove_at i s.calls)
            (resume-Settles c k reply t1 t2 s.gateway v.unique_ids)
            (λ t. omega (arith, v.conserved t, in_flight-remove_at t i s.calls k e))
            (λ t. omega (arith, v.within_limit t))
            (resume-InPhase c k reply t1 t2 s.gateway (All-get_elem? Phase s.calls i k v.phases e)
              v.unique_ids)
            (All-remove_at Phase i s.calls v.phases))
  ]

  writes-IsAccounted :
      (wid : Text) (x : HealthWrite) (s : System)
      → IsAccounted c s
      → IsAccounted c (step c (writes wid x) s)
  unfolding step
  writes-IsAccounted wid x s v =
      let same_id = λ (w : WorkerNode). (write_health_frame c x w).0 in
      let same = λ (t : Text).
        outstanding-on_worker (write_health c x) same_id (λ w. (write_health_frame c x w).2) wid t
          s.gateway in
      record {
        unique_ids = on_worker-HasUniqueIds (write_health c x) same_id wid s.gateway v.unique_ids;
        conserved = λ t. omega (arith, same t, v.conserved t);
        within_limit = λ t. omega (arith, same t, v.within_limit t);
        phases = v.phases;
      }

  find-close :
      (t : Text) (ws : Workers) → find_worker t (map close ws) ≡ Option.map close (find_worker t ws)
  unfolding find_worker close
  find-close t [] = refl
  find-close t (w ∷ ws) = ground (arith, find-close t ws)

  map-close-HasUniqueIds : (ws : Workers) → HasUniqueIds ws → HasUniqueIds (map close ws)
  unfolding close
  map-close-HasUniqueIds [] u = tt
  map-close-HasUniqueIds (w ∷ ws) u =
      ground (arith, find-close w.worker_id ws, map-close-HasUniqueIds ws u.1)

  requests-close : (o : Option WorkerNode) → requests (Option.map close o) ≡ requests o
  unfolding close
  requests-close none = refl
  requests-close (some w) = refl

  stops-IsAccounted : (s : System) → IsAccounted c s → IsAccounted c (step c stops s)
  unfolding step stop
  stops-IsAccounted s v =
      let same = λ (t : Text).
        ap requests (find-close t s.gateway.workers)
        ∙ requests-close (find_worker t s.gateway.workers) in
      record {
        unique_ids = map-close-HasUniqueIds s.gateway.workers v.unique_ids;
        conserved = λ t. omega (arith, same t, v.conserved t);
        within_limit = λ t. omega (arith, same t, v.within_limit t);
        phases = v.phases;
      }

  step-IsAccounted : (x : Step) (s : System) → IsAccounted c s → IsAccounted c (step c x s)
  unfolding step
  step-IsAccounted (arrives request timeout_ms t0 t1) s v =
      arrives-IsAccounted request timeout_ms t0 t1 s v
  step-IsAccounted (replies i reply t1 t2) s v = replies-IsAccounted i reply t1 t2 s v
  step-IsAccounted (writes wid x) s v = writes-IsAccounted wid x s v
  step-IsAccounted starts s v = record {
    unique_ids = v.unique_ids;
    conserved = v.conserved;
    within_limit = v.within_limit;
    phases = v.phases;
  }
  step-IsAccounted stops s v = stops-IsAccounted s v

  pub run-IsAccounted : (xs : List Step) (s : System) → IsAccounted c s → IsAccounted c (run c xs s)
  unfolding run
  run-IsAccounted [] s v = v
  run-IsAccounted (x ∷ xs) s v = run-IsAccounted xs (step c x s) (step-IsAccounted x s v)

  find-new : (t : Text) (ps : List (Text × Text)) → requests (find_worker t (map new_node ps)) ≡ 0
  unfolding find_worker new_node
  find-new t [] = refl
  find-new t (p ∷ ps) = ground (arith, find-new t ps)

  boot-IsAccounted : HasUniqueIds (boot c).gateway.workers → IsAccounted c (boot c)
  unfolding init
  boot-IsAccounted u = record {
    unique_ids = u;
    conserved = λ t. find-new t c.workers;
    within_limit = λ t. omega (arith, find-new t c.workers);
    phases = tt;
  }

  -- Over any interleaving of predictions, replies, probes, starts and stops after the gateway is set up,
  -- each worker has exactly as many outstanding requests as predictions wait for it, and never more than
  -- the limit: no path through `predict` loses a reservation or gives one back twice.
  pub run-boot-IsAccounted :
      (xs : List Step) → HasUniqueIds (boot c).gateway.workers → IsAccounted c (run c xs (boot c))
  run-boot-IsAccounted xs u = run-IsAccounted xs (boot c) (boot-IsAccounted u)
