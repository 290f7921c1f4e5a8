-- ===== src/Gateway/Client/Accounts.antt =====
-- The reservations that a prediction holds: one while it waits for an RPC, none when it has finished.
use distributed_model_server.Prelude.{
  ℕ, ◌+◌, ◌-◌, ◌≤◌, ◌<◌, ◌≡◌, refl, Text, List, [], ◌∷◌, arith, text_eq, text_eq→eq, Bool-cases,
  if◌then◌else◌, inl, inr,
}
use distributed_model_server.Protocol.{PredictRequest}
use distributed_model_server.Gateway.Config.{GatewayConfig}
use distributed_model_server.Gateway.State.{GatewayState, Result, ok, raised, crashed}
use distributed_model_server.Gateway.Scheduler.{release_worker}
use distributed_model_server.Gateway.Scheduler.Slots.{
  HasUniqueIds, outstanding, outstanding-release_worker, release_worker-HasUniqueIds,
}
use distributed_model_server.Gateway.Client.{
  Job, Call, Reply, Progress, waiting, finished, Attempt, done, again, begin, next_attempt, handle,
  continue_with, resume,
}
use distributed_model_server.Gateway.Client.Dispatch.{
  Dispatches, attempt_rpc-Dispatches, handle-Keeps,
}

abbrev pub one : Text → Text → ℕ
one wid t = if text_eq wid t then 1 else 0

-- The reservations on a worker that a prediction at this point holds.
abbrev pub held : Text → Progress → ℕ
held t (waiting k) = one k.worker_id t
held t (finished r) = 0

-- The counts are those of `base` and what the prediction holds, and they stay within the limit.
pub record Settles (c : GatewayConfig) (base : Text → ℕ) (r : Progress × GatewayState)
    : Type 0 where
  pub counts : (t : Text) → outstanding t r.1.workers ≡ base t + held t r.0
  pub unique_ids : HasUniqueIds r.1.workers
  pub bounded :
      ((t : Text) → base t ≤ c.gateway_max_outstanding_per_worker)
      → (t : Text) → outstanding t r.1.workers ≤ c.gateway_max_outstanding_per_worker

module _ (c : GatewayConfig) where
  unchanged-Settles :
      (base : Text → ℕ) (r : Result _) (g : GatewayState)
      → ((t : Text) → outstanding t g.workers ≡ base t)
      → HasUniqueIds g.workers
      → Settles c base (finished r, g)
  unchanged-Settles base r g same u = record {
    counts = λ t. omega (arith, same t);
    unique_ids = u;
    bounded = λ b t. omega (arith, same t, b t);
  }

  one-le :
      (base : Text → ℕ) (wid t : Text)
      → base wid < c.gateway_max_outstanding_per_worker
      → base t ≤ c.gateway_max_outstanding_per_worker
      → base t + one wid t ≤ c.gateway_max_outstanding_per_worker
  one-le base wid t room b = elim (Bool-cases (text_eq wid t)) [
    | inl same ↦
        let here : base t < c.gateway_max_outstanding_per_worker =
          rw (← text_eq→eq wid t same) room in
        rw same (omega arith)
    | inr other ↦ rw other (omega arith)
  ]

  dispatched-Settles :
      (job : Job) (exclude : List Text) (attempt : ℕ) (later : List ℕ) (now : ℕ) (g : GatewayState)
      (base : Text → ℕ)
      → ((t : Text) → outstanding t g.workers ≡ base t)
      → HasUniqueIds g.workers
      → (r : Progress × GatewayState) → Dispatches c job exclude attempt later now g r
      → Settles c base r
  dispatched-Settles job exclude attempt later now g base same u (waiting k, g') d = record {
    counts = λ t. omega (arith, d.7 t, same t);
    unique_ids = d.8;
    bounded = λ b t. omega (
      arith,
      d.7 t,
      same t,
      one-le base k.worker_id t (omega (arith, d.6, same k.worker_id)) (b t),
    );
  }
  dispatched-Settles job exclude attempt later now g base same u (finished (raised e), g') d =
      rw d (unchanged-Settles base (raised e) g same u)
  dispatched-Settles job exclude attempt later now g base same u (finished (ok a), g') d = absurd d
  dispatched-Settles job exclude attempt later now g base same u (finished crashed, g') d = absurd d

  next_attempt-Settles :
      (job : Job) (exclude : List Text) (later : List ℕ) (now : ℕ) (g : GatewayState)
      (base : Text → ℕ)
      → ((t : Text) → outstanding t g.workers ≡ base t)
      → HasUniqueIds g.workers
      → Settles c base (next_attempt c job exclude later now g)
  unfolding next_attempt
  next_attempt-Settles job exclude [] now g base same u = unchanged-Settles base _ g same u
  next_attempt-Settles job exclude (attempt ∷ later) now g base same u =
      dispatched-Settles job exclude attempt later now g base same u _
        (attempt_rpc-Dispatches c job exclude attempt later now g u)

  pub begin-Settles :
      (request : PredictRequest) (timeout_ms t0 t1 : ℕ) (g : GatewayState)
      → HasUniqueIds g.workers
      → Settles c (λ t. outstanding t g.workers) (begin c request timeout_ms t0 t1 g)
  unfolding begin
  begin-Settles request timeout_ms t0 t1 g u =
      next_attempt-Settles _ [] (1 ∷ 2 ∷ []) t1 g _ (λ t. refl) u

  continue_with-Settles :
      (k : Call) (a : Attempt) (now : ℕ) (g : GatewayState) (base : Text → ℕ)
      → ((t : Text) → outstanding t g.workers ≡ base t)
      → HasUniqueIds g.workers
      → Settles c base (continue_with c k a now g)
  unfolding continue_with
  continue_with-Settles k (done r) now g base same u = unchanged-Settles base r g same u
  continue_with-Settles k (again exclude) now g base same u =
      next_attempt-Settles k.job exclude k.later now g base same u

  -- If the registry has one worker to an id:
  -- however an RPC ends, the prediction gives back the reservation that it held, and holds one again
  -- exactly if it goes on to wait for a second RPC; the dict stays a dict and the limit is kept.
  pub resume-Settles :
      (k : Call) (reply : Reply) (t1 t2 : ℕ) (g : GatewayState)
      → HasUniqueIds g.workers
      → Settles c (λ t. outstanding t g.workers - one k.worker_id t) (resume c k reply t1 t2 g)
  unfolding resume
  resume-Settles k reply t1 t2 g u =
      let kept = handle-Keeps c k reply t1 g in
      let g1 = (handle c k reply t1 g).1 in
      continue_with-Settles k (handle c k reply t1 g).0 t2 (release_worker k.worker_id g1) _
        (λ t. omega (arith, outstanding-release_worker k.worker_id t g1, kept.same_counts t))
        (release_worker-HasUniqueIds k.worker_id g1 (kept.unique_ids u))
