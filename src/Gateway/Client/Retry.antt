-- ===== src/Gateway/Client/Retry.antt =====
-- The loop of `predict` as a whole: at most two RPCs, when the second is sent, and where it goes.
use mathlib.Core.List.{mem-cons_self}
use distributed_model_server.Prelude.{
  ℕ, ◌+◌, ◌≤◌, ◌<◌, ◌≡◌, refl, inl, inr, ◌≢◌, Text, List, [], ◌∷◌, arith, String, Bool-cases, leb,
  ◌==◌, ◌&&◌,
}
use distributed_model_server.Protocol.{PredictRequest, StatusCode}
use distributed_model_server.Gateway.Config.{GatewayConfig}
use distributed_model_server.Gateway.State.{GatewayState, Result}
use distributed_model_server.Gateway.Scheduler.Slots.{HasUniqueIds, release_worker-HasUniqueIds}
use distributed_model_server.Gateway.Client.{
  ms, Job, Call, Reply, answered, rpc_error, interrupted, GatewayPredictionResult, Progress,
  waiting, finished, Attempt, done, again, begin, next_attempt, attempt_rpc, handle, on_rpc_error,
  continue_with, resume,
}
use distributed_model_server.Gateway.Client.Accounts.{begin-Settles, resume-Settles}
use distributed_model_server.Gateway.Client.Dispatch.{
  Dispatches, attempt_rpc-Dispatches, handle-Keeps,
}

-- The two points at which a prediction waits.
pub data Phase (k : Call) : Type 0 where
  first : k.attempt ≡ 1 → k.later ≡ 2 ∷ [] → Phase k
  second : k.attempt ≡ 2 → k.later ≡ [] → Phase k

-- What may come of an error: another attempt only if the worker was unavailable in the first one and the
-- retry budget is left; then the worker is excluded.
abbrev Retries : GatewayConfig → Call → Reply → ℕ → Attempt → Type 0
Retries c k reply now (done r) = Unit
Retries c k reply now (again exclude) =
    ((details : String) × (reply ≡ rpc_error StatusCode.unavailable details))
    × (k.attempt ≡ 1)
    × (now + ms c.min_retry_budget_ms ≤ k.job.gateway_deadline)
    × (exclude ≡ k.worker_id ∷ k.exclude_ids)

module _ (c : GatewayConfig) (k : Call) (now : ℕ) (g : GatewayState) where
  on_rpc_error-Retries :
      (status : StatusCode) (details : String)
      → Retries c k (rpc_error status details) now (on_rpc_error c k status details now g).0
  unfolding on_rpc_error
  on_rpc_error-Retries StatusCode.unavailable details =
      elim (Bool-cases
        ((k.attempt == 1) && leb (now + ms c.min_retry_budget_ms) k.job.gateway_deadline)) [
          | inl e ↦ rw e ((details, refl), ground arith, ground arith, refl)
          | inr e ↦ rw e tt
        ]
  on_rpc_error-Retries _ details = tt

  handle-Retries : (reply : Reply) → Retries c k reply now (handle c k reply now g).0
  unfolding handle
  handle-Retries (answered r) = tt
  handle-Retries (rpc_error status details) = on_rpc_error-Retries status details
  handle-Retries interrupted = tt

-- A prediction that waits again after an RPC.
abbrev pub Resumes : GatewayConfig → Call → Reply → ℕ → ℕ → Progress × GatewayState → Type 0
Resumes c k reply t1 t2 (finished r, g') = Unit
Resumes c k reply t1 t2 (waiting k', g') =
    ((details : String) × (reply ≡ rpc_error StatusCode.unavailable details))
    × (k.attempt ≡ 1)
    × (t1 + ms c.min_retry_budget_ms ≤ k.job.gateway_deadline)
    × (k'.worker_id ≢ k.worker_id)
    × Phase k'
    × (k'.attempt ≡ 2)
    × (k'.job ≡ k.job)
    × (t2 < k.job.gateway_deadline)
    × (k'.timeout + t2 ≡ k.job.gateway_deadline)

module _ (c : GatewayConfig) (k : Call) (reply : Reply) (t1 t2 : ℕ) where
  dispatched-Resumes :
      (exclude : List Text) (g : GatewayState) (r : Progress × GatewayState)
      → Retries c k reply t1 (again exclude)
      → Dispatches c k.job exclude 2 [] t2 g r
      → Resumes c k reply t1 t2 r
  dispatched-Resumes exclude g (finished x, g') h d = tt
  dispatched-Resumes exclude g (waiting k', g') h d =
      (h.0, h.1, h.2, λ e. d.3 (rw (e, h.3) mem-cons_self), second d.1 d.2, d.1, d.0, d.4, d.5)

  continue_with-Resumes :
      (a : Attempt) (g : GatewayState)
      → Phase k
      → HasUniqueIds g.workers
      → Retries c k reply t1 a
      → Resumes c k reply t1 t2 (continue_with c k a t2 g)
  unfolding continue_with next_attempt
  continue_with-Resumes (done r) g p u h = tt
  continue_with-Resumes (again exclude) g (first n l) u h = rw l (
      dispatched-Resumes exclude g (attempt_rpc c k.job exclude 2 [] t2 g) h
        (attempt_rpc-Dispatches c k.job exclude 2 [] t2 g u))
  continue_with-Resumes (again exclude) g (second n l) u h = absurd (omega (arith, h.1))

  -- For a prediction in one of its two phases and a registry with one worker to an id:
  -- a second RPC is sent only after the first one ended with `UNAVAILABLE` and while the retry budget
  -- was left. It goes to another worker, as attempt 2, for the same request and the same deadline, before
  -- that deadline, and its timeout is the time that remains.
  pub resume-Resumes :
      (g : GatewayState)
      → Phase k
      → HasUniqueIds g.workers
      → Resumes c k reply t1 t2 (resume c k reply t1 t2 g)
  unfolding resume
  resume-Resumes g p u =
      continue_with-Resumes (handle c k reply t1 g).0 _ p
        (release_worker-HasUniqueIds k.worker_id (handle c k reply t1 g).1
          ((handle-Keeps c k reply t1 g).unique_ids u))
        (handle-Retries c k t1 g reply)

-- What happens while a prediction waits: the other tasks of the event loop, and then the reply.
pub record Await : Type 0 where
  pub others : GatewayState → GatewayState
  pub reply : Reply
  pub t1 : ℕ
  pub t2 : ℕ

-- A prediction through a number of awaits.
unfoldable pub drive :
    GatewayConfig → List Await → Progress × GatewayState → Progress × GatewayState
unfolding resume
drive c [] s = s
drive c (a ∷ more) (finished r, g) = (finished r, g)
drive c (a ∷ more) (waiting k, g) = drive c more (resume c k a.reply a.t1 a.t2 (a.others g))

abbrev pub KeepsDict : Await → Type 0
KeepsDict a = (g : GatewayState) → HasUniqueIds g.workers → HasUniqueIds (a.others g).workers

-- A waiting prediction is in one of its two phases.
abbrev pub InPhase : Progress → Type 0
InPhase (waiting k) = Phase k
InPhase (finished r) = Unit

module _ (c : GatewayConfig) where
  dispatched-InPhase :
      (job : Job) (now : ℕ) (g : GatewayState) (r : Progress × GatewayState)
      → Dispatches c job [] 1 (2 ∷ []) now g r
      → InPhase r.0
  dispatched-InPhase job now g (waiting k, g') d = first d.1 d.2
  dispatched-InPhase job now g (finished r, g') d = tt

  pub begin-InPhase :
      (request : PredictRequest) (timeout_ms t0 t1 : ℕ) (g : GatewayState)
      → HasUniqueIds g.workers
      → InPhase (begin c request timeout_ms t0 t1 g).0
  unfolding begin next_attempt
  begin-InPhase request timeout_ms t0 t1 g u =
      dispatched-InPhase _ t1 g _ (attempt_rpc-Dispatches c _ [] 1 (2 ∷ []) t1 g u)

  pub resume-InPhase :
      (k : Call) (reply : Reply) (t1 t2 : ℕ) (g : GatewayState)
      → Phase k
      → HasUniqueIds g.workers
      → InPhase (resume c k reply t1 t2 g).0
  resume-InPhase k reply t1 t2 g p u =
      go (resume c k reply t1 t2 g) (resume-Resumes c k reply t1 t2 g p u)
    where
      go : (r : Progress × GatewayState) → Resumes c k reply t1 t2 r → InPhase r.0
      go (waiting k', g') h = h.4
      go (finished r, g') h = tt

  abbrev Ends : Progress × GatewayState → Type 0
  Ends s = (r : Result GatewayPredictionResult) × (s.0 ≡ finished r)

  drive_second :
      (b : Await) (k : Call) (g : GatewayState)
      → Phase k
      → k.attempt ≡ 2
      → HasUniqueIds g.workers
      → KeepsDict b
      → Ends (drive c (b ∷ []) (waiting k, g))
  unfolding drive
  drive_second b k g p n u keep =
      go (resume c k b.reply b.t1 b.t2 (b.others g))
        (resume-Resumes c k b.reply b.t1 b.t2 (b.others g) p (keep g u))
    where
      go : (r : Progress × GatewayState) → Resumes c k b.reply b.t1 b.t2 r → Ends r
      go (waiting k', g') h = absurd (omega (arith, h.1))
      go (finished r, g') h = (r, refl)

  drive_first :
      (a b : Await) (p : Progress) (g : GatewayState)
      → InPhase p
      → HasUniqueIds g.workers
      → KeepsDict a
      → KeepsDict b
      → Ends (drive c (a ∷ b ∷ []) (p, g))
  unfolding drive
  drive_first a b (finished r) g h u ka kb = (r, refl)
  drive_first a b (waiting k) g h u ka kb =
      go (resume c k a.reply a.t1 a.t2 (a.others g))
        (resume-Resumes c k a.reply a.t1 a.t2 (a.others g) h (ka g u))
        (resume-Settles c k a.reply a.t1 a.t2 (a.others g) (ka g u)).unique_ids
    where
      go :
          (r : Progress × GatewayState)
          → Resumes c k a.reply a.t1 a.t2 r
          → HasUniqueIds r.1.workers
          → Ends (drive c (b ∷ []) r)
      go (waiting k', g') h' u' = drive_second b k' g' h'.4 h'.5 u' kb
      go (finished r, g') h' u' = (r, refl)

  -- A prediction ends after at most two RPCs, whatever the replies are, whenever they come and whatever
  -- the other tasks do in the meantime, as long as these keep one worker to an id.
  pub predict_ends :
      (request : PredictRequest) (timeout_ms t0 t1 : ℕ) (a b : Await) (g : GatewayState)
      → HasUniqueIds g.workers
      → KeepsDict a
      → KeepsDict b
      → (r : Result GatewayPredictionResult) × ((drive c
            (a ∷ b ∷ [])
            (begin c request timeout_ms t0 t1 g)).0
          ≡ finished r)
  predict_ends request timeout_ms t0 t1 a b g u ka kb =
      drive_first a b _ _ (begin-InPhase request timeout_ms t0 t1 g u)
        (begin-Settles c request timeout_ms t0 t1 g u).unique_ids ka kb
