-- ===== src/Worker/Batcher/Contract.antt =====
-- What the batcher promises its callers, as a service of its own: requests are submitted with a deadline,
-- and each is settled at most once, for a reason that its caller can rely on.
use Prim.Native.String.{String}
use distributed_model_server.Prelude.{
  ℕ, ◌+◌, ◌<◌, ◌≡◌, refl, ◌∙◌, map, Text, false, ◌⊎◌, List, [], ◌∷◌, ◌==◌, if◌then◌else◌,
}
use distributed_model_server.Errors.{deadline_exceeded, internal_server}
use distributed_model_server.Protocol.{Double}
use distributed_model_server.Worker.Batcher.Defs.{
  BatcherResult, Future, pending, cancelled, result, exception, is_pending,
}
use distributed_model_server.Worker.Batcher.Loop.{output, failure}
use distributed_model_server.Worker.Batcher.Run.{
  Event, enqueues, cancels, advances, times_out, closes, infers,
}
use distributed_model_server.Worker.Batcher.Promises.{Settles, Settles_keeps}

-- The requests by number, their inputs and deadlines, and what became of them.
pub record Service : Type 0 where
  pub submitted : ℕ
  pub inputs : ℕ → List Text
  pub deadline : ℕ → ℕ
  pub outcome : ℕ → Future

abbrev pub no_requests : Service
no_requests = record { submitted = 0; inputs = λ _. []; deadline = λ _. 0; outcome = λ _. pending }

-- A new request.
abbrev pub submit : List Text → ℕ → Service → Service
submit inputs local_deadline v = record {
  submitted = v.submitted + 1;
  inputs = λ i. if i == v.submitted then inputs else v.inputs i;
  deadline = λ i. if i == v.submitted then local_deadline else v.deadline i;
  outcome = v.outcome;
}

module _ (clock : ℕ → ℕ) (answer : Text → Text × Double) where
  -- A request that was submitted and whose deadline some reading of the clock has passed.
  abbrev pub Expired : Service → ℕ → Future → Type 0
  Expired v i f =
      (k : ℕ) × (m : String) × (i < v.submitted)
      × (v.deadline i < clock k)
      × (f ≡ exception (deadline_exceeded m))

  -- What an event may settle: a deadline error only after the deadline, a result with the answers to the
  -- request's own inputs or the error of the model only when an inference ends that way, and a cancellation
  -- only by the caller.
  abbrev pub Permits : Service → Event → ℕ → Future → Type 0
  Permits v (enqueues request_id inputs local_deadline) i f = ⊥
  Permits v (cancels j) i f = (i ≡ j) × (f ≡ cancelled)
  Permits v advances i f = Expired v i f
  Permits v times_out i f = Expired v i f
  Permits v closes i f = Expired v i f
  Permits v (infers (output preds prep inf post)) i f =
      Expired v i f
      ⊎ ((r : BatcherResult) × (i < v.submitted)
          × (r.predictions ≡ map answer (v.inputs i))
          × (f ≡ result r))
  Permits v (infers failure) i f =
      (i < v.submitted) × (f ≡ exception (internal_server "Inference failed."))

  pub data Serve : Event → Service → Service → Type 0 where
    submits :
        (request_id : Text) (inputs : List Text) (local_deadline : ℕ) (v : Service)
        → Serve (enqueues request_id inputs local_deadline) v (submit inputs local_deadline v)
    declines :
        (request_id : Text) (inputs : List Text) (local_deadline : ℕ) (v : Service)
        → Serve (enqueues request_id inputs local_deadline) v v
    settles :
        (x : Event) (v : Service) {outcome : ℕ → Future}
        → Settles (Permits v x) v.outcome outcome
        → Serve x v (record v { outcome = outcome })

  pub data ServeAll : List Event → Service → Service → Type 0 where
    served : {v : Service} → ServeAll [] v v
    serve :
        {x : Event} {xs : List Event} {v v1 v2 : Service}
        → Serve x v v1
        → ServeAll xs v1 v2
        → ServeAll (x ∷ xs) v v2

  pub Serve-keeps :
      (i : ℕ) {x : Event} {v v' : Service}
      → Serve x v v'
      → is_pending (v.outcome i) ≡ false
      → v'.outcome i ≡ v.outcome i
  Serve-keeps i (submits rid inputs dl v) d = refl
  Serve-keeps i (declines rid inputs dl v) d = refl
  Serve-keeps i (settles x v h) d = Settles_keeps i h d

  -- In the service a request that is settled keeps its outcome.
  pub ServeAll-keeps :
      (i : ℕ) {xs : List Event} {v v' : Service}
      → ServeAll xs v v'
      → is_pending (v.outcome i) ≡ false
      → v'.outcome i ≡ v.outcome i
  ServeAll-keeps i served d = refl
  ServeAll-keeps i {v = v} (serve {v1 = v1} h hs) d =
      let same = Serve-keeps i h d in ServeAll-keeps i hs (still same d) ∙ same
    where
      still :
          v1.outcome i ≡ v.outcome i
          → is_pending (v.outcome i) ≡ false
          → is_pending (v1.outcome i) ≡ false
      still e p = rw e p
