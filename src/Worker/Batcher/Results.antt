-- ===== src/Worker/Batcher/Results.antt =====
-- What the service of the contract has settled, in any state that it reaches: results and errors.
use Prim.Native.String.{String}
use distributed_model_server.Prelude.{
  ℕ, ◌<◌, ◌≤◌, ◌≡◌, refl, sym, ◌∙◌, subst, ap, map, Text, ◌⊎◌, inl, inr, List, [], ◌==◌, if_cases,
  arith,
}
use distributed_model_server.Errors.{AppError, deadline_exceeded, internal_server}
use distributed_model_server.Protocol.{Double}
use distributed_model_server.Worker.Batcher.Defs.{Future, pending, cancelled, result, exception}
use distributed_model_server.Worker.Batcher.Loop.{output, failure}
use distributed_model_server.Worker.Batcher.Run.{
  Event, enqueues, cancels, advances, times_out, closes, infers,
}
use distributed_model_server.Worker.Batcher.Promises.{Settles, same, settle}
use distributed_model_server.Worker.Batcher.Contract.{
  Service, submit, Expired, Permits, Serve, submits, declines, settles,
}

-- The errors that the future of a request can hold.
abbrev pub IsBatchError : AppError → Type 0
IsBatchError e =
    ((m : String) × (e ≡ deadline_exceeded m)) ⊎ (e ≡ internal_server "Inference failed.")

-- A later state of the service: the requests that were known keep their inputs.
pub record IsLater (v v' : Service) : Type 0 where
  pub more : v.submitted ≤ v'.submitted
  pub same_inputs : (i : ℕ) → i < v.submitted → v'.inputs i ≡ v.inputs i

module _ (clock : ℕ → ℕ) (answer : Text → Text × Double) where
  -- A result is made of the answers to the request's own inputs.
  abbrev pub IsSound : Service → ℕ → Future → Type 0
  IsSound v i pending = Unit
  IsSound v i cancelled = Unit
  IsSound v i (result r) = (i < v.submitted) × (r.predictions ≡ map answer (v.inputs i))
  IsSound v i (exception e) = IsBatchError e

  abbrev pub AllSound : Service → Type 0
  AllSound v = (i : ℕ) → IsSound v i (v.outcome i)

  IsLater-IsSound :
      (v v' : Service) → IsLater v v' → (i : ℕ) (f : Future) → IsSound v i f → IsSound v' i f
  IsLater-IsSound v v' k i pending h = tt
  IsLater-IsSound v v' k i cancelled h = tt
  IsLater-IsSound v v' k i (result r) h =
      (omega (arith, h.0, k.more), h.1 ∙ ap (map answer) (sym (k.same_inputs i h.0)))
  IsLater-IsSound v v' k i (exception e) h = h

  Expired-IsSound : (v : Service) (i : ℕ) (f : Future) → Expired clock answer v i f → IsSound v i f
  Expired-IsSound v i f (k, m, known, late, e) = subst (IsSound v i) (sym e) (inl (m, refl))

  Permits-IsSound :
      (v : Service) (x : Event) (i : ℕ) (f : Future) → Permits clock answer v x i f → IsSound v i f
  Permits-IsSound v (enqueues request_id inputs local_deadline) i f h = absurd h
  Permits-IsSound v (cancels j) i f h = subst (IsSound v i) (sym h.1) tt
  Permits-IsSound v advances i f h = Expired-IsSound v i f h
  Permits-IsSound v times_out i f h = Expired-IsSound v i f h
  Permits-IsSound v closes i f h = Expired-IsSound v i f h
  Permits-IsSound v (infers (output preds prep inf post)) i f (inl h) = Expired-IsSound v i f h
  Permits-IsSound v (infers (output preds prep inf post)) i f (inr (r, known, right, e)) =
      subst (IsSound v i) (sym e) (known, right)
  Permits-IsSound v (infers failure) i f h = subst (IsSound v i) (sym h.1) (inr refl)

  Settles-IsSound :
      (v : Service) (x : Event) {fs gs : ℕ → Future}
      → Settles (Permits clock answer v x) fs gs
      → ((i : ℕ) → IsSound v i (fs i))
      → (i : ℕ) → IsSound v i (gs i)
  Settles-IsSound v x same h i = h i
  Settles-IsSound v x (settle {gs = gs} j f c p q k) h i =
      if_cases (IsSound v i) (j == i)
        (λ e.
          Permits-IsSound v x i f (subst (λ n. Permits clock answer v x n f) (ground (arith, e)) k))
        (λ _. Settles-IsSound v x c h i)

  pub Serve-IsLater : {x : Event} {v v' : Service} → Serve clock answer x v v' → IsLater v v'
  Serve-IsLater (submits request_id inputs local_deadline v) = record {
    more = omega arith;
    same_inputs = λ i h. ground (arith, h);
  }
  Serve-IsLater (declines request_id inputs local_deadline v) = record {
    more = omega arith;
    same_inputs = λ i h. refl;
  }
  Serve-IsLater (settles x v h) = record { more = omega arith; same_inputs = λ i h. refl }

  pub submit-AllSound :
      (inputs : List Text) (local_deadline : ℕ) (v : Service)
      → AllSound v
      → AllSound (submit inputs local_deadline v)
  submit-AllSound inputs local_deadline v h i =
      IsLater-IsSound v (submit inputs local_deadline v)
        (Serve-IsLater (submits [] inputs local_deadline v)) i (v.outcome i) (h i)

  -- The outcomes are sound in every state of the service.
  pub Serve-AllSound :
      {x : Event} {v v' : Service} → Serve clock answer x v v' → AllSound v → AllSound v'
  Serve-AllSound (submits request_id inputs local_deadline v) h =
      submit-AllSound inputs local_deadline v h
  Serve-AllSound (declines request_id inputs local_deadline v) h = h
  Serve-AllSound (settles x v {outcome = outcome} c) h = λ i.
      IsLater-IsSound v (record v { outcome = outcome })
        (record { more = omega arith; same_inputs = λ j k. refl }) i (outcome i)
        (Settles-IsSound v x c h i)
