-- ===== src/Worker/Server/Process/Sound.antt =====
-- What the worker answers to its calls, whatever else happens between the steps of a call.
use distributed_model_server.Prelude.{
  ℕ, ◌+◌, ◌<◌, ◌≡◌, refl, ◌∙◌, map, String, Text, true, false, not, ◌||◌, Option, none, some,
  length, ltb, ◌==◌, text_eq, text_eq→eq, if_cases, All, All-map, arith,
}
use distributed_model_server.Protocol.{Double, PredictRequest, PredictResponse, StatusCode}
use distributed_model_server.Worker.Config.{WorkerConfig, batcher_settings}
use distributed_model_server.Worker.Batcher.Defs.{Batcher, read}
use distributed_model_server.Worker.Batcher.Loop.{Admission, awaits, refused}
use distributed_model_server.Worker.Batcher.Run.{Event, enqueues}
use distributed_model_server.Worker.Batcher.Contract.{Service, submit, submits}
use distributed_model_server.Worker.Batcher.Matches.{Matches, Answers, Enqueued, enqueue-Enqueued}
use distributed_model_server.Worker.Batcher.Results.{
  IsLater, AllSound, Serve-IsLater, Serve-AllSound, submit-AllSound,
}
use distributed_model_server.Worker.Server.{
  Servicer, Outcome, aborts, responds, interrupted, Begun, on_error, on_admission, admit, is_ready,
  begin_predict, count, queue_full,
}
use distributed_model_server.Worker.Server.Process.{Waiting, Answered, Process, add_answer, begun}

-- The calls of `context.abort`.
pub data Abort (c : WorkerConfig) (request : PredictRequest) : StatusCode → String → Type 0 where
  not_ready : Abort c request StatusCode.failed_precondition "WORKER_NOT_READY"
  invalid :
      ((length request.inputs == 0) || ltb 8 (length request.inputs)) ≡ true
      → Abort c request StatusCode.invalid_argument "INVALID_REQUEST"
  unsupported :
      text_eq request.model_version c.model_version ≡ false
      → Abort c request StatusCode.invalid_argument "UNSUPPORTED_MODEL"
  too_late : Abort c request StatusCode.deadline_exceeded "DEADLINE_EXCEEDED"
  full : Abort c request StatusCode.resource_exhausted "WORKER_QUEUE_FULL"
  failed : Abort c request StatusCode.internal "INTERNAL_ERROR"

module _ (c : WorkerConfig) (clock : ℕ → ℕ) (answer : Text → Text × Double) where
  -- A response is for its request, with the answer to each of its inputs.
  pub record IsResponse (request : PredictRequest) (r : PredictResponse) : Type 0 where
    pub same_id : r.request_id ≡ request.request_id
    pub same_version : r.model_version ≡ request.model_version
    pub own_id : r.worker_id ≡ c.worker_id
    pub right :
        r.predictions
        ≡ map (λ t. record { label = (answer t).0; score = (answer t).1 }) request.inputs

  abbrev pub IsAnswer : PredictRequest → Outcome → Type 0
  IsAnswer request (aborts k detail) = Abort c request k detail
  IsAnswer request (responds r) = IsResponse request r
  IsAnswer request interrupted = Unit

  abbrev pub IsAnswered : Answered → Type 0
  IsAnswered a = IsAnswer a.request a.outcome

  -- The future of a call is of its request.
  pub record IsCall (v : Service) (w : Waiting) : Type 0 where
    pub known : w.future < v.submitted
    pub same_inputs : v.inputs w.future ≡ w.request.inputs
    pub same_version : w.request.model_version ≡ c.model_version

  pub record Follows (v : Service) (p : Process) : Type 0 where
    pub matching : Matches (batcher_settings c) clock answer v p.servicer.batcher
    pub sound : AllSound clock answer v
    pub calls : All (IsCall v) p.calls
    pub answered : All IsAnswered p.answered

  abbrev pub IsSoundProcess : Process → Type 0
  IsSoundProcess p = (v : Service) × Follows v p

  IsLater-IsCall : (v v' : Service) → IsLater v v' → (w : Waiting) → IsCall v w → IsCall v' w
  IsLater-IsCall v v' k w h = record {
    known = omega (arith, h.known, k.more);
    same_inputs = k.same_inputs w.future h.known ∙ h.same_inputs;
    same_version = h.same_version;
  }

  -- A step of the batcher.
  pub moves-IsSoundProcess :
      (x : Event) (v : Service) (p : Process) (s : Servicer)
      → Follows v p
      → Answers (batcher_settings c) clock answer x v s.batcher
      → IsSoundProcess (record p { servicer = s })
  moves-IsSoundProcess x v p s h a = (
    a.after,
    record {
      matching = a.matching;
      sound = Serve-AllSound clock answer a.served h.sound;
      calls =
          All-map (IsCall v) (IsCall a.after) p.calls
            (IsLater-IsCall v a.after (Serve-IsLater clock answer a.served)) h.calls;
      answered = h.answered;
    },
  )

  add_answer-Follows :
      (request : PredictRequest) (o : Outcome) (v : Service) (p : Process)
      → Follows v p
      → IsAnswer request o
      → Follows v (add_answer request o p)
  add_answer-Follows request o v p h a = record {
    matching = h.matching;
    sound = h.sound;
    calls = h.calls;
    answered = (a, h.answered);
  }

  refuses-IsSoundProcess :
      (request : PredictRequest) (k : StatusCode) (detail : String) (p : Process)
      → IsSoundProcess p
      → Abort c request k detail
      → IsSoundProcess (add_answer request (aborts k detail) p)
  refuses-IsSoundProcess request k detail p (v, h) a =
      (v, add_answer-Follows request (aborts k detail) v p h a)

  on_admission-IsSoundProcess :
      (request : PredictRequest) (deadline : ℕ) (v : Service) (p : Process)
      (r : Admission × Batcher)
      → text_eq request.model_version c.model_version ≡ true
      → Follows v p
      → Enqueued (batcher_settings c) clock answer request.request_id request.inputs deadline v r
      → IsSoundProcess (begun request (on_admission p.servicer r) p)
  unfolding on_admission on_error
  on_admission-IsSoundProcess request deadline v p (awaits i, b') same h (e, m) =
      let v' = submit request.inputs deadline v in
      let later =
        Serve-IsLater clock answer (submits request.request_id request.inputs deadline v) in
      let mine : (i == v.submitted) ≡ true = ground (arith, e) in
      (
        v',
        record {
          matching = m;
          sound = submit-AllSound clock answer request.inputs deadline v h.sound;
          calls = (
            record {
              known = omega (arith, e);
              same_inputs = rw mine refl;
              same_version = text_eq→eq request.model_version c.model_version same;
            },
            All-map (IsCall v) (IsCall v') p.calls (IsLater-IsCall v v' later) h.calls,
          );
          answered = h.answered;
        },
      )
  on_admission-IsSoundProcess request deadline v p (refused e, b') same h ((m, full_error), a) =
      let moved =
        moves-IsSoundProcess (enqueues request.request_id request.inputs deadline) v p
          (count queue_full (record p.servicer { batcher = b' })) h a in
      rw full_error (refuses-IsSoundProcess request _ _ _ moved full)

  admit-IsSoundProcess :
      (request : PredictRequest) (remaining : Option ℕ) (v : Service) (p : Process)
      → text_eq request.model_version c.model_version ≡ true
      → Follows v p
      → IsSoundProcess (begun request (admit c clock request remaining p.servicer) p)
  unfolding admit
  admit-IsSoundProcess request none v p same h =
      refuses-IsSoundProcess request _ _ p (v, h) too_late
  admit-IsSoundProcess request (some t) v p same h =
      let (now, b) = read clock p.servicer.batcher in
      let m : Matches (batcher_settings c) clock answer v b = record {
        outcome = h.matching.outcome;
        submitted = h.matching.submitted;
        known = h.matching.known;
        within = record {
          queue_bounded = h.matching.within.queue_bounded;
          phase_fits = h.matching.within.phase_fits;
        };
        slot_free = h.matching.slot_free;
      } in
      if_cases (λ r. IsSoundProcess (begun request r p)) (ltb 0 t)
        (λ _. on_admission-IsSoundProcess request (now + t) v p _ same h (
          enqueue-Enqueued (batcher_settings c) clock answer request.request_id request.inputs
            (now + t) v b m))
        (λ _. refuses-IsSoundProcess request _ _ p (v, h) too_late)

  pub begin_predict-IsSoundProcess :
      (request : PredictRequest) (remaining : Option ℕ) (v : Service) (p : Process)
      → Follows v p
      → IsSoundProcess (begun request (begin_predict c clock request remaining p.servicer) p)
  unfolding begin_predict
  begin_predict-IsSoundProcess request remaining v p h =
      let Q : Begun × Servicer → Type 0 = λ r. IsSoundProcess (begun request r p) in
      if_cases Q (not (is_ready p.servicer.state))
        (λ _. refuses-IsSoundProcess request _ _ p (v, h) not_ready)
        (λ _.
          if_cases Q ((length request.inputs == 0) || ltb 8 (length request.inputs))
            (λ e. refuses-IsSoundProcess request _ _ p (v, h) (invalid e))
            (λ _.
              if_cases Q (not (text_eq request.model_version c.model_version))
                (λ e. refuses-IsSoundProcess request _ _ p (v, h) (unsupported (ground (arith, e))))
                (λ e. admit-IsSoundProcess request remaining v p (ground (arith, e)) h)))
