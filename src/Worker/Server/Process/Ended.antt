-- ===== src/Worker/Server/Process/Ended.antt =====
-- The end of a call of `Predict`, once its future is done.
use mathlib.Core.List.{map-map}
use distributed_model_server.Prelude.{
  remove_at, All-remove_at, ℕ, ◌≡◌, refl, sym, ◌∙◌, ap, map, Text, inl, inr,
}
use distributed_model_server.Errors.{code}
use distributed_model_server.Protocol.{Double, PredictRequest}
use distributed_model_server.Worker.Config.{WorkerConfig, batcher_settings}
use distributed_model_server.Worker.Batcher.Defs.{
  Future, pending, cancelled, result, exception, BatcherResult,
}
use distributed_model_server.Worker.Batcher.Contract.{Service}
use distributed_model_server.Worker.Batcher.Matches.{Matches}
use distributed_model_server.Worker.Batcher.Results.{IsSound}
use distributed_model_server.Worker.Server.{
  Servicer, Outcome, aborts, responds, interrupted, on_error, response_of, finish_predict, count,
  success, deadline_passed, error,
}
use distributed_model_server.Worker.Server.Process.{Waiting, Process, add_answer, finished}
use distributed_model_server.Worker.Server.Process.Sound.{
  too_late, failed, IsResponse, IsAnswer, IsCall, Follows, IsSoundProcess,
}

module _ (c : WorkerConfig) (clock : ℕ → ℕ) (answer : Text → Text × Double) where
  -- A call is over.
  pub ends-Follows :
      (n : ℕ) (request : PredictRequest) (o : Outcome) (v : Service) (p : Process) (s : Servicer)
      → Follows c clock answer v p
      → Matches (batcher_settings c) clock answer v s.batcher
      → IsAnswer c clock answer request o
      → Follows c clock answer v
          (add_answer request o (record p { servicer = s; calls = remove_at n p.calls }))
  ends-Follows n request o v p s h m a = record {
    matching = m;
    sound = h.sound;
    calls = All-remove_at (IsCall c clock answer v) n p.calls h.calls;
    answered = (a, h.answered);
  }

  response_of-IsResponse :
      (v : Service) (w : Waiting) (r : BatcherResult)
      → IsCall c clock answer v w
      → r.predictions ≡ map answer (v.inputs w.future)
      → IsResponse c clock answer w.request (response_of c w.request r)
  unfolding response_of
  response_of-IsResponse v w r k e = record {
    same_id = refl;
    same_version = sym k.same_version;
    own_id = refl;
    right = ap (map _) (e ∙ ap (map answer) k.same_inputs) ∙ map-map _ answer w.request.inputs;
  }

  pub finished-IsSoundProcess :
      (n : ℕ) (w : Waiting) (f : Future) (v : Service) (p : Process)
      → Follows c clock answer v p
      → IsCall c clock answer v w
      → IsSound clock answer v w.future f
      → IsSoundProcess c clock answer
          (finished n w.request (finish_predict c w.request f p.servicer) p)
  unfolding finish_predict on_error
  finished-IsSoundProcess n w pending v p h k e = (v, h)
  finished-IsSoundProcess n w cancelled v p h k e =
      (v, ends-Follows n w.request interrupted v p p.servicer h h.matching tt)
  finished-IsSoundProcess n w (exception x) v p h k (inl (m, e)) = rw e (
    v,
    ends-Follows n w.request (aborts _ _) v p (count deadline_passed p.servicer) h h.matching
        too_late,
  )
  finished-IsSoundProcess n w (exception x) v p h k (inr e) =
      rw (e, code)
        (v, ends-Follows n w.request (aborts _ _) v p (count error p.servicer) h h.matching failed)
  finished-IsSoundProcess n w (result r) v p h k e = (
    v,
    ends-Follows n w.request (responds (response_of c w.request r)) v p (count success p.servicer) h
        h.matching (response_of-IsResponse v w r k e.1),
  )
