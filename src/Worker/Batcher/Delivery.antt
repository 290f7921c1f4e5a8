-- ===== src/Worker/Batcher/Delivery.antt =====
-- What an inference that ends settles: results, deadline errors, or the error of the model.
use distributed_model_server.Prelude.{
  ℕ, ◌≡◌, refl, ◌∙◌, sym, subst, map, Text, List, [], ◌∷◌, All, All-left, ltb, if◌then◌else◌,
  if_cases,
}
use distributed_model_server.Errors.{internal_server}
use distributed_model_server.Protocol.{Double, Millis}
use distributed_model_server.Worker.Batcher.Defs.{
  BatcherResult, Future, result, exception, RequestEnvelope, Settings, Work, Phase, ended, top,
  collecting, executing, Batcher, done, complete, read,
}
use distributed_model_server.Worker.Batcher.Loop.{
  output, failure, deliver_one, fail_all, infer_from, infer,
}
use distributed_model_server.Worker.Batcher.Slices.{IsGathered, deliver_each, infer-deliver_each}
use distributed_model_server.Worker.Batcher.Rounds.{PhaseFits}
use distributed_model_server.Worker.Batcher.Futures.{batch_of}
use distributed_model_server.Worker.Batcher.Promises.{
  same, settle, Settles_trans, not_done, MayExpire, SettlesAfter, expire, MayAllExpire,
}

module _ (s : Settings) (clock : ℕ → ℕ) (P : ℕ → Future → Type 0) where
  deliver_one-Settles :
      (start finish : ℕ) (times : Millis × Millis × Millis) (e : RequestEnvelope)
      (predictions : List (Text × Double)) (b : Batcher)
      → MayExpire s clock P e
      → ((r : BatcherResult) → r.predictions ≡ predictions → P e.future (result r))
      → SettlesAfter s clock P b (deliver_one clock start finish times e predictions b)
  unfolding deliver_one
  deliver_one-Settles start finish (prep, inf, post) e predictions b may fin =
      if_cases (SettlesAfter s clock P b) (done b e.future) (λ _. (same, refl))
        (λ nd.
          if_cases (SettlesAfter s clock P b) (ltb e.local_deadline (clock b.readings))
            (λ late. (expire s clock P e b b.readings _ may nd late, refl))
            (λ _. (settle e.future _ same (not_done b e.future nd) refl (fin _ refl), refl)))

  -- The request may get the model's answers to its inputs.
  abbrev pub MayFinish : (Text → Text × Double) → RequestEnvelope → Type 0
  MayFinish answer e =
      (r : BatcherResult) → r.predictions ≡ map answer e.inputs → P e.future (result r)

  deliver_each-Settles :
      (start finish : ℕ) (times : Millis × Millis × Millis) (answer : Text → Text × Double)
      (es : List RequestEnvelope) (b : Batcher)
      → All (MayExpire s clock P) es
      → All (MayFinish answer) es
      → SettlesAfter s clock P b (deliver_each clock start finish times answer es b)
  unfolding deliver_each
  deliver_each-Settles start finish times answer [] b may fin = (same, refl)
  deliver_each-Settles start finish times answer (e ∷ es) b may fin =
      let predictions = map answer e.inputs in
      let h = deliver_one-Settles start finish times e predictions b may.0 fin.0 in
      let b1 = deliver_one clock start finish times e predictions b in
      let k = deliver_each-Settles start finish times answer es b1 may.1 fin.1 in
      (Settles_trans h.0 k.0, k.1 ∙ h.1)

  -- The request may be failed with the error of the model.
  abbrev pub MayFail : RequestEnvelope → Type 0
  MayFail e = P e.future (exception (internal_server "Inference failed."))

  abbrev fail_one : RequestEnvelope → Batcher → Batcher
  fail_one e b =
      if done b e.future
      then b
      else complete e.future (exception (internal_server "Inference failed.")) b

  fail_one-Settles :
      (e : RequestEnvelope) (b : Batcher) → MayFail e → SettlesAfter s clock P b (fail_one e b)
  fail_one-Settles e b fails =
      if_cases (SettlesAfter s clock P b) (done b e.future) (λ _. (same, refl))
        (λ nd. (settle e.future _ same (not_done b e.future nd) refl fails, refl))

  fail_all-Settles :
      (es : List RequestEnvelope) (b : Batcher)
      → All MayFail es
      → SettlesAfter s clock P b (fail_all es b)
  unfolding fail_all
  fail_all-Settles [] b fails = (same, refl)
  fail_all-Settles (e ∷ es) b fails =
      let h = fail_one-Settles e b fails.0 in
      let k = fail_all-Settles es (fail_one e b) fails.1 in (Settles_trans h.0 k.0, k.1 ∙ h.1)

  -- The model answered each input of the batch by itself.
  abbrev pub HonestOn : (Text → Text × Double) → List (Text × Double) → Phase → Type 0
  HonestOn answer preds (executing w start) = preds ≡ map answer w.flattened_inputs
  HonestOn answer preds _ = Unit

  executing-Settles :
      (answer : Text → Text × Double) (prep inf post : Millis) (w : Work) (start : ℕ) (b : Batcher)
      → b.phase ≡ executing w start
      → IsGathered w
      → MayAllExpire s clock P (executing w start) b
      → All (MayFinish answer) w.valid_batch
      → SettlesAfter s clock P b
          (infer clock (output (map answer w.flattened_inputs) prep inf post) b)
  executing-Settles answer prep inf post w start b e v may fin =
      let h =
        deliver_each-Settles start (clock b.readings) (prep, inf, post) answer w.valid_batch
          (read clock b).1 (All-left (MayExpire s clock P) w.valid_batch _ may) fin in
      rw (infer-deliver_each clock answer w start prep inf post b v e) h

  pub infer-output-Settles :
      (answer : Text → Text × Double) (preds : List (Text × Double)) (prep inf post : Millis)
      (p : Phase) (b : Batcher)
      → b.phase ≡ p
      → PhaseFits s p
      → HonestOn answer preds p
      → MayAllExpire s clock P p b
      → All (MayFinish answer) (batch_of p)
      → SettlesAfter s clock P b (infer clock (output preds prep inf post) b)
  unfolding infer infer_from
  infer-output-Settles answer preds prep inf post (executing w start) b e fits honest may fin =
      subst (λ ps. SettlesAfter s clock P b (infer clock (output ps prep inf post) b)) (sym honest)
        (executing-Settles answer prep inf post w start b e fits.0 may fin)
  infer-output-Settles answer preds prep inf post ended b e fits honest may fin =
      rw (e, infer_from) (same, refl)
  infer-output-Settles answer preds prep inf post top b e fits honest may fin =
      rw (e, infer_from) (same, refl)
  infer-output-Settles answer preds prep inf post (collecting batch total timer) b e fits honest may
        fin =
      rw (e, infer_from) (same, refl)

  pub infer_from-failure-Settles :
      (p : Phase) (b : Batcher)
      → All MayFail (batch_of p)
      → SettlesAfter s clock P b (infer_from clock failure p b)
  unfolding infer_from
  infer_from-failure-Settles (executing w start) b fails = fail_all-Settles w.valid_batch b fails
  infer_from-failure-Settles ended b fails = (same, refl)
  infer_from-failure-Settles top b fails = (same, refl)
  infer_from-failure-Settles (collecting batch total timer) b fails = (same, refl)
