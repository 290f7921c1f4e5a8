-- ===== src/Worker/Batcher/Refines.antt =====
-- The batcher does what its contract says.
use distributed_model_server.Prelude.{
  ℕ, ◌≡◌, refl, sym, ap, map, ◌∙◌, Text, true, false, inl, inr, List, [], ◌∷◌, All-left, All-map,
  if_both,
}
use distributed_model_server.Protocol.{Double}
use distributed_model_server.Worker.Batcher.Defs.{
  cancelled, is_pending, Settings, Phase, Batcher, new_batcher, done,
}
use distributed_model_server.Worker.Batcher.Loop.{
  output, failure, cancel_future, advance, time_out, infer, close,
}
use distributed_model_server.Worker.Batcher.Run.{
  Event, enqueues, cancels, advances, times_out, closes, infers, step, run,
}
use distributed_model_server.Worker.Batcher.Limits.{step-IsWithin, run-new_batcher-IsWithin}
use distributed_model_server.Worker.Batcher.Futures.{
  Answered_refl, update-StaysDone, backlog, batch_of, SlotFree, Serves,
}
use distributed_model_server.Worker.Batcher.Progress.{
  still-Serves, advance_from-Serves, time_out_from-Serves, infer_from-Serves,
}
use distributed_model_server.Worker.Batcher.Promises.{
  advance_from-Settles, time_out_from-Settles, close_from-Settles, cancel_future-Settles,
}
use distributed_model_server.Worker.Batcher.Delivery.{
  MayFinish, MayFail, HonestOn, infer-output-Settles, infer_from-failure-Settles,
}
use distributed_model_server.Worker.Batcher.Contract.{
  Service, no_requests, Permits, ServeAll, served, serve, ServeAll-keeps,
}
use distributed_model_server.Worker.Batcher.Matches.{
  Knows, Matches, Answers, settle-Answers, Serves-Answers, may_expire, close_from-known,
  enqueue-Answers,
}

module _ (s : Settings) (clock : ℕ → ℕ) (answer : Text → Text × Double) where
  cancel_future-Serves :
      (i : ℕ) (b : Batcher)
      → SlotFree b.phase b.next_envelope
      → Serves b.futures (backlog b) (cancel_future i b)
  unfolding cancel_future
  cancel_future-Serves i b f =
      if_both (Serves b.futures (backlog b)) (done b i) (still-Serves b f) (record {
        stays_done = update-StaysDone b.futures i cancelled refl;
        answered = Answered_refl _ _;
        slot_free = f;
      })

  abbrev pub HonestStep : Event → Phase → Type 0
  HonestStep (infers (output preds prep inf post)) p =
      HonestOn s clock (λ _ _. Unit {0}) answer preds p
  HonestStep _ p = Unit

  -- Each inference that ends with an output answers each input of its batch by itself.
  unfoldable pub Honest : List Event → Batcher → Type 0
  unfolding step
  Honest [] b = Unit
  Honest (x ∷ xs) b = HonestStep x b.phase × Honest xs (step s clock x b)

  pub step-Answers :
      (x : Event) (v : Service) (b : Batcher)
      → HonestStep x b.phase
      → Matches s clock answer v b
      → Answers s clock answer x v (step s clock x b)
  unfolding step advance time_out infer close
  step-Answers (enqueues request_id inputs local_deadline) v b honest m =
      enqueue-Answers s clock answer request_id inputs local_deadline v b m
  step-Answers (cancels i) v b honest m =
      Serves-Answers s clock answer (cancels i) v b _ m
        (cancel_future-Settles s clock (Permits clock answer v (cancels i)) i b (refl, refl))
        (cancel_future-Serves i b m.slot_free) (step-IsWithin s clock (cancels i) b m.within)
  step-Answers advances v b honest m =
      Serves-Answers s clock answer advances v b _ m
        (advance_from-Settles s clock (Permits clock answer v advances) b.phase b
          (may_expire s clock answer v advances (λ i f h. h) (backlog b) m.known))
        (advance_from-Serves s clock b.phase b refl m.slot_free)
        (step-IsWithin s clock advances b m.within)
  step-Answers times_out v b honest m =
      Serves-Answers s clock answer times_out v b _ m
        (time_out_from-Settles s clock (Permits clock answer v times_out) b.phase b.queue b
          (may_expire s clock answer v times_out (λ i f h. h) (backlog b) m.known))
        (time_out_from-Serves s clock b.phase b.queue b refl refl m.slot_free)
        (step-IsWithin s clock times_out b m.within)
  step-Answers closes v b honest m =
      let b1 : Batcher = record b { stopping = true } in
      let k = close_from-known s clock answer (Knows v) b.phase b1 refl m.known in
      settle-Answers s clock answer closes v b _ m
        (close_from-Settles s clock (Permits clock answer v closes) b.phase b1
          (may_expire s clock answer v closes (λ i f h. h) (backlog b) m.known))
        k.0 k.1 (step-IsWithin s clock closes b m.within)
  step-Answers (infers (output preds prep inf post)) v b honest m =
      let x = infers (output preds prep inf post) in
      Serves-Answers s clock answer x v b _ m
        (infer-output-Settles s clock (Permits clock answer v x) answer preds prep inf post b.phase
          b refl m.within.phase_fits honest
          (may_expire s clock answer v x (λ i f h. inl h) (backlog b) m.known)
          (All-map (Knows v) (MayFinish s clock (Permits clock answer v x) answer)
            (batch_of b.phase) (λ e k r same. inr (r, k.0, same ∙ ap (map answer) k.2, refl))
            (All-left (Knows v) (batch_of b.phase) _ m.known)))
        (infer_from-Serves s clock (output preds prep inf post) b.phase b refl m.slot_free
          m.within.phase_fits)
        (step-IsWithin s clock x b m.within)
  step-Answers (infers failure) v b honest m =
      let x = infers failure in
      Serves-Answers s clock answer x v b _ m
        (infer_from-failure-Settles s clock (Permits clock answer v x) b.phase b (
          All-map (Knows v) (MayFail s clock (Permits clock answer v x)) (batch_of b.phase)
            (λ e k. (k.0, refl)) (All-left (Knows v) (batch_of b.phase) _ m.known)))
        (infer_from-Serves s clock failure b.phase b refl m.slot_free m.within.phase_fits)
        (step-IsWithin s clock x b m.within)

  record AnswersAll (xs : List Event) (v : Service) (b' : Batcher) : Type 0 where
    after : Service
    served : ServeAll clock answer xs v after
    matching : Matches s clock answer after b'

  run-AnswersAll :
      (xs : List Event) (v : Service) (b : Batcher)
      → Honest xs b
      → Matches s clock answer v b
      → AnswersAll xs v (run s clock xs b)
  unfolding run Honest
  run-AnswersAll [] v b h m = record { after = v; served = served; matching = m }
  run-AnswersAll (x ∷ xs) v b h m =
      let a = step-Answers x v b h.0 m in
      let r = run-AnswersAll xs a.after (step s clock x b) h.1 a.matching in
      record { after = r.after; served = serve a.served r.served; matching = r.matching }

  pub new_batcher-Matches : Matches s clock answer no_requests new_batcher
  unfolding run
  new_batcher-Matches = record {
    outcome = refl;
    submitted = refl;
    known = tt;
    within = run-new_batcher-IsWithin s clock [];
    slot_free = tt;
  }

  -- If the model answers each input by itself, any run of a new batcher is one of the service in its contract,
  -- with the same numbers and the same outcomes: a request is settled at most once, with a deadline error
  -- only after its deadline, with the model's answers to its own inputs or with the error of the model only
  -- when an inference ends that way, and with a cancellation only by its caller.
  pub run_refines :
      (xs : List Event)
      → Honest xs new_batcher
      → (v : Service) × ServeAll clock answer xs no_requests v
        × (v.outcome ≡ (run s clock xs new_batcher).futures)
        × (v.submitted ≡ (run s clock xs new_batcher).created)
  run_refines xs h =
      let r = run-AnswersAll xs no_requests new_batcher h new_batcher-Matches in
      (r.after, r.served, r.matching.outcome, r.matching.submitted)

  -- If the model answers each input by itself, a request that is settled, after any run of a new batcher,
  -- keeps its outcome whatever happens afterwards.
  pub run_keeps_answer :
      (xs ys : List Event) (i : ℕ)
      → Honest xs new_batcher
      → Honest ys (run s clock xs new_batcher)
      → is_pending ((run s clock xs new_batcher).futures i) ≡ false
      → (run s clock ys (run s clock xs new_batcher)).futures i
        ≡ (run s clock xs new_batcher).futures i
  run_keeps_answer xs ys i h1 h2 d =
      let r = run-AnswersAll xs no_requests new_batcher h1 new_batcher-Matches in
      let q = run-AnswersAll ys r.after (run s clock xs new_batcher) h2 r.matching in
      let old = ap (λ f. f i) r.matching.outcome in
      let new = ap (λ f. f i) q.matching.outcome in
      sym new ∙ ServeAll-keeps clock answer i q.served (rw old d) ∙ old
