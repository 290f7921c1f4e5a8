-- ===== src/Wire/Predict.antt =====
-- The errors of `Predict` from the worker's handler to the gateway's client.
use distributed_model_server.Prelude.{
  text_eq_iff, Text, if_cases, ltb→lt, ap, ◌∙◌, ◌||◌, ℕ, ◌+◌, ◌≤◌, ◌<◌, ◌≡◌, ◌≢◌, ◌⊎◌, inl, inr,
  refl, true, false, not, [], ◌∷◌, ◌++◌, Option, none, some, length, arith, ltb, ◌==◌, text_eq,
  text_eq→eq, contains,
}
use distributed_model_server.Errors.{
  AppError, default_worker_unavailable, default_invalid_request, default_unsupported_model,
  default_deadline_exceeded, default_worker_queue_full,
}
use distributed_model_server.Protocol.{WorkerState, PredictRequest}
use distributed_model_server.Gateway.Client.{map_rpc_error}
use distributed_model_server.Worker.Config.{WorkerConfig, batcher_settings}
use distributed_model_server.Worker.Batcher.Defs.{RequestEnvelope, Batcher}
use distributed_model_server.Worker.Batcher.Loop.{
  enqueue, new_envelope, put_nowait, queue_full, start_loop,
}
use distributed_model_server.Worker.Server.{
  Servicer, aborts, responds, interrupted, Begun, ends, waits, begin_predict, admit, on_admission,
  on_error, is_ready,
}

-- Why `Predict` refuses a request, and the error that the gateway's caller should get for it.
pub data Refuses (c : WorkerConfig) (request : PredictRequest) (remaining : Option ℕ) (s : Servicer)
    : AppError → Type 0 where
  not_ready : s.state ≢ WorkerState.ready → Refuses c request remaining s default_worker_unavailable
  bad_inputs :
      (length request.inputs ≡ 0) ⊎ (8 < length request.inputs)
      → Refuses c request remaining s default_invalid_request
  other_model :
      request.model_version ≢ c.model_version
      → Refuses c request remaining s default_unsupported_model
  no_time :
      (remaining ≡ none) ⊎ (remaining ≡ some 0)
      → Refuses c request remaining s default_deadline_exceeded
  no_place :
      (s.batcher.stopping ≡ true)
        ⊎ ((0 < c.queue_capacity) × (c.queue_capacity ≤ length s.batcher.queue))
      → Refuses c request remaining s default_worker_queue_full

-- A request that the batcher took: it meets every condition and stands last in the queue, to be done
-- within the time that its call has left.
pub record Admits (c : WorkerConfig) (clock : ℕ → ℕ) (request : PredictRequest)
    (remaining : Option ℕ) (s : Servicer) (i : ℕ) (s' : Servicer) : Type 0 where
  pub ready : s.state ≡ WorkerState.ready
  pub some_inputs : 1 ≤ length request.inputs
  pub few_inputs : length request.inputs ≤ 8
  pub same_model : request.model_version ≡ c.model_version
  pub accepting : s.batcher.stopping ≡ false
  pub envelope : RequestEnvelope
  pub queued : s'.batcher.queue ≡ s.batcher.queue ++ envelope ∷ []
  pub awaited : envelope.future ≡ i
  pub unused : i ≡ s.batcher.created
  pub same_inputs : envelope.inputs ≡ request.inputs
  pub in_time :
      (t : ℕ) × (remaining ≡ some t)
      × (0 < t)
      × (envelope.local_deadline ≡ clock s.batcher.readings + t)

start_loop_queue : (b : Batcher) → (start_loop b).queue ≡ b.queue
start_loop_queue b = ground arith

ready_lem : (st : WorkerState) → not (is_ready st) ≡ false → st ≡ WorkerState.ready
ready_lem st h = ground arith

not_ready_lem : (st : WorkerState) → not (is_ready st) ≡ true → st ≢ WorkerState.ready
not_ready_lem st h e = ground arith

other_text : {u v : Text} → not (text_eq u v) ≡ true → u ≢ v
other_text {u = u} {v = v} h e = ground (arith, text_eq_iff u v)

module _ (c : WorkerConfig) (clock : ℕ → ℕ) (request : PredictRequest) (remaining : Option ℕ)
    (s : Servicer) where
  abbrev pub Begins : Begun × Servicer → Type 0
  Begins (waits i, s') = Admits c clock request remaining s i s'
  Begins (ends (aborts st d), s') =
      Refuses c request remaining s (map_rpc_error st d) × (s'.batcher.queue ≡ s.batcher.queue)
  Begins (ends (responds r), s') = ⊥
  Begins (ends interrupted, s') = ⊥

  module _ (r : s.state ≡ WorkerState.ready) (n : 1 ≤ length request.inputs)
      (l : length request.inputs ≤ 8) (m : request.model_version ≡ c.model_version) where
    put-Begins :
        (t : ℕ) (e : RequestEnvelope) (b : Batcher)
        → remaining ≡ some t
        → 0 < t
        → s.batcher.stopping ≡ false
        → b.queue ≡ s.batcher.queue
        → e.future ≡ s.batcher.created
        → e.inputs ≡ request.inputs
        → e.local_deadline ≡ clock s.batcher.readings + t
        → Begins (on_admission s (put_nowait (batcher_settings c) (e, b)))
    unfolding put_nowait on_admission on_error map_rpc_error
    put-Begins t e b et ht st q fu inp dl =
        if_cases (λ r. Begins (on_admission s r)) (queue_full (batcher_settings c) b)
          (λ h. (no_place (inr (ground (arith, ap length q))), q))
          (λ h. record {
            ready = r;
            some_inputs = n;
            few_inputs = l;
            same_model = m;
            accepting = st;
            envelope = e;
            queued =
                (start_loop_queue (record b { queue = b.queue ++ e ∷ [] })
                  ∙ ap (λ q. q ++ e ∷ []) q);
            awaited = refl;
            unused = fu;
            same_inputs = inp;
            in_time = (t, et, ht, dl);
          })

    admit-Begins : (o : Option ℕ) → remaining ≡ o → Begins (admit c clock request o s)
    unfolding admit map_rpc_error enqueue new_envelope on_admission on_error
    admit-Begins none e = (no_time (inl e), refl)
    admit-Begins (some t) e =
        if_cases Begins (ltb 0 t)
          (λ h.
            if_cases (λ r. Begins (on_admission s r)) s.batcher.stopping
              (λ st. (no_place (inl st), refl))
              (λ st. put-Begins t _ _ e (ltb→lt 0 t h) st refl refl refl refl))
          (λ h.
            let zero_left : t ≡ 0 = ground arith in (no_time (inr (e ∙ ap some zero_left)), refl))

  -- `Predict` makes a request wait only if the worker is ready, the request has one to eight inputs and
  -- asks for the worker's model, its call has time left and the batcher is open; then the request is the
  -- last in the queue, with a deadline that is the time left from now. In every other case it aborts the
  -- call and queues nothing, and the gateway turns the status and the detail of the abort back into the
  -- error that says why.
  pub begin_predict-Begins : Begins (begin_predict c clock request remaining s)
  unfolding begin_predict map_rpc_error contains
  begin_predict-Begins =
      if_cases Begins (not (is_ready s.state))
        (λ h. (not_ready (λ e. not_ready_lem s.state h e), refl))
        (λ r.
          if_cases Begins ((length request.inputs == 0) || ltb 8 (length request.inputs))
            (λ h. (bad_inputs (ground arith), refl))
            (λ l.
              if_cases Begins (not (text_eq request.model_version c.model_version))
                (λ h. (other_model (λ e. other_text h e), refl))
                (λ m.
                  admit-Begins (ready_lem s.state r) (ground arith) (ground arith)
                    (text_eq→eq _ _ (ground arith)) remaining refl)))
