-- ===== src/Worker/Batcher/Shutdown.antt =====
-- What `close` does to the requests that wait.
use distributed_model_server.Prelude.{ℕ, ◌≡◌, refl, ◌∙◌, ◌≢◌, true, List, [], ◌∷◌, arith}
use distributed_model_server.Worker.Batcher.Defs.{
  pending, Settings, Phase, ended, top, collecting, executing, Batcher,
}
use distributed_model_server.Worker.Batcher.Loop.{
  output, failure, enqueue, cancel_future, advance, time_out, infer, close, close_from,
}
use distributed_model_server.Worker.Batcher.Run.{
  Event, enqueues, cancels, advances, times_out, closes, infers, step, run,
}

-- The batcher is closed and its task has ended.
pub record IsClosed (b : Batcher) : Type 0 where
  pub stopping : b.stopping ≡ true
  pub ended : b.phase ≡ Phase.ended

-- Nothing in the run is the cancellation of this request by its client.
abbrev pub NeverCancels : ℕ → List Event → Type 0
NeverCancels i [] = Unit
NeverCancels i (cancels j ∷ xs) = (i ≢ j) × NeverCancels i xs
NeverCancels i (_ ∷ xs) = NeverCancels i xs

-- A step of a closed batcher changes nothing but a future that is cancelled.
record Rests (i : ℕ) (b b' : Batcher) : Type 0 where
  closed : IsClosed b'
  same : b'.futures i ≡ b.futures i

module _ (s : Settings) (clock : ℕ → ℕ) (i : ℕ) where
  step-Rests :
      (x : Event) (b : Batcher)
      → NeverCancels i (x ∷ [])
      → IsClosed b
      → Rests i b (step s clock x b)
  unfolding step enqueue cancel_future advance time_out infer close
  step-Rests (enqueues request_id inputs local_deadline) b n v = ground arith
  step-Rests (cancels j) b n v = ground arith
  step-Rests advances b n v = ground arith
  step-Rests times_out b n v = ground arith
  step-Rests closes b n v = ground arith
  step-Rests (infers (output preds prep inf post)) b n v = ground arith
  step-Rests (infers failure) b n v = ground arith

  NeverCancels-cons :
      (x : Event) (xs : List Event)
      → NeverCancels i (x ∷ xs)
      → NeverCancels i (x ∷ []) × NeverCancels i xs
  NeverCancels-cons (enqueues request_id inputs local_deadline) xs n = (tt, n)
  NeverCancels-cons (cancels j) xs n = ((n.0, tt), n.1)
  NeverCancels-cons advances xs n = (tt, n)
  NeverCancels-cons times_out xs n = (tt, n)
  NeverCancels-cons closes xs n = (tt, n)
  NeverCancels-cons (infers r) xs n = (tt, n)

  run-closed :
      (xs : List Event) (b : Batcher)
      → NeverCancels i xs
      → IsClosed b
      → (run s clock xs b).futures i ≡ b.futures i
  unfolding run
  run-closed [] b n v = refl
  run-closed (x ∷ xs) b n v =
      let (nx, nxs) = NeverCancels-cons x xs n in
      let r = step-Rests x b nx v in run-closed xs (step s clock x b) nxs r.closed ∙ r.same

  -- The task waits for a first request or for the executor.
  abbrev pub WaitsOutside : Phase → Type 0
  WaitsOutside top = Unit
  WaitsOutside (executing w start) = Unit
  WaitsOutside ended = ⊥
  WaitsOutside (collecting batch total timer) = ⊥

  close_from-Rests :
      (p : Phase) (b : Batcher)
      → b.stopping ≡ true
      → WaitsOutside p
      → Rests i b (close_from clock p b)
  unfolding close_from
  close_from-Rests top b st h = record {
    closed = record { stopping = st; ended = refl };
    same = refl;
  }
  close_from-Rests (executing w start) b st h = record {
    closed = record { stopping = st; ended = refl };
    same = refl;
  }
  close_from-Rests ended b st h = elim h [ ]
  close_from-Rests (collecting batch total timer) b st h = elim h [ ]

  -- If `close` is called while the task waits for a first request or for the model, a request that was
  -- pending then, queued or in the batch in execution, stays pending for ever: no later step completes
  -- its future, and only its own client can cancel it.
  pub run-close_pending :
      (xs : List Event) (b : Batcher)
      → WaitsOutside b.phase
      → b.futures i ≡ pending
      → NeverCancels i xs
      → (run s clock xs (close clock b)).futures i ≡ pending
  unfolding close
  run-close_pending xs b h p n =
      let r = close_from-Rests b.phase (record b { stopping = true }) refl h in
      run-closed xs (close clock b) n r.closed ∙ (r.same ∙ p)
