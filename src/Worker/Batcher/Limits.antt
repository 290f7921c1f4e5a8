-- ===== src/Worker/Batcher/Limits.antt =====
-- The limits on the queue and on a batch, over any run.
use distributed_model_server.Prelude.{
  ℕ, ◌+◌, ◌≤◌, ◌<◌, ◌≡◌, refl, ap, ◌∙◌, Text, true, false, List, [], ◌∷◌, ◌++◌, arith, length,
  length-append, if_both, if_cases,
}
use distributed_model_server.Protocol.{Double, Millis}
use distributed_model_server.Worker.Batcher.Defs.{
  RequestEnvelope, Settings, Phase, ended, top, collecting, executing, Batcher, read, new_batcher,
}
use distributed_model_server.Worker.Batcher.Loop.{
  Inference, output, failure, Admission, queue_depth, start_loop, queue_full, new_envelope,
  put_nowait, enqueue, cancel_future, advance_from, advance, slice, time_out_from, time_out,
  deliver_one, deliver, fail_all, infer_from, infer, close_from, close,
}
use distributed_model_server.Worker.Batcher.Run.{
  Event, enqueues, cancels, advances, times_out, closes, infers, step, run,
}
use distributed_model_server.Worker.Batcher.Rounds.{
  PhaseFits, IsWithin, Shrinks, process_batch-Shrinks, fetch_first-Shrinks, collect-Shrinks,
}

module _ (s : Settings) (clock : ℕ → ℕ) where
  advance_from-Shrinks :
      (p : Phase) (b : Batcher)
      → b.phase ≡ p
      → PhaseFits s p
      → Shrinks s clock b.queue (advance_from s clock p b)
  unfolding advance_from
  advance_from-Shrinks ended b e f = rw e (tt, omega arith)
  advance_from-Shrinks top b e f =
      ground (arith, fetch_first-Shrinks s clock b.next_envelope b.queue b)
  advance_from-Shrinks (collecting batch total timer) b e f =
      collect-Shrinks s clock batch total timer b e f.0 f.1
  advance_from-Shrinks (executing w start) b e f = rw e (f, omega arith)

  time_out_from-Shrinks :
      (p : Phase) (q : List RequestEnvelope) (b : Batcher)
      → b.queue ≡ q
      → b.phase ≡ p
      → PhaseFits s p
      → Shrinks s clock q (time_out_from clock p q b)
  unfolding time_out_from
  time_out_from-Shrinks (collecting batch total timer) [] b h e f =
      process_batch-Shrinks s clock batch [] b f.1 (rw h (omega arith))
  time_out_from-Shrinks (collecting batch total timer) (x ∷ q) b h e f = rw (e, h) (f, omega arith)
  time_out_from-Shrinks ended q b h e f = rw (e, h) (f, omega arith)
  time_out_from-Shrinks top q b h e f = rw (e, h) (f, omega arith)
  time_out_from-Shrinks (executing w start) q b h e f = rw (e, h) (f, omega arith)

  module _ (start finish : ℕ) (times : Millis × Millis × Millis) where
    deliver_one-queue :
        (e : RequestEnvelope) (preds : List (Text × Double)) (b : Batcher)
        → (deliver_one clock start finish times e preds b).queue ≡ b.queue
    unfolding deliver_one
    deliver_one-queue e preds b = ground arith

    deliver-queue :
        (preds : List (Text × Double)) (es : List RequestEnvelope) (ss : List (ℕ × ℕ)) (b : Batcher)
        → (deliver clock start finish times preds es ss b).queue ≡ b.queue
    unfolding deliver
    deliver-queue preds [] ss b = refl
    deliver-queue preds (e ∷ es) [] b = refl
    deliver-queue preds (e ∷ es) (x ∷ ss) b =
        deliver-queue preds es ss _ ∙ deliver_one-queue e (slice x preds) b

  fail_all-queue : (es : List RequestEnvelope) (b : Batcher) → (fail_all es b).queue ≡ b.queue
  unfolding fail_all
  fail_all-queue [] b = refl
  fail_all-queue (e ∷ es) b = fail_all-queue es _ ∙ ground arith

  infer_from-Shrinks :
      (r : Inference) (p : Phase) (b : Batcher)
      → b.phase ≡ p
      → PhaseFits s p
      → Shrinks s clock b.queue (infer_from clock r p b)
  unfolding infer_from
  infer_from-Shrinks (output preds prep inf post) (executing w start) b e f = (
    tt,
    omega (
      arith,
      ap length
          (deliver-queue start _ (prep, inf, post) preds w.valid_batch w.slices (read clock b).1),
    ),
  )
  infer_from-Shrinks failure (executing w start) b e f =
      (tt, omega (arith, ap length (fail_all-queue w.valid_batch b)))
  infer_from-Shrinks (output preds prep inf post) ended b e f = rw e (f, omega arith)
  infer_from-Shrinks (output preds prep inf post) top b e f = rw e (f, omega arith)
  infer_from-Shrinks (output preds prep inf post) (collecting batch total timer) b e f =
      rw e (f, omega arith)
  infer_from-Shrinks failure ended b e f = rw e (f, omega arith)
  infer_from-Shrinks failure top b e f = rw e (f, omega arith)
  infer_from-Shrinks failure (collecting batch total timer) b e f = rw e (f, omega arith)

  close_from-Shrinks :
      (p : Phase) (b : Batcher)
      → b.phase ≡ p
      → PhaseFits s p
      → Shrinks s clock b.queue (close_from clock p b)
  unfolding close_from
  close_from-Shrinks ended b e f = rw e (f, omega arith)
  close_from-Shrinks top b e f = (tt, omega arith)
  close_from-Shrinks (collecting batch total timer) b e f =
      process_batch-Shrinks s clock batch b.queue b f.1 (omega arith)
  close_from-Shrinks (executing w start) b e f = (tt, omega arith)

  from-Shrinks : {b b' : Batcher} → IsWithin s b → Shrinks s clock b.queue b' → IsWithin s b'
  from-Shrinks v h = record {
    queue_bounded = λ c. omega (arith, v.queue_bounded c, h.1);
    phase_fits = h.0;
  }

  start_loop-PhaseFits :
      (p : Phase) (b : Batcher) → b.phase ≡ p → PhaseFits s p → PhaseFits s (start_loop b).phase
  start_loop-PhaseFits ended b e f = rw (e, start_loop) tt
  start_loop-PhaseFits top b e f = rw (e, start_loop, e) tt
  start_loop-PhaseFits (collecting batch total timer) b e f = rw (e, start_loop, e) f
  start_loop-PhaseFits (executing w start) b e f = rw (e, start_loop, e) f

  start_loop-queue : (b : Batcher) → (start_loop b).queue ≡ b.queue
  start_loop-queue b = ground arith

  pub put-IsWithin :
      (e : RequestEnvelope) (b : Batcher)
      → IsWithin s b
      → queue_full s b ≡ false
      → IsWithin s (start_loop (record b { queue = b.queue ++ e ∷ [] }))
  put-IsWithin e b v free =
      let b' : Batcher = record b { queue = b.queue ++ e ∷ [] } in
      record {
        queue_bounded = λ c.
            rw (start_loop-queue b')
              (ground (arith, length-append b.queue (e ∷ []), v.queue_bounded c));
        phase_fits = start_loop-PhaseFits b.phase b' refl v.phase_fits;
      }

  put_nowait-IsWithin :
      (e : RequestEnvelope) (b : Batcher) → IsWithin s b → IsWithin s (put_nowait s (e, b)).1
  unfolding put_nowait
  put_nowait-IsWithin e b v =
      if_cases (λ (r : Admission × Batcher). IsWithin s r.1) (queue_full s b) (λ _. v)
        (put-IsWithin e b v)

  enqueue-IsWithin :
      (request_id : Text) (inputs : List Text) (local_deadline : ℕ) (b : Batcher)
      → IsWithin s b
      → IsWithin s (enqueue s clock request_id inputs local_deadline b).1
  unfolding enqueue
  enqueue-IsWithin request_id inputs local_deadline b v =
      if_both (λ (r : Admission × Batcher). IsWithin s r.1) b.stopping v
        (put_nowait-IsWithin (new_envelope clock request_id inputs local_deadline b).0
          (new_envelope clock request_id inputs local_deadline b).1
          (record { queue_bounded = v.queue_bounded; phase_fits = v.phase_fits }))

  pub step-IsWithin : (x : Event) (b : Batcher) → IsWithin s b → IsWithin s (step s clock x b)
  unfolding step advance time_out infer close cancel_future
  step-IsWithin (enqueues request_id inputs local_deadline) b v =
      enqueue-IsWithin request_id inputs local_deadline b v
  step-IsWithin (cancels i) b v = ground arith
  step-IsWithin advances b v = from-Shrinks v (advance_from-Shrinks b.phase b refl v.phase_fits)
  step-IsWithin times_out b v =
      from-Shrinks v (time_out_from-Shrinks b.phase b.queue b refl refl v.phase_fits)
  step-IsWithin closes b v =
      from-Shrinks v (close_from-Shrinks b.phase (record b { stopping = true }) refl v.phase_fits)
  step-IsWithin (infers r) b v = from-Shrinks v (infer_from-Shrinks r b.phase b refl v.phase_fits)

  pub run-IsWithin : (xs : List Event) (b : Batcher) → IsWithin s b → IsWithin s (run s clock xs b)
  unfolding run
  run-IsWithin [] b v = v
  run-IsWithin (x ∷ xs) b v = run-IsWithin xs (step s clock x b) (step-IsWithin x b v)

  -- Over any run of a new batcher with a capacity of at least one the queue stays within its capacity;
  -- a batch, collected or executed, is not empty, has at most `max_batch_requests` requests (or one),
  -- and has at most `max_batch_items` inputs unless it is a single request; and a batch in execution
  -- has its inputs in a row, cut at the bounds of its requests.
  pub run-new_batcher-IsWithin : (xs : List Event) → IsWithin s (run s clock xs new_batcher)
  run-new_batcher-IsWithin xs =
      run-IsWithin xs new_batcher (record { queue_bounded = λ c. omega arith; phase_fits = tt })

  depth-le :
      (b : Batcher) → IsWithin s b → 0 < s.queue_capacity → queue_depth b ≤ s.queue_capacity + 1
  unfolding queue_depth
  depth-le b v c = ground (arith, v.queue_bounded c)

  -- With a capacity of at least one, the depth that `GetStatus` reports is at most one more than it: the
  -- envelope that did not fit into the last batch counts too.
  pub queue_depth-le :
      (xs : List Event)
      → 0 < s.queue_capacity
      → queue_depth (run s clock xs new_batcher) ≤ s.queue_capacity + 1
  queue_depth-le xs c = depth-le (run s clock xs new_batcher) (run-new_batcher-IsWithin xs) c
