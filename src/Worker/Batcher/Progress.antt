-- ===== src/Worker/Batcher/Progress.antt =====
-- Each step of the batcher but `close` serves the requests that it has accepted.
use distributed_model_server.Prelude.{
  ℕ, ◌+◌, ◌≡◌, refl, sym, subst, ◌∙◌, Text, false, List, [], ◌∷◌, ◌++◌, none, length, if_both,
  if_cases, ltb, if◌then◌else◌,
}
use distributed_model_server.Errors.{internal_server}
use distributed_model_server.Protocol.{Double, Millis}
use distributed_model_server.Worker.Batcher.Defs.{
  RequestEnvelope, Settings, Phase, ended, top, collecting, executing, Batcher, done, read,
  is_pending, exception, complete,
}
use distributed_model_server.Worker.Batcher.Loop.{
  Inference, output, failure, process_batch, take_more, collect, advance_from, time_out_from,
  deliver_one, deliver, fail_all, infer_from, slice,
}
use distributed_model_server.Worker.Batcher.Slices.{slices_from}
use distributed_model_server.Worker.Batcher.Rounds.{PhaseFits}
use distributed_model_server.Worker.Batcher.Futures.{
  backlog, batch_of, held_back, StaysDone, Answered, nil, drop, SlotFree, Serves, Answered_refl,
  Answered-append, done_lem, update_done, update-StaysDone, process_batch-Serves,
  fetch_first-Serves, consider-Serves,
}

-- A step that changes neither the futures nor the accepted requests.
pub still-Serves : (b : Batcher) → SlotFree b.phase b.next_envelope → Serves b.futures (backlog b) b
still-Serves b f = record { stays_done = λ i h. h; answered = Answered_refl _ _; slot_free = f }

module _ (s : Settings) (clock : ℕ → ℕ) where
  take_more-Serves :
      (batch : List RequestEnvelope) (total timer : ℕ) (q : List RequestEnvelope) (b : Batcher)
      → b.queue ≡ q
      → b.phase ≡ collecting batch total timer
      → b.next_envelope ≡ none
      → Serves b.futures (batch ++ q) (take_more s clock batch total timer q b)
  unfolding take_more
  take_more-Serves batch total timer [] b h p n = record {
    stays_done = λ i d. d;
    answered = rw (h, p, n) (Answered_refl _ _);
    slot_free = rw p n;
  }
  take_more-Serves batch total timer (e ∷ q) b h p n =
      consider-Serves s clock batch total timer e (record b { queue = q }) p n

  collect-Serves :
      (batch : List RequestEnvelope) (total timer : ℕ) (b : Batcher)
      → b.phase ≡ collecting batch total timer
      → b.next_envelope ≡ none
      → Serves b.futures (batch ++ b.queue) (collect s clock batch total timer b)
  unfolding collect
  collect-Serves batch total timer b p n =
      let processed = λ (b' : Batcher) (n' : b'.next_envelope ≡ none).
        subst
          (λ m.
            Serves b'.futures (batch ++ (held_back m ++ b'.queue)) (process_batch clock batch b'))
          n' (process_batch-Serves s clock batch b') in
      if_both (Serves b.futures (batch ++ b.queue)) _
        (if_both (Serves b.futures (batch ++ b.queue)) _ (processed (read clock b).1 n)
          (take_more-Serves batch total timer b.queue (read clock b).1 refl p n))
        (processed b n)

  pub advance_from-Serves :
      (p : Phase) (b : Batcher)
      → b.phase ≡ p
      → SlotFree p b.next_envelope
      → Serves b.futures
          (batch_of p ++ (held_back b.next_envelope ++ b.queue))
          (advance_from s clock p b)
  unfolding advance_from
  advance_from-Serves ended b e f = record {
    stays_done = λ i h. h;
    answered = rw e (Answered_refl _ _);
    slot_free = rw e tt;
  }
  advance_from-Serves top b e f =
      if_both (Serves b.futures (held_back b.next_envelope ++ b.queue)) b.stopping
        (record { stays_done = λ i h. h; answered = Answered_refl _ _; slot_free = tt })
        (fetch_first-Serves s clock b.next_envelope b.queue b refl refl e)
  advance_from-Serves (collecting batch total timer) b e f =
      subst
        (λ m.
          Serves b.futures (batch ++ (held_back m ++ b.queue))
            (collect s clock batch total timer b))
        (sym f) (collect-Serves batch total timer b e f)
  advance_from-Serves (executing w start) b e f = record {
    stays_done = λ i h. h;
    answered = rw e (Answered_refl _ _);
    slot_free = rw e tt;
  }

  pub time_out_from-Serves :
      (p : Phase) (q : List RequestEnvelope) (b : Batcher)
      → b.queue ≡ q
      → b.phase ≡ p
      → SlotFree p b.next_envelope
      → Serves b.futures (backlog b) (time_out_from clock p q b)
  unfolding time_out_from
  time_out_from-Serves (collecting batch total timer) [] b h e f =
      subst
        (λ p.
          Serves b.futures (batch_of p ++ (held_back b.next_envelope ++ b.queue))
            (process_batch clock batch b))
        (sym e) (process_batch-Serves s clock batch b)
  time_out_from-Serves (collecting batch total timer) (x ∷ q) b h e f = still-Serves b (rw e f)
  time_out_from-Serves ended q b h e f = still-Serves b (rw e tt)
  time_out_from-Serves top q b h e f = still-Serves b (rw e tt)
  time_out_from-Serves (executing w start) q b h e f = still-Serves b (rw e tt)

  -- What the end of an inference leaves: the futures of the batch are done.
  record Finishes (b : Batcher) (es : List RequestEnvelope) (b' : Batcher) : Type 0 where
    stays_done : StaysDone b.futures b'.futures
    answered : Answered b'.futures es []
    same_next : b'.next_envelope ≡ b.next_envelope
    same_queue : b'.queue ≡ b.queue

  cons-Finishes :
      (b b1 b2 : Batcher) (e : RequestEnvelope) (es : List RequestEnvelope)
      → StaysDone b.futures b1.futures
      → is_pending (b1.futures e.future) ≡ false
      → b1.next_envelope ≡ b.next_envelope
      → b1.queue ≡ b.queue
      → Finishes b1 es b2
      → Finishes b (e ∷ es) b2
  cons-Finishes b b1 b2 e es d p n q f = record {
    stays_done = λ i h. f.stays_done i (d i h);
    answered = drop e (f.stays_done e.future p) f.answered;
    same_next = f.same_next ∙ n;
    same_queue = f.same_queue ∙ q;
  }

  module _ (start finish : ℕ) (times : Millis × Millis × Millis) where
    deliver_one-done :
        (e : RequestEnvelope) (preds : List (Text × Double)) (b : Batcher)
        → let b' = deliver_one clock start finish times e preds b in
          StaysDone b.futures b'.futures
          × (is_pending (b'.futures e.future) ≡ false)
          × (b'.next_envelope ≡ b.next_envelope)
          × (b'.queue ≡ b.queue)
    unfolding deliver_one
    deliver_one-done e preds b =
        let P : Batcher → Type 0 = λ b'.
          StaysDone b.futures b'.futures
          × (is_pending (b'.futures e.future) ≡ false)
          × (b'.next_envelope ≡ b.next_envelope)
          × (b'.queue ≡ b.queue) in
        if_cases P (done b e.future) (λ d. (λ i h. h, done_lem b e.future d, refl, refl))
          (λ _.
            if_both P (ltb e.local_deadline (clock b.readings))
              (
                update-StaysDone b.futures e.future _ refl,
                update_done b.futures e.future _ refl,
                refl,
                refl,
              )
              (
                update-StaysDone b.futures e.future _ refl,
                update_done b.futures e.future _ refl,
                refl,
                refl,
              ))

    deliver-Finishes :
        (preds : List (Text × Double)) (es : List RequestEnvelope) (i : ℕ) (b : Batcher)
        → Finishes b es (deliver clock start finish times preds es (slices_from i es) b)
    unfolding deliver
    deliver-Finishes preds [] i b = record {
      stays_done = λ j h. h;
      answered = nil;
      same_next = refl;
      same_queue = refl;
    }
    deliver-Finishes preds (e ∷ es) i b =
        let (d, p, n, q) = deliver_one-done e (slice (i, i + length e.inputs) preds) b in
        cons-Finishes b _ _ e es d p n q (deliver-Finishes preds es (i + length e.inputs) _)

  fail_one-done :
      (e : RequestEnvelope) (b : Batcher)
      → let b' =
          if done b e.future
          then b
          else complete e.future (exception (internal_server "Inference failed.")) b in
        StaysDone b.futures b'.futures
        × (is_pending (b'.futures e.future) ≡ false)
        × (b'.next_envelope ≡ b.next_envelope)
        × (b'.queue ≡ b.queue)
  fail_one-done e b =
      let P : Batcher → Type 0 = λ b'.
        StaysDone b.futures b'.futures
        × (is_pending (b'.futures e.future) ≡ false)
        × (b'.next_envelope ≡ b.next_envelope)
        × (b'.queue ≡ b.queue) in
      if_cases P (done b e.future) (λ d. (λ i h. h, done_lem b e.future d, refl, refl))
        (λ _. (
          update-StaysDone b.futures e.future _ refl,
          update_done b.futures e.future _ refl,
          refl,
          refl,
        ))

  fail_all-Finishes : (es : List RequestEnvelope) (b : Batcher) → Finishes b es (fail_all es b)
  unfolding fail_all
  fail_all-Finishes [] b = record {
    stays_done = λ j h. h;
    answered = nil;
    same_next = refl;
    same_queue = refl;
  }
  fail_all-Finishes (e ∷ es) b =
      let (d, p, n, q) = fail_one-done e b in
      cons-Finishes b _ _ e es d p n q (fail_all-Finishes es _)

  finished-Serves :
      (es : List RequestEnvelope) (b b' : Batcher)
      → Finishes b es b'
      → Serves b.futures (es ++ (held_back b.next_envelope ++ b.queue)) (record b' { phase = top })
  finished-Serves es b b' f = record {
    stays_done = f.stays_done;
    answered = Answered-append f.answered (rw (f.same_next, f.same_queue) (Answered_refl _ _));
    slot_free = tt;
  }

  pub infer_from-Serves :
      (r : Inference) (p : Phase) (b : Batcher)
      → b.phase ≡ p
      → SlotFree p b.next_envelope
      → PhaseFits s p
      → Serves b.futures
          (batch_of p ++ (held_back b.next_envelope ++ b.queue))
          (infer_from clock r p b)
  unfolding infer_from
  infer_from-Serves (output preds prep inf post) (executing w start) b e f g =
      finished-Serves w.valid_batch (read clock b).1
        (deliver clock start (clock b.readings) (prep, inf, post) preds w.valid_batch w.slices
          (read clock b).1)
        (rw g.0.cut (
          deliver-Finishes start (clock b.readings) (prep, inf, post) preds w.valid_batch 0
            (read clock b).1))
  infer_from-Serves failure (executing w start) b e f g =
      finished-Serves w.valid_batch b _ (fail_all-Finishes w.valid_batch b)
  infer_from-Serves (output preds prep inf post) ended b e f g = record {
    stays_done = λ i h. h;
    answered = rw e (Answered_refl _ _);
    slot_free = rw e tt;
  }
  infer_from-Serves (output preds prep inf post) top b e f g = record {
    stays_done = λ i h. h;
    answered = rw e (Answered_refl _ _);
    slot_free = rw e tt;
  }
  infer_from-Serves (output preds prep inf post) (collecting batch total timer) b e f g = record {
    stays_done = λ i h. h;
    answered = rw e (Answered_refl _ _);
    slot_free = rw e f;
  }
  infer_from-Serves failure ended b e f g = record {
    stays_done = λ i h. h;
    answered = rw e (Answered_refl _ _);
    slot_free = rw e tt;
  }
  infer_from-Serves failure top b e f g = record {
    stays_done = λ i h. h;
    answered = rw e (Answered_refl _ _);
    slot_free = rw e tt;
  }
  infer_from-Serves failure (collecting batch total timer) b e f g = record {
    stays_done = λ i h. h;
    answered = rw e (Answered_refl _ _);
    slot_free = rw e f;
  }
