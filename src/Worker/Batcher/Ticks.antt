-- ===== src/Worker/Batcher/Ticks.antt =====
-- The steps of the loop task use up its work, and no step of an open batcher closes it.
use distributed_model_server.Prelude.{
  ℕ, ◌+◌, ◌*◌, ◌≡◌, refl, ap, ◌∙◌, Text, false, List, [], ◌∷◌, arith, length, if_cases,
}
use distributed_model_server.Protocol.{Double, Millis}
use distributed_model_server.Worker.Batcher.Defs.{
  RequestEnvelope, Settings, Work, Phase, ended, top, collecting, executing, Batcher, read,
}
use distributed_model_server.Worker.Batcher.Loop.{
  Inference, output, failure, advance_from, time_out_from, deliver_one, deliver, fail_all,
  infer_from, slice,
}
use distributed_model_server.Worker.Batcher.Measure.{
  measure, phase_cost, slot_cost, Started, Moves, Keeps, Moves-le, process_batch-Moves,
  fetch_first-Moves, collect-Moves,
}

module _ (s : Settings) (clock : ℕ → ℕ) where
  module _ (start finish : ℕ) (times : Millis × Millis × Millis) where
    deliver_one-Keeps :
        (e : RequestEnvelope) (preds : List (Text × Double)) (b : Batcher)
        → Keeps b (deliver_one clock start finish times e preds b)
    unfolding deliver_one
    deliver_one-Keeps e preds b = ground arith

    deliver-Keeps :
        (preds : List (Text × Double)) (es : List RequestEnvelope) (ss : List (ℕ × ℕ)) (b : Batcher)
        → Keeps b (deliver clock start finish times preds es ss b)
    unfolding deliver
    deliver-Keeps preds [] ss b = record { stopping = refl; queue = refl; slot = refl }
    deliver-Keeps preds (e ∷ es) [] b = record { stopping = refl; queue = refl; slot = refl }
    deliver-Keeps preds (e ∷ es) (x ∷ ss) b =
        let h = deliver_one-Keeps e (slice x preds) b in
        let k =
          deliver-Keeps preds es ss (deliver_one clock start finish times e (slice x preds) b) in
        record {
          stopping = k.stopping ∙ h.stopping;
          queue = k.queue ∙ h.queue;
          slot = k.slot ∙ h.slot;
        }

  fail_all-Keeps : (es : List RequestEnvelope) (b : Batcher) → Keeps b (fail_all es b)
  unfolding fail_all
  fail_all-Keeps [] b = record { stopping = refl; queue = refl; slot = refl }
  fail_all-Keeps (e ∷ es) b =
      let k = fail_all-Keeps es _ in
      record {
        stopping = k.stopping ∙ ground arith;
        queue = k.queue ∙ ground arith;
        slot = k.slot ∙ ground arith;
      }

  Keeps-Moves :
      (b b' : Batcher)
      → b.stopping ≡ false
      → Keeps b b'
      → b'.phase ≡ top
      → Moves (slot_cost b.next_envelope + 4 * length b.queue) b'
  Keeps-Moves b b' o k p = record {
    open_still = k.stopping ∙ o;
    started = rw p tt;
    measured = omega (arith, ap phase_cost p, ap slot_cost k.slot, ap length k.queue);
  }

  pub executing-Moves :
      (r : Inference) (w : Work) (start : ℕ) (b : Batcher)
      → b.stopping ≡ false
      → Moves
          (slot_cost b.next_envelope + 4 * length b.queue)
          (infer_from clock r (executing w start) b)
  unfolding infer_from
  executing-Moves (output preds prep inf post) w start b o =
      let k =
        deliver-Keeps start (clock b.readings) (prep, inf, post) preds w.valid_batch w.slices
          (read clock b).1 in
      Keeps-Moves b _ o (record { stopping = k.stopping; queue = k.queue; slot = k.slot }) refl
  executing-Moves failure w start b o =
      let k = fail_all-Keeps w.valid_batch b in
      Keeps-Moves b _ o (record { stopping = k.stopping; queue = k.queue; slot = k.slot }) refl

  -- A batcher that stays as it is.
  pub stays-Moves :
      (p : Phase) (b : Batcher)
      → b.phase ≡ p
      → b.stopping ≡ false
      → Started b.phase b.queue b.next_envelope
      → Moves (measure b) b
  stays-Moves p b e o st = record { open_still = o; started = st; measured = omega arith }

  pub advance_from-Moves :
      (p : Phase) (b : Batcher)
      → b.phase ≡ p
      → b.stopping ≡ false
      → Started b.phase b.queue b.next_envelope
      → Moves (measure b) (advance_from s clock p b)
  unfolding advance_from
  advance_from-Moves ended b e o st = stays-Moves ended b e o st
  advance_from-Moves top b e o st =
      if_cases (Moves (measure b)) b.stopping (λ c. cc)
        (λ _.
          Moves-le s clock (omega arith)
            (fetch_first-Moves s clock b.next_envelope b.queue b refl refl e o))
  advance_from-Moves (collecting batch total timer) b e o st =
      Moves-le s clock (ground (arith, ap phase_cost e))
        (collect-Moves s clock batch total timer b e o)
  advance_from-Moves (executing w start) b e o st = stays-Moves (executing w start) b e o st

  pub time_out_from-Moves :
      (p : Phase) (q : List RequestEnvelope) (b : Batcher)
      → b.phase ≡ p
      → b.queue ≡ q
      → b.stopping ≡ false
      → Started b.phase b.queue b.next_envelope
      → Moves (measure b) (time_out_from clock p q b)
  unfolding time_out_from
  time_out_from-Moves (collecting batch total timer) [] b e h o st =
      Moves-le s clock (omega (arith, ap phase_cost e)) (process_batch-Moves s clock batch b o)
  time_out_from-Moves (collecting batch total timer) (x ∷ q) b e h o st = stays-Moves _ b e o st
  time_out_from-Moves ended q b e h o st = stays-Moves _ b e o st
  time_out_from-Moves top q b e h o st = stays-Moves _ b e o st
  time_out_from-Moves (executing w start) q b e h o st = stays-Moves _ b e o st
