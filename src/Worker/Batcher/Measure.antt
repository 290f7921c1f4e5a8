-- ===== src/Worker/Batcher/Measure.antt =====
-- A measure of the work that the loop task has before it, and that its steps use it up.
use distributed_model_server.Prelude.{
  ℕ, ◌+◌, ◌-◌, ◌*◌, ◌≤◌, ◌≡◌, refl, ap, ◌∙◌, ◌&&◌, false, List, [], ◌∷◌, Option, none, some, arith,
  length, ltb, leb, if_both, if◌then◌else◌,
}
use distributed_model_server.Worker.Batcher.Defs.{
  RequestEnvelope, Settings, Work, Phase, ended, top, collecting, executing, Batcher, read,
}
use distributed_model_server.Worker.Batcher.Loop.{
  gather_one, gather, no_work, submit, process_batch, admit_first, fetch_first, consider, take_more,
  collect,
}

abbrev pub phase_cost : Phase → ℕ
phase_cost ended = 0
phase_cost top = 0
phase_cost (collecting batch total timer) = 3
phase_cost (executing w start) = 1

abbrev pub slot_cost : Option RequestEnvelope → ℕ
slot_cost none = 0
slot_cost (some e) = 4

abbrev pub measure : Batcher → ℕ
measure b = phase_cost b.phase + (slot_cost b.next_envelope + 4 * length b.queue)

-- A task that is not running has nothing to do.
abbrev pub Started : Phase → List RequestEnvelope → Option RequestEnvelope → Type 0
Started ended q n = (q ≡ []) × (n ≡ none)
Started top q n = Unit
Started (collecting batch total timer) q n = Unit
Started (executing w start) q n = Unit

-- The batcher is open, its task runs if there is work, and the work that is left is at most `m`.
pub record Moves (m : ℕ) (b : Batcher) : Type 0 where
  pub open_still : b.stopping ≡ false
  pub started : Started b.phase b.queue b.next_envelope
  pub measured : measure b ≤ m

pub record Keeps (b b' : Batcher) : Type 0 where
  pub stopping : b'.stopping ≡ b.stopping
  pub queue : b'.queue ≡ b.queue
  pub slot : b'.next_envelope ≡ b.next_envelope

module _ (s : Settings) (clock : ℕ → ℕ) where
  gather_one-Keeps :
      (e : RequestEnvelope) (w : Work) (b : Batcher) → Keeps b (gather_one clock e (w, b)).1
  unfolding gather_one
  gather_one-Keeps e w b = ground arith

  gather-Keeps : (es : List RequestEnvelope) (r : Work × Batcher) → Keeps r.1 (gather clock es r).1
  unfolding gather
  gather-Keeps [] r = record { stopping = refl; queue = refl; slot = refl }
  gather-Keeps (e ∷ es) (w, b) =
      let h = gather_one-Keeps e w b in
      let k = gather-Keeps es (gather_one clock e (w, b)) in
      record {
        stopping = k.stopping ∙ h.stopping;
        queue = k.queue ∙ h.queue;
        slot = k.slot ∙ h.slot;
      }

  pub Moves-le : {m n : ℕ} {b : Batcher} → m ≤ n → Moves m b → Moves n b
  Moves-le l v = record {
    open_still = v.open_still;
    started = v.started;
    measured = omega (arith, v.measured);
  }

  submit-Moves :
      (start : ℕ) (w : Work) (valid : List RequestEnvelope) (b b' : Batcher)
      → w.valid_batch ≡ valid
      → b.stopping ≡ false
      → Keeps b b'
      → Moves (1 + (slot_cost b.next_envelope + 4 * length b.queue)) (submit start (w, b'))
  unfolding submit
  submit-Moves start w [] b b' e o k =
      rw (e, submit)
        (record {
          open_still = k.stopping ∙ o;
          started = tt;
          measured = omega (arith, ap slot_cost k.slot, ap length k.queue);
        })
  submit-Moves start w (x ∷ xs) b b' e o k =
      rw (e, submit)
        (record {
          open_still = k.stopping ∙ o;
          started = tt;
          measured = omega (arith, ap slot_cost k.slot, ap length k.queue);
        })

  pub process_batch-Moves :
      (batch : List RequestEnvelope) (b : Batcher)
      → b.stopping ≡ false
      → Moves (1 + (slot_cost b.next_envelope + 4 * length b.queue)) (process_batch clock batch b)
  unfolding process_batch
  process_batch-Moves batch b o =
      let r = gather clock batch (no_work, (read clock b).1) in
      submit-Moves (clock b.readings) r.0 r.0.valid_batch (read clock b).1 r.1 refl o
        (gather-Keeps batch (no_work, (read clock b).1))

  admit_first-Moves :
      (e : RequestEnvelope) (b : Batcher)
      → b.stopping ≡ false
      → Moves (3 + (slot_cost b.next_envelope + 4 * length b.queue)) (admit_first s clock e b)
  unfolding admit_first
  admit_first-Moves e b o = ground arith

  pub fetch_first-Moves :
      (n : Option RequestEnvelope) (q : List RequestEnvelope) (b : Batcher)
      → b.next_envelope ≡ n
      → b.queue ≡ q
      → b.phase ≡ top
      → b.stopping ≡ false
      → Moves (measure b - 1) (fetch_first s clock n q b)
  unfolding fetch_first
  fetch_first-Moves (some e) q b hn hq hp o =
      Moves-le (omega (arith, ap phase_cost hp, ap slot_cost hn))
        (admit_first-Moves e (record b { next_envelope = none }) o)
  fetch_first-Moves none [] b hn hq hp o = ground arith
  fetch_first-Moves none (e ∷ q) b hn hq hp o =
      Moves-le (omega (arith, ap phase_cost hp, ap slot_cost hn, ap length hq))
        (admit_first-Moves e (record b { queue = q }) o)

  consider-Moves :
      (batch : List RequestEnvelope) (total timer : ℕ) (e : RequestEnvelope) (b : Batcher)
      → b.phase ≡ collecting batch total timer
      → b.stopping ≡ false
      → Moves
          (6 + (slot_cost b.next_envelope + 4 * length b.queue))
          (consider s clock batch total timer e b)
  unfolding consider
  consider-Moves batch total timer e b hp o =
      ground
        (arith, process_batch-Moves batch (record (read clock b).1 { next_envelope = some e }) o)

  take_more-Moves :
      (batch : List RequestEnvelope) (total timer : ℕ) (q : List RequestEnvelope) (b : Batcher)
      → b.queue ≡ q
      → b.phase ≡ collecting batch total timer
      → b.stopping ≡ false
      → Moves
          (3 + (slot_cost b.next_envelope + 4 * length q) - (if ltb 0 (length q) then 1 else 0))
          (take_more s clock batch total timer q b)
  unfolding take_more
  take_more-Moves batch total timer [] b hq hp o = ground arith
  take_more-Moves batch total timer (e ∷ q) b hq hp o =
      Moves-le (ground arith) (consider-Moves batch total timer e (record b { queue = q }) hp o)

  pub collect-Moves :
      (batch : List RequestEnvelope) (total timer : ℕ) (b : Batcher)
      → b.phase ≡ collecting batch total timer
      → b.stopping ≡ false
      → Moves
          (3
            + (slot_cost b.next_envelope + 4 * length b.queue)
            - (if ltb 0 (length b.queue) then 1 else 0))
          (collect s clock batch total timer b)
  unfolding collect
  collect-Moves batch total timer b hp o =
      if_both (Moves _) (ltb (length batch) s.max_batch_requests && ltb total s.max_batch_items)
        (if_both (Moves _) (leb timer (clock b.readings))
          (Moves-le (ground arith) (process_batch-Moves batch (read clock b).1 o))
          (take_more-Moves batch total timer b.queue (read clock b).1 refl hp o))
        (Moves-le (ground arith) (process_batch-Moves batch b o))
