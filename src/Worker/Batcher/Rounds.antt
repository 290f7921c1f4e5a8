-- ===== src/Worker/Batcher/Rounds.antt =====
-- The limits on the queue and on a batch, and that the rounds of the loop task keep them.
use Prim.Native.Nat.{max}
use distributed_model_server.Prelude.{
  ℕ, suc, ◌+◌, ◌≤◌, ◌<◌, ◌≡◌, refl, ◌∙◌, ◌⊎◌, inl, inr, List, [], ◌∷◌, ◌++◌, Option, none, some,
  arith, length, length-append,
}
use distributed_model_server.Worker.Batcher.Defs.{
  RequestEnvelope, Settings, Work, Phase, ended, top, collecting, executing, Batcher, read,
}
use distributed_model_server.Worker.Batcher.Loop.{
  gather_one, gather, no_work, submit, process_batch, admit_first, fetch_first, consider, take_more,
  collect,
}
use distributed_model_server.Worker.Batcher.Slices.{
  items, items-append, IsGathered, gather-IsGathered,
}

-- A batch has at least one request and no more than the limits say, but for a single request, which
-- may have more inputs than a batch should.
pub record Fits (s : Settings) (batch : List RequestEnvelope) : Type 0 where
  pub nonempty : 1 ≤ length batch
  pub few_requests : length batch ≤ max 1 s.max_batch_requests
  pub few_items : (items batch ≤ s.max_batch_items) ⊎ (length batch ≡ 1)

abbrev pub PhaseFits : Settings → Phase → Type 0
PhaseFits s ended = Unit
PhaseFits s top = Unit
PhaseFits s (collecting batch total timer) = (total ≡ items batch) × Fits s batch
PhaseFits s (executing w start) = IsGathered w × Fits s w.valid_batch

pub record IsWithin (s : Settings) (b : Batcher) : Type 0 where
  pub queue_bounded : 0 < s.queue_capacity → length b.queue ≤ s.queue_capacity
  pub phase_fits : PhaseFits s b.phase

module _ (clock : ℕ → ℕ) where
  gather_one-size :
      (e : RequestEnvelope) (w : Work) (b : Batcher)
      → let (w', b') = gather_one clock e (w, b) in
        (length w'.valid_batch ≤ suc (length w.valid_batch))
        × (items w'.valid_batch ≤ items w.valid_batch + length e.inputs)
        × (b'.queue ≡ b.queue)
  unfolding gather_one
  gather_one-size e w b =
      ground (arith, length-append w.valid_batch (e ∷ []), items-append w.valid_batch (e ∷ []))

  gather-size :
      (es : List RequestEnvelope) (r : Work × Batcher)
      → let (w', b') = gather clock es r in
        (length w'.valid_batch ≤ length r.0.valid_batch + length es)
        × (items w'.valid_batch ≤ items r.0.valid_batch + items es)
        × (b'.queue ≡ r.1.queue)
  unfolding gather
  gather-size [] r = (omega arith, omega arith, refl)
  gather-size (e ∷ es) (w, b) =
      let h = gather_one-size e w b in
      let k = gather-size es (gather_one clock e (w, b)) in
      (omega (arith, h.0, k.0), omega (arith, h.1, k.1), k.2 ∙ h.2)

module _ (s : Settings) (clock : ℕ → ℕ) where
  submit-Fits :
      (start : ℕ) (w : Work) (b : Batcher) (batch valid : List RequestEnvelope)
      → w.valid_batch ≡ valid
      → IsGathered w
      → length valid ≤ length batch
      → items valid ≤ items batch
      → Fits s batch
      → PhaseFits s (submit start (w, b)).phase
  unfolding submit
  submit-Fits start w b batch [] e v l i f = rw (e, submit) tt
  submit-Fits start w b batch (x ∷ xs) e v l i f =
      rw (e, submit)
        (
          v,
          rw e (record {
            nonempty = omega arith;
            few_requests = omega (arith, f.few_requests);
            few_items = few f.few_items;
          }),
        )
    where
      few :
          (items batch ≤ s.max_batch_items) ⊎ (length batch ≡ 1)
          → (items (x ∷ xs) ≤ s.max_batch_items) ⊎ (length (x ∷ xs) ≡ 1)
      few (inl h) = inl (omega (arith, h, i))
      few (inr h) = inr (omega (arith, h, l))

  submit-queue :
      (start : ℕ) (w : Work) (b : Batcher) (valid : List RequestEnvelope)
      → w.valid_batch ≡ valid
      → (submit start (w, b)).queue ≡ b.queue
  unfolding submit
  submit-queue start w b [] e = rw (e, submit) refl
  submit-queue start w b (x ∷ xs) e = rw (e, submit) refl

  no_work-IsGathered : IsGathered no_work
  no_work-IsGathered = record { flat = refl; cut = refl; index = refl }

  process_batch-Fits :
      (batch : List RequestEnvelope) (b : Batcher)
      → Fits s batch
      → PhaseFits s (process_batch clock batch b).phase
        × ((process_batch clock batch b).queue ≡ b.queue)
  unfolding process_batch
  process_batch-Fits batch b f =
      let b1 = (read clock b).1 in
      let (w, b2) = gather clock batch (no_work, b1) in
      let size = gather-size clock batch (no_work, b1) in
      (
        submit-Fits (clock b.readings) w b2 batch w.valid_batch refl
            (gather-IsGathered clock batch (no_work, b1) no_work-IsGathered) (omega (arith, size.0))
            (omega (arith, size.1)) f,
        submit-queue (clock b.readings) w b2 w.valid_batch refl ∙ size.2,
      )

  one-Fits : (e : RequestEnvelope) → Fits s (e ∷ [])
  one-Fits e = record { nonempty = omega arith; few_requests = omega arith; few_items = inr refl }

  append-Fits :
      (batch : List RequestEnvelope) (e : RequestEnvelope)
      → length batch < s.max_batch_requests
      → items batch + length e.inputs ≤ s.max_batch_items
      → Fits s (batch ++ e ∷ [])
  append-Fits batch e l i = record {
    nonempty = omega (arith, length-append batch (e ∷ []));
    few_requests = omega (arith, length-append batch (e ∷ []));
    few_items = inl (omega (arith, items-append batch (e ∷ [])));
  }

  -- A step from `b` to `b'` that leaves a fitting phase and takes at most from the queue.
  abbrev pub Shrinks : List RequestEnvelope → Batcher → Type 0
  Shrinks q b' = PhaseFits s b'.phase × (length b'.queue ≤ length q)

  pub process_batch-Shrinks :
      (batch : List RequestEnvelope) (q : List RequestEnvelope) (b : Batcher)
      → Fits s batch
      → length b.queue ≤ length q
      → Shrinks q (process_batch clock batch b)
  process_batch-Shrinks batch q b f l = let h = process_batch-Fits batch b f in (h.0, rw h.1 l)

  admit_first-Shrinks :
      (e : RequestEnvelope) (b : Batcher) → Shrinks b.queue (admit_first s clock e b)
  unfolding admit_first
  admit_first-Shrinks e b = ground (arith, one-Fits e)

  pub fetch_first-Shrinks :
      (n : Option RequestEnvelope) (q : List RequestEnvelope) (b : Batcher)
      → b.queue ≡ q
      → b.phase ≡ top
      → Shrinks q (fetch_first s clock n q b)
  unfolding fetch_first
  fetch_first-Shrinks (some e) q b h p =
      rw (← h) (admit_first-Shrinks e (record b { next_envelope = none }))
  fetch_first-Shrinks none [] b h p = rw (h, p) (tt, omega arith)
  fetch_first-Shrinks none (e ∷ q) b h p =
      let a = admit_first-Shrinks e (record b { queue = q }) in (a.0, omega (arith, a.1))

  consider-Shrinks :
      (batch : List RequestEnvelope) (total timer : ℕ) (e : RequestEnvelope) (b : Batcher)
      → b.phase ≡ collecting batch total timer
      → length batch < s.max_batch_requests
      → total ≡ items batch
      → Fits s batch
      → Shrinks b.queue (consider s clock batch total timer e b)
  unfolding consider
  consider-Shrinks batch total timer e b p l i f = ground (
    arith,
    process_batch-Shrinks batch b.queue (record (read clock b).1 { next_envelope = some e }) f,
    append-Fits batch e l,
    items-append batch (e ∷ []),
  )

  take_more-Shrinks :
      (batch : List RequestEnvelope) (total timer : ℕ) (q : List RequestEnvelope) (b : Batcher)
      → b.queue ≡ q
      → b.phase ≡ collecting batch total timer
      → length batch < s.max_batch_requests
      → total ≡ items batch
      → Fits s batch
      → Shrinks q (take_more s clock batch total timer q b)
  unfolding take_more
  take_more-Shrinks batch total timer [] b h p l i f = rw (h, p) ((i, f), omega arith)
  take_more-Shrinks batch total timer (e ∷ q) b h p l i f =
      let c = consider-Shrinks batch total timer e (record b { queue = q }) p l i f in
      (c.0, omega (arith, c.1))

  pub collect-Shrinks :
      (batch : List RequestEnvelope) (total timer : ℕ) (b : Batcher)
      → b.phase ≡ collecting batch total timer
      → total ≡ items batch
      → Fits s batch
      → Shrinks b.queue (collect s clock batch total timer b)
  unfolding collect
  collect-Shrinks batch total timer b p i f = ground (
    arith,
    process_batch-Shrinks batch b.queue (read clock b).1 f,
    process_batch-Shrinks batch b.queue b f,
    take_more-Shrinks batch total timer b.queue (read clock b).1,
  )
