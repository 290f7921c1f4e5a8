-- ===== src/Worker/Batcher/Futures.antt =====
-- No accepted request is forgotten while the batcher runs, and the order of arrival is kept.
use mathlib.Core.List.{append-nil, append_assoc}
use distributed_model_server.Prelude.{
  ℕ, ◌+◌, ◌≡◌, refl, ap, sym, ◌∙◌, true, false, List, [], ◌∷◌, ◌++◌, Option, none, some, arith,
  length, if_both, if_cases, ltb,
}
use distributed_model_server.Worker.Batcher.Defs.{
  Future, RequestEnvelope, Settings, Work, Phase, ended, top, collecting, executing, Batcher, done,
  read, update, is_pending,
}
use distributed_model_server.Worker.Batcher.Loop.{
  gather_one, gather, no_work, submit, process_batch, admit_first, fetch_first, consider,
}

-- The accepted requests in their order of arrival: those of the batch, the one that did not fit in it,
-- and those in the queue.
abbrev pub batch_of : Phase → List RequestEnvelope
batch_of ended = []
batch_of top = []
batch_of (collecting batch total timer) = batch
batch_of (executing w start) = w.valid_batch

abbrev pub held_back : Option RequestEnvelope → List RequestEnvelope
held_back none = []
held_back (some e) = e ∷ []

abbrev pub backlog : Batcher → List RequestEnvelope
backlog b = batch_of b.phase ++ (held_back b.next_envelope ++ b.queue)

-- A future that is done in `fs` is done in `gs`.
abbrev pub StaysDone : (ℕ → Future) → (ℕ → Future) → Type 0
StaysDone fs gs = (i : ℕ) → is_pending (fs i) ≡ false → is_pending (gs i) ≡ false

-- `ys` is `xs` without some requests whose futures are done in `fs`.
pub data Answered (fs : ℕ → Future) : List RequestEnvelope → List RequestEnvelope → Type 0 where
  nil : Answered fs [] []
  keep :
      (e : RequestEnvelope) {xs ys : List RequestEnvelope}
      → Answered fs xs ys
      → Answered fs (e ∷ xs) (e ∷ ys)
  drop :
      (e : RequestEnvelope) {xs ys : List RequestEnvelope}
      → is_pending (fs e.future) ≡ false
      → Answered fs xs ys
      → Answered fs (e ∷ xs) ys

pub Answered_refl : (fs : ℕ → Future) (xs : List RequestEnvelope) → Answered fs xs xs
Answered_refl fs [] = nil
Answered_refl fs (e ∷ xs) = keep e (Answered_refl fs xs)

pub Answered_mono :
    {fs gs : ℕ → Future} {xs ys : List RequestEnvelope}
    → StaysDone fs gs
    → Answered fs xs ys
    → Answered gs xs ys
Answered_mono h nil = nil
Answered_mono h (keep e a) = keep e (Answered_mono h a)
Answered_mono h (drop e d a) = drop e (h e.future d) (Answered_mono h a)

pub Answered-append :
    {fs : ℕ → Future} {xs ys us vs : List RequestEnvelope}
    → Answered fs xs ys
    → Answered fs us vs
    → Answered fs (xs ++ us) (ys ++ vs)
Answered-append nil c = c
Answered-append (keep e a) c = keep e (Answered-append a c)
Answered-append (drop e d a) c = drop e d (Answered-append a c)

pub done_lem : (b : Batcher) (i : ℕ) → done b i ≡ true → is_pending (b.futures i) ≡ false
done_lem b i h = ground arith

pub update_done :
    (fs : ℕ → Future) (i : ℕ) (f : Future)
    → is_pending f ≡ false
    → is_pending (update fs i f i) ≡ false
update_done fs i f h = ground arith

pub update-StaysDone :
    (fs : ℕ → Future) (i : ℕ) (f : Future) → is_pending f ≡ false → StaysDone fs (update fs i f)
update-StaysDone fs i f h j d = ground arith

-- While a batch is collected no envelope is held back.
abbrev pub SlotFree : Phase → Option RequestEnvelope → Type 0
SlotFree (collecting batch total timer) n = n ≡ none
SlotFree ended n = Unit
SlotFree top n = Unit
SlotFree (executing w start) n = Unit

-- From the futures `fs` and the accepted requests `xs` to the batcher `b'`: futures that were done stay
-- done, and the requests are still there in their order, or their futures are done.
pub record Serves (fs : ℕ → Future) (xs : List RequestEnvelope) (b' : Batcher) : Type 0 where
  pub stays_done : StaysDone fs b'.futures
  pub answered : Answered b'.futures xs (backlog b')
  pub slot_free : SlotFree b'.phase b'.next_envelope

module _ (s : Settings) (clock : ℕ → ℕ) where
  -- The requests that the gathering loop adds to its valid batch.
  abbrev Gathers : List RequestEnvelope → Work × Batcher → Work × Batcher → Type 0
  Gathers es (w, b) (w', b') =
      (valid : List RequestEnvelope) × (w'.valid_batch ≡ w.valid_batch ++ valid)
      × Answered b'.futures es valid
      × StaysDone b.futures b'.futures
      × (held_back b'.next_envelope ++ b'.queue ≡ held_back b.next_envelope ++ b.queue)

  gather_one-Gathers :
      (e : RequestEnvelope) (w : Work) (b : Batcher)
      → Gathers (e ∷ []) (w, b) (gather_one clock e (w, b))
  unfolding gather_one
  gather_one-Gathers e w b =
      if_cases (Gathers (e ∷ []) (w, b)) (done b e.future)
        (λ d.
          ([], sym (append-nil w.valid_batch), drop e (done_lem b e.future d) nil, λ i h. h, refl))
        (λ _.
          if_both (Gathers (e ∷ []) (w, b)) (ltb e.local_deadline (clock b.readings))
            (
              [],
              sym (append-nil w.valid_batch),
              drop e (update_done b.futures e.future _ refl) nil,
              update-StaysDone b.futures e.future _ refl,
              refl,
            )
            (e ∷ [], refl, keep e nil, λ i h. h, refl))

  gather-Gathers :
      (es : List RequestEnvelope) (w : Work) (b : Batcher)
      → Gathers es (w, b) (gather clock es (w, b))
  unfolding gather
  gather-Gathers [] w b = ([], sym (append-nil w.valid_batch), nil, λ i h. h, refl)
  gather-Gathers (e ∷ es) w b =
      let (w1, b1) = gather_one clock e (w, b) in
      let (v1, e1, a1, d1, q1) = gather_one-Gathers e w b in
      let (v2, e2, a2, d2, q2) = gather-Gathers es w1 b1 in
      (
        v1 ++ v2,
        e2 ∙ (ap (λ l. l ++ v2) e1 ∙ append_assoc w.valid_batch v1 v2),
        Answered-append (Answered_mono d2 a1) a2,
        λ i h. d2 i (d1 i h),
        q2 ∙ q1,
      )

  submit-Serves :
      (start : ℕ) (w : Work) (b : Batcher) (valid : List RequestEnvelope)
      → w.valid_batch ≡ valid
      → (fs : ℕ → Future) (xs : List RequestEnvelope) → StaysDone fs b.futures
      → Answered b.futures xs (valid ++ (held_back b.next_envelope ++ b.queue))
      → Serves fs xs (submit start (w, b))
  unfolding submit
  submit-Serves start w b [] e fs xs d a =
      rw (e, submit) (record { stays_done = d; answered = a; slot_free = tt })
  submit-Serves start w b (v ∷ vs) e fs xs d a =
      rw (e, submit) (record { stays_done = d; answered = rw e a; slot_free = tt })

  pub process_batch-Serves :
      (batch : List RequestEnvelope) (b : Batcher)
      → Serves b.futures
          (batch ++ (held_back b.next_envelope ++ b.queue))
          (process_batch clock batch b)
  unfolding process_batch
  process_batch-Serves batch b =
      let (w', b') = gather clock batch (no_work, (read clock b).1) in
      let (valid, e, a, d, q) = gather-Gathers batch no_work (read clock b).1 in
      submit-Serves (clock b.readings) w' b' valid e b.futures _ d
        (Answered-append a (rw q (Answered_refl _ _)))

  pub admit_first-Serves :
      (e : RequestEnvelope) (b : Batcher)
      → b.next_envelope ≡ none
      → Serves b.futures (e ∷ b.queue) (admit_first s clock e b)
  unfolding admit_first
  admit_first-Serves e b n =
      if_cases (Serves b.futures (e ∷ b.queue)) (done b e.future)
        (λ d. record {
          stays_done = λ i h. h;
          answered = drop e (done_lem b e.future d) (rw n (Answered_refl _ _));
          slot_free = tt;
        })
        (λ _.
          if_both (Serves b.futures (e ∷ b.queue)) (ltb e.local_deadline (clock b.readings))
            (record {
              stays_done = update-StaysDone b.futures e.future _ refl;
              answered = drop e (update_done b.futures e.future _ refl) (rw n (Answered_refl _ _));
              slot_free = tt;
            })
            (record {
              stays_done = λ i h. h;
              answered = keep e (rw n (Answered_refl _ _));
              slot_free = n;
            }))

  pub fetch_first-Serves :
      (n : Option RequestEnvelope) (q : List RequestEnvelope) (b : Batcher)
      → b.next_envelope ≡ n
      → b.queue ≡ q
      → b.phase ≡ top
      → Serves b.futures (held_back n ++ q) (fetch_first s clock n q b)
  unfolding fetch_first
  fetch_first-Serves (some e) q b hn hq hp =
      rw (← hq) (admit_first-Serves e (record b { next_envelope = none }) refl)
  fetch_first-Serves none [] b hn hq hp = record {
    stays_done = λ i h. h;
    answered = rw (hn, hq, hp) nil;
    slot_free = rw hp tt;
  }
  fetch_first-Serves none (e ∷ q) b hn hq hp = admit_first-Serves e (record b { queue = q }) hn

  pub consider-Serves :
      (batch : List RequestEnvelope) (total timer : ℕ) (e : RequestEnvelope) (b : Batcher)
      → b.phase ≡ collecting batch total timer
      → b.next_envelope ≡ none
      → Serves b.futures (batch ++ e ∷ b.queue) (consider s clock batch total timer e b)
  unfolding consider
  consider-Serves batch total timer e b p n =
      if_cases (Serves b.futures (batch ++ e ∷ b.queue)) (done b e.future)
        (λ d. record {
          stays_done = λ i h. h;
          answered =
              rw (p, n)
                (Answered-append (Answered_refl _ batch)
                  (drop e (done_lem b e.future d) (Answered_refl _ _)));
          slot_free = rw p n;
        })
        (λ _.
          if_both (Serves b.futures (batch ++ e ∷ b.queue))
            (ltb e.local_deadline (clock b.readings))
            (record {
              stays_done = update-StaysDone b.futures e.future _ refl;
              answered =
                  rw (p, n)
                    (Answered-append (Answered_refl _ batch)
                      (drop e (update_done b.futures e.future _ refl) (Answered_refl _ _)));
              slot_free = rw p n;
            })
            (if_both (Serves b.futures (batch ++ e ∷ b.queue))
              (ltb s.max_batch_items (total + length e.inputs))
              (process_batch-Serves batch (record (read clock b).1 { next_envelope = some e }))
              (record {
                stays_done = λ i h. h;
                answered = rw (n, append_assoc batch (e ∷ []) b.queue) (Answered_refl _ _);
                slot_free = n;
              })))
