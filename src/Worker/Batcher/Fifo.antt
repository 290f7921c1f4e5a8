-- ===== src/Worker/Batcher/Fifo.antt =====
-- What has become of the accepted requests after any run that does not close the batcher.
use mathlib.Core.List.{append-nil, append_assoc}
use distributed_model_server.Prelude.{
  ℕ, ◌≡◌, refl, Text, List, [], ◌∷◌, ◌++◌, if_both, if_pair, if◌then◌else◌,
}
use distributed_model_server.Worker.Batcher.Defs.{
  Future, cancelled, RequestEnvelope, Settings, Phase, ended, top, collecting, executing, Batcher,
  done, new_batcher,
}
use distributed_model_server.Worker.Batcher.Loop.{
  Admission, queue_full, new_envelope, put_nowait, enqueue, cancel_future, advance, time_out, infer,
  start_loop,
}
use distributed_model_server.Worker.Batcher.Run.{
  Event, enqueues, cancels, advances, times_out, closes, infers, step, run,
}
use distributed_model_server.Worker.Batcher.Rounds.{IsWithin}
use distributed_model_server.Worker.Batcher.Limits.{
  put-IsWithin, step-IsWithin, run-new_batcher-IsWithin,
}
use distributed_model_server.Worker.Batcher.Futures.{
  backlog, batch_of, held_back, Answered, nil, keep, drop, SlotFree, Serves, Answered_refl,
  Answered_mono, Answered-append, update-StaysDone,
}
use distributed_model_server.Worker.Batcher.Progress.{
  still-Serves, advance_from-Serves, time_out_from-Serves, infer_from-Serves,
}

-- The envelope that a step adds to the queue.
admitted : Settings → (ℕ → ℕ) → Event → Batcher → List RequestEnvelope
admitted s clock (enqueues request_id inputs local_deadline) b =
    if b.stopping
    then []
    else (let (e, b1) = new_envelope clock request_id inputs local_deadline b in
        if queue_full s b1 then [] else e ∷ [])
admitted s clock _ b = []

-- The envelopes that `enqueue` accepted in a run, in the order of the calls.
pub accepted : Settings → (ℕ → ℕ) → List Event → Batcher → List RequestEnvelope
unfolding admitted
accepted s clock [] b = []
accepted s clock (x ∷ xs) b = admitted s clock x b ++ accepted s clock xs (step s clock x b)

abbrev pub NeverCloses : List Event → Type 0
NeverCloses [] = Unit
NeverCloses (closes ∷ xs) = ⊥
NeverCloses (_ ∷ xs) = NeverCloses xs

pub NeverCloses-cons :
    (y : Event) (ys : List Event) → NeverCloses (y ∷ ys) → NeverCloses (y ∷ []) × NeverCloses ys
NeverCloses-cons (enqueues request_id inputs local_deadline) ys n = (tt, n)
NeverCloses-cons (cancels i) ys n = (tt, n)
NeverCloses-cons advances ys n = (tt, n)
NeverCloses-cons times_out ys n = (tt, n)
NeverCloses-cons (infers r) ys n = (tt, n)
NeverCloses-cons closes ys n = elim n [ ]

-- `xs` are the accepted requests, and the batcher serves them.
pub record IsServing (s : Settings) (xs : List RequestEnvelope) (b : Batcher) : Type 0 where
  pub within : IsWithin s b
  pub answered : Answered b.futures xs (backlog b)
  pub slot_free : SlotFree b.phase b.next_envelope

Answered_trans :
    {fs : ℕ → Future} {xs ys zs : List RequestEnvelope}
    → Answered fs xs ys
    → Answered fs ys zs
    → Answered fs xs zs
Answered_trans nil c = c
Answered_trans (keep e a) (keep _ c) = keep e (Answered_trans a c)
Answered_trans (keep e a) (drop _ d c) = drop e d (Answered_trans a c)
Answered_trans (drop e d a) c = drop e d (Answered_trans a c)

module _ (s : Settings) (clock : ℕ → ℕ) where
  serve-IsServing :
      (xs : List RequestEnvelope) (b b' : Batcher)
      → IsWithin s b'
      → IsServing s xs b
      → Serves b.futures (backlog b) b'
      → IsServing s xs b'
  serve-IsServing xs b b' w v h = record {
    within = w;
    answered = Answered_trans (Answered_mono h.stays_done v.answered) h.answered;
    slot_free = h.slot_free;
  }

  pub start_loop-serves :
      (p : Phase) (b : Batcher)
      → b.phase ≡ p
      → SlotFree p b.next_envelope
      → (backlog (start_loop b) ≡ batch_of p ++ (held_back b.next_envelope ++ b.queue))
        × SlotFree (start_loop b).phase (start_loop b).next_envelope
        × ((start_loop b).futures ≡ b.futures)
  start_loop-serves ended b e f = rw (e, start_loop) (refl, tt, refl)
  start_loop-serves top b e f = rw (e, start_loop, e) (refl, tt, refl)
  start_loop-serves (collecting batch total timer) b e f = rw (e, start_loop, e) (refl, f, refl)
  start_loop-serves (executing w start) b e f = rw (e, start_loop, e) (refl, tt, refl)

  put-IsServing :
      (xs : List RequestEnvelope) (e : RequestEnvelope) (b : Batcher)
      → IsWithin s (start_loop (record b { queue = b.queue ++ e ∷ [] }))
      → Answered b.futures xs (backlog b)
      → SlotFree b.phase b.next_envelope
      → IsServing s (xs ++ e ∷ []) (start_loop (record b { queue = b.queue ++ e ∷ [] }))
  put-IsServing xs e b w a f =
      let b' : Batcher = record b { queue = b.queue ++ e ∷ [] } in
      let (same, free, fut) = start_loop-serves b.phase b' refl f in
      record {
        within = w;
        answered =
            rw
              (
                same,
                fut,
                ← append_assoc (held_back b.next_envelope) b.queue (e ∷ []),
                ← append_assoc (batch_of b.phase) (held_back b.next_envelope ++ b.queue) (e ∷ []),
              )
              (Answered-append a (Answered_refl _ (e ∷ [])));
        slot_free = free;
      }

  enqueue-IsServing :
      (request_id : Text) (inputs : List Text) (local_deadline : ℕ) (xs : List RequestEnvelope)
      (b : Batcher)
      → IsServing s xs b
      → let x = enqueues request_id inputs local_deadline in
        IsServing s (xs ++ admitted s clock x b) (step s clock x b)
  unfolding step enqueue put_nowait admitted
  enqueue-IsServing request_id inputs local_deadline xs b v =
      let P : Admission × Batcher → List RequestEnvelope → Type 0 =
        λ r l. IsServing s (xs ++ l) r.1 in
      let (e, b1) = new_envelope clock request_id inputs local_deadline b in
      let w1 : IsWithin s b1 = record {
        queue_bounded = v.within.queue_bounded;
        phase_fits = v.within.phase_fits;
      } in
      if_pair P b.stopping
        (λ _. record {
          within = v.within;
          answered = rw (append-nil xs) v.answered;
          slot_free = v.slot_free;
        })
        (λ _.
          if_pair P (queue_full s b1)
            (λ _. record {
              within = w1;
              answered = rw (append-nil xs) v.answered;
              slot_free = v.slot_free;
            })
            (λ free.
              put-IsServing xs e b1 (put-IsWithin s clock e b1 w1 free) v.answered v.slot_free))

  step-IsServing :
      (x : Event) (xs : List RequestEnvelope) (b : Batcher)
      → NeverCloses (x ∷ [])
      → IsServing s xs b
      → IsServing s (xs ++ admitted s clock x b) (step s clock x b)
  unfolding step admitted advance time_out infer cancel_future
  step-IsServing (enqueues request_id inputs local_deadline) xs b n v =
      enqueue-IsServing request_id inputs local_deadline xs b v
  step-IsServing (cancels i) xs b n v = rw (append-nil xs) (
      serve-IsServing xs b _ (step-IsWithin s clock (cancels i) b v.within) v (
        if_both (Serves b.futures (backlog b)) (done b i) (still-Serves b v.slot_free) (record {
          stays_done = update-StaysDone b.futures i cancelled refl;
          answered = Answered_refl _ _;
          slot_free = v.slot_free;
        })))
  step-IsServing advances xs b n v = rw (append-nil xs) (
      serve-IsServing xs b _ (step-IsWithin s clock advances b v.within) v
        (advance_from-Serves s clock b.phase b refl v.slot_free))
  step-IsServing times_out xs b n v = rw (append-nil xs) (
      serve-IsServing xs b _ (step-IsWithin s clock times_out b v.within) v
        (time_out_from-Serves s clock b.phase b.queue b refl refl v.slot_free))
  step-IsServing (infers r) xs b n v = rw (append-nil xs) (
      serve-IsServing xs b _ (step-IsWithin s clock (infers r) b v.within) v
        (infer_from-Serves s clock r b.phase b refl v.slot_free v.within.phase_fits))
  step-IsServing closes xs b n v = elim n [ ]

  pub run-IsServing :
      (ys : List Event) (xs : List RequestEnvelope) (b : Batcher)
      → NeverCloses ys
      → IsServing s xs b
      → IsServing s (xs ++ accepted s clock ys b) (run s clock ys b)
  unfolding run accepted
  run-IsServing [] xs b n v = rw (append-nil xs) v
  run-IsServing (y ∷ ys) xs b n v =
      let (ny, nys) = NeverCloses-cons y ys n in
      rw (← append_assoc xs (admitted s clock y b) (accepted s clock ys (step s clock y b))) (
        run-IsServing ys (xs ++ admitted s clock y b) (step s clock y b) nys
          (step-IsServing y xs b ny v))

  pub run-new_batcher-IsServing :
      (ys : List Event)
      → NeverCloses ys
      → IsServing s (accepted s clock ys new_batcher) (run s clock ys new_batcher)
  unfolding run
  run-new_batcher-IsServing ys n =
      run-IsServing ys [] new_batcher n
        (record { within = run-new_batcher-IsWithin s clock []; answered = nil; slot_free = tt })

  -- Over any run of a new batcher that does not close it, the accepted requests are, in the order in
  -- which they were accepted, the requests that are still collected, held back or queued, but for those
  -- whose futures are done: no accepted request is forgotten, and none overtakes another.
  pub run_keeps_accepted :
      (ys : List Event)
      → NeverCloses ys
      → let b = run s clock ys new_batcher in
        Answered b.futures (accepted s clock ys new_batcher) (backlog b)
  run_keeps_accepted ys n = (run-new_batcher-IsServing ys n).answered
