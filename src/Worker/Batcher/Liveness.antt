-- ===== src/Worker/Batcher/Liveness.antt =====
-- Every accepted request is answered in the end, if the event loop goes on to run the loop task.
use distributed_model_server.Prelude.{
  ℕ, zero, suc, ◌+◌, ◌-◌, ◌*◌, ◌≤◌, ◌≡◌, refl, sym, subst, ap, Text, false, List, [], ◌∷◌, ◌++◌,
  Option, none, some, arith, length, if_both, if_cases,
}
use distributed_model_server.Worker.Batcher.Defs.{
  Future, RequestEnvelope, Settings, Phase, ended, top, collecting, executing, Batcher, done,
  is_pending, new_batcher,
}
use distributed_model_server.Worker.Batcher.Loop.{
  Inference, output, failure, Admission, new_envelope, put_nowait, queue_full, enqueue,
  cancel_future, start_loop, advance_from, advance, time_out_from, time_out, infer_from, infer,
}
use distributed_model_server.Worker.Batcher.Run.{
  Event, enqueues, cancels, advances, times_out, closes, infers, step, run,
}
use distributed_model_server.Worker.Batcher.Futures.{
  backlog, batch_of, held_back, Answered, nil, drop,
}
use distributed_model_server.Worker.Batcher.Fifo.{
  NeverCloses, NeverCloses-cons, accepted, run-IsServing, run-new_batcher-IsServing,
}
use distributed_model_server.Worker.Batcher.Measure.{
  measure, phase_cost, slot_cost, Started, Moves, Moves-le, process_batch-Moves, fetch_first-Moves,
  collect-Moves,
}
use distributed_model_server.Worker.Batcher.Ticks.{
  advance_from-Moves, time_out_from-Moves, executing-Moves,
}

-- What the event loop does next for the task: with nothing in the queue a collecting task is timed out,
-- and a batch in execution gets the result `r`.
abbrev pub next_event : Inference → Phase → List RequestEnvelope → Event
next_event r (collecting batch total timer) [] = times_out
next_event r (executing w start) q = infers r
next_event r _ q = advances

-- The futures of all these requests are done.
abbrev pub AllDone : (ℕ → Future) → List RequestEnvelope → Type 0
AllDone fs [] = Unit
AllDone fs (e ∷ es) = (is_pending (fs e.future) ≡ false) × AllDone fs es

module _ (s : Settings) (clock : ℕ → ℕ) where
  -- The next `n` steps of the task.
  abbrev pub work_off : Inference → ℕ → Batcher → List Event
  work_off r zero b = []
  work_off r (suc n) b = let x = next_event r b.phase b.queue in x ∷ work_off r n (step s clock x b)

  work_off-NeverCloses : (r : Inference) (n : ℕ) (b : Batcher) → NeverCloses (work_off r n b)
  work_off-NeverCloses r zero b = tt
  work_off-NeverCloses r (suc n) b = go b.phase b.queue _ (work_off-NeverCloses r n _)
    where
      go :
          (p : Phase) (q : List RequestEnvelope) (xs : List Event)
          → NeverCloses xs
          → NeverCloses (next_event r p q ∷ xs)
      go ended q xs h = h
      go top q xs h = h
      go (collecting batch total timer) [] xs h = h
      go (collecting batch total timer) (e ∷ q) xs h = h
      go (executing w start) q xs h = h

  next-Moves :
      (r : Inference) (p : Phase) (q : List RequestEnvelope) (b : Batcher)
      → b.phase ≡ p
      → b.queue ≡ q
      → Moves (measure b) b
      → Moves (measure b - 1) (step s clock (next_event r p q) b)
  unfolding step advance advance_from time_out time_out_from infer
  next-Moves r ended q b e h v =
      let (no_queue, no_slot) = subst (λ p. Started p b.queue b.next_envelope) e v.started in
      subst (λ p. Moves (measure b - 1) (advance_from s clock p b)) (sym e)
        (record {
          open_still = v.open_still;
          started = v.started;
          measured = omega (arith, ap phase_cost e, ap length no_queue, ap slot_cost no_slot);
        })
  next-Moves r top q b e h v =
      subst (λ p. Moves (measure b - 1) (advance_from s clock p b)) (sym e)
        (if_cases (Moves (measure b - 1)) b.stopping (λ c. let o = v.open_still in cc)
          (λ _. fetch_first-Moves s clock b.next_envelope b.queue b refl refl e v.open_still))
  next-Moves r (collecting batch total timer) [] b e h v =
      subst (λ p. Moves (measure b - 1) (time_out_from clock p b.queue b)) (sym e)
        (subst (λ q. Moves (measure b - 1) (time_out_from clock (collecting batch total timer) q b))
          (sym h)
          (Moves-le s clock (omega (arith, ap phase_cost e))
            (process_batch-Moves s clock batch b v.open_still)))
  next-Moves r (collecting batch total timer) (x ∷ q) b e h v =
      subst (λ p. Moves (measure b - 1) (advance_from s clock p b)) (sym e)
        (Moves-le s clock (ground (arith, ap phase_cost e, ap length h))
          (collect-Moves s clock batch total timer b e v.open_still))
  next-Moves r (executing w start) q b e h v =
      subst (λ p. Moves (measure b - 1) (infer_from clock r p b)) (sym e)
        (Moves-le s clock (omega (arith, ap phase_cost e))
          (executing-Moves s clock r w start b v.open_still))

  work_off-Moves :
      (r : Inference) (n : ℕ) (b : Batcher)
      → Moves (measure b) b
      → measure b ≤ n
      → Moves 0 (run s clock (work_off r n b) b)
  unfolding run
  work_off-Moves r zero b v l = Moves-le s clock l v
  work_off-Moves r (suc n) b v l =
      let h = next-Moves r b.phase b.queue b refl refl v in
      let b' = step s clock (next_event r b.phase b.queue) b in
      work_off-Moves r n b'
        (record { open_still = h.open_still; started = h.started; measured = omega arith })
        (omega (arith, h.measured, l))

  -- The batcher is open, and its task runs if there is work.
  abbrev Opens : Batcher → Type 0
  Opens b = (b.stopping ≡ false) × Started b.phase b.queue b.next_envelope

  start_loop-Opens :
      (p : Phase) (b : Batcher) → b.phase ≡ p → b.stopping ≡ false → Opens (start_loop b)
  start_loop-Opens ended b e o = rw (e, start_loop) (o, tt)
  start_loop-Opens top b e o = rw (e, start_loop, e) (o, tt)
  start_loop-Opens (collecting batch total timer) b e o = rw (e, start_loop, e) (o, tt)
  start_loop-Opens (executing w start) b e o = rw (e, start_loop, e) (o, tt)

  enqueue-Opens :
      (request_id : Text) (inputs : List Text) (local_deadline : ℕ) (b : Batcher)
      → Opens b
      → Opens (enqueue s clock request_id inputs local_deadline b).1
  unfolding enqueue new_envelope put_nowait
  enqueue-Opens request_id inputs local_deadline b v =
      let (e, b1) = new_envelope clock request_id inputs local_deadline b in
      if_both (λ (r : Admission × Batcher). Opens r.1) b.stopping v
        (if_both (λ (r : Admission × Batcher). Opens r.1) (queue_full s b1) v
          (start_loop-Opens b.phase (record b1 { queue = b1.queue ++ e ∷ [] }) refl v.0))

  infer-Opens :
      (r : Inference) (p : Phase) (b : Batcher)
      → b.phase ≡ p
      → Opens b
      → Opens (infer_from clock r p b)
  unfolding infer_from
  infer-Opens r (executing w start) b e v =
      let h = executing-Moves s clock r w start b v.0 in (h.open_still, h.started)
  infer-Opens (output preds prep inf post) ended b e v = v
  infer-Opens (output preds prep inf post) top b e v = v
  infer-Opens (output preds prep inf post) (collecting batch total timer) b e v = v
  infer-Opens failure ended b e v = v
  infer-Opens failure top b e v = v
  infer-Opens failure (collecting batch total timer) b e v = v

  step-Opens : (x : Event) (b : Batcher) → NeverCloses (x ∷ []) → Opens b → Opens (step s clock x b)
  unfolding step advance time_out infer cancel_future
  step-Opens (enqueues request_id inputs local_deadline) b n v =
      enqueue-Opens request_id inputs local_deadline b v
  step-Opens (cancels i) b n v = if_both Opens (done b i) v v
  step-Opens advances b n v =
      let h = advance_from-Moves s clock b.phase b refl v.0 v.1 in (h.open_still, h.started)
  step-Opens times_out b n v =
      let h = time_out_from-Moves s clock b.phase b.queue b refl refl v.0 v.1 in
      (h.open_still, h.started)
  step-Opens (infers r) b n v = infer-Opens r b.phase b refl v
  step-Opens closes b n v = elim n [ ]

  run-Opens : (xs : List Event) (b : Batcher) → NeverCloses xs → Opens b → Opens (run s clock xs b)
  unfolding run
  run-Opens [] b n v = v
  run-Opens (x ∷ xs) b n v =
      let (nx, nxs) = NeverCloses-cons x xs n in
      run-Opens xs (step s clock x b) nxs (step-Opens x b nx v)

  no_cost :
      (p : Phase) (n : Option RequestEnvelope) (q : List RequestEnvelope)
      → phase_cost p + (slot_cost n + 4 * length q) ≤ 0
      → batch_of p ++ (held_back n ++ q) ≡ []
  no_cost ended none [] h = refl
  no_cost top none [] h = refl
  no_cost p none (x ∷ q) h = absurd (omega (arith, h))
  no_cost p (some e) q h = absurd (omega (arith, h))
  no_cost (collecting batch total timer) none [] h = absurd (omega (arith, h))
  no_cost (executing w start) none [] h = absurd (omega (arith, h))

  idle-backlog : (b : Batcher) → Moves 0 b → backlog b ≡ []
  idle-backlog b v = no_cost b.phase b.next_envelope b.queue v.measured

  Answered-AllDone :
      (fs : ℕ → Future) (xs : List RequestEnvelope) → Answered fs xs [] → AllDone fs xs
  Answered-AllDone fs [] nil = tt
  Answered-AllDone fs (e ∷ xs) (drop _ d a) = (d, Answered-AllDone fs xs a)

  AllDone-append :
      (fs : ℕ → Future) (xs ys : List RequestEnvelope) → AllDone fs (xs ++ ys) → AllDone fs xs
  AllDone-append fs [] ys h = tt
  AllDone-append fs (x ∷ xs) ys h = (h.0, AllDone-append fs xs ys h.1)

  -- After any run of a new batcher that does not close it, the next steps of the loop task, as many as
  -- `measure` says, leave the future of every accepted request done, if each batch of them ends in the
  -- executor with `r`, whatever `r` is and whatever the clock reads.
  pub run_answers_all :
      (r : Inference) (ys : List Event)
      → NeverCloses ys
      → let b = run s clock ys new_batcher in
        AllDone (run s clock (work_off r (measure b) b) b).futures (accepted s clock ys new_batcher)
  run_answers_all r ys n =
      let b = run s clock ys new_batcher in
      let zs = work_off r (measure b) b in
      let (o, st) = run-Opens ys new_batcher n (refl, (refl, refl)) in
      let idle =
        work_off-Moves r (measure b) b
          (record { open_still = o; started = st; measured = omega arith }) (omega arith) in
      let served =
        run-IsServing s clock zs (accepted s clock ys new_batcher) b
          (work_off-NeverCloses r (measure b) b) (run-new_batcher-IsServing s clock ys n) in
      AllDone-append (run s clock zs b).futures (accepted s clock ys new_batcher)
        (accepted s clock zs b)
        (Answered-AllDone (run s clock zs b).futures _ (
          subst (Answered (run s clock zs b).futures _) (idle-backlog (run s clock zs b) idle)
            served.answered))
