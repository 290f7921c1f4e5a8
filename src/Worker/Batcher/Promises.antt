-- ===== src/Worker/Batcher/Promises.antt =====
-- The futures as promises: a step of the batcher settles pending ones, each with what it may be given.
use Prim.Native.String.{String}
use distributed_model_server.Prelude.{
  ℕ, ◌+◌, ◌<◌, ◌≡◌, refl, ◌∙◌, true, false, List, [], ◌∷◌, ◌++◌, Option, none, some, All, All-left,
  All-right, length, ltb, leb, ltb→lt, if_both, if_cases, ◌&&◌, arith,
}
use distributed_model_server.Errors.{deadline_exceeded}
use distributed_model_server.Worker.Batcher.Defs.{
  Future, cancelled, exception, is_pending, RequestEnvelope, Settings, Work, Phase, ended, top,
  collecting, executing, Batcher, done, update, read,
}
use distributed_model_server.Worker.Batcher.Loop.{
  gather_one, gather, no_work, submit, process_batch, admit_first, fetch_first, consider, take_more,
  collect, advance_from, time_out_from, close_from, cancel_future,
}
use distributed_model_server.Worker.Batcher.Futures.{batch_of, held_back}

-- From the futures `fs`, some pending ones are settled, one after the other, each with a value that `P`
-- permits for it. A settled future is not touched again.
pub data Settles (P : ℕ → Future → Type 0) (fs : ℕ → Future) : (ℕ → Future) → Type 0 where
  same : Settles P fs fs
  settle :
      {gs : ℕ → Future} (i : ℕ) (f : Future)
      → Settles P fs gs
      → is_pending (gs i) ≡ true
      → is_pending f ≡ false
      → P i f
      → Settles P fs (update gs i f)

pub Settles_trans :
    {P : ℕ → Future → Type 0} {fs gs hs : ℕ → Future}
    → Settles P fs gs
    → Settles P gs hs
    → Settles P fs hs
Settles_trans a same = a
Settles_trans a (settle i f c p q r) = settle i f (Settles_trans a c) p q r

-- What is settled keeps its value.
pub Settles_keeps :
    {P : ℕ → Future → Type 0} {fs gs : ℕ → Future} (i : ℕ)
    → Settles P fs gs
    → is_pending (fs i) ≡ false
    → gs i ≡ fs i
Settles_keeps i same d = refl
Settles_keeps i (settle j f c p q r) d = ground (arith, Settles_keeps i c d)

pub not_done : (b : Batcher) (i : ℕ) → done b i ≡ false → is_pending (b.futures i) ≡ true
not_done b i h = ground arith

module _ (s : Settings) (clock : ℕ → ℕ) (P : ℕ → Future → Type 0) where
  -- The request may be failed once its deadline has passed on the clock.
  abbrev pub MayExpire : RequestEnvelope → Type 0
  MayExpire e =
      (k : ℕ) (m : String)
      → e.local_deadline < clock k
      → P e.future (exception (deadline_exceeded m))

  -- A step settles futures and creates none.
  abbrev pub SettlesAfter : Batcher → Batcher → Type 0
  SettlesAfter b b' = Settles P b.futures b'.futures × (b'.created ≡ b.created)

  pub expire :
      (e : RequestEnvelope) (b : Batcher) (k : ℕ) (m : String)
      → MayExpire e
      → done b e.future ≡ false
      → ltb e.local_deadline (clock k) ≡ true
      → Settles P b.futures (update b.futures e.future (exception (deadline_exceeded m)))
  expire e b k m may nd late =
      settle e.future _ same (not_done b e.future nd) refl (may k m (ltb→lt _ _ late))

  gather_one-Settles :
      (e : RequestEnvelope) (w : Work) (b : Batcher)
      → MayExpire e
      → SettlesAfter b (gather_one clock e (w, b)).1
  unfolding gather_one
  gather_one-Settles e w b may =
      let Q : Work × Batcher → Type 0 = λ r. SettlesAfter b r.1 in
      if_cases Q (done b e.future) (λ _. (same, refl))
        (λ nd.
          if_cases Q (ltb e.local_deadline (clock b.readings))
            (λ late. (expire e b b.readings _ may nd late, refl)) (λ _. (same, refl)))

  gather-Settles :
      (es : List RequestEnvelope) (w : Work) (b : Batcher)
      → All MayExpire es
      → SettlesAfter b (gather clock es (w, b)).1
  unfolding gather
  gather-Settles [] w b may = (same, refl)
  gather-Settles (e ∷ es) w b may =
      let (w1, b1) = gather_one clock e (w, b) in
      let h = gather_one-Settles e w b may.0 in
      let k = gather-Settles es w1 b1 may.1 in (Settles_trans h.0 k.0, k.1 ∙ h.1)

  submit-Settles :
      (start : ℕ) (r : Work × Batcher) (b : Batcher) (valid : List RequestEnvelope)
      → r.0.valid_batch ≡ valid
      → SettlesAfter b r.1
      → SettlesAfter b (submit start r)
  unfolding submit
  submit-Settles start (w, b1) b [] e h = rw (e, submit) h
  submit-Settles start (w, b1) b (v ∷ vs) e h = rw (e, submit) h

  process_batch-Settles :
      (batch : List RequestEnvelope) (b : Batcher)
      → All MayExpire batch
      → SettlesAfter b (process_batch clock batch b)
  unfolding process_batch
  process_batch-Settles batch b may =
      let r = gather clock batch (no_work, (read clock b).1) in
      submit-Settles (clock b.readings) r b r.0.valid_batch refl
        (gather-Settles batch no_work (read clock b).1 may)

  admit_first-Settles :
      (e : RequestEnvelope) (b : Batcher) → MayExpire e → SettlesAfter b (admit_first s clock e b)
  unfolding admit_first
  admit_first-Settles e b may =
      if_cases (SettlesAfter b) (done b e.future) (λ _. (same, refl))
        (λ nd.
          if_cases (SettlesAfter b) (ltb e.local_deadline (clock b.readings))
            (λ late. (expire e b b.readings _ may nd late, refl)) (λ _. (same, refl)))

  fetch_first-Settles :
      (n : Option RequestEnvelope) (q : List RequestEnvelope) (b : Batcher)
      → All MayExpire (held_back n ++ q)
      → SettlesAfter b (fetch_first s clock n q b)
  unfolding fetch_first
  fetch_first-Settles (some e) q b may =
      admit_first-Settles e (record b { next_envelope = none }) may.0
  fetch_first-Settles none [] b may = (same, refl)
  fetch_first-Settles none (e ∷ q) b may = admit_first-Settles e (record b { queue = q }) may.0

  consider-Settles :
      (batch : List RequestEnvelope) (total timer : ℕ) (e : RequestEnvelope) (b : Batcher)
      → All MayExpire batch
      → MayExpire e
      → SettlesAfter b (consider s clock batch total timer e b)
  unfolding consider
  consider-Settles batch total timer e b may may_e =
      if_cases (SettlesAfter b) (done b e.future) (λ _. (same, refl))
        (λ nd.
          if_cases (SettlesAfter b) (ltb e.local_deadline (clock b.readings))
            (λ late. (expire e b b.readings _ may_e nd late, refl))
            (λ _.
              if_both (SettlesAfter b) (ltb s.max_batch_items (total + length e.inputs))
                (process_batch-Settles batch (record (read clock b).1 { next_envelope = some e })
                  may)
                (same, refl)))

  take_more-Settles :
      (batch : List RequestEnvelope) (total timer : ℕ) (q : List RequestEnvelope) (b : Batcher)
      → All MayExpire batch
      → All MayExpire q
      → SettlesAfter b (take_more s clock batch total timer q b)
  unfolding take_more
  take_more-Settles batch total timer [] b may may_q = (same, refl)
  take_more-Settles batch total timer (e ∷ q) b may may_q =
      consider-Settles batch total timer e (record b { queue = q }) may may_q.0

  collect-Settles :
      (batch : List RequestEnvelope) (total timer : ℕ) (b : Batcher)
      → All MayExpire batch
      → All MayExpire b.queue
      → SettlesAfter b (collect s clock batch total timer b)
  unfolding collect
  collect-Settles batch total timer b may may_q =
      let b1 : Batcher = (read clock b).1 in
      if_both (SettlesAfter b)
        (ltb (length batch) s.max_batch_requests && ltb total s.max_batch_items)
        (if_both (SettlesAfter b) (leb timer (clock b.readings))
          (process_batch-Settles batch b1 may)
          (take_more-Settles batch total timer b.queue b1 may may_q))
        (process_batch-Settles batch b may)

  -- The batch, the envelope held back and the queue.
  abbrev pub MayAllExpire : Phase → Batcher → Type 0
  MayAllExpire p b = All MayExpire (batch_of p ++ (held_back b.next_envelope ++ b.queue))

  pub advance_from-Settles :
      (p : Phase) (b : Batcher) → MayAllExpire p b → SettlesAfter b (advance_from s clock p b)
  unfolding advance_from
  advance_from-Settles ended b may = (same, refl)
  advance_from-Settles top b may =
      if_both (SettlesAfter b) b.stopping (same, refl)
        (fetch_first-Settles b.next_envelope b.queue b may)
  advance_from-Settles (collecting batch total timer) b may =
      let rest = All-right MayExpire batch (held_back b.next_envelope ++ b.queue) may in
      collect-Settles batch total timer b (All-left MayExpire batch _ may)
        (All-right MayExpire (held_back b.next_envelope) b.queue rest)
  advance_from-Settles (executing w start) b may = (same, refl)

  pub time_out_from-Settles :
      (p : Phase) (q : List RequestEnvelope) (b : Batcher)
      → MayAllExpire p b
      → SettlesAfter b (time_out_from clock p q b)
  unfolding time_out_from
  time_out_from-Settles (collecting batch total timer) [] b may =
      process_batch-Settles batch b (All-left MayExpire batch _ may)
  time_out_from-Settles (collecting batch total timer) (x ∷ q) b may = (same, refl)
  time_out_from-Settles ended q b may = (same, refl)
  time_out_from-Settles top q b may = (same, refl)
  time_out_from-Settles (executing w start) q b may = (same, refl)

  pub close_from-Settles :
      (p : Phase) (b : Batcher) → MayAllExpire p b → SettlesAfter b (close_from clock p b)
  unfolding close_from
  close_from-Settles ended b may = (same, refl)
  close_from-Settles top b may = (same, refl)
  close_from-Settles (collecting batch total timer) b may =
      process_batch-Settles batch b (All-left MayExpire batch _ may)
  close_from-Settles (executing w start) b may = (same, refl)

  pub cancel_future-Settles :
      (i : ℕ) (b : Batcher) → P i cancelled → SettlesAfter b (cancel_future i b)
  unfolding cancel_future
  cancel_future-Settles i b may =
      if_cases (SettlesAfter b) (done b i) (λ _. (same, refl))
        (λ nd. (settle i cancelled same (not_done b i nd) refl may, refl))
