-- ===== src/Worker/Batcher/Matches.antt =====
-- The batcher in step with the service of its contract, and a new request in the two of them.
use Prim.Native.String.{String}
use distributed_model_server.Prelude.{
  ℕ, ◌+◌, ◌<◌, ◌≡◌, refl, sym, subst, ◌∙◌, Text, true, false, List, [], ◌∷◌, ◌++◌, All, All-left,
  All-right, All-append, All-map, if_cases, ◌==◌, arith,
}
use distributed_model_server.Errors.{worker_queue_full}
use distributed_model_server.Protocol.{Double}
use distributed_model_server.Worker.Batcher.Defs.{
  Future, RequestEnvelope, Settings, Phase, ended, top, collecting, executing, Batcher,
}
use distributed_model_server.Worker.Batcher.Loop.{
  awaits, refused, Admission, enqueue, new_envelope, put_nowait, queue_full, start_loop, close_from,
}
use distributed_model_server.Worker.Batcher.Run.{Event, enqueues, step}
use distributed_model_server.Worker.Batcher.Rounds.{IsWithin}
use distributed_model_server.Worker.Batcher.Limits.{put-IsWithin}
use distributed_model_server.Worker.Batcher.Futures.{
  backlog, batch_of, held_back, Answered, nil, keep, drop, SlotFree, Serves, process_batch-Serves,
}
use distributed_model_server.Worker.Batcher.Fifo.{start_loop-serves}
use distributed_model_server.Worker.Batcher.Promises.{Settles, MayExpire, SettlesAfter}
use distributed_model_server.Worker.Batcher.Contract.{
  Service, submit, Expired, Permits, Serve, submits, declines, settles,
}

-- The service knows the envelope's number, its inputs and its deadline.
abbrev pub Knows : Service → RequestEnvelope → Type 0
Knows v e =
    (e.future < v.submitted)
    × (e.local_deadline ≡ v.deadline e.future)
    × (e.inputs ≡ v.inputs e.future)

Answered-All :
    (Q : RequestEnvelope → Type 0) {fs : ℕ → Future} {xs ys : List RequestEnvelope}
    → Answered fs xs ys
    → All Q xs
    → All Q ys
Answered-All Q nil h = tt
Answered-All Q (keep e a) h = (h.0, Answered-All Q a h.1)
Answered-All Q (drop e d a) h = Answered-All Q a h.1

module _ (s : Settings) (clock : ℕ → ℕ) (answer : Text → Text × Double) where
  -- The service and the batcher agree.
  pub record Matches (v : Service) (b : Batcher) : Type 0 where
    pub outcome : v.outcome ≡ b.futures
    pub submitted : v.submitted ≡ b.created
    pub known : All (Knows v) (backlog b)
    pub within : IsWithin s b
    pub slot_free : SlotFree b.phase b.next_envelope

  pub record Answers (x : Event) (v : Service) (b' : Batcher) : Type 0 where
    pub after : Service
    pub served : Serve clock answer x v after
    pub matching : Matches after b'

  -- A step that only settles futures, and takes no envelope from elsewhere.
  pub settle-Answers :
      (x : Event) (v : Service) (b b' : Batcher)
      → Matches v b
      → SettlesAfter s clock (Permits clock answer v x) b b'
      → All (Knows v) (backlog b')
      → SlotFree b'.phase b'.next_envelope
      → IsWithin s b'
      → Answers x v b'
  settle-Answers x v b b' m h k f w = record {
    after = record v { outcome = b'.futures };
    served =
        settles x v
          (subst (λ fs. Settles (Permits clock answer v x) fs b'.futures) (sym m.outcome) h.0);
    matching = record {
      outcome = refl;
      submitted = m.submitted ∙ sym h.1;
      known = k;
      within = w;
      slot_free = f;
    };
  }

  pub Serves-Answers :
      (x : Event) (v : Service) (b b' : Batcher)
      → Matches v b
      → SettlesAfter s clock (Permits clock answer v x) b b'
      → Serves b.futures (backlog b) b'
      → IsWithin s b'
      → Answers x v b'
  Serves-Answers x v b b' m h k w =
      settle-Answers x v b b' m h (Answered-All (Knows v) k.answered m.known) k.slot_free w

  pub may_expire :
      (v : Service) (x : Event)
      → ((i : ℕ) (f : Future) → Expired clock answer v i f → Permits clock answer v x i f)
      → (xs : List RequestEnvelope) → All (Knows v) xs
      → All (MayExpire s clock (Permits clock answer v x)) xs
  may_expire v x allow xs h =
      All-map (Knows v) (MayExpire s clock (Permits clock answer v x)) xs
        (λ e k j m late. allow e.future _ (j, m, k.0, subst (λ d. d < clock j) k.1 late, refl)) h

  pub close_from-known :
      (Q : RequestEnvelope → Type 0) (p : Phase) (b : Batcher)
      → b.phase ≡ p
      → All Q (batch_of p ++ (held_back b.next_envelope ++ b.queue))
      → All Q (backlog (close_from clock p b))
        × SlotFree (close_from clock p b).phase (close_from clock p b).next_envelope
  unfolding close_from
  close_from-known Q ended b e h = rw e (h, tt)
  close_from-known Q top b e h = (h, tt)
  close_from-known Q (collecting batch total timer) b e h =
      let k = process_batch-Serves s clock batch b in (Answered-All Q k.answered h, k.slot_free)
  close_from-known Q (executing w start) b e h =
      (All-right Q w.valid_batch (held_back b.next_envelope ++ b.queue) h, tt)

  submit-Knows_one :
      (v : Service) (inputs : List Text) (local_deadline : ℕ) (e : RequestEnvelope)
      → Knows v e
      → Knows (submit inputs local_deadline v) e
  submit-Knows_one v inputs local_deadline e k =
      let older : (e.future == v.submitted) ≡ false = ground (arith, k.0) in
      (omega (arith, k.0), rw older k.1, rw older k.2)

  submit-Knows :
      (v : Service) (inputs : List Text) (local_deadline : ℕ) (xs : List RequestEnvelope)
      → All (Knows v) xs
      → All (Knows (submit inputs local_deadline v)) xs
  submit-Knows v inputs local_deadline xs h =
      All-map (Knows v) (Knows (submit inputs local_deadline v)) xs
        (λ e k. submit-Knows_one v inputs local_deadline e k) h

  start_loop_created : (b : Batcher) → (start_loop b).created ≡ b.created
  start_loop_created b = ground arith

  -- A request that the queue takes.
  put-Matches :
      (inputs : List Text) (local_deadline : ℕ) (v : Service) (b : Batcher) (e : RequestEnvelope)
      → e.future ≡ v.submitted
      → e.local_deadline ≡ local_deadline
      → e.inputs ≡ inputs
      → b.created ≡ v.submitted + 1
      → v.outcome ≡ b.futures
      → All (Knows v) (backlog b)
      → SlotFree b.phase b.next_envelope
      → IsWithin s (start_loop (record b { queue = b.queue ++ e ∷ [] }))
      → Matches
          (submit inputs local_deadline v)
          (start_loop (record b { queue = b.queue ++ e ∷ [] }))
  put-Matches inputs local_deadline v b e fut due inp new out known f w =
      let b' : Batcher = record b { queue = b.queue ++ e ∷ [] } in
      let (same, free, futures) = start_loop-serves s clock b.phase b' refl f in
      let Q : RequestEnvelope → Type 0 = Knows (submit inputs local_deadline v) in
      let old = submit-Knows v inputs local_deadline (backlog b) known in
      let waiting = All-right Q (batch_of b.phase) (held_back b.next_envelope ++ b.queue) old in
      let newest : (e.future == v.submitted) ≡ true = ground (arith, fut) in
      let mine : Q e = (omega (arith, fut), rw newest due, rw newest inp) in
      record {
        outcome = out ∙ sym futures;
        submitted = sym (start_loop_created b' ∙ new);
        known = subst (All Q) (sym same) (
            All-append Q (batch_of b.phase) _
              (All-left Q (batch_of b.phase) (held_back b.next_envelope ++ b.queue) old)
              (All-append Q (held_back b.next_envelope) _
                (All-left Q (held_back b.next_envelope) b.queue waiting)
                (All-append Q b.queue (e ∷ [])
                  (All-right Q (held_back b.next_envelope) b.queue waiting) (mine, tt))));
        within = w;
        slot_free = free;
      }

  -- What an accepted request and a refused one are to the service.
  abbrev pub Enqueued : Text → List Text → ℕ → Service → Admission × Batcher → Type 0
  Enqueued request_id inputs local_deadline v (awaits i, b') =
      (i ≡ v.submitted) × Matches (submit inputs local_deadline v) b'
  Enqueued request_id inputs local_deadline v (refused e, b') =
      ((m : String) × (e ≡ worker_queue_full m))
      × Answers (enqueues request_id inputs local_deadline) v b'

  pub enqueue-Enqueued :
      (request_id : Text) (inputs : List Text) (local_deadline : ℕ) (v : Service) (b : Batcher)
      → Matches v b
      → Enqueued request_id inputs local_deadline v
          (enqueue s clock request_id inputs local_deadline b)
  unfolding enqueue put_nowait new_envelope
  enqueue-Enqueued request_id inputs local_deadline v b m =
      let Q : Admission × Batcher → Type 0 = Enqueued request_id inputs local_deadline v in
      let (e, b1) = new_envelope clock request_id inputs local_deadline b in
      let w1 : IsWithin s b1 = record {
        queue_bounded = m.within.queue_bounded;
        phase_fits = m.within.phase_fits;
      } in
      if_cases Q b.stopping
        (λ _. (
          (_, refl),
          record { after = v; served = declines request_id inputs local_deadline v; matching = m },
        ))
        (λ _.
          if_cases Q (queue_full s b1)
            (λ _. (
              (_, refl),
              record {
                after = submit inputs local_deadline v;
                served = submits request_id inputs local_deadline v;
                matching = record {
                  outcome = m.outcome;
                  submitted = omega (arith, m.submitted);
                  known = submit-Knows v inputs local_deadline (backlog b) m.known;
                  within = w1;
                  slot_free = m.slot_free;
                };
              },
            ))
            (λ free. (
              sym m.submitted,
              put-Matches inputs local_deadline v b1 e (sym m.submitted) refl refl
                  (omega (arith, m.submitted)) m.outcome m.known m.slot_free
                  (put-IsWithin s clock e b1 w1 free),
            )))

  Enqueued-Answers :
      (request_id : Text) (inputs : List Text) (local_deadline : ℕ) (v : Service)
      → (r : Admission × Batcher) → Enqueued request_id inputs local_deadline v r
      → Answers (enqueues request_id inputs local_deadline) v r.1
  Enqueued-Answers request_id inputs local_deadline v (awaits i, b') h = record {
    after = _;
    served = submits request_id inputs local_deadline v;
    matching = h.1;
  }
  Enqueued-Answers request_id inputs local_deadline v (refused e, b') h = h.1

  pub enqueue-Answers :
      (request_id : Text) (inputs : List Text) (local_deadline : ℕ) (v : Service) (b : Batcher)
      → Matches v b
      → Answers
          (enqueues request_id inputs local_deadline)
          v
          (step s clock (enqueues request_id inputs local_deadline) b)
  unfolding step
  enqueue-Answers request_id inputs local_deadline v b m =
      Enqueued-Answers request_id inputs local_deadline v
        (enqueue s clock request_id inputs local_deadline b)
        (enqueue-Enqueued request_id inputs local_deadline v b m)
