-- ===== src/Worker/Batcher/Loop.antt =====
-- `enqueue`, `close` and the rounds of `_run_loop` and `_process_batch`.
use distributed_model_server.Prelude.{
  ℕ, ◌+◌, ◌-◌, ◌*◌, Text, Bool, true, ◌&&◌, List, [], ◌∷◌, ◌++◌, Option, none, some, length, take,
  drop, ltb, leb, if◌then◌else◌,
}
use distributed_model_server.Errors.{
  AppError, deadline_exceeded, worker_queue_full, internal_server,
}
use distributed_model_server.Protocol.{Double, Millis}
use distributed_model_server.Worker.Batcher.Defs.{
  cancelled, result, exception, RequestEnvelope, Settings, Work, Phase, ended, top, collecting,
  executing, Batcher, done, complete, read, go_to,
}

-- The result of `predict_batch`: predictions and three durations, or an exception.
pub data Inference : Type 0 where
  output : List (Text × Double) → Millis → Millis → Millis → Inference
  failure : Inference

unfoldable pub queue_depth : Batcher → ℕ
queue_depth b = elim b.next_envelope [ none ↦ length b.queue | some e ↦ length b.queue + 1 ]

-- `start`: a task is made if there is none that still runs.
abbrev pub start_loop : Batcher → Batcher
start_loop b = elim b.phase [
  | ended ↦ go_to top b
  | top ↦ b
  | collecting _ _ _ ↦ b
  | executing _ _ ↦ b
]

-- `asyncio.Queue.full`: a maximal size of 0 is none.
abbrev pub queue_full : Settings → Batcher → Bool
queue_full s b = ltb 0 s.queue_capacity && leb s.queue_capacity (length b.queue)

-- What `enqueue` did up to the await of its future.
pub data Admission : Type 0 where
  awaits : ℕ → Admission
  refused : AppError → Admission

-- The new envelope takes the next free place as its future.
unfoldable pub new_envelope : (ℕ → ℕ) → Text → List Text → ℕ → Batcher → RequestEnvelope × Batcher
new_envelope clock request_id inputs local_deadline b =
    let (now, b1) = read clock b in
    (
      record {
        request_id = request_id;
        inputs = inputs;
        local_deadline = local_deadline;
        enqueue_time = now;
        future = b.created;
      },
      record b1 { created = b.created + 1 },
    )

unfoldable pub put_nowait : Settings → RequestEnvelope × Batcher → Admission × Batcher
put_nowait s (e, b) =
    if queue_full s b
    then (refused (worker_queue_full "Worker queue capacity reached."), b)
    else (awaits e.future, start_loop (record b { queue = b.queue ++ e ∷ [] }))

unfoldable pub enqueue : Settings → (ℕ → ℕ) → Text → List Text → ℕ → Batcher → Admission × Batcher
unfolding new_envelope put_nowait
enqueue s clock request_id inputs local_deadline b =
    if b.stopping
    then (refused (worker_queue_full "Worker is shutting down."), b)
    else put_nowait s (new_envelope clock request_id inputs local_deadline b)

-- The client's call was cancelled while it awaited this future.
unfoldable pub cancel_future : ℕ → Batcher → Batcher
cancel_future i b = if done b i then b else complete i cancelled b

-- One envelope of the loop over the batch in `_process_batch`.
unfoldable pub gather_one : (ℕ → ℕ) → RequestEnvelope → Work × Batcher → Work × Batcher
gather_one clock e (w, b) =
    if done b e.future
    then (w, b)
    else if ltb e.local_deadline (clock b.readings)
    then (
      w,
      complete e.future (exception (deadline_exceeded "Deadline expired before execution."))
          (read clock b).1,
    )
    else (
      record {
        valid_batch = w.valid_batch ++ e ∷ [];
        flattened_inputs = w.flattened_inputs ++ e.inputs;
        slices = w.slices ++ (w.idx, w.idx + length e.inputs) ∷ [];
        idx = w.idx + length e.inputs;
      },
      (read clock b).1,
    )

unfoldable pub gather : (ℕ → ℕ) → List RequestEnvelope → Work × Batcher → Work × Batcher
unfolding gather_one
gather clock [] r = r
gather clock (e ∷ es) r = gather clock es (gather_one clock e r)

abbrev pub no_work : Work
no_work = record { valid_batch = []; flattened_inputs = []; slices = []; idx = 0 }

-- `if not valid_batch: return`
unfoldable pub submit : ℕ → Work × Batcher → Batcher
submit start (w, b) = elim w.valid_batch [ [] ↦ go_to top b | _ ∷ _ ↦ go_to (executing w start) b ]

-- `_process_batch` up to the await of the executor.
unfoldable pub process_batch : (ℕ → ℕ) → List RequestEnvelope → Batcher → Batcher
unfolding gather submit
process_batch clock batch b =
    let (start, b1) = read clock b in submit start (gather clock batch (no_work, b1))

-- The head of the loop with its first envelope in hand.
unfoldable pub admit_first : Settings → (ℕ → ℕ) → RequestEnvelope → Batcher → Batcher
admit_first s clock e b =
    if done b e.future
    then go_to top b
    else (let (now, b1) = read clock b in
        if ltb e.local_deadline now
        then go_to top
            (complete e.future (exception (deadline_exceeded "Deadline expired in queue.")) b1)
        else (let (now2, b2) = read clock b1 in
            go_to (collecting (e ∷ []) (length e.inputs) (now2 + s.max_batch_delay_ms * 1000)) b2))

unfoldable pub fetch_first :
    Settings → (ℕ → ℕ) → Option RequestEnvelope → List RequestEnvelope → Batcher → Batcher
unfolding admit_first
fetch_first s clock (some e) q b = admit_first s clock e (record b { next_envelope = none })
fetch_first s clock none [] b = b
fetch_first s clock none (e ∷ q) b = admit_first s clock e (record b { queue = q })

-- An envelope that the collecting loop took from the queue.
unfoldable pub consider :
    Settings → (ℕ → ℕ) → List RequestEnvelope → ℕ → ℕ → RequestEnvelope → Batcher → Batcher
unfolding process_batch
consider s clock batch total timer e b =
    if done b e.future
    then b
    else (let (now, b1) = read clock b in
        if ltb e.local_deadline now
        then complete e.future (exception (deadline_exceeded "Deadline expired in queue.")) b1
        else if ltb s.max_batch_items (total + length e.inputs)
        then process_batch clock batch (record b1 { next_envelope = some e })
        else go_to (collecting (batch ++ e ∷ []) (total + length e.inputs) timer) b1)

unfoldable pub take_more :
    Settings → (ℕ → ℕ) → List RequestEnvelope → ℕ → ℕ → List RequestEnvelope → Batcher → Batcher
unfolding consider
take_more s clock batch total timer [] b = b
take_more s clock batch total timer (e ∷ q) b =
    consider s clock batch total timer e (record b { queue = q })

-- One round of the collecting loop; with an empty queue it waits.
unfoldable pub collect : Settings → (ℕ → ℕ) → List RequestEnvelope → ℕ → ℕ → Batcher → Batcher
unfolding process_batch take_more
collect s clock batch total timer b =
    if ltb (length batch) s.max_batch_requests && ltb total s.max_batch_items
    then (let (now, b1) = read clock b in
        if leb timer now
        then process_batch clock batch b1
        else take_more s clock batch total timer b1.queue b1)
    else process_batch clock batch b

unfoldable pub advance_from : Settings → (ℕ → ℕ) → Phase → Batcher → Batcher
unfolding fetch_first collect
advance_from s clock ended b = b
advance_from s clock top b =
    if b.stopping then go_to ended b else fetch_first s clock b.next_envelope b.queue b
advance_from s clock (collecting batch total timer) b = collect s clock batch total timer b
advance_from s clock (executing w start) b = b

-- One step of the loop task.
unfoldable pub advance : Settings → (ℕ → ℕ) → Batcher → Batcher
unfolding advance_from
advance s clock b = advance_from s clock b.phase b

unfoldable pub time_out_from : (ℕ → ℕ) → Phase → List RequestEnvelope → Batcher → Batcher
unfolding process_batch
time_out_from clock (collecting batch total timer) [] b = process_batch clock batch b
time_out_from clock _ _ b = b

-- `wait_for` ran into its timeout on an empty queue.
unfoldable pub time_out : (ℕ → ℕ) → Batcher → Batcher
unfolding time_out_from
time_out clock b = time_out_from clock b.phase b.queue b

-- `preds[s_start:s_end]`
abbrev pub slice {ℓ} : {A : Type ℓ} → ℕ × ℕ → List A → List A
slice (from, to) xs = take (to - from) (drop from xs)

-- One envelope of the loop over the results, with the predictions cut out for it.
unfoldable pub deliver_one :
    (ℕ → ℕ)
    → ℕ
    → ℕ
    → Millis × Millis × Millis
    → RequestEnvelope
    → List (Text × Double)
    → Batcher
    → Batcher
deliver_one clock start finish (prep, inf, post) e predictions b =
    if done b e.future
    then b
    else if ltb e.local_deadline (clock b.readings)
    then complete e.future (exception (deadline_exceeded "Deadline expired after execution."))
        (read clock b).1
    else complete e.future
        (result (record {
          predictions = predictions;
          queue_ms = start - e.enqueue_time;
          preprocess_ms = prep;
          inference_ms = inf;
          postprocess_ms = post;
          worker_total_ms = finish - e.enqueue_time;
        }))
        (read clock b).1

-- `for env, (s_start, s_end) in zip(valid_batch, slices)`
unfoldable pub deliver :
    (ℕ → ℕ)
    → ℕ
    → ℕ
    → Millis × Millis × Millis
    → List (Text × Double)
    → List RequestEnvelope
    → List (ℕ × ℕ)
    → Batcher
    → Batcher
unfolding deliver_one
deliver clock start finish times preds [] ss b = b
deliver clock start finish times preds (e ∷ es) [] b = b
deliver clock start finish times preds (e ∷ es) (s ∷ ss) b =
    deliver clock start finish times preds es ss
      (deliver_one clock start finish times e (slice s preds) b)

-- The handler of an exception of the model.
unfoldable pub fail_all : List RequestEnvelope → Batcher → Batcher
fail_all [] b = b
fail_all (e ∷ es) b = fail_all es (
    if done b e.future
    then b
    else complete e.future (exception (internal_server "Inference failed.")) b)

unfoldable pub infer_from : (ℕ → ℕ) → Inference → Phase → Batcher → Batcher
unfolding deliver fail_all
infer_from clock (output preds prep inf post) (executing w start) b =
    let (finish, b1) = read clock b in
    go_to top (deliver clock start finish (prep, inf, post) preds w.valid_batch w.slices b1)
infer_from clock failure (executing w start) b = go_to top (fail_all w.valid_batch b)
infer_from clock _ _ b = b

-- The executor is done with the batch: the rest of `_process_batch`.
unfoldable pub infer : (ℕ → ℕ) → Inference → Batcher → Batcher
unfolding infer_from
infer clock r b = infer_from clock r b.phase b

unfoldable pub close_from : (ℕ → ℕ) → Phase → Batcher → Batcher
unfolding process_batch
close_from clock ended b = b
close_from clock top b = go_to ended b
close_from clock (collecting batch total timer) b = process_batch clock batch b
close_from clock (executing w start) b = go_to ended b

-- `close` up to its await: the cancellation ends the task in `queue.get()` and in the executor's await,
-- where `except Exception` lets it through, and breaks off the collecting loop.
unfoldable pub close : (ℕ → ℕ) → Batcher → Batcher
unfolding close_from
close clock b = close_from clock b.phase (record b { stopping = true })
