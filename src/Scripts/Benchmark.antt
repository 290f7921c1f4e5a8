-- ===== src/Scripts/Benchmark.antt =====
-- scripts/benchmark.py: the corpus, and the loops that send requests and share a counter. A loop is cut at
-- the await of its request; its lock is never held across an await, so taking a number is one step.
pub mod Numbered
pub mod Requests
use distributed_model_server.Prelude.{
  ℕ, zero, suc, ◌+◌, ◌-◌, ◌%◌, Text, codes, List, [], ◌∷◌, ◌++◌, Option, none, some, map, ltb, ◌==◌,
  if◌then◌else◌, length, get_elem?, text_eq, decimal,
}
use distributed_model_server.Gateway.Config.{strip}
use distributed_model_server.Gateway.App.Json.{
  Json, null, natural, real, string, array, object, empty, element, Members, end, member, get,
}

-- `data["text"]` of a line, with `none` for an exception of it or of `json.loads`.
abbrev text_of : Option Json → Option Json
unfolding get
text_of (some (object ms)) = get (codes "text") ms
text_of _ = none

abbrev prepend {ℓ} : {A : Type ℓ} → Option A → Option (List A) → Option (List A)
prepend (some x) (some xs) = some (x ∷ xs)
prepend _ _ = none

-- One line, stripped and parsed, before the texts of the rest.
abbrev add_line : Text → Option Json → Option (List Json) → Option (List Json)
unfolding text_of
add_line [] v rest = rest
add_line (c ∷ t) v rest = prepend (text_of v) rest

module _ (loads : Text → Option Json) where
  unfoldable pub load_lines : List Text → Option (List Json)
  unfolding add_line strip
  load_lines [] = some []
  load_lines (line ∷ lines) = add_line (strip line) (loads line) (load_lines lines)

  abbrev or_default : Option (List Json) → Option (List Json)
  or_default none = none
  or_default (some []) = some (string (codes "Default benchmark sentence for classification.") ∷ [])
  or_default (some (t ∷ ts)) = some (t ∷ ts)

  -- The lines of the file, `none` if it does not exist.
  unfoldable pub load_corpus : Option (List Text) → Option (List Json)
  unfolding load_lines
  load_corpus none = or_default (some [])
  load_corpus (some lines) = or_default (load_lines lines)

-- The arguments that the loops of a phase share; times are in microseconds.
pub record Trial : Type 0 where
  pub texts : List Json
  pub end_time : ℕ
  pub trial_id : Text

-- A request in the await of `client.post`.
pub record Sent : Type 0 where
  pub req_idx : ℕ
  pub text : Json
  pub t0_ns : ℕ
  pub t0 : ℕ

-- The response with its parsed body, `none` if `resp.json()` raises, or the name of the exception.
pub data Reply : Type 0 where
  answers : ℕ → Option Json → Reply
  raises : Text → Reply

-- The variables that `worker_loop` sets from the reply.
pub record Observed : Type 0 where
  pub status_code : ℕ
  pub error_code : Json
  pub worker_id : Json
  pub attempts : Json
  pub queue_ms : Json
  pub inference_ms : Json

pub record RequestRecord : Type 0 where
  pub trial_id : Text
  pub request_index : ℕ
  pub started_ns : ℕ
  pub duration : ℕ
  pub observed : Observed
  pub input_count : ℕ

abbrev or_else : Json → Option Json → Json
or_else default none = default
or_else default (some v) = v

abbrev unobserved : Observed
unobserved = record {
  status_code = 500;
  error_code = null;
  worker_id = null;
  attempts = natural 1;
  queue_ms = real 0;
  inference_ms = real 0;
}

-- `except Exception as exc` around the whole.
abbrev excepted : Text → Observed → Observed
excepted name o = record o { status_code = 0; error_code = string name }

abbrev read_timing : Json → Observed → Observed
unfolding get
read_timing (object ms) o = record o {
  queue_ms = or_else (real 0) (get (codes "queue") ms);
  inference_ms = or_else (real 0) (get (codes "inference") ms);
}
read_timing _ o = excepted (codes "AttributeError") o

abbrev read_body : Option Json → Observed
unfolding read_timing
read_body none = excepted (codes "JSONDecodeError") unobserved
read_body (some (object ms)) =
    read_timing (or_else (object end) (get (codes "timing_ms") ms)) (record unobserved {
      status_code = 200;
      worker_id = or_else null (get (codes "worker_id") ms);
      attempts = or_else (natural 1) (get (codes "attempts") ms);
    })
read_body (some _) = excepted (codes "AttributeError") unobserved

-- `f"HTTP_{status_code}"`
abbrev http_error : ℕ → Json
unfolding decimal
http_error status = string (codes "HTTP_" ++ decimal status)

abbrev code_in : ℕ → Json → Json
unfolding get http_error
code_in status (object ms) = or_else null (get (codes "code") ms)
code_in status _ = http_error status

abbrev read_error : ℕ → Option Json → Json
unfolding code_in
read_error status (some (object ms)) =
    code_in status (or_else (object end) (get (codes "error") ms))
read_error status _ = http_error status

unfoldable pub observe : Reply → Observed
unfolding read_body read_error
observe (raises name) = excepted name unobserved
observe (answers status body) =
    if status == 200
    then read_body body
    else record unobserved { status_code = status; error_code = read_error status body }

-- `f"bm-{trial_id}-{req_idx}"`
unfoldable pub request_id : Text → ℕ → Text
unfolding decimal
request_id trial_id idx = codes "bm-" ++ (trial_id ++ (codes "-" ++ decimal idx))

unfoldable pub payload : Text → Sent → Json
unfolding request_id
payload trial_id s = object (
    member (codes "request_id") (string (request_id trial_id s.req_idx)) (
      member (codes "inputs") (array (element s.text empty)) (
        member (codes "model_version") (string (codes "tinybert-sst2-v1"))
          (member (codes "timeout_ms") (natural 5000) end))))

-- One `worker_loop` and its `idx`: not begun, in the await, or left.
pub data Task : Type 0 where
  fresh : Task
  waiting : ℕ → Sent → Task
  over : ℕ → Task

pub record Bench : Type 0 where
  pub global_counter : ℕ
  pub results : List RequestRecord
  pub tasks : List Task

-- What the clocks show at the head of the loop and at the request.
pub record Readings : Type 0 where
  pub time : ℕ
  pub time_ns : ℕ
  pub perf_counter : ℕ

pub data Event : Type 0 where
  starts : ℕ → Readings → Event
  -- the reply to a loop's request, `t1`, and the readings of its next round
  replies : ℕ → Reply → ℕ → Readings → Event

abbrev pub set {ℓ} : {A : Type ℓ} → List A → ℕ → A → List A
set [] i v = []
set (x ∷ xs) zero v = v ∷ xs
set (x ∷ xs) (suc i) v = x ∷ set xs i v

module _ (trial : Trial) where
  -- Without texts the remainder raises, which ends the loop.
  abbrev pub send : Readings → ℕ → ℕ → Option Json → Task × ℕ
  send r idx counter none = (over idx, counter)
  send r idx counter (some text) = (
    waiting (idx + 1)
        (record { req_idx = counter; text = text; t0_ns = r.time_ns; t0 = r.perf_counter }),
    counter + 1,
  )

  -- The round from its head to the await.
  unfoldable pub turn : Readings → ℕ → ℕ → Task × ℕ
  turn r idx counter =
      if ltb r.time trial.end_time
      then send r idx counter (get_elem? trial.texts (idx % length trial.texts))
      else (over idx, counter)

  abbrev pub record_of : Sent → Reply → ℕ → RequestRecord
  unfolding observe
  record_of s reply t1 = record {
    trial_id = trial.trial_id;
    request_index = s.req_idx;
    started_ns = s.t0_ns;
    duration = t1 - s.t0;
    observed = observe reply;
    input_count = 1;
  }

  abbrev place : ℕ → Task × ℕ → List RequestRecord → Bench → Bench
  place i (task, counter) results b = record {
    global_counter = counter;
    results = results;
    tasks = set b.tasks i task;
  }

  unfoldable pub start_task : ℕ → Readings → Option Task → Bench → Bench
  unfolding turn
  start_task i r (some fresh) b = place i (turn r 0 b.global_counter) b.results b
  start_task i r _ b = b

  unfoldable pub finish_request : ℕ → Reply → ℕ → Readings → Option Task → Bench → Bench
  unfolding turn record_of
  finish_request i reply t1 r (some (waiting idx s)) b =
      place i (turn r idx b.global_counter) (b.results ++ record_of s reply t1 ∷ []) b
  finish_request i reply t1 r _ b = b

  unfoldable pub step : Event → Bench → Bench
  unfolding start_task finish_request
  step (starts i r) b = start_task i r (get_elem? b.tasks i) b
  step (replies i reply t1 r) b = finish_request i reply t1 r (get_elem? b.tasks i) b

  unfoldable pub run : List Event → Bench → Bench
  unfolding step
  run [] b = b
  run (x ∷ xs) b = run xs (step x b)

abbrev pub all_fresh : ℕ → List Task
all_fresh zero = []
all_fresh (suc n) = fresh ∷ all_fresh n

-- `concurrency` tasks, a counter and a list of results, all new.
abbrev pub new_bench : ℕ → Bench
new_bench concurrency = record { global_counter = 0; results = []; tasks = all_fresh concurrency }

-- `run_benchmark`: the warm-up, if there is one, has a counter and results of its own.
unfoldable pub run_benchmark :
    List Json → Text → ℕ → Option (ℕ × List Event) → ℕ × List Event → Option Bench × Bench
unfolding run
run_benchmark texts trial_id concurrency warmup (end_time, events) =
    let phase = λ (name : Text) (until : ℕ) (es : List Event).
      run (record { texts = texts; end_time = until; trial_id = name }) es
        (new_bench concurrency) in
    (
      elim warmup [ none ↦ none | some (until, es) ↦ some (phase (codes "warmup") until es) ],
      phase trial_id end_time events,
    )
