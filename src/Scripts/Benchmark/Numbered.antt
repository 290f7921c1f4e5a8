-- ===== src/Scripts/Benchmark/Numbered.antt =====
-- The loops share out the numbers of the requests: each is given once, in any interleaving.
use distributed_model_server.Prelude.{
  ℕ, zero, suc, ◌+◌, ◌%◌, ◌≡◌, refl, Bool, List, [], ◌∷◌, ◌++◌, Option, none, some, ltb, ◌==◌,
  if◌then◌else◌, if_cases, length, length-append, get_elem?, count_by, arith,
}
use distributed_model_server.Gateway.App.Json.{Json}
use distributed_model_server.Scripts.Benchmark.{
  Trial, Reply, RequestRecord, Task, fresh, waiting, over, Bench, Readings, Event, starts, replies,
  set, send, turn, record_of, start_task, finish_request, step, run, all_fresh, new_bench,
}

abbrev pub sum_by {ℓ} : {A : Type ℓ} → (A → ℕ) → List A → ℕ
sum_by w [] = 0
sum_by w (x ∷ xs) = w x + sum_by w xs

abbrev pub is_waiting : Task → ℕ
is_waiting (waiting idx s) = 1
is_waiting _ = 0

-- 1 if the loop waits for the request of this number.
abbrev pub holds : ℕ → Task → ℕ
holds j (waiting idx s) = if s.req_idx == j then 1 else 0
holds j _ = 0

-- The rounds that a loop has begun.
abbrev pub rounds : Task → ℕ
rounds fresh = 0
rounds (waiting idx s) = idx
rounds (over idx) = idx

sum_by-set {ℓ} :
    {A : Type ℓ} (w : A → ℕ) (xs : List A) (i : ℕ) (old new : A)
    → get_elem? xs i ≡ some old
    → sum_by w (set xs i new) + w old ≡ sum_by w xs + w new
sum_by-set w [] i old new e = cc
sum_by-set w (x ∷ xs) zero old new e = ground arith
sum_by-set w (x ∷ xs) (suc i) old new e = omega (arith, sum_by-set w xs i old new e)

count_by-append {ℓ} :
    {A : Type ℓ} (p : A → Bool) (xs ys : List A)
    → count_by p (xs ++ ys) ≡ count_by p xs + count_by p ys
count_by-append p [] ys = omega arith
count_by-append p (x ∷ xs) ys = omega (arith, count_by-append p xs ys)

-- Each number below the counter belongs to one request, answered or under way, and no other number to
-- any; so there are as many requests as the counter says, and as many as the loops have begun rounds.
pub record IsNumbered (b : Bench) : Type 0 where
  pub once :
      (j : ℕ)
      → count_by (λ r. r.request_index == j) b.results + sum_by (holds j) b.tasks
        ≡ (if ltb j b.global_counter then 1 else 0)
  pub requests : length b.results + sum_by is_waiting b.tasks ≡ b.global_counter
  pub turns : sum_by rounds b.tasks ≡ b.global_counter

-- A new task and counter, from a loop in its `idx`-th round that waits for nothing.
record Turned (idx counter : ℕ) (r : Task × ℕ) : Type 0 where
  once : (j : ℕ) → holds j r.0 + (if ltb j counter then 1 else 0) ≡ (if ltb j r.1 then 1 else 0)
  requests : is_waiting r.0 + counter ≡ r.1
  turns : rounds r.0 + counter ≡ idx + r.1

module _ (trial : Trial) where
  left-Turned : (idx counter : ℕ) → Turned idx counter (over idx, counter)
  left-Turned idx counter = record {
    once = λ j. omega arith;
    requests = omega arith;
    turns = omega arith;
  }

  send-Turned :
      (r : Readings) (idx counter : ℕ) (text : Option Json)
      → Turned idx counter (send trial r idx counter text)
  send-Turned r idx counter none = left-Turned idx counter
  send-Turned r idx counter (some text) = record {
    once = λ j. ground arith;
    requests = omega arith;
    turns = omega arith;
  }

  turn-Turned : (r : Readings) (idx counter : ℕ) → Turned idx counter (turn trial r idx counter)
  unfolding turn
  turn-Turned r idx counter =
      if_cases (Turned idx counter) (ltb r.time trial.end_time)
        (λ _. send-Turned r idx counter (get_elem? trial.texts (idx % length trial.texts)))
        (λ _. left-Turned idx counter)

  start_task-IsNumbered :
      (i : ℕ) (r : Readings) (b : Bench) (o : Option Task)
      → get_elem? b.tasks i ≡ o
      → IsNumbered b
      → IsNumbered (start_task trial i r o b)
  unfolding start_task
  start_task-IsNumbered i r b none e h = h
  start_task-IsNumbered i r b (some (waiting idx s)) e h = h
  start_task-IsNumbered i r b (some (over idx)) e h = h
  start_task-IsNumbered i r b (some fresh) e h =
      let t = turn-Turned r 0 b.global_counter in
      let (task, counter) = turn trial r 0 b.global_counter in
      record {
        once = λ j. omega (arith, t.once j, h.once j, sum_by-set (holds j) b.tasks i fresh task e);
        requests =
            omega (arith, t.requests, h.requests, sum_by-set is_waiting b.tasks i fresh task e);
        turns = omega (arith, t.turns, h.turns, sum_by-set rounds b.tasks i fresh task e);
      }

  finish_request-IsNumbered :
      (i : ℕ) (reply : Reply) (t1 : ℕ) (r : Readings) (b : Bench) (o : Option Task)
      → get_elem? b.tasks i ≡ o
      → IsNumbered b
      → IsNumbered (finish_request trial i reply t1 r o b)
  unfolding finish_request
  finish_request-IsNumbered i reply t1 r b none e h = h
  finish_request-IsNumbered i reply t1 r b (some fresh) e h = h
  finish_request-IsNumbered i reply t1 r b (some (over idx)) e h = h
  finish_request-IsNumbered i reply t1 r b (some (waiting idx s)) e h =
      let t = turn-Turned r idx b.global_counter in
      let (task, counter) = turn trial r idx b.global_counter in
      let line = record_of trial s reply t1 in
      record {
        once = λ j. omega (
          arith,
          t.once j,
          h.once j,
          sum_by-set (holds j) b.tasks i (waiting idx s) task e,
          count_by-append (λ (q : RequestRecord). q.request_index == j) b.results (line ∷ []),
        );
        requests = omega (
          arith,
          t.requests,
          h.requests,
          sum_by-set is_waiting b.tasks i (waiting idx s) task e,
          length-append b.results (line ∷ []),
        );
        turns = omega (arith, t.turns, h.turns, sum_by-set rounds b.tasks i (waiting idx s) task e);
      }

  step-IsNumbered : (x : Event) (b : Bench) → IsNumbered b → IsNumbered (step trial x b)
  unfolding step
  step-IsNumbered (starts i r) b h = start_task-IsNumbered i r b (get_elem? b.tasks i) refl h
  step-IsNumbered (replies i reply t1 r) b h =
      finish_request-IsNumbered i reply t1 r b (get_elem? b.tasks i) refl h

  run_keeps-IsNumbered : (xs : List Event) (b : Bench) → IsNumbered b → IsNumbered (run trial xs b)
  unfolding run
  run_keeps-IsNumbered [] b h = h
  run_keeps-IsNumbered (x ∷ xs) b h =
      run_keeps-IsNumbered xs (step trial x b) (step-IsNumbered x b h)

  all_fresh_zero : (w : Task → ℕ) (n : ℕ) → w fresh ≡ 0 → sum_by w (all_fresh n) ≡ 0
  all_fresh_zero w zero e = refl
  all_fresh_zero w (suc n) e = omega (arith, e, all_fresh_zero w n e)

  -- Over any interleaving of any number of loops, each number below the counter belongs to exactly one
  -- request, answered or under way, and no other number to any; there are as many requests as the counter
  -- says, and as many as the loops have begun rounds.
  pub run-IsNumbered :
      (xs : List Event) (concurrency : ℕ) → IsNumbered (run trial xs (new_bench concurrency))
  run-IsNumbered xs n = run_keeps-IsNumbered xs (new_bench n) (record {
    once = λ j. ground (arith, all_fresh_zero (holds j) n refl);
    requests = omega (arith, all_fresh_zero is_waiting n refl);
    turns = all_fresh_zero rounds n refl;
  })
