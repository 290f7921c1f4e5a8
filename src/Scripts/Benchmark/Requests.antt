-- ===== src/Scripts/Benchmark/Requests.antt =====
-- The requests of the loops are ones that the gateway accepts.
use mathlib.Core.List.{append-nil}
use distributed_model_server.Prelude.{
  ℕ, zero, suc, ◌+◌, ◌-◌, ◌%◌, ◌≤◌, ◌<◌, ◌≡◌, refl, sym, ap, ◌∙◌, Text, codes, true, List, [], ◌∷◌,
  ◌++◌, Option, none, some, inl, ltb, if_cases, length, length-append, get_elem?, All,
  All-get_elem?, all_by, &&-eq-true, decimal, is_digit, all_by-decimal, power_of_ten,
  length-decimal, arith,
}
use distributed_model_server.Gateway.Config.{GatewayConfig}
use distributed_model_server.Gateway.State.{ok}
use distributed_model_server.Gateway.App.Json.{Json, string, utf8_length}
use distributed_model_server.Gateway.App.RequestId.{
  in_class, AllInClass, request_id_matches, request_id_matches_iff,
}
use distributed_model_server.Gateway.App.Validation.{Arguments, validate}
use distributed_model_server.Gateway.App.Complete.{validate-payload_of}
use distributed_model_server.Scripts.Benchmark.{
  Trial, Sent, Reply, request_id, payload, Task, fresh, waiting, over, Bench, Readings, Event,
  starts, replies, set, send, turn, start_task, finish_request, step, run, all_fresh, new_bench,
}
use distributed_model_server.Scripts.Benchmark.Numbered.{sum_by, holds, IsNumbered, run-IsNumbered}

AllInClass-append : (s t : Text) → AllInClass s → AllInClass t → AllInClass (s ++ t)
AllInClass-append [] t h k = k
AllInClass-append (c ∷ s) t h k = (h.0, AllInClass-append s t h.1 k)

digit-in_class : (c : ℕ) → is_digit c ≡ true → in_class c ≡ true
digit-in_class c h = ground arith

digits-AllInClass : (t : Text) → all_by is_digit t ≡ true → AllInClass t
digits-AllInClass [] h = tt
digits-AllInClass (c ∷ t) h =
    let parts = &&-eq-true (is_digit c) (all_by is_digit t) h in
    (digit-in_class c parts.0, digits-AllInClass t parts.1)

-- The id of a request has the right form if the trial's id has at most 40 characters, all of the class, and
-- fewer than 10 ^ 20 requests are sent.
request_id_lem :
    (trial_id : Text) (idx : ℕ)
    → AllInClass trial_id
    → length trial_id ≤ 40
    → idx < power_of_ten 20
    → request_id_matches (request_id trial_id idx) ≡ true
unfolding request_id
request_id_lem trial_id idx a l h = (request_id_matches_iff _).1 (record {
  body = codes "bm-" ++ (trial_id ++ (codes "-" ++ decimal idx));
  ending = [];
  parts = sym (append-nil _);
  in_alphabet = (
    refl,
    (
      refl,
      (
        refl,
        AllInClass-append trial_id (codes "-" ++ decimal idx) a
            (refl, digits-AllInClass (decimal idx) (all_by-decimal idx)),
      ),
    ),
  );
  nonempty = omega arith;
  short =
      omega (arith, length-append trial_id (codes "-" ++ decimal idx), length-decimal 19 idx h, l);
  newline = inl refl;
})

-- The text of an input that the gateway takes.
abbrev pub IsInput : GatewayConfig → Json → Type 0
IsInput c v =
    (t : Text) × (v ≡ string t)
    × (1 ≤ length t)
    × ((n : ℕ) × (utf8_length t ≡ some n) × (n ≤ c.max_input_bytes) × (n ≤ c.max_total_input_bytes))

-- The settings of the gateway admit one input, the model version and the timeout of the benchmark.
pub record Admits (c : GatewayConfig) : Type 0 where
  pub one_input : 1 ≤ c.max_inputs_per_request
  pub model : c.model_version ≡ codes "tinybert-sst2-v1"
  pub not_too_short : c.min_timeout_ms ≤ 5000
  pub not_too_long : 5000 ≤ c.max_timeout_ms

abbrev pub arguments_of : Text → ℕ → Text → Arguments
arguments_of trial_id idx t = record {
  request_id = request_id trial_id idx;
  inputs = t ∷ [];
  model_version = codes "tinybert-sst2-v1";
  timeout_ms = 5000;
}

payload-validate :
    (c : GatewayConfig) (generated trial_id : Text) (s : Sent)
    → Admits c
    → AllInClass trial_id
    → length trial_id ≤ 40
    → s.req_idx < power_of_ten 20
    → (input : IsInput c s.text)
    → validate c generated (some (payload trial_id s))
      ≡ ok (arguments_of trial_id s.req_idx input.0)
unfolding payload
payload-validate c generated trial_id s m a l h (t, e, nonempty, (n, u, small, fits)) =
    let matches = request_id_lem trial_id s.req_idx a l h in
    rw e (
      validate-payload_of c generated (arguments_of trial_id s.req_idx t)
        (record {
          known_id = inl matches;
          some_inputs = omega arith;
          few_inputs = m.one_input;
          total = n;
          sized = (nonempty, (n, 0, u, small, refl, omega arith));
          total_fits = fits;
          same_model = sym m.model;
          long_enough = m.not_too_short;
          short_enough = m.not_too_long;
        })
        matches)

All-set {ℓ κ} :
    {A : Type ℓ} (P : A → Type κ) (xs : List A) (i : ℕ) (new : A)
    → P new
    → All P xs
    → All P (set xs i new)
All-set P [] i new p h = tt
All-set P (x ∷ xs) zero new p h = (p, h.1)
All-set P (x ∷ xs) (suc i) new p h = (h.0, All-set P xs i new p h.1)

module _ (trial : Trial) where
  -- A loop that waits sent the text whose turn it was.
  abbrev InTurn : Task → Type 0
  InTurn (waiting idx s) =
      (before : ℕ) × (idx ≡ before + 1)
      × (get_elem? trial.texts (before % length trial.texts) ≡ some s.text)
  InTurn _ = Unit

  send-InTurn :
      (r : Readings) (idx counter : ℕ) (o : Option Json)
      → get_elem? trial.texts (idx % length trial.texts) ≡ o
      → InTurn (send trial r idx counter o).0
  send-InTurn r idx counter none e = tt
  send-InTurn r idx counter (some text) e = (idx, refl, e)

  turn-InTurn : (r : Readings) (idx counter : ℕ) → InTurn (turn trial r idx counter).0
  unfolding turn
  turn-InTurn r idx counter =
      if_cases (λ (t : Task × ℕ). InTurn t.0) (ltb r.time trial.end_time)
        (λ _. send-InTurn r idx counter (get_elem? trial.texts (idx % length trial.texts)) refl)
        (λ _. tt)

  AllInTurn : Bench → Type 0
  AllInTurn b = All InTurn b.tasks

  start_task-AllInTurn :
      (i : ℕ) (r : Readings) (o : Option Task) (b : Bench)
      → AllInTurn b
      → AllInTurn (start_task trial i r o b)
  unfolding start_task AllInTurn
  start_task-AllInTurn i r none b h = h
  start_task-AllInTurn i r (some (waiting idx s)) b h = h
  start_task-AllInTurn i r (some (over idx)) b h = h
  start_task-AllInTurn i r (some fresh) b h =
      All-set InTurn b.tasks i _ (turn-InTurn r 0 b.global_counter) h

  finish_request-AllInTurn :
      (i : ℕ) (reply : Reply) (t1 : ℕ) (r : Readings) (o : Option Task) (b : Bench)
      → AllInTurn b
      → AllInTurn (finish_request trial i reply t1 r o b)
  unfolding finish_request AllInTurn
  finish_request-AllInTurn i reply t1 r none b h = h
  finish_request-AllInTurn i reply t1 r (some fresh) b h = h
  finish_request-AllInTurn i reply t1 r (some (over idx)) b h = h
  finish_request-AllInTurn i reply t1 r (some (waiting idx s)) b h =
      All-set InTurn b.tasks i _ (turn-InTurn r idx b.global_counter) h

  step-AllInTurn : (x : Event) (b : Bench) → AllInTurn b → AllInTurn (step trial x b)
  unfolding step
  step-AllInTurn (starts i r) b h = start_task-AllInTurn i r (get_elem? b.tasks i) b h
  step-AllInTurn (replies i reply t1 r) b h =
      finish_request-AllInTurn i reply t1 r (get_elem? b.tasks i) b h

  run-AllInTurn : (xs : List Event) (b : Bench) → AllInTurn b → AllInTurn (run trial xs b)
  unfolding run
  run-AllInTurn [] b h = h
  run-AllInTurn (x ∷ xs) b h = run-AllInTurn xs (step trial x b) (step-AllInTurn x b h)

  all_fresh-InTurn : (n : ℕ) → All InTurn (all_fresh n)
  all_fresh-InTurn zero = tt
  all_fresh-InTurn (suc n) = (tt, all_fresh-InTurn n)

sum_by-ge :
    (j : ℕ) (ts : List Task) (i idx : ℕ) (s : Sent)
    → get_elem? ts i ≡ some (waiting idx s)
    → s.req_idx ≡ j
    → 1 ≤ sum_by (holds j) ts
sum_by-ge j [] i idx s e same = absurd (cc_none e)
  where
    cc_none : none ≡ some (waiting idx s) → ⊥
    cc_none e = cc
sum_by-ge j (t ∷ ts) zero idx s e same = ground (arith, same)
sum_by-ge j (t ∷ ts) (suc i) idx s e same = omega (arith, sum_by-ge j ts i idx s e same)

below_counter :
    (b : Bench) (i idx : ℕ) (s : Sent)
    → IsNumbered b
    → get_elem? b.tasks i ≡ some (waiting idx s)
    → s.req_idx < b.global_counter
below_counter b i idx s h e =
    ground (arith, h.once s.req_idx, sum_by-ge s.req_idx b.tasks i idx s e refl)

-- Let the gateway's settings admit the benchmark's requests, the texts be inputs that it takes, and the id
-- of the trial have at most 40 characters, all of the class for request ids. Then in any run of at most
-- 10 ^ 20 requests, a loop in its `idx`-th request sent the text whose turn it was, in the order of the
-- corpus and from its start again after its end, and the checks of the gateway accept the request with
-- the id, the text, the model version and the timeout of the benchmark.
pub run-Accepted :
    (c : GatewayConfig) (generated : Text) (trial : Trial) (xs : List Event) (concurrency i idx : ℕ)
    → (s : Sent) → Admits c
    → AllInClass trial.trial_id
    → length trial.trial_id ≤ 40
    → All (IsInput c) trial.texts
    → (run trial xs (new_bench concurrency)).global_counter ≤ power_of_ten 20
    → get_elem? (run trial xs (new_bench concurrency)).tasks i ≡ some (waiting idx s)
    → (t : Text) × (get_elem? trial.texts ((idx - 1) % length trial.texts) ≡ some (string t))
      × (validate c generated (some (payload trial.trial_id s))
          ≡ ok (arguments_of trial.trial_id s.req_idx t))
run-Accepted c generated trial xs n i idx s admits a l inputs few e =
    let b = run trial xs (new_bench n) in
    let turn_of =
      run-AllInTurn trial xs (new_bench n) (unfold AllInTurn in all_fresh-InTurn trial n) in
    let (before, position, sent) =
      All-get_elem? (InTurn trial) b.tasks i (waiting idx s) (unfold AllInTurn in turn_of) e in
    let input =
      All-get_elem? (IsInput c) trial.texts (before % length trial.texts) s.text inputs sent in
    let below = below_counter b i idx s (run-IsNumbered trial xs n) e in
    let same : idx - 1 ≡ before = omega (arith, position) in
    (
      input.0,
      rw same (sent ∙ ap some input.1),
      payload-validate c generated trial.trial_id s admits a l (omega (arith, below, few)) input,
    )
