-- ===== src/Scripts/Tests/Load.antt =====
-- Runs of the corpus, the benchmark and the failure scenario at concrete inputs.
use distributed_model_server.Prelude.{
  ℕ, ◌-◌, ◌*◌, ◌%◌, ◌≡◌, length, get_elem?, All, decimal, digits, ap, map, ◌↔◌, refl, Text, codes,
  true, List, [], ◌∷◌, ◌++◌, Option, none, some, text_eq, arith,
}
use distributed_model_server.Gateway.Config.{GatewayConfig, push_front, lstrip, rstrip, strip}
use distributed_model_server.Gateway.State.{ok}
use distributed_model_server.Gateway.Samples.{config}
use distributed_model_server.Gateway.App.Json.{
  Json, natural, string, object, Members, end, member, get, utf8_length,
}
use distributed_model_server.Gateway.App.Validation.{validate}
use distributed_model_server.Scripts.Benchmark.{
  load_corpus, Trial, Sent, answers, observe, payload, waiting, Readings, Event, starts, replies,
  turn, start_task, finish_request, step, run, new_bench,
}
use distributed_model_server.Scripts.Benchmark.Numbered.{IsNumbered, run-IsNumbered}
use distributed_model_server.Scripts.Benchmark.Requests.{
  IsInput, Admits, arguments_of, run-Accepted,
}
use distributed_model_server.Scripts.Corpus.{corpus_record, Draws, corpus}
use distributed_model_server.Scripts.Corpus.Loaded.{ReadsBack, load_corpus-corpus}
use distributed_model_server.Scripts.Failure.{
  responds, http_error, http_get, http_post_predict, passed, failed, World, poll, scenario,
}
use distributed_model_server.Scripts.Failure.Passing.{Passes, scenario_iff}

abbrev trial : Trial
trial = record {
  texts = string (codes "good") ∷ string (codes "bad") ∷ [];
  end_time = 100;
  trial_id = codes "trial-1";
}

abbrev at_time : ℕ → Readings
at_time t = record { time = t; time_ns = 1000 * t; perf_counter = t }

-- Two loops; the first is answered in between, and sends again.
abbrev two_loops : List Event
two_loops =
    starts 0 (at_time 1) ∷ starts 1 (at_time 2) ∷ replies 0 (answers 503 none) 9 (at_time 9) ∷ []

abbrev third_request : Sent
third_request = record { req_idx = 2; text = string (codes "bad"); t0_ns = 9000; t0 = 9 }

run-two_loops :
    get_elem? (run trial two_loops (new_bench 2)).tasks 0 ≡ some (waiting 2 third_request)
unfolding run step start_task finish_request turn
run-two_loops = refl

global_counter-run : (run trial two_loops (new_bench 2)).global_counter ≡ 3
unfolding run step start_task finish_request turn
global_counter-run = refl

error_code_of_503 : (observe (answers 503 none)).error_code ≡ string (codes "HTTP_503")
unfolding observe decimal digits
error_code_of_503 = refl

run-IsNumbered_example : IsNumbered (run trial two_loops (new_bench 2))
run-IsNumbered_example = run-IsNumbered trial two_loops 2

abbrev tinybert_config : GatewayConfig
tinybert_config = record config { model_version = codes "tinybert-sst2-v1" }

config-Admits : Admits tinybert_config
config-Admits = record {
  one_input = omega arith;
  model = refl;
  not_too_short = omega arith;
  not_too_long = omega arith;
}

texts-IsInput : All (IsInput tinybert_config) trial.texts
unfolding utf8_length
texts-IsInput = (
  (codes "good", refl, omega arith, (4, refl, omega arith, omega arith)),
  ((codes "bad", refl, omega arith, (3, refl, omega arith, omega arith)), tt),
)

run-Accepted_example :
    (t : Text) × (get_elem? trial.texts ((2 - 1) % length trial.texts) ≡ some (string t))
    × (validate tinybert_config (codes "id") (some (payload (codes "trial-1") third_request))
        ≡ ok (arguments_of (codes "trial-1") 2 t))
run-Accepted_example =
    run-Accepted tinybert_config (codes "id") trial two_loops 2 0 2 third_request config-Admits
      (refl, (refl, (refl, (refl, (refl, (refl, (refl, tt))))))) (omega arith) texts-IsInput
      (omega (arith, global_counter-run)) run-two_loops

-- A line of JSON in which the number and the text stand as they are.
dump_record : Json → Text
dump_record (object (member k (natural i) (member j (string t) end))) = 123 ∷ i ∷ t
dump_record _ = []

without_last : Text → Text
without_last [] = []
without_last (c ∷ []) = []
without_last (c ∷ d ∷ t) = c ∷ without_last (d ∷ t)

load_record : Text → Option Json
load_record (c ∷ i ∷ t) = some (corpus_record i (without_last t))
load_record _ = none

without_last-append : (t : Text) → without_last (t ++ 10 ∷ []) ≡ t
unfolding without_last
without_last-append [] = refl
without_last-append (c ∷ []) = refl
without_last-append (c ∷ d ∷ t) = ap (λ u. c ∷ u) (without_last-append (d ∷ t))

push_front_brace : (t : Text) → (u : Text) × (push_front 123 t ≡ 123 ∷ u)
push_front_brace [] = ([], refl)
push_front_brace (d ∷ t) = (d ∷ t, refl)

record-ReadsBack : ReadsBack dump_record load_record
unfolding dump_record load_record strip lstrip rstrip
record-ReadsBack = record {
  reads = λ i t. ap (λ u. some (corpus_record i u)) (without_last-append t);
  not_blank = λ i t. let p = push_front_brace (rstrip (i ∷ t ++ 10 ∷ [])) in (123, p.0, p.1);
}

abbrev draws : Draws
draws = record { random = λ i. i; choice = λ i n. n - 1 }

loads_written_corpus :
    (texts : List Json) × (load_corpus load_record
        (some (map (λ r. dump_record r ++ 10 ∷ []) (corpus draws)))
      ≡ some texts)
    × (length texts ≡ 1000)
    × All (IsInput config) texts
loads_written_corpus =
    load_corpus-corpus dump_record load_record draws config record-ReadsBack
      (λ i n h. omega (arith, h)) (omega arith, omega arith)

abbrev no_json : Text → Option Members
no_json body = none

-- A world in which every prediction fails.
abbrev silent_world : World
silent_world = record {
  ready = λ k. responds 200 [];
  posts = λ k. http_error 503 [];
  exceptions = λ k. codes "HTTP Error 503";
  stops = true;
  starts = true;
  logs = some [];
}

scenario_iff_example :
    ((scenario no_json silent_world (codes "S")).verdict ≡ passed)
    ↔ Passes no_json silent_world (codes "S")
scenario_iff_example = scenario_iff no_json silent_world (codes "S")

first_prediction_fails : (scenario no_json silent_world (codes "S")).verdict ≡ failed 2
unfolding scenario poll http_get http_post_predict get text_eq
first_prediction_fails = refl
