-- ===== src/Scripts/Tests.antt =====
-- Runs of the reports and the download at concrete inputs.
mod Load
use mathlib.Core.List.{append-nil, append_assoc}
use distributed_model_server.Prelude.{
  ℕ, ◌+◌, ◌-◌, ◌≤◌, ◌<◌, ◌*◌, ◌/◌, ◌%◌, ◌≡◌, length, get_elem?, All, decimal, digits, ltb, ap, map,
  ◌↔◌, refl, Text, codes, true, false, List, [], ◌∷◌, ◌++◌, Option, none, some, inl, inr,
  if◌then◌else◌, text_eq, arith,
}
use distributed_model_server.Gateway.Config.{GatewayConfig, push_front, lstrip, rstrip, strip}
use distributed_model_server.Gateway.State.{ok}
use distributed_model_server.Gateway.Samples.{config}
use distributed_model_server.Gateway.App.Json.{
  Json, natural, string, object, Members, end, member, get, utf8_length,
}
use distributed_model_server.Gateway.App.Validation.{validate}
use distributed_model_server.Scripts.Benchmark.{
  load_corpus, Trial, Sent, answers, observe, payload, waiting, Readings, Event, starts, replies,
  turn, start_task, finish_request, step, run, new_bench,
}
use distributed_model_server.Scripts.Benchmark.Numbered.{IsNumbered, run-IsNumbered}
use distributed_model_server.Scripts.Benchmark.Requests.{
  IsInput, Admits, arguments_of, run-Accepted,
}
use distributed_model_server.Scripts.Corpus.{corpus_record, Draws, corpus}
use distributed_model_server.Scripts.Corpus.Loaded.{ReadsBack, load_corpus-corpus}
use distributed_model_server.Scripts.Failure.{
  responds, http_error, http_get, http_post_predict, passed, failed, World, poll, scenario,
}
use distributed_model_server.Scripts.Failure.Passing.{Passes, scenario_iff}
use distributed_model_server.Scripts.Resources.{Floats, int_of, parse_bytes}
use distributed_model_server.Scripts.Resources.Sizes.{parse_bytes-unit}
use distributed_model_server.Scripts.Summary.{
  Floats as Doubles, Record, Sample, TrialSummary, percentile, sorted, count_keys, get_count,
  summarize_trial,
}
use distributed_model_server.Scripts.Summary.Percentile.{IsAtPlace, percentile-IsAtPlace}
use distributed_model_server.Scripts.Summary.Consistent.{IsConsistent, summarize_trial-IsConsistent}
use distributed_model_server.Scripts.Download.{
  Bytes, Hasher, Files, write, Retrieved, stored, broken, Item, done, mismatch, model_files,
  update_chunks, verify_sha256, install, download_file, download_all,
}
use distributed_model_server.Scripts.Download.Install.{IsVerified, Each, are_apart}
use distributed_model_server.Scripts.Download.Every.{Ends, download_all-Ends}
use distributed_model_server.Scripts.Download.Supplied.{IsSupplied, download_all_succeeds}

abbrev latencies : List ℕ
latencies = 30 ∷ 10 ∷ 50 ∷ 20 ∷ 40 ∷ []

-- The ceiling of a share in percent times a length.
abbrev ceil_of : ℕ → ℕ → ℕ
ceil_of pct n = (pct * n + 99) / 100

abbrev doubles : Doubles
doubles = record {
  ceil_50 = ceil_of 50;
  ceil_95 = ceil_of 95;
  ceil_99 = ceil_of 99;
  ceil_50-le = λ n. omega arith;
  ceil_95-le = λ n. omega arith;
  round = λ x. x;
  round-le = λ x y h. h;
  seconds = λ n. n;
  divide = λ n sec. n;
  mean = λ xs. 0;
  in_mb = λ x. x;
}

p50_of_five : percentile (ceil_of 50) latencies ≡ 30
unfolding percentile sorted
p50_of_five = refl

p95_of_five : percentile (ceil_of 95) latencies ≡ 50
unfolding percentile sorted
p95_of_five = refl

percentile-IsAtPlace_example : IsAtPlace 5 latencies (percentile (ceil_of 95) latencies)
percentile-IsAtPlace_example = percentile-IsAtPlace (ceil_of 95) latencies (omega arith)

abbrev record_of : ℕ → ℕ → Option Text → Record
record_of status start wid = record {
  http_status = status;
  started_ns = start;
  duration_ms = 1000;
  worker_id = wid;
  attempts = some 1;
  queue_ms = 10;
  inference_ms = 20;
}

abbrev ok_record : Record
ok_record = record_of 200 5 (some (codes "worker-1"))

abbrev failed_records : List Record
failed_records = record_of 503 3000005 none ∷ []

summarize_trial-IsConsistent_example :
    (s : TrialSummary) × (summarize_trial doubles (ok_record ∷ failed_records) [] ≡ some s)
    × IsConsistent (ok_record ∷ failed_records) s
summarize_trial-IsConsistent_example =
    summarize_trial-IsConsistent doubles ok_record failed_records []

-- A hasher whose digest is the content itself.
abbrev plain : Hasher
plain = record {
  State = Bytes;
  init = [];
  update = λ s xs. s ++ xs;
  hexdigest = λ s. s;
  update-nil = λ s. append-nil s;
  update-append = λ s xs ys. append_assoc s xs ys;
}

abbrev no_files : Files
no_files path = none

-- A network that has the content which an item expects.
serve : List Item → Text → Retrieved
serve [] url = broken none
serve (item ∷ items) url = if text_eq item.url url then stored item.sha256 else serve items url

model_files-are_apart : are_apart model_files ≡ true
unfolding text_eq
model_files-are_apart = refl

download_all-Ends_example :
    Ends plain no_files model_files (download_all plain (serve model_files) model_files no_files)
download_all-Ends_example =
    download_all-Ends plain (serve model_files) model_files no_files model_files-are_apart

all_served : Each (IsSupplied plain (serve model_files) no_files) model_files
unfolding serve text_eq
all_served = (
  inr (_, refl, refl),
  (inr (_, refl, refl), (inr (_, refl, refl), (inr (_, refl, refl), (inr (_, refl, refl), tt)))),
)

serves_all_files :
    ((download_all plain (serve model_files) model_files no_files).0 ≡ done)
    × Each
        (IsVerified plain (download_all plain (serve model_files) model_files no_files).1)
        model_files
serves_all_files =
    download_all_succeeds plain (serve model_files) model_files no_files model_files-are_apart
      all_served

abbrev one_item : Item
one_item = record { path = codes "a.bin"; url = codes "u"; sha256 = codes "good" }

-- A wrong content is removed again and does not touch the file that is there.
wrong_content :
    (install plain one_item
      (stored (codes "bad"))
      (write (codes "a.bin") (some (codes "old")) no_files)).0
    ≡ mismatch (codes "u")
unfolding install verify_sha256 update_chunks text_eq
wrong_content = refl

-- Floats that are natural numbers, written in digits.
read_digits : ℕ → Text → Option ℕ
read_digits n [] = some n
read_digits n (c ∷ t) = if ltb 57 c then none else read_digits (10 * n + (c - 48)) t

abbrev naturals : Floats
naturals = record {
  Float = ℕ;
  Int = ℕ;
  parse = read_digits 0;
  scaled = λ n m. some (n * m);
  zero_float = 0;
  zero_int = 0;
}

parses_twelve_mebibytes :
    parse_bytes naturals (codes "12" ++ codes "MiB") ≡ int_of naturals (1024 * 1024) (some 12)
unfolding read_digits
parses_twelve_mebibytes =
    parse_bytes-unit naturals (codes "12") (codes "MiB") (codes "MIB") 1 (1024 * 1024) refl refl
      refl
