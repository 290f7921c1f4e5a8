-- ===== src/Scripts/Summary.antt =====
-- scripts/summarize_results.py: the percentiles, the counts and the summary of a trial. A record is a line
-- of the NDJSON file after `json.loads`. Its numbers that are floats are doubles that are not negative, by
-- their bits, whose order is that of the numbers; what the code computes with them is a parameter.
pub mod Percentile
pub mod Counts
pub mod Consistent
use distributed_model_server.Prelude.{
  ℕ, ◌+◌, ◌-◌, ◌≤◌, Text, codes, Bool, false, List, [], ◌∷◌, Option, none, some, map, ltb, leb,
  ◌==◌, if◌then◌else◌, length, get_elem?, filter_by, count_by, text_eq, decimal,
}
use distributed_model_server.Protocol.{Double}

abbrev pub insert_sorted : ℕ → List ℕ → List ℕ
insert_sorted x [] = x ∷ []
insert_sorted x (y ∷ ys) = let rest = insert_sorted x ys in if leb x y then x ∷ y ∷ ys else y ∷ rest

-- `sorted(data)`
unfoldable pub sorted : List ℕ → List ℕ
sorted [] = []
sorted (x ∷ xs) = insert_sorted x (sorted xs)

-- What the code computes with doubles. Multiplication and `round` keep the order.
pub record Floats : Type 0 where
  -- `math.ceil(pct * n)` for the shares 0.50, 0.95 and 0.99
  pub ceil_50 : ℕ → ℕ
  pub ceil_95 : ℕ → ℕ
  pub ceil_99 : ℕ → ℕ
  pub ceil_50-le : (n : ℕ) → ceil_50 n ≤ ceil_95 n
  pub ceil_95-le : (n : ℕ) → ceil_95 n ≤ ceil_99 n
  -- `round(x, 2)`
  pub round : Double → Double
  pub round-le : (x y : Double) → x ≤ y → round x ≤ round y
  -- `n / 1e9` and `n / sec`
  pub seconds : ℕ → Double
  pub divide : ℕ → Double → Double
  -- `sum(xs) / len(xs)` and `x / (1024 * 1024)`
  pub mean : List Double → Double
  pub in_mb : Double → Double

-- `max(0, min(k - 1, n - 1))` for a list that is not empty, with `k` the ceiling.
abbrev pub rank : ℕ → ℕ → ℕ
rank k n = let idx = k - 1 in if ltb idx n then idx else n - 1

abbrev pub item_or_zero : Option Double → Double
item_or_zero none = 0
item_or_zero (some v) = v

-- `percentile(data, pct)`, from the ceilings of the products of `pct` with a length.
unfoldable pub percentile : (ℕ → ℕ) → List Double → Double
unfolding sorted
percentile ceil [] = 0
percentile ceil (x ∷ xs) =
    item_or_zero (get_elem? (sorted (x ∷ xs)) (rank (ceil (length (x ∷ xs))) (length (x ∷ xs))))

-- A dict from texts to numbers, in the order of insertion.
abbrev pub Counts : Type 0
Counts = List (Text × ℕ)

-- `counts.get(key, 0)`
unfoldable pub get_count : Text → Counts → ℕ
get_count key [] = 0
get_count key ((k, n) ∷ counts) = if text_eq k key then n else get_count key counts

-- `counts[key] = n`
unfoldable pub set_count : Text → ℕ → Counts → Counts
set_count key n [] = (key, n) ∷ []
set_count key n ((k, m) ∷ counts) =
    let rest = set_count key n counts in if text_eq k key then (k, n) ∷ counts else (k, m) ∷ rest

-- `for key in keys: counts[key] = counts.get(key, 0) + 1`
unfoldable pub count_keys : List Text → Counts → Counts
unfolding get_count set_count
count_keys [] counts = counts
count_keys (key ∷ keys) counts = count_keys keys (set_count key (get_count key counts + 1) counts)

-- An absent key is `none`; so is a worker id of `null`.
pub record Record : Type 0 where
  pub http_status : ℕ
  pub started_ns : ℕ
  pub duration_ms : Double
  pub worker_id : Option Text
  pub attempts : Option ℕ
  pub queue_ms : Double
  pub inference_ms : Double

-- A row of the CSV file of resources.
pub record Sample : Type 0 where
  pub cpu_percent : Double
  pub memory_bytes : Double

pub record TrialSummary : Type 0 where
  pub total_requests : ℕ
  pub success_count : ℕ
  pub duration_sec : Double
  pub attempted_throughput : Double
  pub successful_throughput : Double
  pub p50_latency_ms : Double
  pub p95_latency_ms : Double
  pub p99_latency_ms : Double
  pub status_counts : Counts
  pub worker_counts : Counts
  pub retries_count : ℕ
  pub p50_queue_ms : Double
  pub p95_queue_ms : Double
  pub p50_inference_ms : Double
  pub p95_inference_ms : Double
  pub avg_cpu_percent : Double
  pub peak_mem_mb : Double

abbrev pub is_success : Record → Bool
is_success r = r.http_status == 200

abbrev pub successful : List Record → List Record
successful = filter_by is_success

abbrev pub min_from : ℕ → List ℕ → ℕ
min_from m [] = m
min_from m (x ∷ xs) = min_from (if ltb x m then x else m) xs

abbrev pub max_from : ℕ → List ℕ → ℕ
max_from m [] = m
max_from m (x ∷ xs) = max_from (if ltb m x then x else m) xs

-- `max(0.001, (max_start_ns - min_start_ns) / 1e9)`
abbrev pub trial_sec : Floats → ℕ → List ℕ → Double
trial_sec f start starts =
    let span = f.seconds (max_from start starts - min_from start starts) in
    if ltb 4562254508917369340 span then span else 4562254508917369340

-- `r.get("worker_id") or "unknown"`
abbrev pub or_unknown : Option Text → Text
or_unknown none = codes "unknown"
or_unknown (some []) = codes "unknown"
or_unknown (some (c ∷ t)) = c ∷ t

-- `r.get("attempts", 1) > 1`
abbrev more_than_one : Option ℕ → Bool
more_than_one none = false
more_than_one (some n) = ltb 1 n

abbrev average : Floats → List Double → Double
average f [] = 0
average f (x ∷ xs) = f.mean (x ∷ xs)

abbrev peak_mb : Floats → List Double → Double
peak_mb f [] = 0
peak_mb f (x ∷ xs) = f.in_mb (max_from x xs)

-- The summary of at least one record; `none` is the answer that there are no records. The samples are
-- those of the file of resources, none if there is no such file.
unfoldable pub summarize_trial : Floats → List Record → List Sample → Option TrialSummary
unfolding percentile count_keys
summarize_trial f [] samples = none
summarize_trial f (r ∷ rs) samples =
    let records = r ∷ rs in
    let total_sec = trial_sec f r.started_ns (map (λ q. q.started_ns) rs) in
    let good = successful (r ∷ rs) in
    let latencies = map (λ q. q.duration_ms) good in
    let queue_times = map (λ q. q.queue_ms) good in
    let inference_times = map (λ q. q.inference_ms) good in
    some (record {
      total_requests = length records;
      success_count = length good;
      duration_sec = f.round total_sec;
      attempted_throughput = f.round (f.divide (length records) total_sec);
      successful_throughput = f.round (f.divide (length good) total_sec);
      p50_latency_ms = f.round (percentile f.ceil_50 latencies);
      p95_latency_ms = f.round (percentile f.ceil_95 latencies);
      p99_latency_ms = f.round (percentile f.ceil_99 latencies);
      status_counts = count_keys (map (λ q. decimal q.http_status) records) [];
      worker_counts = count_keys (map (λ q. or_unknown q.worker_id) good) [];
      retries_count = count_by (λ q. more_than_one q.attempts) records;
      p50_queue_ms = f.round (percentile f.ceil_50 queue_times);
      p95_queue_ms = f.round (percentile f.ceil_95 queue_times);
      p50_inference_ms = f.round (percentile f.ceil_50 inference_times);
      p95_inference_ms = f.round (percentile f.ceil_95 inference_times);
      avg_cpu_percent = f.round (average f (map (λ s. s.cpu_percent) samples));
      peak_mem_mb = f.round (peak_mb f (map (λ s. s.memory_bytes) samples));
    })
