-- ===== src/Scripts/Summary/Consistent.antt =====
-- The numbers of a summary agree with the records and with one another.
use distributed_model_server.Prelude.{
  none, false, ℕ, ◌+◌, ◌≤◌, ◌≡◌, refl, ap, sym, ◌∙◌, Text, Bool, ◌&&◌, List, [], ◌∷◌, some, map,
  ltb, ◌==◌, ==_iff, if◌then◌else◌, inl, inr, Bool-cases, length, length-map, filter_by, count_by,
  text_eq, text_eq_iff, decimal, decimal-inj, arith,
}
use distributed_model_server.Protocol.{Double}
use distributed_model_server.Scripts.Summary.{
  Record, Sample, TrialSummary, get_count, count_keys, Floats, percentile, more_than_one,
  is_success, successful, or_unknown, summarize_trial,
}
use distributed_model_server.Scripts.Summary.Counts.{
  total, get_count-count_keys_nil, total-count_keys,
}
use distributed_model_server.Scripts.Summary.Percentile.{percentile_mono}

count_by-map {ℓ κ} :
    {A : Type ℓ} {B : Type κ} (f : A → B) (p : B → Bool) (xs : List A)
    → count_by p (map f xs) ≡ count_by (λ x. p (f x)) xs
count_by-map f p [] = refl
count_by-map f p (x ∷ xs) = ap (λ n. (if p (f x) then 1 else 0) + n) (count_by-map f p xs)

count_by-ext {ℓ} :
    {A : Type ℓ} (p q : A → Bool) (xs : List A)
    → ((x : A) → p x ≡ q x)
    → count_by p xs ≡ count_by q xs
count_by-ext p q [] h = refl
count_by-ext p q (x ∷ xs) h = rw (h x, count_by-ext p q xs h) refl

count_by-filter_by {ℓ} :
    {A : Type ℓ} (p q : A → Bool) (xs : List A)
    → count_by q (filter_by p xs) ≡ count_by (λ x. p x && q x) xs
count_by-filter_by p q [] = refl
count_by-filter_by p q (x ∷ xs) = ground (arith, count_by-filter_by p q xs)

length-filter_by {ℓ} :
    {A : Type ℓ} (p : A → Bool) (xs : List A) → length (filter_by p xs) ≡ count_by p xs
length-filter_by p [] = refl
length-filter_by p (x ∷ xs) = ground (arith, length-filter_by p xs)

text_eq-decimal : (m n : ℕ) → text_eq (decimal m) (decimal n) ≡ (m == n)
text_eq-decimal m n = elim (Bool-cases (m == n)) [
  | inl e ↦ rw e ((text_eq_iff _ _).1 (ap decimal ((==_iff m n).0 e)))
  | inr d ↦ elim (Bool-cases (text_eq (decimal m) (decimal n))) [
    | inl t ↦
        let same : m ≡ n = decimal-inj m n ((text_eq_iff _ _).0 t) in absurd (ground (arith, same))
    | inr f ↦ f ∙ sym d
  ]
]

counted {ℓ} :
    {A : Type ℓ} (f : A → Text) (j : Text) (xs : List A)
    → get_count j (count_keys (map f xs) []) ≡ count_by (λ x. text_eq (f x) j) xs
counted f j xs = get_count-count_keys_nil j (map f xs) ∙ count_by-map f (λ key. text_eq key j) xs

keys_total {ℓ} :
    {A : Type ℓ} (f : A → Text) (xs : List A) → total (count_keys (map f xs) []) ≡ length xs
keys_total f xs = omega (arith, total-count_keys (map f xs) [], length-map xs f)

status_count :
    (st : ℕ) (rs : List Record)
    → get_count (decimal st) (count_keys (map (λ q. decimal q.http_status) rs) [])
      ≡ count_by (λ q. q.http_status == st) rs
status_count st rs =
    counted (λ (q : Record). decimal q.http_status) (decimal st) rs
    ∙ count_by-ext (λ (q : Record). text_eq (decimal q.http_status) (decimal st)) _ rs
        (λ q. text_eq-decimal q.http_status st)

worker_count :
    (w : Text) (rs : List Record)
    → get_count w (count_keys (map (λ q. or_unknown q.worker_id) (successful rs)) [])
      ≡ count_by (λ q. is_success q && text_eq (or_unknown q.worker_id) w) rs
worker_count w rs =
    counted (λ (q : Record). or_unknown q.worker_id) w (successful rs)
    ∙ count_by-filter_by is_success (λ (q : Record). text_eq (or_unknown q.worker_id) w) rs

in_order :
    (f : Floats) (low high : ℕ → ℕ) (value : Record → Double) (rs : List Record)
    → ((n : ℕ) → low n ≤ high n)
    → f.round (percentile low (map value (successful rs)))
      ≤ f.round (percentile high (map value (successful rs)))
in_order f low high value rs h =
    f.round-le _ _ (percentile_mono low high (map value (successful rs)) h)

retries_lem :
    (rs : List Record)
    → count_by (λ q. more_than_one q.attempts) rs
      ≡ count_by (λ q. elim q.attempts [ none ↦ false | some n ↦ ltb 1 n ]) rs
retries_lem rs = refl

pub record IsConsistent (rs : List Record) (s : TrialSummary) : Type 0 where
  pub all_counted : s.total_requests ≡ length rs
  pub statuses_total : total s.status_counts ≡ s.total_requests
  pub statuses :
      (st : ℕ) → get_count (decimal st) s.status_counts ≡ count_by (λ q. q.http_status == st) rs
  pub successes : get_count (decimal 200) s.status_counts ≡ s.success_count
  pub workers_total : total s.worker_counts ≡ s.success_count
  pub workers :
      (w : Text)
      → get_count w s.worker_counts
        ≡ count_by (λ q. is_success q && text_eq (or_unknown q.worker_id) w) rs
  pub latencies : (s.p50_latency_ms ≤ s.p95_latency_ms) × (s.p95_latency_ms ≤ s.p99_latency_ms)
  pub queue_times : s.p50_queue_ms ≤ s.p95_queue_ms
  pub inference_times : s.p50_inference_ms ≤ s.p95_inference_ms
  pub retries :
      s.retries_count ≡ count_by (λ q. elim q.attempts [ none ↦ false | some n ↦ ltb 1 n ]) rs

-- The summary of at least one record counts every record under its status and every successful one under
-- its worker, so that the counts add up to the requests and to the successes; it counts the records with
-- more than one attempt; and its rounded percentiles are in order.
pub summarize_trial-IsConsistent :
    (f : Floats) (r : Record) (rs : List Record) (samples : List Sample)
    → (s : TrialSummary) × (summarize_trial f (r ∷ rs) samples ≡ some s) × IsConsistent (r ∷ rs) s
unfolding summarize_trial
summarize_trial-IsConsistent f r rs samples = (
  _,
  refl,
  record {
    all_counted = refl;
    statuses_total = keys_total (λ q. decimal q.http_status) (r ∷ rs);
    statuses = λ st. status_count st (r ∷ rs);
    successes = status_count 200 (r ∷ rs) ∙ sym (length-filter_by is_success (r ∷ rs));
    workers_total = keys_total (λ q. or_unknown q.worker_id) (successful (r ∷ rs));
    workers = λ w. worker_count w (r ∷ rs);
    latencies = (
      in_order f f.ceil_50 f.ceil_95 (λ q. q.duration_ms) (r ∷ rs) f.ceil_50-le,
      in_order f f.ceil_95 f.ceil_99 (λ q. q.duration_ms) (r ∷ rs) f.ceil_95-le,
    );
    queue_times = in_order f f.ceil_50 f.ceil_95 (λ q. q.queue_ms) (r ∷ rs) f.ceil_50-le;
    inference_times = in_order f f.ceil_50 f.ceil_95 (λ q. q.inference_ms) (r ∷ rs) f.ceil_50-le;
    retries = retries_lem (r ∷ rs);
  },
)
