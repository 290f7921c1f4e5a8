-- ===== src/Gateway/Config.antt =====
-- gateway/config.py: the settings of the gateway and the reading of the list of workers. A field holds
-- what its environment variable or its default gave; numbers are taken to be non-negative.
pub mod Printed
mod Tests
use distributed_model_server.Prelude.{
  ℕ, Text, Bool, ◌&&◌, ◌||◌, List, [], ◌∷◌, Option, none, some, ◌==◌, leb, text_eq, if◌then◌else◌,
}

pub record GatewayConfig : Type 0 where
  pub model_version : Text
  pub model_sha256 : Text
  pub http_max_body_bytes : ℕ
  pub max_inputs_per_request : ℕ
  pub max_input_bytes : ℕ
  pub max_total_input_bytes : ℕ
  pub min_timeout_ms : ℕ
  pub max_timeout_ms : ℕ
  pub default_timeout_ms : ℕ
  pub gateway_max_outstanding_per_worker : ℕ
  pub health_interval_ms : ℕ
  pub health_timeout_ms : ℕ
  pub health_failure_threshold : ℕ
  pub health_recovery_threshold : ℕ
  pub min_retry_budget_ms : ℕ
  pub workers : List (Text × Text)

-- `parsed[key] = value`: a key that is there keeps its place.
unfoldable pub set_item : Text → Text → List (Text × Text) → List (Text × Text)
set_item key value [] = (key, value) ∷ []
set_item key value (p ∷ ps) =
    let rest = set_item key value ps in if text_eq p.0 key then (p.0, value) ∷ ps else p ∷ rest

-- The code points that `str.isspace` accepts.
abbrev pub is_space : ℕ → Bool
is_space n =
    (leb 9 n && leb n 13)
    || ((leb 28 n && leb n 32)
        || ((n == 133)
            || ((n == 160)
                || ((n == 5760)
                    || ((leb 8192 n && leb n 8202)
                        || ((n == 8232)
                            || ((n == 8233) || ((n == 8239) || ((n == 8287) || (n == 12288))))))))))

unfoldable pub lstrip : Text → Text
lstrip [] = []
lstrip (c ∷ t) = if is_space c then lstrip t else c ∷ t

-- A character before a text that is stripped on the right.
abbrev pub push_front : ℕ → Text → Text
push_front c [] = if is_space c then [] else c ∷ []
push_front c (d ∷ t) = c ∷ d ∷ t

unfoldable pub rstrip : Text → Text
rstrip [] = []
rstrip (c ∷ t) = push_front c (rstrip t)

unfoldable pub strip : Text → Text
unfolding lstrip rstrip
strip t = rstrip (lstrip t)

abbrev pub add_char : ℕ → List Text → List Text
add_char c [] = (c ∷ []) ∷ []
add_char c (t ∷ ts) = (c ∷ t) ∷ ts

-- `t.split(",")`
unfoldable pub split_commas : Text → List Text
split_commas [] = [] ∷ []
split_commas (c ∷ t) = let rest = split_commas t in if c == 44 then [] ∷ rest else add_char c rest

-- `t.split("=", 1)` if there is a `=` in it.
unfoldable pub split_equals : Text → Option (Text × Text)
split_equals [] = none
split_equals (c ∷ t) =
    if c == 61
    then some ([], t)
    else elim (split_equals t) [ none ↦ none | some (l, r) ↦ some (c ∷ l, r) ]

-- One round of the loop, with the stripped item.
abbrev pub add_item : Text → List (Text × Text) → List (Text × Text)
add_item [] parsed = parsed
add_item (c ∷ t) parsed = elim (split_equals (c ∷ t)) [
  | none ↦ set_item (c ∷ t) (c ∷ t) parsed
  | some (wid, addr) ↦ set_item (strip wid) (strip addr) parsed
]

unfoldable pub add_items : List Text → List (Text × Text) → List (Text × Text)
unfolding strip split_equals set_item
add_items [] parsed = parsed
add_items (item ∷ items) parsed = add_items items (add_item (strip item) parsed)

-- `__post_init__`: the value of `workers` after it, from `workers` and `workers_raw`.
unfoldable pub post_init : List (Text × Text) → Text → List (Text × Text)
unfolding add_items split_commas
post_init (w ∷ ws) raw = w ∷ ws
post_init [] [] = []
post_init [] (c ∷ raw) = add_items (split_commas (c ∷ raw)) []
