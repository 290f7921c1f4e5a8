-- ===== src/Logging/Tests.antt =====
-- A log line with a field that is dropped.
use distributed_model_server.Prelude.{
  ◌≡◌, refl, text_eq, Text, codes, List, [], ◌∷◌, Option, none, some,
}
use distributed_model_server.Logging.{
  log, AllAllowed, get_field, is_allowed, is_parameter, severity,
}
use distributed_model_server.Logging.Kept.{log-get_field}

abbrev fields : List (Text × Option Text)
fields =
    (codes "worker_id", some (codes "w1"))
    ∷ (codes "port", some (codes "50051"))
    ∷ (codes "attempt", none)
    ∷ []

log-get_field_example :
    (line : List (Text × Text)) × (log
        (λ t. t)
        (codes "worker")
        (codes "now")
        (codes "info")
        (codes "starting")
        fields
      ≡ some (severity (codes "info"), line))
    × AllAllowed line
    × (get_field (codes "worker_id") line ≡ some (codes "w1"))
unfolding is_allowed is_parameter text_eq
log-get_field_example =
    log-get_field (λ t. t) (codes "worker") (codes "now") (codes "info") (codes "starting") []
      ((codes "port", some (codes "50051")) ∷ (codes "attempt", none) ∷ []) (codes "worker_id")
      (codes "w1") refl refl refl

-- `log("info", "starting", event="…")` raises a TypeError.
event_as_keyword :
    log
      (λ t. t)
      (codes "worker")
      (codes "now")
      (codes "info")
      (codes "starting")
      ((codes "event", some (codes "again")) ∷ [])
    ≡ none
unfolding log is_parameter text_eq
event_as_keyword = refl
