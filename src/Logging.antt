-- ===== src/Logging.antt =====
-- shared/logging.py: the fields of a log line. `V` is the type of the values, `none` is Python's `None`,
-- and `timestamp` is the text that `time.strftime` gave.
pub mod Kept
mod Tests
use distributed_model_server.Prelude.{
  ℕ, ◌-◌, ◌≡◌, refl, ◌⊎◌, inl, inr, Text, codes, Bool, true, false, ◌&&◌, ◌||◌, List, [], ◌∷◌, map,
  Option, none, some, text_eq, text_eq_refl, text_eq→eq, leb, any_by, arith, Bool-cases, if_cases,
  if◌then◌else◌,
}

abbrev pub allowed_log_fields : List Text
allowed_log_fields =
    codes "timestamp"
    ∷ codes "level"
    ∷ codes "service"
    ∷ codes "event"
    ∷ codes "request_id"
    ∷ codes "worker_id"
    ∷ codes "model_version"
    ∷ codes "attempt"
    ∷ codes "error_code"
    ∷ codes "duration_ms"
    ∷ codes "queue_depth"
    ∷ codes "batch_requests"
    ∷ codes "batch_items"
    ∷ []

-- `k in ALLOWED_LOG_FIELDS`
unfoldable pub is_allowed : Text → Bool
unfolding text_eq
is_allowed k = any_by (text_eq k) allowed_log_fields

module _ {V : Type 0} where
  -- `record[k] = v`
  unfoldable pub set_field : Text → V → List (Text × V) → List (Text × V)
  set_field k v [] = (k, v) ∷ []
  set_field k v (p ∷ ps) =
      let rest = set_field k v ps in if text_eq p.0 k then (p.0, v) ∷ ps else p ∷ rest

  abbrev pub add_field : Text → Option V → List (Text × V) → List (Text × V)
  add_field k none entry = entry
  add_field k (some v) entry = if is_allowed k then set_field k v entry else entry

  -- `for k, v in kwargs.items()`
  unfoldable pub add_fields : List (Text × Option V) → List (Text × V) → List (Text × V)
  unfolding set_field is_allowed
  add_fields [] entry = entry
  add_fields (p ∷ kwargs) entry = add_fields kwargs (add_field p.0 p.1 entry)

  -- `get` on the dict of a line.
  unfoldable pub get_field : Text → List (Text × V) → Option V
  get_field k [] = none
  get_field k (p ∷ ps) = if text_eq p.0 k then some p.1 else get_field k ps

-- The names of the parameters of `log`, which are no keys of its `kwargs`.
unfoldable pub is_parameter : Text → Bool
unfolding text_eq
is_parameter k = any_by (text_eq k) (codes "self" ∷ codes "level" ∷ codes "event" ∷ [])

-- `str.upper` on letters of ASCII.
abbrev pub upper : Text → Text
upper t = map (λ c. if leb 97 c && leb c 122 then c - 32 else c) t

-- The method of the standard logger that writes the line.
pub data Severity : Type 0 where
  error warning info : Severity

unfoldable pub severity : Text → Severity
unfolding text_eq
severity level =
    if text_eq (upper level) (codes "ERROR")
    then error
    else if text_eq (upper level) (codes "WARNING")
    then warning
    else info

module _ {V : Type 0} (text : Text → V) where
  -- The line that `log` builds.
  unfoldable pub make_record : Text → Text → Text → Text → List (Text × Option V) → List (Text × V)
  unfolding add_fields
  make_record service timestamp level event kwargs = add_fields kwargs (
      (codes "timestamp", text timestamp)
      ∷ (codes "level", text (upper level))
      ∷ (codes "service", text service)
      ∷ (codes "event", text event)
      ∷ [])

  -- `log(level, event, **kwargs)` before `json.dumps`: the severity and the fields of the line, or `none`
  -- for the TypeError of a keyword that is the name of a parameter.
  unfoldable pub log :
      Text → Text → Text → Text → List (Text × Option V) → Option (Severity × List (Text × V))
  unfolding make_record severity is_parameter
  log service timestamp level event kwargs =
      if any_by (λ p. is_parameter p.0) kwargs
      then none
      else some (severity level, make_record service timestamp level event kwargs)

module _ {V : Type 0} where
  -- Every key is allowed.
  abbrev pub AllAllowed : List (Text × V) → Type 0
  AllAllowed [] = Unit
  AllAllowed (p ∷ ps) = (is_allowed p.0 ≡ true) × AllAllowed ps

  set_field-AllAllowed :
      (k : Text) (v : V) (ps : List (Text × V))
      → is_allowed k ≡ true
      → AllAllowed ps
      → AllAllowed (set_field k v ps)
  unfolding set_field
  set_field-AllAllowed k v [] h a = (h, tt)
  set_field-AllAllowed k v (p ∷ ps) h a =
      if_cases AllAllowed (text_eq p.0 k) (λ _. a) (λ _. (a.0, set_field-AllAllowed k v ps h a.1))

  add_field-AllAllowed :
      (k : Text) (v : Option V) (ps : List (Text × V))
      → AllAllowed ps
      → AllAllowed (add_field k v ps)
  add_field-AllAllowed k none ps a = a
  add_field-AllAllowed k (some v) ps a =
      if_cases AllAllowed (is_allowed k) (λ h. set_field-AllAllowed k v ps h a) (λ _. a)

  add_fields-AllAllowed :
      (kwargs : List (Text × Option V)) (ps : List (Text × V))
      → AllAllowed ps
      → AllAllowed (add_fields kwargs ps)
  unfolding add_fields
  add_fields-AllAllowed [] ps a = a
  add_fields-AllAllowed (p ∷ kwargs) ps a =
      add_fields-AllAllowed kwargs (add_field p.0 p.1 ps) (add_field-AllAllowed p.0 p.1 ps a)

pub make_record-AllAllowed :
    {V : Type 0} (text : Text → V) (service timestamp level event : Text)
    (kwargs : List (Text × Option V))
    → AllAllowed (make_record text service timestamp level event kwargs)
unfolding make_record is_allowed text_eq
make_record-AllAllowed text service timestamp level event kwargs =
    add_fields-AllAllowed kwargs _ (refl, (refl, (refl, (refl, tt))))
