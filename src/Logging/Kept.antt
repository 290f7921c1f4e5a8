-- ===== src/Logging/Kept.antt =====
-- What a log line holds under a key, whatever else is passed.
use distributed_model_server.Prelude.{
  ◌≡◌, refl, ◌∙◌, ap, Text, Bool, true, false, not, &&-eq-true, all_by, any_by, List, [], ◌∷◌, ◌++◌,
  Option, none, some, text_eq, text_eq_refl, text_eq→eq, if_cases, if◌then◌else◌, arith,
}
use distributed_model_server.Logging.{
  is_allowed, set_field, add_field, add_fields, get_field, log, AllAllowed, make_record-AllAllowed,
  make_record, is_parameter, severity,
}

module _ {V : Type 0} where
  get_field-set_field :
      (k : Text) (v : V) (ps : List (Text × V)) → get_field k (set_field k v ps) ≡ some v
  unfolding get_field set_field
  get_field-set_field k v [] = rw (text_eq_refl k) refl
  get_field-set_field k v (p ∷ ps) =
      if_cases (λ qs. get_field k qs ≡ some v) (text_eq p.0 k) (λ e. rw e refl)
        (λ e. rw e (get_field-set_field k v ps))

  get_field-set_field-ne :
      (k j : Text) (v : V) (ps : List (Text × V))
      → text_eq j k ≡ false
      → get_field k (set_field j v ps) ≡ get_field k ps
  unfolding get_field set_field
  get_field-set_field-ne k j v [] n = rw n refl
  get_field-set_field-ne k j v (p ∷ ps) n =
      if_cases (λ qs. get_field k qs ≡ get_field k (p ∷ ps)) (text_eq p.0 j)
        (λ e. let other : text_eq p.0 k ≡ false = rw (text_eq→eq p.0 j e) n in rw other refl)
        (λ _. ap (λ r. if text_eq p.0 k then some p.1 else r) (get_field-set_field-ne k j v ps n))

  add_fields-append :
      (xs ys : List (Text × Option V)) (entry : List (Text × V))
      → add_fields (xs ++ ys) entry ≡ add_fields ys (add_fields xs entry)
  unfolding add_fields
  add_fields-append [] ys entry = refl
  add_fields-append (x ∷ xs) ys entry = add_fields-append xs ys (add_field x.0 x.1 entry)

  -- The key is not passed.
  abbrev pub is_absent : Text → List (Text × Option V) → Bool
  is_absent k kwargs = all_by (λ p. not (text_eq p.0 k)) kwargs

  get_field-add_field-ne :
      (k j : Text) (o : Option V) (entry : List (Text × V))
      → text_eq j k ≡ false
      → get_field k (add_field j o entry) ≡ get_field k entry
  get_field-add_field-ne k j none entry n = refl
  get_field-add_field-ne k j (some v) entry n =
      if_cases (λ qs. get_field k qs ≡ get_field k entry) (is_allowed j)
        (λ _. get_field-set_field-ne k j v entry n) (λ _. refl)

  get_field-add_fields-absent :
      (k : Text) (kwargs : List (Text × Option V)) (entry : List (Text × V))
      → is_absent k kwargs ≡ true
      → get_field k (add_fields kwargs entry) ≡ get_field k entry
  unfolding add_fields
  get_field-add_fields-absent k [] entry a = refl
  get_field-add_fields-absent k (p ∷ kwargs) entry a =
      let parts = &&-eq-true (not (text_eq p.0 k)) (is_absent k kwargs) a in
      get_field-add_fields-absent k kwargs (add_field p.0 p.1 entry) parts.1
      ∙ get_field-add_field-ne k p.0 p.1 entry (ground (arith, parts.0))

  get_field-add_fields :
      (before after : List (Text × Option V)) (k : Text) (v : V) (entry : List (Text × V))
      → is_allowed k ≡ true
      → is_absent k after ≡ true
      → get_field k (add_fields (before ++ (k, some v) ∷ after) entry) ≡ some v
  unfolding add_fields
  get_field-add_fields before after k v entry h a =
      rw (add_fields-append before ((k, some v) ∷ after) entry) (
        get_field-add_fields-absent k after _ a
        ∙ rw h (get_field-set_field k v (add_fields before entry)))

-- A call of `log` without a keyword that is the name of one of its parameters writes a line, of the severity
-- of its level: an allowed field that is passed with a value, and not passed again after that, is in the line
-- with this value, also where the line starts with another value for it; and the line has no other fields
-- than the allowed ones.
pub log-get_field :
    {V : Type 0} (text : Text → V) (service timestamp level event : Text)
    (before after : List (Text × Option V)) (k : Text) (v : V)
    → any_by (λ p. is_parameter p.0) (before ++ (k, some v) ∷ after) ≡ false
    → is_allowed k ≡ true
    → is_absent k after ≡ true
    → (line : List (Text × V)) × (log text service timestamp level event
          (before ++ (k, some v) ∷ after)
        ≡ some (severity level, line))
      × AllAllowed line
      × (get_field k line ≡ some v)
unfolding log make_record
log-get_field text service timestamp level event before after k v e h a = (
  make_record text service timestamp level event (before ++ (k, some v) ∷ after),
  rw e refl,
  make_record-AllAllowed text service timestamp level event (before ++ (k, some v) ∷ after),
  get_field-add_fields before after k v _ h a,
)
