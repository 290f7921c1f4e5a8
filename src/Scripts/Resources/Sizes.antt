-- ===== src/Scripts/Resources/Sizes.antt =====
-- A number with a unit behind it is read as the number times the unit's size.
use mathlib.Core.List.{append-nil}
use distributed_model_server.Prelude.{
  ℕ, ◌-◌, ◌≡◌, refl, ap, ◌∙◌, Text, codes, Bool, true, false, not, ◌&&◌, ◌||◌, List, [], ◌∷◌, ◌++◌,
  Option, none, some, leb, ◌==◌, if◌then◌else◌, get_elem?, All, All-get_elem?, text_eq, starts_with,
  all_by, all_by-append, &&-eq-true, arith,
}
use distributed_model_server.Gateway.Config.{is_space, push_front, lstrip, rstrip, strip}
use distributed_model_server.Logging.{upper}
use distributed_model_server.Scripts.Resources.{
  Floats, ends_with, remove, multipliers, int_of, with_units, parse_bytes,
}

-- A character of a decimal number.
abbrev pub is_number_char : ℕ → Bool
is_number_char c = (leb 48 c && leb c 57) || (c == 46)

abbrev no_space : ℕ → Bool
no_space c = not (is_space c)

rstrip_id : (t : Text) → all_by no_space t ≡ true → rstrip t ≡ t
unfolding rstrip
rstrip_id [] h = refl
rstrip_id (c ∷ t) h =
    let parts = &&-eq-true (no_space c) _ h in rw (rstrip_id t parts.1) (push_front_id c t parts.0)
  where
    push_front_id : (d : ℕ) (u : Text) → no_space d ≡ true → push_front d u ≡ d ∷ u
    push_front_id d [] e = ground arith
    push_front_id d (x ∷ u) e = refl

strip_id : (t : Text) → all_by no_space t ≡ true → strip t ≡ t
unfolding strip lstrip
strip_id [] h = rstrip_id [] refl
strip_id (c ∷ t) h =
    let parts = &&-eq-true (no_space c) _ h in
    let e : is_space c ≡ false = ground arith in rw e (rstrip_id (c ∷ t) h)

number-no_space : (t : Text) → all_by is_number_char t ≡ true → all_by no_space t ≡ true
number-no_space [] h = refl
number-no_space (c ∷ t) h =
    let parts = &&-eq-true (is_number_char c) _ h in
    let first : no_space c ≡ true = ground arith in rw (first, number-no_space t parts.1) refl

upper-number : (num u : Text) → all_by is_number_char num ≡ true → upper (num ++ u) ≡ num ++ upper u
upper-number [] u h = refl
upper-number (c ∷ num) u h =
    let parts = &&-eq-true (is_number_char c) _ h in
    let same : (leb 97 c && leb c 122) ≡ false = ground arith in
    rw (same, upper-number num u parts.1) refl

abbrev is_letter : ℕ → Bool
is_letter c = leb 65 c && leb c 90

upper-letters-no_space : (u : Text) → all_by is_letter (upper u) ≡ true → all_by no_space u ≡ true
upper-letters-no_space [] h = refl
upper-letters-no_space (c ∷ u) h =
    let parts = &&-eq-true (is_letter (if leb 97 c && leb c 122 then c - 32 else c)) _ h in
    let first : no_space c ≡ true = ground arith in
    rw (first, upper-letters-no_space u parts.1) refl

-- What the tests at each character of the number come to for a unit that begins with a letter.
ends_with-number :
    (num u p : Text) (x : ℕ)
    → all_by is_number_char num ≡ true
    → is_letter x ≡ true
    → ends_with (num ++ u) (x ∷ p) ≡ ends_with u (x ∷ p)
unfolding ends_with text_eq
ends_with-number [] u p x h l = refl
ends_with-number (c ∷ num) u p x h l =
    let parts = &&-eq-true (is_number_char c) _ h in
    let differ : (c == x) ≡ false = ground arith in rw differ (ends_with-number num u p x parts.1 l)

remove-number :
    (num u p : Text) (x : ℕ)
    → all_by is_number_char num ≡ true
    → is_letter x ≡ true
    → remove (x ∷ p) 0 (num ++ u) ≡ num ++ remove (x ∷ p) 0 u
unfolding remove starts_with
remove-number [] u p x h l = refl
remove-number (c ∷ num) u p x h l =
    let parts = &&-eq-true (is_number_char c) _ h in
    let differ : (c == x) ≡ false = ground arith in
    rw (differ, remove-number num u p x parts.1 l) refl

abbrev begins_with_letter : Text → Bool
begins_with_letter [] = false
begins_with_letter (c ∷ t) = is_letter c

module _ (f : Floats) (num : Text) where
  -- The branches for a number with `v` behind it, decided by `v` alone.
  abbrev read_units : List (Text × ℕ) → Text → Option f.Int
  unfolding ends_with remove text_eq starts_with
  read_units [] v = some (elim (int_of f 1 (f.parse (num ++ v))) [ none ↦ f.zero_int | some n ↦ n ])
  read_units ((unit, mult) ∷ units) v =
      let other = read_units units v in
      if ends_with v unit then int_of f mult (f.parse (strip (num ++ remove unit 0 v))) else other

  with_units-read_units :
      (units : List (Text × ℕ)) (v : Text)
      → all_by is_number_char num ≡ true
      → all_by (λ p. begins_with_letter p.0) units ≡ true
      → with_units f units (num ++ v) ≡ read_units units v
  unfolding with_units read_units
  with_units-read_units [] v h b = refl
  with_units-read_units (([], mult) ∷ units) v h b = cc
  with_units-read_units (((x ∷ p), mult) ∷ units) v h b =
      let parts = &&-eq-true (is_letter x) _ b in
      rw
        (
          ends_with-number num v p x h parts.0,
          remove-number num v p x h parts.0,
          with_units-read_units units v h parts.1,
        )
        refl

  strip-number : all_by is_number_char num ≡ true → strip (num ++ []) ≡ num
  strip-number h = rw (append-nil num) (strip_id num (number-no_space num h))

  Reads : Text × ℕ → Type 0
  Reads p = with_units f multipliers (num ++ p.0) ≡ int_of f p.1 (f.parse num)

  reads :
      (p : Text × ℕ)
      → all_by is_number_char num ≡ true
      → read_units multipliers p.0 ≡ int_of f p.1 (f.parse (strip (num ++ [])))
      → Reads p
  unfolding Reads
  reads p h e =
      with_units-read_units multipliers p.0 h refl
      ∙ e
      ∙ ap (λ t. int_of f p.1 (f.parse t)) (strip-number h)

  All-Reads : all_by is_number_char num ≡ true → All Reads multipliers
  unfolding read_units
  All-Reads h = (
    reads (codes "KIB", _) h refl,
    (
      reads (codes "MIB", _) h refl,
      (
        reads (codes "GIB", _) h refl,
        (
          reads (codes "KB", _) h refl,
          (
            reads (codes "MB", _) h refl,
            (reads (codes "GB", _) h refl, (reads (codes "B", _) h refl, tt)),
          ),
        ),
      ),
    ),
  )

units-letters : All (λ p. all_by is_letter p.0 ≡ true) multipliers
units-letters = (refl, (refl, (refl, (refl, (refl, (refl, (refl, tt)))))))

-- A decimal number with one of the units behind it, in letters of either case, is read as the number times
-- the size of just this unit.
pub parse_bytes-unit :
    (f : Floats) (num u unit : Text) (i mult : ℕ)
    → all_by is_number_char num ≡ true
    → get_elem? multipliers i ≡ some (unit, mult)
    → upper u ≡ unit
    → parse_bytes f (num ++ u) ≡ int_of f mult (f.parse num)
unfolding parse_bytes
parse_bytes-unit f num u unit i mult h e same =
    let letters : all_by is_letter (upper u) ≡ true = rw same (
      All-get_elem? (λ p. all_by is_letter p.0 ≡ true) multipliers i (unit, mult) units-letters
        e) in
    let no_spaces =
      all_by-append no_space num u (number-no_space num h) (upper-letters-no_space u letters) in
    let upper_case : upper (strip (num ++ u)) ≡ num ++ unit =
      rw (strip_id (num ++ u) no_spaces, upper-number num u h, same) refl in
    ap (λ t. with_units f multipliers t) upper_case
    ∙ All-get_elem?
        (λ (p : Text × ℕ). with_units f multipliers (num ++ p.0) ≡ int_of f p.1 (f.parse num))
        multipliers i (unit, mult) (unfold Reads in All-Reads f num h) e
