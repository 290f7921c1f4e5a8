-- ===== src/Gateway/App/RequestId.antt =====
-- gateway/app.py: `REQUEST_ID_REGEX.match`, a matcher for `^[A-Za-z0-9._-]{1,64}$`.
use distributed_model_server.Prelude.{
  ℕ, zero, suc, ◌≤◌, ◌≡◌, refl, ap, ◌⊎◌, inl, inr, ◌↔◌, Text, Bool, true, false, ◌&&◌, ◌||◌, [],
  ◌∷◌, ◌++◌, length, leb, ◌==◌, arith, &&-eq-true, Bool-cases,
}

-- A code point in `[A-Za-z0-9._-]`.
abbrev pub in_class : ℕ → Bool
in_class c =
    (leb 65 c && leb c 90)
    || ((leb 97 c && leb c 122)
        || ((leb 48 c && leb c 57) || ((c == 46) || ((c == 95) || (c == 45)))))

-- `$` holds at the end of the string and before a newline that ends it.
abbrev pub at_end : Text → Bool
at_end [] = true
at_end (c ∷ []) = c == 10
at_end (c ∷ d ∷ t) = false

-- Up to `n` more repetitions of the class, and then `$`.
unfoldable pub repeat_class : ℕ → Text → Bool
repeat_class n [] = true
repeat_class zero (c ∷ t) = at_end (c ∷ t)
repeat_class (suc n) (c ∷ t) = at_end (c ∷ t) || (in_class c && repeat_class n t)

unfoldable pub request_id_matches : Text → Bool
unfolding repeat_class
request_id_matches [] = false
request_id_matches (c ∷ t) = in_class c && repeat_class 63 t

abbrev pub AllInClass : Text → Type 0
AllInClass [] = Unit
AllInClass (c ∷ t) = (in_class c ≡ true) × AllInClass t

-- One to 64 characters of the class, and behind them nothing or a newline.
pub record IsRequestId (t : Text) : Type 0 where
  pub body : Text
  pub ending : Text
  pub parts : t ≡ body ++ ending
  pub in_alphabet : AllInClass body
  pub nonempty : 1 ≤ length body
  pub short : length body ≤ 64
  pub newline : (ending ≡ []) ⊎ (ending ≡ 10 ∷ [])

-- What is left of such a string within it.
record Repeats (n : ℕ) (t : Text) : Type 0 where
  body : Text
  ending : Text
  parts : t ≡ body ++ ending
  in_alphabet : AllInClass body
  short : length body ≤ n
  newline : (ending ≡ []) ⊎ (ending ≡ 10 ∷ [])

at_end_cases : (t : Text) → at_end t ≡ true → (t ≡ []) ⊎ (t ≡ 10 ∷ [])
at_end_cases [] h = inl refl
at_end_cases (c ∷ []) h = let e : c ≡ 10 = ground arith in inr (ap (λ x. x ∷ []) e)
at_end_cases (c ∷ d ∷ t) h = cc

at_end-Repeats : (n : ℕ) (t : Text) → at_end t ≡ true → Repeats n t
at_end-Repeats n t h = record {
  body = [];
  ending = t;
  parts = refl;
  in_alphabet = tt;
  short = omega arith;
  newline = at_end_cases t h;
}

repeat_class-Repeats : (n : ℕ) (t : Text) → repeat_class n t ≡ true → Repeats n t
unfolding repeat_class
repeat_class-Repeats n [] h = at_end-Repeats n [] refl
repeat_class-Repeats zero (c ∷ t) h = at_end-Repeats zero (c ∷ t) h
repeat_class-Repeats (suc n) (c ∷ t) h = elim (Bool-cases (at_end (c ∷ t))) [
  | inl e ↦ at_end-Repeats (suc n) (c ∷ t) e
  | inr e ↦
      let (hc, ht) = &&-eq-true (in_class c) (repeat_class n t) (rw e at h) in
      let r = repeat_class-Repeats n t ht in
      record {
        body = c ∷ r.body;
        ending = r.ending;
        parts = ap (λ u. c ∷ u) r.parts;
        in_alphabet = (hc, r.in_alphabet);
        short = omega (arith, r.short);
        newline = r.newline;
      }
]

at_end-repeat_class : (n : ℕ) (t : Text) → at_end t ≡ true → repeat_class n t ≡ true
unfolding repeat_class
at_end-repeat_class n [] h = refl
at_end-repeat_class zero (c ∷ t) h = h
at_end-repeat_class (suc n) (c ∷ t) h = rw h refl

at_end_lem : (e : Text) → (e ≡ []) ⊎ (e ≡ 10 ∷ []) → at_end e ≡ true
at_end_lem e (inl h) = rw h refl
at_end_lem e (inr h) = rw h refl

||-true-right : (b c : Bool) → c ≡ true → (b || c) ≡ true
||-true-right b c h = ground arith

append-repeat_class :
    (n : ℕ) (body ending : Text)
    → AllInClass body
    → length body ≤ n
    → at_end ending ≡ true
    → repeat_class n (body ++ ending) ≡ true
unfolding repeat_class
append-repeat_class n [] e a l h = at_end-repeat_class n e h
append-repeat_class zero (c ∷ body) e a l h = absurd (omega (arith, l))
append-repeat_class (suc n) (c ∷ body) e a l h =
    ||-true-right (at_end (c ∷ body ++ e)) _
      (rw (a.0, append-repeat_class n body e a.1 (omega (arith, l)) h) refl)

matches-IsRequestId : (t : Text) → request_id_matches t ≡ true → IsRequestId t
unfolding request_id_matches
matches-IsRequestId [] h = cc
matches-IsRequestId (c ∷ t) h =
    let (hc, ht) = &&-eq-true (in_class c) (repeat_class 63 t) h in
    let r = repeat_class-Repeats 63 t ht in
    record {
      body = c ∷ r.body;
      ending = r.ending;
      parts = ap (λ u. c ∷ u) r.parts;
      in_alphabet = (hc, r.in_alphabet);
      nonempty = omega arith;
      short = omega (arith, r.short);
      newline = r.newline;
    }

append-matches :
    (body ending : Text)
    → AllInClass body
    → 1 ≤ length body
    → length body ≤ 64
    → at_end ending ≡ true
    → request_id_matches (body ++ ending) ≡ true
unfolding request_id_matches
append-matches [] e a n l h = absurd (omega (arith, n))
append-matches (c ∷ body) e a n l h =
    rw (a.0, append-repeat_class 63 body e a.1 (omega (arith, l)) h) refl

-- A request id is accepted exactly if it has 1 to 64 characters, all letters, digits, dots, underscores
-- or dashes, or if it is such a string with one newline behind it.
pub request_id_matches_iff : (t : Text) → (request_id_matches t ≡ true) ↔ IsRequestId t
request_id_matches_iff t = (
  matches-IsRequestId t,
  λ r. rw r.parts (
      append-matches r.body r.ending r.in_alphabet r.nonempty r.short
        (at_end_lem r.ending r.newline)),
)
