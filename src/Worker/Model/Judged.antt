-- ===== src/Worker/Model/Judged.antt =====
-- What FakeModel looks for in a text, said letter by letter.
use distributed_model_server.Prelude.{
  ℕ, ◌+◌, ◌≤◌, ◌≡◌, refl, ap, Text, codes, contains, starts_with, Bool, true, false, ◌==◌, ◌&&◌,
  ◌⊎◌, ◌↔◌, if_cases, inl, inr, List, [], ◌∷◌, ◌++◌, map, leb, arith, if◌then◌else◌, Bool-cases,
  &&-eq-true,
}
use distributed_model_server.Protocol.{Double}
use distributed_model_server.Worker.Batcher.Loop.{output}
use distributed_model_server.Worker.Model.{lower, fake_answer, fake_predict_batch}

-- The text is the word, each letter of it small or capital.
abbrev pub Reads : Text → Text → Type 0
Reads [] [] = Unit
Reads [] (c ∷ t) = ⊥
Reads (l ∷ w) [] = ⊥
Reads (l ∷ w) (c ∷ t) = ((c ≡ l) ⊎ (c + 32 ≡ l)) × Reads w t

-- The word is somewhere in the text.
pub record Mentions (w t : Text) : Type 0 where
  pub before : Text
  pub inside : Text
  pub after : Text
  pub split : t ≡ before ++ inside ++ after
  pub reads : Reads w inside

abbrev AllSmall : Text → Type 0
AllSmall [] = Unit
AllSmall (l ∷ w) = (97 ≤ l) × (l ≤ 122) × AllSmall w

abbrev small : ℕ → ℕ
small c = if leb 65 c && leb c 90 then c + 32 else c

small→letter : (c l : ℕ) → 97 ≤ l → (small c == l) ≡ true → (c ≡ l) ⊎ (c + 32 ≡ l)
small→letter c l h e = ground arith

letter→small : (c l : ℕ) → 97 ≤ l → l ≤ 122 → (c ≡ l) ⊎ (c + 32 ≡ l) → (small c == l) ≡ true
letter→small c l h k (inl e) = ground arith
letter→small c l h k (inr e) = ground arith

-- The word stands at the start of the text.
record IsHeaded (w t : Text) : Type 0 where
  inside : Text
  after : Text
  split : t ≡ inside ++ after
  reads : Reads w inside

starts_with→IsHeaded : (t w : Text) → AllSmall w → starts_with (map small t) w ≡ true → IsHeaded w t
unfolding starts_with
starts_with→IsHeaded t [] a e = record { inside = []; after = t; split = refl; reads = tt }
starts_with→IsHeaded [] (l ∷ w) a e = cc
starts_with→IsHeaded (c ∷ t) (l ∷ w) a e =
    let (first, later) = &&-eq-true _ _ e in
    let r = starts_with→IsHeaded t w a.2 later in
    record {
      inside = c ∷ r.inside;
      after = r.after;
      split = ap (λ xs. c ∷ xs) r.split;
      reads = (small→letter c l a.0 first, r.reads);
    }

Reads→starts_with :
    (w inside after : Text)
    → AllSmall w
    → Reads w inside
    → starts_with (map small (inside ++ after)) w ≡ true
unfolding starts_with
Reads→starts_with [] [] [] a r = refl
Reads→starts_with [] [] (c ∷ after) a r = refl
Reads→starts_with [] (c ∷ inside) after a r = elim r [ ]
Reads→starts_with (l ∷ w) [] after a r = elim r [ ]
Reads→starts_with (l ∷ w) (c ∷ inside) after a r =
    rw (letter→small c l a.0 a.1 r.0, Reads→starts_with w inside after a.2 r.1) refl

IsHeaded→Mentions : (w t : Text) → IsHeaded w t → Mentions w t
IsHeaded→Mentions w t r = record {
  before = [];
  inside = r.inside;
  after = r.after;
  split = r.split;
  reads = r.reads;
}

Mentions-cons : (c : ℕ) (w t : Text) → Mentions w t → Mentions w (c ∷ t)
Mentions-cons c w t m = record {
  before = c ∷ m.before;
  inside = m.inside;
  after = m.after;
  split = ap (λ xs. c ∷ xs) m.split;
  reads = m.reads;
}

contains→Mentions : (t w : Text) → AllSmall w → contains (map small t) w ≡ true → Mentions w t
unfolding contains
contains→Mentions [] w a e = IsHeaded→Mentions w [] (starts_with→IsHeaded [] w a e)
contains→Mentions (c ∷ t) w a e = elim (Bool-cases (starts_with (map small (c ∷ t)) w)) [
  | inl h ↦ IsHeaded→Mentions w (c ∷ t) (starts_with→IsHeaded (c ∷ t) w a h)
  | inr h ↦ Mentions-cons c w t (contains→Mentions t w a (ground arith))
]

starts_with→contains : (t w : Text) → starts_with t w ≡ true → contains t w ≡ true
unfolding contains
starts_with→contains [] w e = e
starts_with→contains (c ∷ t) w e = rw e refl

Mentions→contains :
    (before w inside after : Text)
    → AllSmall w
    → Reads w inside
    → contains (map small (before ++ inside ++ after)) w ≡ true
unfolding contains
Mentions→contains [] w inside after a r =
    starts_with→contains _ w (Reads→starts_with w inside after a r)
Mentions→contains (c ∷ before) w inside after a r =
    let rest = Mentions→contains before w inside after a r in
    if_cases (λ b. b ≡ true) (starts_with (map small (c ∷ before ++ inside ++ after)) w) (λ _. refl)
      (λ _. rest)

contains_iff : (t w : Text) → AllSmall w → (contains (lower t) w ≡ true) ↔ Mentions w t
contains_iff t w a = (
  contains→Mentions t w a,
  λ m. rw m.split (Mentions→contains m.before w m.inside m.after a m.reads),
)

Bool-eq-false : (b : Bool) → ¬ (b ≡ true) → b ≡ false
Bool-eq-false b h = ground (arith, Bool-cases b)

-- What the model says of a text: 0.95 and 0.10 by their bits.
pub record IsJudged (t : Text) (a : Text × Double) : Type 0 where
  pub positive :
      Mentions (codes "love") t ⊎ Mentions (codes "good") t
      → a ≡ (codes "positive", 4606732058837280358)
  pub negative :
      ¬ Mentions (codes "love") t
      → ¬ Mentions (codes "good") t
      → a ≡ (codes "negative", 4591870180066957722)

love_iff : (t : Text) → (contains (lower t) (codes "love") ≡ true) ↔ Mentions (codes "love") t
love_iff t = contains_iff t (codes "love") (
  omega arith,
  omega arith,
  (omega arith, omega arith, (omega arith, omega arith, (omega arith, omega arith, tt))),
)

good_iff : (t : Text) → (contains (lower t) (codes "good") ≡ true) ↔ Mentions (codes "good") t
good_iff t = contains_iff t (codes "good") (
  omega arith,
  omega arith,
  (omega arith, omega arith, (omega arith, omega arith, (omega arith, omega arith, tt))),
)

fake_answer-IsJudged : (t : Text) → IsJudged t (fake_answer t)
fake_answer-IsJudged t = record {
  positive = λ m. elim m [
    | inl l ↦ (let e = (love_iff t).1 l in ground arith)
    | inr g ↦ (let e = (good_iff t).1 g in ground arith)
  ];
  negative = λ l g.
      let no_love = Bool-eq-false _ (λ e. l ((love_iff t).0 e)) in
      let no_good = Bool-eq-false _ (λ e. g ((good_iff t).0 e)) in ground arith;
}

-- The answers to the texts, one for each and in their order.
abbrev pub AllJudged : List Text → List (Text × Double) → Type 0
AllJudged [] [] = Unit
AllJudged [] (a ∷ answers) = ⊥
AllJudged (t ∷ ts) [] = ⊥
AllJudged (t ∷ ts) (a ∷ answers) = IsJudged t a × AllJudged ts answers

map-AllJudged : (ts : List Text) → AllJudged ts (map fake_answer ts)
map-AllJudged [] = tt
map-AllJudged (t ∷ ts) = (fake_answer-IsJudged t, map-AllJudged ts)

-- FakeModel never fails: it gives each text of a batch its own answer, in their order, which is positive
-- with the score 0.95 if `love` or `good` stands somewhere in the text, each letter small or capital, and
-- negative with the score 0.10 if neither does; and its times are 0.1, 0.5 and 0.1 milliseconds.
pub fake_predict_batch-AllJudged :
    (ts : List Text)
    → (answers : List (Text × Double)) × (fake_predict_batch ts ≡ output answers 100 500 100)
      × AllJudged ts answers
unfolding fake_predict_batch
fake_predict_batch-AllJudged ts = (map fake_answer ts, refl, map-AllJudged ts)
