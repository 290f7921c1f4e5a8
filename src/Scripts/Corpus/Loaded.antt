-- ===== src/Scripts/Corpus/Loaded.antt =====
-- The corpus as the benchmark loads it: a thousand texts that the gateway takes.
use distributed_model_server.Prelude.{
  ℕ, zero, suc, ◌+◌, ◌≤◌, ◌<◌, ◌≡◌, refl, ap, ◌∙◌, Text, Bool, true, false, List, [], ◌∷◌, ◌++◌,
  Option, none, some, map, ltb, leb, if_cases, length, get_elem?, get_elem?-lt_length, All, all_by,
  &&-eq-true, text_eq, arith,
}
use distributed_model_server.Gateway.Config.{GatewayConfig, strip}
use distributed_model_server.Gateway.App.Json.{Json, string, get, utf8_length}
use distributed_model_server.Scripts.Benchmark.{load_lines, load_corpus}
use distributed_model_server.Scripts.Benchmark.Requests.{IsInput}
use distributed_model_server.Scripts.Corpus.{
  short_phrases, medium_phrases, long_phrases, phrases_for, or_empty, corpus_record, Draws,
  corpus_text, corpus_from, corpus,
}

-- At least one character, and at most 512 bytes in UTF-8.
abbrev fits : Option ℕ → Bool
fits none = false
fits (some n) = leb n 512

abbrev is_short : Text → Bool
unfolding utf8_length
is_short [] = false
is_short (c ∷ t) = fits (utf8_length (c ∷ t))

all_short : all_by is_short (short_phrases ++ (medium_phrases ++ long_phrases)) ≡ true
unfolding is_short
all_short = refl

all_by-get_elem? {ℓ} :
    {A : Type ℓ} (p : A → Bool) (xs : List A) (i : ℕ) (x : A)
    → all_by p xs ≡ true
    → get_elem? xs i ≡ some x
    → p x ≡ true
all_by-get_elem? p [] i x h e = absurd (none-ne-some e)
  where
    none-ne-some : none ≡ some x → ⊥
    none-ne-some e = cc
all_by-get_elem? p (y ∷ xs) zero x h e = ap p (some_inj e) ∙ (&&-eq-true (p y) _ h).0
  where
    some_inj : some y ≡ some x → x ≡ y
    some_inj e = cc
all_by-get_elem? p (y ∷ xs) (suc i) x h e = all_by-get_elem? p xs i x (&&-eq-true (p y) _ h).1 e

abbrev IsStock : List Text → Type 0
IsStock phrases = (0 < length phrases) × (all_by is_short phrases ≡ true)

phrases_for-IsStock : (r : ℕ) → IsStock (phrases_for r)
unfolding is_short
phrases_for-IsStock r =
    if_cases IsStock (ltb r 5404319552844595) (λ _. (omega arith, refl))
      (λ _.
        if_cases IsStock (ltb r 8106479329266893) (λ _. (omega arith, refl))
          (λ _. (omega arith, refl)))

-- `random.choice` picks an item of the list.
abbrev pub Picks : Draws → Type 0
Picks d = (i n : ℕ) → 0 < n → d.choice i n < n

corpus_text-is_short : (d : Draws) (i : ℕ) → Picks d → is_short (corpus_text d i) ≡ true
unfolding corpus_text
corpus_text-is_short d i picks =
    let stock = phrases_for-IsStock (d.random i) in
    let phrases = phrases_for (d.random i) in
    let (t, e) =
      get_elem?-lt_length phrases (d.choice i (length phrases))
        (picks i (length phrases) stock.0) in
    rw (e, or_empty) (all_by-get_elem? is_short phrases _ t stock.1 e)

-- The gateway takes inputs of 512 bytes.
abbrev pub Takes512 : GatewayConfig → Type 0
Takes512 c = (512 ≤ c.max_input_bytes) × (512 ≤ c.max_total_input_bytes)

is_short-IsInput :
    (c : GatewayConfig) (t : Text) → Takes512 c → is_short t ≡ true → IsInput c (string t)
unfolding is_short
is_short-IsInput c [] k h = cc
is_short-IsInput c (x ∷ t) k h = by_length (utf8_length (x ∷ t)) refl h
  where
    by_length :
        (o : Option ℕ) → utf8_length (x ∷ t) ≡ o → fits o ≡ true → IsInput c (string (x ∷ t))
    by_length none e f = cc
    by_length (some n) e f = (x ∷ t, refl, omega arith, (n, e, ground arith, ground arith))

texts_from : Draws → ℕ → ℕ → List Json
texts_from d zero i = []
texts_from d (suc n) i = string (corpus_text d i) ∷ texts_from d n (i + 1)

length-texts_from : (d : Draws) (n i : ℕ) → length (texts_from d n i) ≡ n
unfolding texts_from
length-texts_from d zero i = refl
length-texts_from d (suc n) i = ap suc (length-texts_from d n (i + 1))

texts_from-IsInput :
    (c : GatewayConfig) (d : Draws) (n i : ℕ)
    → Takes512 c
    → Picks d
    → All (IsInput c) (texts_from d n i)
unfolding texts_from
texts_from-IsInput c d zero i k p = tt
texts_from-IsInput c d (suc n) i k p = (
  is_short-IsInput c (corpus_text d i) k (corpus_text-is_short d i p),
  texts_from-IsInput c d n (i + 1) k p,
)

-- `json.loads` reads back the line that is written for a record, and the line is not blank.
pub record ReadsBack (dumps : Json → Text) (loads : Text → Option Json) : Type 0 where
  pub reads :
      (i : ℕ) (t : Text) → loads (dumps (corpus_record i t) ++ 10 ∷ []) ≡ some (corpus_record i t)
  pub not_blank :
      (i : ℕ) (t : Text)
      → (c : ℕ) × (u : Text) × (strip (dumps (corpus_record i t) ++ 10 ∷ []) ≡ c ∷ u)

module _ (dumps : Json → Text) (loads : Text → Option Json) (back : ReadsBack dumps loads) where
  load_lines-corpus_from :
      (d : Draws) (n i : ℕ)
      → load_lines loads (map (λ r. dumps r ++ 10 ∷ []) (corpus_from d n i))
        ≡ some (texts_from d n i)
  unfolding load_lines corpus_from texts_from get text_eq
  load_lines-corpus_from d zero i = refl
  load_lines-corpus_from d (suc n) i =
      rw
        (
          load_lines-corpus_from d n (i + 1),
          (back.not_blank i (corpus_text d i)).2,
          back.reads i (corpus_text d i),
        )
        refl

  load_corpus-corpus_from :
      (d : Draws) (n i : ℕ)
      → load_corpus loads (some (map (λ r. dumps r ++ 10 ∷ []) (corpus_from d (suc n) i)))
        ≡ some (texts_from d (suc n) i)
  unfolding load_corpus
  load_corpus-corpus_from d n i =
      rw (load_lines-corpus_from d (suc n) i) (unfold texts_from in refl)

-- If `json.loads` reads back the lines that are written and `random.choice` picks items of its list, the
-- benchmark loads a thousand texts from the file of the corpus, and a gateway that takes inputs of 512
-- bytes takes each of them.
pub load_corpus-corpus :
    (dumps : Json → Text) (loads : Text → Option Json) (d : Draws) (c : GatewayConfig)
    → ReadsBack dumps loads
    → Picks d
    → Takes512 c
    → (texts : List Json) × (load_corpus loads (some (map (λ r. dumps r ++ 10 ∷ []) (corpus d)))
        ≡ some texts)
      × (length texts ≡ 1000)
      × All (IsInput c) texts
unfolding corpus
load_corpus-corpus dumps loads d c back picks takes = (
  texts_from d 1000 1,
  load_corpus-corpus_from dumps loads back d 999 1,
  length-texts_from d 1000 1,
  texts_from-IsInput c d 1000 1 takes picks,
)
