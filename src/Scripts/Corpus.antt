-- ===== src/Scripts/Corpus.antt =====
-- scripts/generate_corpus.py: the corpus of a thousand texts. The generator of random numbers is a
-- parameter: a draw of `random.random()` by its 53 bits, and the place that `random.choice` picks.
pub mod Loaded
use distributed_model_server.Prelude.{
  ℕ, zero, suc, ◌+◌, Text, codes, List, [], ◌∷◌, ◌++◌, Option, none, some, ltb, if◌then◌else◌,
  length, get_elem?,
}
use distributed_model_server.Gateway.App.Json.{Json, natural, string, object, end, member}

abbrev pub short_phrases : List Text
short_phrases =
    (codes "This movie was fantastic and emotional.")
    ∷ (codes "Terrible plot and boring acting throughout.")
    ∷ (codes "Great direction and awesome soundtrack.")
    ∷ (codes "I disliked the slow pacing immensely.")
    ∷ (codes "An instant classic that everyone should see.")
    ∷ (codes "Disappointing experience, would not recommend.")
    ∷ (codes "Brilliant acting and stunning visuals.")
    ∷ (codes "Complete waste of money and time.")
    ∷ (codes "Loved every single minute of this.")
    ∷ (codes "Horrible script and painful execution.")
    ∷ []

abbrev pub medium_phrases : List Text
medium_phrases =
    (codes "The cinematography was breathtaking, capturing every landscape with "
      ++ (codes "vibrant color and depth, while the soundtrack complemented the "
          ++ (codes "emotional weight of every key scene.")))
    ∷ (codes "Although the lead actor tried his best, the messy script and weak "
        ++ (codes "character development prevented the film from reaching its full "
            ++ (codes "potential, leaving viewers dissatisfied.")))
    ∷ (codes "A gripping psychological thriller that keeps you on the edge of your "
        ++ (codes "seat from the opening sequence to the final shocking twist at the end."))
    ∷ (codes "Despite high expectations, the film suffered from poor editing "
        ++ (codes "choices, awkward dialogue transitions, and an abrupt conclusion that "
            ++ (codes "felt completely unearned.")))
    ∷ []

abbrev pub long_phrases : List Text
long_phrases =
    (codes "From beginning to end, this sweeping cinematic masterpiece weaves "
      ++ (codes "together themes of resilience, friendship, and heartbreak. The "
          ++ (codes "director's meticulous attention to historical detail, combined with "
              ++ (codes "power-packed performances by the entire ensemble cast, elevates the "
                  ++ (codes "storytelling to unprecedented heights. Every musical cue accentuates "
                      ++ (codes
                            "the tension, while the stunning visual effects create an immersive "
                          ++ (codes
                              "world that lingers in your mind long after the credits roll.")))))))
    ∷ (codes "A catastrophic failure on nearly every creative front, failing to "
        ++ (codes "deliver a coherent narrative despite a bloated budget and "
            ++ (codes "star-studded cast. The pacing drags endlessly through meaningless "
                ++ (codes "subplots, while key character motivations remain utterly unexplained "
                    ++ (codes "throughout the runtime. Viewers hoping for compelling action or "
                        ++ (codes
                            "clever dialogue will find only uninspired cliches and flat set-pieces."))))))
    ∷ []

-- `r < 0.60` and `r < 0.90`: the doubles times 2 ^ 53.
abbrev pub phrases_for : ℕ → List Text
phrases_for r =
    if ltb r 5404319552844595
    then short_phrases
    else if ltb r 8106479329266893
    then medium_phrases
    else long_phrases

abbrev pub or_empty : Option Text → Text
or_empty none = []
or_empty (some t) = t

abbrev pub corpus_record : ℕ → Text → Json
corpus_record i text =
    object (member (codes "id") (natural i) (member (codes "text") (string text) end))

-- The draws of one round, and the place in a list of the given length.
pub record Draws : Type 0 where
  pub random : ℕ → ℕ
  pub choice : ℕ → ℕ → ℕ

module _ (d : Draws) where
  unfoldable pub corpus_text : ℕ → Text
  corpus_text i =
      let phrases = phrases_for (d.random i) in
      or_empty (get_elem? phrases (d.choice i (length phrases)))

  -- The rounds from `i` on, `n` of them.
  unfoldable pub corpus_from : ℕ → ℕ → List Json
  unfolding corpus_text
  corpus_from zero i = []
  corpus_from (suc n) i = corpus_record i (corpus_text i) ∷ corpus_from n (i + 1)

  abbrev pub corpus : List Json
  unfolding corpus_from
  corpus = corpus_from 1000 1
