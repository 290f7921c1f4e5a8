-- ===== src/Worker/Model.antt =====
-- worker/model.py: the two models. A score is a double by its 64 bits. What ONNX Runtime, the tokenizer
-- and the softmax of numpy make of the texts is a parameter: the pairs of probabilities, or `none` if one
-- of them raised.
pub mod Judged
use distributed_model_server.Prelude.{
  ◌+◌, Text, codes, contains, Bool, ◌&&◌, ◌||◌, List, [], ◌∷◌, map, Option, none, some, leb,
  if◌then◌else◌,
}
use distributed_model_server.Protocol.{Double, Millis}
use distributed_model_server.Worker.Batcher.Loop.{Inference, output, failure}

-- `score >= 0.5`: the bits of the doubles from 0.5 to infinity are in order, and those of the negative
-- ones and of a NaN lie beyond them.
abbrev pub is_at_least_half : Double → Bool
is_at_least_half score = leb 4602678819172646912 score && leb score 9218868437227405312

-- `"positive" if score >= 0.5 else "negative"`
abbrev pub label_of : Double → Text
label_of score = if is_at_least_half score then codes "positive" else codes "negative"

-- `text.lower()`. Letters outside ASCII are left alone: none of them has a letter of the two words that
-- are looked for as its lower case.
abbrev pub lower : Text → Text
lower t = map (λ c. if leb 65 c && leb c 90 then c + 32 else c) t

abbrev pub sounds_positive : Text → Bool
sounds_positive t = contains (lower t) (codes "love") || contains (lower t) (codes "good")

-- 0.95 and 0.10
abbrev pub positive_score : Text → Double
positive_score t = if sounds_positive t then 4606732058837280358 else 4591870180066957722

-- The round of the loop in `FakeModel.predict_batch`.
abbrev pub fake_answer : Text → Text × Double
fake_answer t = (label_of (positive_score t), positive_score t)

-- `FakeModel.predict_batch`
unfoldable pub fake_predict_batch : List Text → Inference
unfolding contains
fake_predict_batch texts = output (map fake_answer texts) 100 500 100

-- `ONNXModel.predict_batch`, with the three durations that it measured.
unfoldable pub onnx_predict_batch :
    (List Text → Option (List (Double × Double))) → Millis × Millis × Millis → List Text → Inference
onnx_predict_batch probs times [] = output [] 0 0 0
onnx_predict_batch probs (prep, inf, post) (t ∷ ts) = elim (probs (t ∷ ts)) [
  | none ↦ failure
  | some ps ↦ output (map (λ p. (label_of p.1, p.1)) ps) prep inf post
]
