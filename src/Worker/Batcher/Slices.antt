-- ===== src/Worker/Batcher/Slices.antt =====
-- A batch is one call of the model, and each request gets its own part of the answer.
use mathlib.Core.List.{append-nil, append_assoc, map-append}
use distributed_model_server.Prelude.{
  ℕ, zero, suc, ◌+◌, ◌-◌, ◌≡◌, refl, ap, sym, ◌∙◌, Text, List, [], ◌∷◌, ◌++◌, map, arith, length,
  length-map, take, drop,
}
use distributed_model_server.Protocol.{Double, Millis}
use distributed_model_server.Worker.Batcher.Defs.{
  RequestEnvelope, Work, Batcher, executing, top, read, go_to,
}
use distributed_model_server.Worker.Batcher.Loop.{
  output, gather_one, gather, deliver_one, deliver, slice, infer, infer_from,
}

-- The inputs of some requests in a row, their number, and the bounds of each request's part of the row
-- if the first part begins at `i`.
abbrev pub flatten : List RequestEnvelope → List Text
flatten [] = []
flatten (e ∷ es) = e.inputs ++ flatten es

abbrev pub items : List RequestEnvelope → ℕ
items [] = 0
items (e ∷ es) = length e.inputs + items es

abbrev pub slices_from : ℕ → List RequestEnvelope → List (ℕ × ℕ)
slices_from i [] = []
slices_from i (e ∷ es) = (i, i + length e.inputs) ∷ slices_from (i + length e.inputs) es

pub record IsGathered (w : Work) : Type 0 where
  pub flat : w.flattened_inputs ≡ flatten w.valid_batch
  pub cut : w.slices ≡ slices_from 0 w.valid_batch
  pub index : w.idx ≡ items w.valid_batch

pub flatten-append : (xs ys : List RequestEnvelope) → flatten (xs ++ ys) ≡ flatten xs ++ flatten ys
flatten-append [] ys = refl
flatten-append (e ∷ xs) ys =
    ap (◌++◌ e.inputs) (flatten-append xs ys)
    ∙ sym (append_assoc e.inputs (flatten xs) (flatten ys))

pub items-append : (xs ys : List RequestEnvelope) → items (xs ++ ys) ≡ items xs + items ys
items-append [] ys = omega arith
items-append (e ∷ xs) ys = omega (arith, items-append xs ys)

slices_from-append :
    (i : ℕ) (xs ys : List RequestEnvelope)
    → slices_from i (xs ++ ys) ≡ slices_from i xs ++ slices_from (i + items xs) ys
slices_from-append i [] ys = let e : i ≡ i + 0 = omega arith in ap (λ n. slices_from n ys) e
slices_from-append i (e ∷ xs) ys =
    let eq : i + length e.inputs + items xs ≡ i + (length e.inputs + items xs) = omega arith in
    ap (◌∷◌ (i, i + length e.inputs)) (
      slices_from-append (i + length e.inputs) xs ys
      ∙ ap (λ n. slices_from (i + length e.inputs) xs ++ slices_from n ys) eq)

append-IsGathered :
    (w : Work) (e : RequestEnvelope)
    → IsGathered w
    → IsGathered (record {
      valid_batch = w.valid_batch ++ e ∷ [];
      flattened_inputs = w.flattened_inputs ++ e.inputs;
      slices = w.slices ++ (w.idx, w.idx + length e.inputs) ∷ [];
      idx = w.idx + length e.inputs;
    })
append-IsGathered w e v = record {
  flat = rw (flatten-append w.valid_batch (e ∷ []), append-nil e.inputs, v.flat);
  cut =
      rw (slices_from-append 0 w.valid_batch (e ∷ []), v.cut, v.index)
        (let z : items w.valid_batch ≡ 0 + items w.valid_batch = omega arith in
          ap (λ n. slices_from 0 w.valid_batch ++ (n, n + length e.inputs) ∷ []) z);
  index = rw (items-append w.valid_batch (e ∷ [])) (omega (arith, v.index));
}

gather_one-IsGathered :
    (clock : ℕ → ℕ) (e : RequestEnvelope) (w : Work) (b : Batcher)
    → IsGathered w
    → IsGathered (gather_one clock e (w, b)).0
unfolding gather_one
gather_one-IsGathered clock e w b v = ground (arith, append-IsGathered w e v)

pub gather-IsGathered :
    (clock : ℕ → ℕ) (es : List RequestEnvelope) (r : Work × Batcher)
    → IsGathered r.0
    → IsGathered (gather clock es r).0
unfolding gather
gather-IsGathered clock [] r v = v
gather-IsGathered clock (e ∷ es) (w, b) v =
    gather-IsGathered clock es (gather_one clock e (w, b)) (gather_one-IsGathered clock e w b v)

take-length-append {ℓ} : {A : Type ℓ} (xs ys : List A) → take (length xs) (xs ++ ys) ≡ xs
take-length-append [] ys = refl
take-length-append (x ∷ xs) ys = ap (◌∷◌ x) (take-length-append xs ys)

drop-length-append {ℓ} : {A : Type ℓ} (xs ys : List A) → drop (length xs) (xs ++ ys) ≡ ys
drop-length-append [] ys = refl
drop-length-append (x ∷ xs) ys = drop-length-append xs ys

drop-drop {ℓ} : {A : Type ℓ} (m n : ℕ) (xs : List A) → drop n (drop m xs) ≡ drop (m + n) xs
drop-drop zero n xs = let e : n ≡ 0 + n = omega arith in ap (λ k. drop k xs) e
drop-drop (suc m) zero [] = let e : suc m + 0 ≡ suc m = omega arith in rw e
drop-drop (suc m) (suc n) [] = let e : suc m + suc n ≡ suc (m + suc n) = omega arith in rw e
drop-drop (suc m) n (x ∷ xs) =
    let e : suc m + n ≡ suc (m + n) = omega arith in rw e (drop-drop m n xs)

-- The reference: each request is answered by itself, with the model's answers to its own inputs.
module _ (clock : ℕ → ℕ) (start finish : ℕ) (times : Millis × Millis × Millis) where
  unfoldable pub deliver_each : (Text → Text × Double) → List RequestEnvelope → Batcher → Batcher
  deliver_each f [] b = b
  deliver_each f (e ∷ es) b =
      deliver_each f es (deliver_one clock start finish times e (map f e.inputs) b)

  slice_front :
      (f : Text → Text × Double) (e : RequestEnvelope) (es : List RequestEnvelope) (i : ℕ)
      (preds : List (Text × Double))
      → drop i preds ≡ map f (flatten (e ∷ es))
      → (slice (i, i + length e.inputs) preds ≡ map f e.inputs)
        × (drop (i + length e.inputs) preds ≡ map f (flatten es))
  slice_front f e es i preds h =
      let len : i + length e.inputs - i ≡ length (map f e.inputs) =
        omega (arith, length-map e.inputs f) in
      let split = h ∙ map-append f e.inputs (flatten es) in
      (
        rw (len, split) (take-length-append (map f e.inputs) (map f (flatten es))),
        rw (← drop-drop i (length e.inputs) preds, split, ← length-map e.inputs f)
            (drop-length-append (map f e.inputs) (map f (flatten es))),
      )

  deliver-slices_from :
      (f : Text → Text × Double) (es : List RequestEnvelope) (i : ℕ) (preds : List (Text × Double))
      (b : Batcher)
      → drop i preds ≡ map f (flatten es)
      → deliver clock start finish times preds es (slices_from i es) b ≡ deliver_each f es b
  unfolding deliver deliver_each
  deliver-slices_from f [] i preds b h = refl
  deliver-slices_from f (e ∷ es) i preds b h =
      let (now, later) = slice_front f e es i preds h in
      rw now (deliver-slices_from f es (i + length e.inputs) preds _ later)

-- If the model answers each input by itself, a batch that was executed as a whole answers each of its
-- requests with the model's answers to that request's own inputs, in their order: cutting the joint
-- answer apart is the same as answering the requests one by one.
pub infer-deliver_each :
    (clock : ℕ → ℕ) (f : Text → Text × Double) (w : Work) (start : ℕ) (prep inf post : Millis)
    (b : Batcher)
    → IsGathered w
    → b.phase ≡ executing w start
    → let (finish, b1) = read clock b in
      infer clock (output (map f w.flattened_inputs) prep inf post) b
      ≡ go_to top (deliver_each clock start finish (prep, inf, post) f w.valid_batch b1)
unfolding infer
infer-deliver_each clock f w start prep inf post b v e =
    rw (e, infer_from, v.cut)
      (ap (go_to top) (
        deliver-slices_from clock start _ (prep, inf, post) f w.valid_batch 0 _ _
          (ap (map f) v.flat)))
