-- ===== src/Scripts/Summary/Percentile.antt =====
-- Which item of the data a percentile is, and that it grows with the share.
use mathlib.Core.Logic.Or
use mathlib.Core.List.{mem-cons, mem-cons_of_mem}
use distributed_model_server.Prelude.{
  ℕ, zero, suc, ◌+◌, ◌≤◌, ◌<◌, ◌≡◌, refl, ap, Bool, List, [], ◌∷◌, some, Mem, ltb, leb,
  if◌then◌else◌, if_cases, Bool-cases, inl, inr, length, get_elem?, get_elem?-lt_length,
  get_elem?-mem, count_by, arith,
}
use distributed_model_server.Scripts.Summary.{insert_sorted, sorted, rank, item_or_zero, percentile}

abbrev IsBelowAll : ℕ → List ℕ → Type 0
IsBelowAll x [] = Unit
IsBelowAll x (y ∷ ys) = (x ≤ y) × IsBelowAll x ys

abbrev IsSorted : List ℕ → Type 0
IsSorted [] = Unit
IsSorted (x ∷ xs) = IsBelowAll x xs × IsSorted xs

IsBelowAll-le : (x y : ℕ) (ys : List ℕ) → x ≤ y → IsBelowAll y ys → IsBelowAll x ys
IsBelowAll-le x y [] h b = tt
IsBelowAll-le x y (z ∷ ys) h b = (omega (arith, b.0), IsBelowAll-le x y ys h b.1)

insert_sorted-IsBelowAll :
    (x y : ℕ) (ys : List ℕ) → x ≤ y → IsBelowAll x ys → IsBelowAll x (insert_sorted y ys)
insert_sorted-IsBelowAll x y [] h b = (h, tt)
insert_sorted-IsBelowAll x y (z ∷ ys) h b =
    if_cases (IsBelowAll x) (leb y z) (λ _. (h, b))
      (λ _. (b.0, insert_sorted-IsBelowAll x y ys h b.1))

insert_sorted-IsSorted : (x : ℕ) (ys : List ℕ) → IsSorted ys → IsSorted (insert_sorted x ys)
insert_sorted-IsSorted x [] s = (tt, tt)
insert_sorted-IsSorted x (y ∷ ys) s =
    if_cases IsSorted (leb x y)
      (λ t. let le : x ≤ y = ground arith in ((le, IsBelowAll-le x y ys le s.0), s))
      (λ f. (insert_sorted-IsBelowAll y x ys (ground arith) s.0, insert_sorted-IsSorted x ys s.1))

sorted-IsSorted : (xs : List ℕ) → IsSorted (sorted xs)
unfolding sorted
sorted-IsSorted [] = tt
sorted-IsSorted (x ∷ xs) = insert_sorted-IsSorted x (sorted xs) (sorted-IsSorted xs)

count_by-insert_sorted :
    (p : ℕ → Bool) (x : ℕ) (ys : List ℕ) → count_by p (insert_sorted x ys) ≡ count_by p (x ∷ ys)
count_by-insert_sorted p x [] = refl
count_by-insert_sorted p x (y ∷ ys) =
    if_cases (λ zs. count_by p zs ≡ count_by p (x ∷ y ∷ ys)) (leb x y) (λ _. refl)
      (λ _. omega (arith, count_by-insert_sorted p x ys))

-- Sorting keeps how many items pass a test.
count_by-sorted : (p : ℕ → Bool) (xs : List ℕ) → count_by p (sorted xs) ≡ count_by p xs
unfolding sorted
count_by-sorted p [] = refl
count_by-sorted p (x ∷ xs) =
    omega (arith, count_by-insert_sorted p x (sorted xs), count_by-sorted p xs)

length-insert_sorted : (x : ℕ) (ys : List ℕ) → length (insert_sorted x ys) ≡ suc (length ys)
length-insert_sorted x [] = refl
length-insert_sorted x (y ∷ ys) =
    if_cases (λ zs. length zs ≡ suc (suc (length ys))) (leb x y) (λ _. refl)
      (λ _. ap suc (length-insert_sorted x ys))

length-sorted : (xs : List ℕ) → length (sorted xs) ≡ length xs
unfolding sorted
length-sorted [] = refl
length-sorted (x ∷ xs) = omega (arith, length-insert_sorted x (sorted xs), length-sorted xs)

mem-insert_sorted : (v x : ℕ) (ys : List ℕ) → Mem v (insert_sorted x ys) → Mem v (x ∷ ys)
mem-insert_sorted v x [] m = m
mem-insert_sorted v x (y ∷ ys) m = elim (Bool-cases (leb x y)) [
  | inl t ↦ rw t at m
  | inr f ↦
      Or.elim (hlevel) (mem-cons.0 (rw f at m)) (λ e. mem-cons.1 (Or.inr (mem-cons.1 (Or.inl e))))
        (λ r.
          Or.elim (hlevel) (mem-cons.0 (mem-insert_sorted v x ys r)) (λ e. mem-cons.1 (Or.inl e))
            (λ q. mem-cons.1 (Or.inr (mem-cons.1 (Or.inr q)))))
]

mem-sorted : (v : ℕ) (xs : List ℕ) → Mem v (sorted xs) → Mem v xs
unfolding sorted
mem-sorted v [] m = m
mem-sorted v (x ∷ xs) m =
    Or.elim (hlevel) (mem-cons.0 (mem-insert_sorted v x (sorted xs) m)) (λ e. mem-cons.1 (Or.inl e))
      (λ r. mem-cons_of_mem x (mem-sorted v xs r))

none_below : (v : ℕ) (xs : List ℕ) → IsBelowAll v xs → count_by (λ y. ltb y v) xs ≡ 0
none_below v [] b = refl
none_below v (x ∷ xs) b = ground (arith, none_below v xs)

IsBelowAll-get_elem? :
    (x v : ℕ) (xs : List ℕ) (i : ℕ) → IsBelowAll x xs → get_elem? xs i ≡ some v → x ≤ v
IsBelowAll-get_elem? x v [] i b e = cc
IsBelowAll-get_elem? x v (y ∷ xs) zero b e = ground arith
IsBelowAll-get_elem? x v (y ∷ xs) (suc i) b e = IsBelowAll-get_elem? x v xs i b.1 e

-- At place `i` of a sorted list stands the item with at most `i` items below it and more than `i` that
-- are not above it.
place_in_order :
    (xs : List ℕ) (i v : ℕ)
    → IsSorted xs
    → get_elem? xs i ≡ some v
    → (count_by (λ y. ltb y v) xs ≤ i) × (i < count_by (λ y. leb y v) xs)
place_in_order [] i v s e = cc
place_in_order (x ∷ xs) zero v s e = ground (arith, none_below x xs)
place_in_order (x ∷ xs) (suc i) v s e =
    ground (arith, place_in_order xs i v s.1, IsBelowAll-get_elem? x v xs i s.0 e)

get_elem?-mono :
    (xs : List ℕ) (i j v w : ℕ)
    → IsSorted xs
    → i ≤ j
    → get_elem? xs i ≡ some v
    → get_elem? xs j ≡ some w
    → v ≤ w
get_elem?-mono [] i j v w s h e f = cc
get_elem?-mono (x ∷ xs) zero zero v w s h e f = ground arith
get_elem?-mono (x ∷ xs) zero (suc j) v w s h e f =
    ground (arith, IsBelowAll-get_elem? x w xs j s.0 f)
get_elem?-mono (x ∷ xs) (suc i) zero v w s h e f = absurd (omega arith)
get_elem?-mono (x ∷ xs) (suc i) (suc j) v w s h e f =
    get_elem?-mono xs i j v w s.1 (omega arith) e f

rank-lt : (k n : ℕ) → 1 ≤ n → rank k n < n
rank-lt k n h = ground arith

rank_mono : (j k n : ℕ) → j ≤ k → 1 ≤ n → rank j n ≤ rank k n
rank_mono j k n h l = ground arith

-- The item at the rank of the sorted data.
percentile-get_elem? :
    (ceil : ℕ → ℕ) (x : ℕ) (xs : List ℕ)
    → let n = length (x ∷ xs) in
      get_elem? (sorted (x ∷ xs)) (rank (ceil n) n) ≡ some (percentile ceil (x ∷ xs))
unfolding percentile
percentile-get_elem? ceil x xs =
    let n = length (x ∷ xs) in
    let inside : rank (ceil n) n < length (sorted (x ∷ xs)) =
      omega (arith, length-sorted (x ∷ xs), rank-lt (ceil n) n (omega arith)) in
    let (v, e) = get_elem?-lt_length (sorted (x ∷ xs)) (rank (ceil n) n) inside in
    rw (e, item_or_zero) refl

-- The item of a list at the place `k`, counted from one, if the list is put in order: an item of the list,
-- with less than `k` items below it and at least `k` that are not above it.
abbrev pub IsAtPlace : ℕ → List ℕ → ℕ → Type 0
IsAtPlace k xs v = Mem v xs × (count_by (λ y. ltb y v) xs < k) × (k ≤ count_by (λ y. leb y v) xs)

-- The percentile of data that is not empty is the item at the place of the ceiling of the share times the
-- number of items, or at the nearest end of the data if there is no such place.
pub percentile-IsAtPlace :
    (ceil : ℕ → ℕ) (xs : List ℕ)
    → 1 ≤ length xs
    → let k = ceil (length xs) in
      let place = if ltb k 1 then 1 else if ltb (length xs) k then length xs else k in
      IsAtPlace place xs (percentile ceil xs)
percentile-IsAtPlace ceil [] l = absurd (omega arith)
percentile-IsAtPlace ceil (x ∷ xs) l =
    let n = length (x ∷ xs) in
    let v = percentile ceil (x ∷ xs) in
    let e = percentile-get_elem? ceil x xs in
    let order = place_in_order (sorted (x ∷ xs)) (rank (ceil n) n) v (sorted-IsSorted (x ∷ xs)) e in
    let same : (if ltb (ceil n) 1 then 1 else if ltb n (ceil n) then n else ceil n)
        ≡ rank (ceil n) n + 1 =
      ground (arith, l) in
    (
      mem-sorted v (x ∷ xs) (get_elem?-mem (sorted (x ∷ xs)) _ v e),
      omega (arith, same, order.0, count_by-sorted (λ y. ltb y v) (x ∷ xs)),
      omega (arith, same, order.1, count_by-sorted (λ y. leb y v) (x ∷ xs)),
    )

-- A larger share has no smaller percentile.
pub percentile_mono :
    (ceil high : ℕ → ℕ) (xs : List ℕ)
    → ((n : ℕ) → ceil n ≤ high n)
    → percentile ceil xs ≤ percentile high xs
percentile_mono ceil high [] h = unfold percentile in omega arith
percentile_mono ceil high (x ∷ xs) h =
    let n = length (x ∷ xs) in
    get_elem?-mono (sorted (x ∷ xs)) (rank (ceil n) n) (rank (high n) n) _ _
      (sorted-IsSorted (x ∷ xs)) (rank_mono (ceil n) (high n) n (h n) (omega arith))
      (percentile-get_elem? ceil x xs) (percentile-get_elem? high x xs)
