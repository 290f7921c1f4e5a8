-- ===== src/Prelude/Lists.antt =====
-- Lists measured and indexed by native numbers, and lists filtered by a Boolean test.
use Prim.Native.Nat.{ℕ, zero, suc, ◌+◌, ◌≤◌, ◌<◌}
use mathlib.Core.Path.{◌≡◌, refl, ap, subst}
use mathlib.Core.Logic.{inl, inr}
use mathlib.Core.Logic.Or
use mathlib.Core.Bool.{Bool, true, false, ◌&&◌}
use mathlib.Core.List.{List, [], ◌∷◌, ◌++◌, map, Mem, mem-cons, not-mem-nil, mem-cons_of_mem}
use mathlib.Core.Option.{Option, none, some}
use native.Mathlib.Omega.{arith}
use package.distributed_model_server.Prelude.Tests.{if◌then◌else◌, Bool-cases}

module _ {ℓ} {A : Type ℓ} where
  abbrev pub length : List A → ℕ
  length [] = 0
  length (x ∷ xs) = suc (length xs)

  abbrev pub get_elem? : List A → ℕ → Option A
  get_elem? [] i = none
  get_elem? (x ∷ xs) zero = some x
  get_elem? (x ∷ xs) (suc i) = get_elem? xs i

  abbrev pub take : ℕ → List A → List A
  take zero xs = []
  take (suc n) [] = []
  take (suc n) (x ∷ xs) = x ∷ take n xs

  abbrev pub drop : ℕ → List A → List A
  drop zero xs = xs
  drop (suc n) [] = []
  drop (suc n) (x ∷ xs) = drop n xs

  -- `[x for x in xs if p(x)]`
  abbrev pub filter_by : (A → Bool) → List A → List A
  filter_by p [] = []
  filter_by p (x ∷ xs) = if p x then x ∷ filter_by p xs else filter_by p xs

  -- `any(p(x) for x in xs)`
  abbrev pub any_by : (A → Bool) → List A → Bool
  any_by p [] = false
  any_by p (x ∷ xs) = if p x then true else any_by p xs

  -- `all(p(x) for x in xs)`
  abbrev pub all_by : (A → Bool) → List A → Bool
  all_by p [] = true
  all_by p (x ∷ xs) = p x && all_by p xs

  -- `sum(1 for x in xs if p(x))`
  abbrev pub count_by : (A → Bool) → List A → ℕ
  count_by p [] = 0
  count_by p (x ∷ xs) = (if p x then 1 else 0) + count_by p xs

module _ {ℓ} {A : Type ℓ} where
  pub length-append : (xs ys : List A) → length (xs ++ ys) ≡ length xs + length ys
  length-append [] ys = omega arith
  length-append (x ∷ xs) ys = omega (arith, length-append xs ys)

  pub all_by-append :
      (p : A → Bool) (xs ys : List A)
      → all_by p xs ≡ true
      → all_by p ys ≡ true
      → all_by p (xs ++ ys) ≡ true
  all_by-append p [] ys h k = k
  all_by-append p (x ∷ xs) ys h k = ground (arith, all_by-append p xs ys)

  pub append-take-drop : (n : ℕ) (xs : List A) → take n xs ++ drop n xs ≡ xs
  append-take-drop zero xs = refl
  append-take-drop (suc n) [] = refl
  append-take-drop (suc n) (x ∷ xs) = ap (λ ys. x ∷ ys) (append-take-drop n xs)

  pub length-drop-le : (n : ℕ) (xs : List A) → length (drop n xs) ≤ length xs
  length-drop-le zero xs = omega arith
  length-drop-le (suc n) [] = omega arith
  length-drop-le (suc n) (x ∷ xs) = omega (arith, length-drop-le n xs)

  pub length-map {κ} : {B : Type κ} (xs : List A) (f : A → B) → length (map f xs) ≡ length xs
  length-map [] f = refl
  length-map (x ∷ xs) f = ap suc (length-map xs f)

  pub get_elem?-lt_length :
      (xs : List A) (i : ℕ) → i < length xs → (x : A) × (get_elem? xs i ≡ some x)
  get_elem?-lt_length [] i h = elim h [ ]
  get_elem?-lt_length (x ∷ xs) zero h = (x, refl)
  get_elem?-lt_length (x ∷ xs) (suc i) h = get_elem?-lt_length xs i (omega arith)

  pub get_elem?-mem : (xs : List A) (i : ℕ) (x : A) → get_elem? xs i ≡ some x → Mem x xs
  get_elem?-mem [] i x e = cc
  get_elem?-mem (y ∷ xs) zero x e = mem-cons.1 (Or.inl (cc))
  get_elem?-mem (y ∷ xs) (suc i) x e = mem-cons.1 (Or.inr (get_elem?-mem xs i x e))

module _ {ℓ} {A : Type ℓ} (p : A → Bool) where
  pub mem-filter_by : (x : A) (xs : List A) → Mem x (filter_by p xs) → Mem x xs × (p x ≡ true)
  mem-filter_by x [] m = absurd (not-mem-nil m)
  mem-filter_by x (y ∷ xs) m = elim (Bool-cases (p y)) [
    | inl yes_p ↦
        Or.elim (hlevel) (mem-cons.0 (rw yes_p at m)) (λ e. (mem-cons.1 (Or.inl e), rw e yes_p))
          (λ t. let h = mem-filter_by x xs t in (mem-cons_of_mem y h.0, h.1))
    | inr no_p ↦ let h = mem-filter_by x xs (rw no_p at m) in (mem-cons_of_mem y h.0, h.1)
  ]

  pub filter_by-mem : (x : A) (xs : List A) → Mem x xs → p x ≡ true → Mem x (filter_by p xs)
  filter_by-mem x [] m h = absurd (not-mem-nil m)
  filter_by-mem x (y ∷ xs) m h =
      Or.elim (hlevel) (mem-cons.0 m) here (λ t. there (filter_by-mem x xs t h))
    where
      here : x ≡ y → Mem x (filter_by p (y ∷ xs))
      here e = let h' : p y ≡ true = rw e at h in rw h' (mem-cons.1 (Or.inl e))

      there : Mem x (filter_by p xs) → Mem x (filter_by p (y ∷ xs))
      there t = elim (Bool-cases (p y)) [ inl e ↦ rw e (mem-cons_of_mem y t) | inr e ↦ rw e t ]

abbrev pub All {ℓ κ} : {A : Type ℓ} → (A → Type κ) → List A → Type κ
All P [] = Unit
All P (x ∷ xs) = P x × All P xs

pub All-get_elem? {ℓ κ} :
    {A : Type ℓ} (P : A → Type κ) (xs : List A) (i : ℕ) (x : A)
    → All P xs
    → get_elem? xs i ≡ some x
    → P x
All-get_elem? P [] i x h e = absurd (none-ne-some e)
  where
    none-ne-some : none ≡ some x → ⊥
    none-ne-some e = cc
All-get_elem? P (y ∷ xs) zero x h e = subst P (some_inj e) h.0
  where
    some_inj : some y ≡ some x → y ≡ x
    some_inj e = cc
All-get_elem? P (y ∷ xs) (suc i) x h e = All-get_elem? P xs i x h.1 e

-- The list without the item at a place.
abbrev pub remove_at {ℓ} : {A : Type ℓ} → ℕ → List A → List A
remove_at n [] = []
remove_at zero (x ∷ xs) = xs
remove_at (suc n) (x ∷ xs) = x ∷ remove_at n xs

pub length-remove_at {ℓ} :
    {A : Type ℓ} (i : ℕ) (xs : List A) (x : A)
    → get_elem? xs i ≡ some x
    → length (remove_at i xs) + 1 ≡ length xs
length-remove_at i [] x e = cc
length-remove_at zero (y ∷ xs) x e = omega arith
length-remove_at (suc i) (y ∷ xs) x e = omega (arith, length-remove_at i xs x e)

pub All-remove_at {ℓ κ} :
    {A : Type ℓ} (P : A → Type κ) (i : ℕ) (xs : List A) → All P xs → All P (remove_at i xs)
All-remove_at P i [] h = tt
All-remove_at P zero (x ∷ xs) h = h.1
All-remove_at P (suc i) (x ∷ xs) h = (h.0, All-remove_at P i xs h.1)

pub All-left {ℓ κ} : {A : Type ℓ} (P : A → Type κ) (xs ys : List A) → All P (xs ++ ys) → All P xs
All-left P [] ys h = tt
All-left P (x ∷ xs) ys h = (h.0, All-left P xs ys h.1)

pub All-right {ℓ κ} : {A : Type ℓ} (P : A → Type κ) (xs ys : List A) → All P (xs ++ ys) → All P ys
All-right P [] ys h = h
All-right P (x ∷ xs) ys h = All-right P xs ys h.1

pub All-append {ℓ κ} :
    {A : Type ℓ} (P : A → Type κ) (xs ys : List A) → All P xs → All P ys → All P (xs ++ ys)
All-append P [] ys h k = k
All-append P (x ∷ xs) ys h k = (h.0, All-append P xs ys h.1 k)

pub All-map {ℓ κ μ} :
    {A : Type ℓ} (P : A → Type κ) (Q : A → Type μ) (xs : List A)
    → ((x : A) → P x → Q x)
    → All P xs
    → All Q xs
All-map P Q [] f h = tt
All-map P Q (x ∷ xs) f h = (f x h.0, All-map P Q xs f h.1)
