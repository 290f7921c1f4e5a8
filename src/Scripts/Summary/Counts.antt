-- ===== src/Scripts/Summary/Counts.antt =====
-- Counting keys in a dict: each key is counted as often as it is there.
use distributed_model_server.Prelude.{
  ℕ, ◌+◌, ◌≡◌, refl, Text, List, [], ◌∷◌, if◌then◌else◌, length, count_by, text_eq, text_eq_iff,
  arith,
}
use distributed_model_server.Scripts.Summary.{Counts, get_count, set_count, count_keys}

abbrev pub total : Counts → ℕ
total [] = 0
total ((k, n) ∷ counts) = n + total counts

get_count-set_count :
    (j key : Text) (n : ℕ) (counts : Counts)
    → get_count j (set_count key n counts) ≡ (if text_eq key j then n else get_count j counts)
unfolding get_count set_count
get_count-set_count j key n [] = refl
get_count-set_count j key n ((k, m) ∷ counts) = ground (
  arith,
  text_eq_iff k key,
  text_eq_iff k j,
  text_eq_iff key j,
  get_count-set_count j key n counts,
)

total-set_count :
    (key : Text) (n : ℕ) (counts : Counts)
    → total (set_count key n counts) + get_count key counts ≡ total counts + n
unfolding get_count set_count
total-set_count key n [] = omega arith
total-set_count key n ((k, m) ∷ counts) = ground (arith, total-set_count key n counts)

-- Every key adds one to its own count and to no other.
get_count-count_keys :
    (j : Text) (keys : List Text) (counts : Counts)
    → get_count j (count_keys keys counts)
      ≡ get_count j counts + count_by (λ key. text_eq key j) keys
unfolding count_keys
get_count-count_keys j [] counts = omega arith
get_count-count_keys j (key ∷ keys) counts = ground (
  arith,
  get_count-count_keys j keys (set_count key (get_count key counts + 1) counts),
  get_count-set_count j key (get_count key counts + 1) counts,
  text_eq_iff key j,
)

pub get_count-count_keys_nil :
    (j : Text) (keys : List Text)
    → get_count j (count_keys keys []) ≡ count_by (λ key. text_eq key j) keys
unfolding get_count
get_count-count_keys_nil j keys = omega (arith, get_count-count_keys j keys [])

-- The counts add up to the number of keys.
pub total-count_keys :
    (keys : List Text) (counts : Counts)
    → total (count_keys keys counts) ≡ total counts + length keys
unfolding count_keys
total-count_keys [] counts = omega arith
total-count_keys (key ∷ keys) counts = omega (
  arith,
  total-count_keys keys (set_count key (get_count key counts + 1) counts),
  total-set_count key (get_count key counts + 1) counts,
)
