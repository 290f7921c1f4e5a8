-- ===== src/Prelude/Decimal.antt =====
-- `str(n)` of a natural number: its decimal digits.
use Prim.Native.Nat.{ℕ, zero, suc, ◌+◌, ◌-◌, ◌*◌, ◌/◌, ◌%◌, ◌≤◌, ◌<◌}
use mathlib.Core.Path.{◌≡◌, refl, sym, ap, ◌∙◌}
use mathlib.Core.Bool.{Bool, true, false, ◌&&◌}
use mathlib.Core.List.{[], ◌∷◌, ◌++◌}
use native.Mathlib.Omega.{arith}
use package.distributed_model_server.Prelude.Lists.{all_by, all_by-append, length, length-append}
use package.distributed_model_server.Prelude.Tests.{ltb, leb, if◌then◌else◌, if_cases}
use package.distributed_model_server.Prelude.Texts.{Text}

unfoldable pub digits : ℕ → ℕ → Text
digits zero n = []
digits (suc fuel) n =
    let more = digits fuel (n / 10) in
    if ltb n 10 then (48 + n) ∷ [] else more ++ (48 + n % 10) ∷ []

-- A number has fewer digits than itself and one.
unfoldable pub decimal : ℕ → Text
unfolding digits
decimal n = digits (n + 1) n

-- The number that the digits stand for, behind the digits of another.
value : ℕ → Text → ℕ
value before [] = before
value before (c ∷ t) = value (10 * before + (c - 48)) t

value-append :
    (before c : ℕ) (t : Text) → value before (t ++ c ∷ []) ≡ 10 * value before t + (c - 48)
unfolding value
value-append before c [] = refl
value-append before c (d ∷ t) = value-append (10 * before + (d - 48)) c t

value-digits : (fuel n : ℕ) → n < fuel → value 0 (digits fuel n) ≡ n
unfolding digits
value-digits zero n h = elim h [ ]
value-digits (suc fuel) n h =
    if_cases (λ t. value 0 t ≡ n) (ltb n 10) one
      (λ b. several b (value-digits fuel (n / 10) (ground arith)))
  where
    one : ltb n 10 ≡ true → value 0 ((48 + n) ∷ []) ≡ n
    one s = unfold value in omega arith

    several :
        ltb n 10 ≡ false
        → value 0 (digits fuel (n / 10)) ≡ n / 10
        → value 0 (digits fuel (n / 10) ++ (48 + n % 10) ∷ []) ≡ n
    several b e = rw (value-append 0 (48 + n % 10) (digits fuel (n / 10)), e) (omega arith)

-- Different numbers are written differently.
pub decimal-inj : (m n : ℕ) → decimal m ≡ decimal n → m ≡ n
unfolding decimal
decimal-inj m n e =
    sym (value-digits (m + 1) m (omega arith))
    ∙ ap (value 0) e
    ∙ value-digits (n + 1) n (omega arith)

abbrev pub power_of_ten : ℕ → ℕ
power_of_ten zero = 1
power_of_ten (suc k) = 10 * power_of_ten k

length-digits : (k fuel n : ℕ) → n < power_of_ten (suc k) → length (digits fuel n) ≤ suc k
unfolding digits
length-digits k zero n h = omega arith
length-digits zero (suc fuel) n h = ground arith
length-digits (suc k) (suc fuel) n h =
    let smaller : n / 10 < power_of_ten (suc k) = omega arith in
    ground (
      arith,
      length-append (digits fuel (n / 10)) ((48 + n % 10) ∷ []),
      length-digits k fuel (n / 10) smaller,
    )

-- A number below 10 ^ (k + 1) has at most k + 1 digits.
pub length-decimal : (k n : ℕ) → n < power_of_ten (suc k) → length (decimal n) ≤ suc k
unfolding decimal
length-decimal k n h = length-digits k (n + 1) n h

abbrev pub is_digit : ℕ → Bool
is_digit c = leb 48 c && leb c 57

all_by-digits : (fuel n : ℕ) → all_by is_digit (digits fuel n) ≡ true
unfolding digits
all_by-digits zero n = refl
all_by-digits (suc fuel) n =
    if_cases (λ t. all_by is_digit t ≡ true) (ltb n 10) (λ s. ground arith)
      (λ b.
        all_by-append is_digit (digits fuel (n / 10)) _ (all_by-digits fuel (n / 10))
          (ground arith))

pub all_by-decimal : (n : ℕ) → all_by is_digit (decimal n) ≡ true
unfolding decimal
all_by-decimal n = all_by-digits (n + 1) n
