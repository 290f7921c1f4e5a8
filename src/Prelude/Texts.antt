-- ===== src/Prelude/Texts.antt =====
-- A Python `str` as the list of its code points, which may be surrogates.
use Prim.Native.Char.{code}
use Prim.Native.Nat.{ℕ}
use Prim.Native.String.{String}
use mathlib.Core.Path.{◌≡◌, refl}
use mathlib.Core.Logic.{◌↔◌}
use mathlib.Core.Bool.{Bool, true, false, ◌&&◌}
use mathlib.Core.List.{List, [], ◌∷◌}
use native.Mathlib.Omega.{arith}
use package.distributed_model_server.Prelude.Tests.{ltb, ◌==◌, if◌then◌else◌}

abbrev pub Text : Type 0
Text = List ℕ

-- The code points of a literal.
abbrev pub codes : String → Text
codes String.[] = []
codes (String.◌∷◌ c s) = code c ∷ codes s

-- `s == t`
unfoldable pub text_eq : Text → Text → Bool
text_eq [] [] = true
text_eq [] (d ∷ t) = false
text_eq (c ∷ s) [] = false
text_eq (c ∷ s) (d ∷ t) = (c == d) && text_eq s t

-- `s <= t`, which compares code points from the left.
unfoldable pub text_leb : Text → Text → Bool
text_leb [] t = true
text_leb (c ∷ s) [] = false
text_leb (c ∷ s) (d ∷ t) = if c == d then text_leb s t else ltb c d

-- `t.startswith(p)`
unfoldable pub starts_with : Text → Text → Bool
starts_with t [] = true
starts_with [] (c ∷ p) = false
starts_with (d ∷ t) (c ∷ p) = (d == c) && starts_with t p

-- `p in t`
unfoldable pub contains : Text → Text → Bool
unfolding starts_with
contains [] p = starts_with [] p
contains (d ∷ t) p = if starts_with (d ∷ t) p then true else contains t p

pub text_eq→eq : (s t : Text) → text_eq s t ≡ true → s ≡ t
unfolding text_eq
text_eq→eq [] [] h = refl
text_eq→eq [] (d ∷ t) h = cc
text_eq→eq (c ∷ s) [] h = cc
text_eq→eq (c ∷ s) (d ∷ t) h = ground (arith, text_eq→eq s t)

pub text_eq_refl : (s : Text) → text_eq s s ≡ true
unfolding text_eq
text_eq_refl [] = refl
text_eq_refl (c ∷ s) = ground (arith, text_eq_refl s)

pub text_eq_iff : (s t : Text) → (text_eq s t ≡ true) ↔ (s ≡ t)
text_eq_iff s t = (text_eq→eq s t, λ e. rw e (text_eq_refl t))

pub text_leb_total : (s t : Text) → text_leb s t ≡ false → text_leb t s ≡ true
unfolding text_leb
text_leb_total [] t h = cc
text_leb_total (c ∷ s) [] h = refl
text_leb_total (c ∷ s) (d ∷ t) h = ground (arith, text_leb_total s t)

pub text_leb_trans :
    (s t u : Text) → text_leb s t ≡ true → text_leb t u ≡ true → text_leb s u ≡ true
unfolding text_leb
text_leb_trans [] t u h k = refl
text_leb_trans (c ∷ s) [] u h k = cc
text_leb_trans (c ∷ s) (d ∷ t) [] h k = cc
text_leb_trans (c ∷ s) (d ∷ t) (e ∷ u) h k = ground (arith, text_leb_trans s t u)
