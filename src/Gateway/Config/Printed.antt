-- ===== src/Gateway/Config/Printed.antt =====
-- A list of workers that was printed is read back.
use mathlib.Core.List.{append-nil, append_assoc}
use distributed_model_server.Prelude.{
  ℕ, ◌≡◌, refl, sym, ap, ◌∙◌, Text, false, List, [], ◌∷◌, ◌++◌, map, some, ◌==◌, text_eq,
}
use distributed_model_server.Gateway.Config.{
  is_space, lstrip, push_front, rstrip, strip, split_commas, split_equals, set_item, add_item,
  add_items, post_init,
}

abbrev pub show_item : Text × Text → Text
show_item (wid, addr) = wid ++ 61 ∷ addr

-- The items with commas between them.
abbrev pub show_items : Text × Text → List (Text × Text) → Text
show_items p [] = show_item p
show_items p (q ∷ ps) = show_item p ++ 44 ∷ show_items q ps

abbrev pub Lacks : ℕ → Text → Type 0
Lacks c [] = Unit
Lacks c (d ∷ t) = ((d == c) ≡ false) × Lacks c t

abbrev pub StartsPlain : Text → Type 0
StartsPlain [] = ⊥
StartsPlain (c ∷ t) = is_space c ≡ false

-- No white space at an end, no comma, no `=` in the id, and an id that is not empty.
pub record IsClean (p : Text × Text) : Type 0 where
  pub id_start : StartsPlain p.0
  pub id_end : rstrip p.0 ≡ p.0
  pub id_no_comma : Lacks 44 p.0
  pub id_no_equals : Lacks 61 p.0
  pub addr_start : lstrip p.1 ≡ p.1
  pub addr_end : rstrip p.1 ≡ p.1
  pub addr_no_comma : Lacks 44 p.1

abbrev pub AllClean : List (Text × Text) → Type 0
AllClean [] = Unit
AllClean (p ∷ ps) = IsClean p × AllClean ps

abbrev pub IsFresh : Text → List (Text × Text) → Type 0
IsFresh k [] = Unit
IsFresh k (p ∷ ps) = (text_eq p.0 k ≡ false) × IsFresh k ps

-- Each id differs from those before it.
abbrev pub NewKeys : List (Text × Text) → List (Text × Text) → Type 0
NewKeys before [] = Unit
NewKeys before (p ∷ ps) = IsFresh p.0 before × NewKeys (before ++ p ∷ []) ps

Lacks-append : (c : ℕ) (t u : Text) → Lacks c t → Lacks c u → Lacks c (t ++ u)
Lacks-append c [] u h k = k
Lacks-append c (d ∷ t) u h k = (h.0, Lacks-append c t u h.1 k)

split_commas-last : (t : Text) → Lacks 44 t → split_commas t ≡ t ∷ []
unfolding split_commas
split_commas-last [] h = refl
split_commas-last (c ∷ t) h = rw (h.0, split_commas-last t h.1) refl

split_commas-append : (t u : Text) → Lacks 44 t → split_commas (t ++ 44 ∷ u) ≡ t ∷ split_commas u
unfolding split_commas
split_commas-append [] u h = refl
split_commas-append (c ∷ t) u h = rw (h.0, split_commas-append t u h.1) refl

split_equals-append : (t u : Text) → Lacks 61 t → split_equals (t ++ 61 ∷ u) ≡ some (t, u)
unfolding split_equals
split_equals-append [] u h = refl
split_equals-append (c ∷ t) u h = rw (h.0, split_equals-append t u h.1) refl

lstrip-plain : (t : Text) → StartsPlain t → lstrip t ≡ t
unfolding lstrip
lstrip-plain [] h = elim h [ ]
lstrip-plain (c ∷ t) h = rw h refl

rstrip-cons : (c d : ℕ) (t : Text) → rstrip (d ∷ t) ≡ d ∷ t → rstrip (c ∷ d ∷ t) ≡ c ∷ d ∷ t
unfolding rstrip
rstrip-cons c d t h = ap (push_front c) h

rstrip-equals : (u : Text) → rstrip u ≡ u → rstrip (61 ∷ u) ≡ 61 ∷ u
unfolding rstrip
rstrip-equals [] h = refl
rstrip-equals (c ∷ u) h = rstrip-cons 61 c u h

rstrip-append : (t u : Text) → rstrip u ≡ u → rstrip (t ++ 61 ∷ u) ≡ t ++ 61 ∷ u
rstrip-append [] u h = rstrip-equals u h
rstrip-append (c ∷ []) u h = rstrip-cons c 61 u (rstrip-equals u h)
rstrip-append (c ∷ d ∷ t) u h = rstrip-cons c d (t ++ 61 ∷ u) (rstrip-append (d ∷ t) u h)

starts-append : (t u : Text) → StartsPlain t → StartsPlain (t ++ u)
starts-append [] u h = elim h [ ]
starts-append (c ∷ t) u h = h

set_item-fresh :
    (k v : Text) (ps : List (Text × Text)) → IsFresh k ps → set_item k v ps ≡ ps ++ (k, v) ∷ []
unfolding set_item
set_item-fresh k v [] h = refl
set_item-fresh k v (p ∷ ps) h = rw (h.0, set_item-fresh k v ps h.1) refl

strip-plain : (t : Text) → lstrip t ≡ t → rstrip t ≡ t → strip t ≡ t
unfolding strip
strip-plain t l r = ap rstrip l ∙ r

add_item-show_item :
    (p : Text × Text) (before : List (Text × Text))
    → IsClean p
    → IsFresh p.0 before
    → add_item (strip (show_item p)) before ≡ before ++ p ∷ []
add_item-show_item ([], addr) before v h = elim v.id_start [ ]
add_item-show_item (c ∷ t, addr) before v h =
    let whole =
      strip-plain ((c ∷ t) ++ 61 ∷ addr) (lstrip-plain ((c ∷ t) ++ 61 ∷ addr) v.id_start)
        (rstrip-append (c ∷ t) addr v.addr_end) in
    rw
      (
        whole,
        split_equals-append (c ∷ t) addr v.id_no_equals,
        add_item,
        strip-plain (c ∷ t) (lstrip-plain (c ∷ t) v.id_start) v.id_end,
        strip-plain addr v.addr_start v.addr_end,
      )
      (set_item-fresh (c ∷ t) addr before h)

add_items-show_item :
    (ps before : List (Text × Text))
    → AllClean ps
    → NewKeys before ps
    → add_items (map show_item ps) before ≡ before ++ ps
unfolding add_items
add_items-show_item [] before v h = sym (append-nil before)
add_items-show_item (p ∷ ps) before v h =
    ap (add_items (map show_item ps)) (add_item-show_item p before v.0 h.0)
    ∙ (add_items-show_item ps (before ++ p ∷ []) v.1 h.1 ∙ append_assoc before (p ∷ []) ps)

show_item-Lacks : (p : Text × Text) → IsClean p → Lacks 44 (show_item p)
show_item-Lacks (wid, addr) v =
    Lacks-append 44 wid (61 ∷ addr) v.id_no_comma (refl, v.addr_no_comma)

split_commas-show_items :
    (p : Text × Text) (ps : List (Text × Text))
    → AllClean (p ∷ ps)
    → split_commas (show_items p ps) ≡ map show_item (p ∷ ps)
split_commas-show_items p [] v = split_commas-last (show_item p) (show_item-Lacks p v.0)
split_commas-show_items p (q ∷ ps) v =
    split_commas-append (show_item p) (show_items q ps) (show_item-Lacks p v.0)
    ∙ ap (λ ts. show_item p ∷ ts) (split_commas-show_items q ps v.1)

post_init-text :
    (t : Text) (ps : List (Text × Text)) → add_items (split_commas t) [] ≡ ps → post_init [] t ≡ ps
unfolding post_init add_items split_commas strip lstrip rstrip
post_init-text [] ps h = h
post_init-text (c ∷ t) ps h = h

-- A list of workers that is printed as `id=address` with commas in between is read back as it was, if it
-- is not empty, no id occurs twice or is empty, no id or address begins or ends with white space or has a
-- comma in it, and no id has a `=` in it.
pub post_init-show_items :
    (p : Text × Text) (ps : List (Text × Text))
    → AllClean (p ∷ ps)
    → NewKeys [] (p ∷ ps)
    → post_init [] (show_items p ps) ≡ p ∷ ps
post_init-show_items p ps v h = post_init-text (show_items p ps) (p ∷ ps) (
    ap (λ ts. add_items ts []) (split_commas-show_items p ps v)
    ∙ add_items-show_item (p ∷ ps) [] v h)
