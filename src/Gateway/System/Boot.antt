-- ===== src/Gateway/System/Boot.antt =====
-- The gateway whose workers were read from its environment.
use distributed_model_server.Prelude.{
  ◌≡◌, refl, Text, false, List, [], ◌∷◌, map, Option, none, some, arith, text_eq, text_eq→eq,
  text_eq_refl, if_cases, if◌then◌else◌,
}
use distributed_model_server.Gateway.Config.{
  GatewayConfig, set_item, add_item, add_items, split_commas, split_equals, strip, post_init,
}
use distributed_model_server.Gateway.Registry.{new_node, new_workers, find_worker}
use distributed_model_server.Gateway.State.{init}
use distributed_model_server.Gateway.Scheduler.Slots.{HasUniqueIds}
use distributed_model_server.Gateway.System.{Step, boot, run}
use distributed_model_server.Gateway.System.Conservation.{IsAccounted, run-boot-IsAccounted}

-- The value under a key.
abbrev lookup : Text → List (Text × Text) → Option Text
lookup k [] = none
lookup k (p ∷ ps) = if text_eq p.0 k then some p.1 else lookup k ps

abbrev pub IsDict : List (Text × Text) → Type 0
IsDict [] = Unit
IsDict (p ∷ ps) = (lookup p.0 ps ≡ none) × IsDict ps

text_eq_flip : (s t : Text) → text_eq s t ≡ false → text_eq t s ≡ false
text_eq_flip s t h = ground (arith, text_eq→eq t s, text_eq_refl t)

lookup-set_item :
    (k key value : Text) (ps : List (Text × Text))
    → text_eq key k ≡ false
    → lookup k (set_item key value ps) ≡ lookup k ps
unfolding set_item
lookup-set_item k key value [] h = ground arith
lookup-set_item k key value (p ∷ ps) h =
    ground (arith, text_eq→eq p.0 key, lookup-set_item k key value ps h)

set_item-IsDict :
    (key value : Text) (ps : List (Text × Text)) → IsDict ps → IsDict (set_item key value ps)
unfolding set_item
set_item-IsDict key value [] h = (refl, tt)
set_item-IsDict key value (p ∷ ps) h =
    if_cases IsDict (text_eq p.0 key) (λ e. h)
      (λ e. (
        ground (arith, lookup-set_item p.0 key value ps (text_eq_flip p.0 key e), h.0),
        set_item-IsDict key value ps h.1,
      ))

add_item-IsDict : (item : Text) (ps : List (Text × Text)) → IsDict ps → IsDict (add_item item ps)
add_item-IsDict [] ps h = h
add_item-IsDict (c ∷ t) ps h = go (split_equals (c ∷ t)) refl
  where
    go : (o : Option (Text × Text)) → split_equals (c ∷ t) ≡ o → IsDict (add_item (c ∷ t) ps)
    go none e = rw (e, add_item) (set_item-IsDict (c ∷ t) (c ∷ t) ps h)
    go (some (l, r)) e = rw (e, add_item) (set_item-IsDict (strip l) (strip r) ps h)

add_items-IsDict :
    (items : List Text) (ps : List (Text × Text)) → IsDict ps → IsDict (add_items items ps)
unfolding add_items
add_items-IsDict [] ps h = h
add_items-IsDict (item ∷ items) ps h =
    add_items-IsDict items (add_item (strip item) ps) (add_item-IsDict (strip item) ps h)

post_init-IsDict : (raw : Text) → IsDict (post_init [] raw)
unfolding post_init
post_init-IsDict [] = tt
post_init-IsDict (c ∷ raw) = add_items-IsDict (split_commas (c ∷ raw)) [] tt

find-new_node :
    (k : Text) (ps : List (Text × Text))
    → lookup k ps ≡ none
    → find_worker k (map new_node ps) ≡ none
unfolding find_worker new_node
find-new_node k [] h = refl
find-new_node k (p ∷ ps) h = ground (arith, find-new_node k ps)

new_node-HasUniqueIds : (ps : List (Text × Text)) → IsDict ps → HasUniqueIds (map new_node ps)
unfolding new_node
new_node-HasUniqueIds [] h = tt
new_node-HasUniqueIds (p ∷ ps) h = (find-new_node p.0 ps h.0, new_node-HasUniqueIds ps h.1)

-- If the gateway reads its workers from any text, then over any interleaving of predictions, replies,
-- probes, starts and stops each worker has as many outstanding requests as predictions wait for it, and
-- never more than the limit.
pub run-post_init-IsAccounted :
    (c : GatewayConfig) (raw : Text) (xs : List Step)
    → c.workers ≡ post_init [] raw
    → IsAccounted c (run c xs (boot c))
unfolding init new_workers
run-post_init-IsAccounted c raw xs e =
    run-boot-IsAccounted c xs (new_node-HasUniqueIds c.workers (rw e (post_init-IsDict raw)))
