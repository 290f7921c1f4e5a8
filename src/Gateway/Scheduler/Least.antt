-- ===== src/Gateway/Scheduler/Least.antt =====
-- The smallest number of outstanding requests, and the sort by worker id.
use mathlib.Core.List.{Perm, mem-cons, not-mem-nil}
use mathlib.Core.List.Perm
use mathlib.Core.Logic.Or
use native.Mathlib.Bridge.{le_prop}
use Prim.Native.Nat.{min}
use distributed_model_server.Prelude.{
  ℕ, suc, ◌≤◌, ◌<◌, ◌≡◌, refl, ap, ◌∙◌, ◌⊎◌, inl, inr, Bool, [], ◌∷◌, Mem, arith, length, filter_by,
  text_leb, ◌==◌, ==_iff, Bool-cases, mem-filter_by,
}
use distributed_model_server.Gateway.Registry.{Workers, WorkerNode}
use distributed_model_server.Gateway.Scheduler.{
  least, min_outstanding, insert_by_id, sort_by_id, candidates,
}

least-le_start : (m : ℕ) (ws : Workers) → least m ws ≤ m
unfolding least
least-le_start m [] = omega arith
least-le_start m (w ∷ ws) = omega (arith, least-le_start (min m w.outstanding_requests) ws)

least-le : (m : ℕ) (ws : Workers) {w : WorkerNode} → Mem w ws → least m ws ≤ w.outstanding_requests
unfolding least
least-le m [] h = absurd (not-mem-nil h)
least-le m (v ∷ ws) {w} h =
    Or.elim le_prop (mem-cons.0 h)
      (λ e. rw e (omega (arith, least-le_start (min m v.outstanding_requests) ws)))
      (least-le (min m v.outstanding_requests) ws)

pub min_outstanding-le :
    (ws : Workers) {w : WorkerNode} → Mem w ws → min_outstanding ws ≤ w.outstanding_requests
unfolding min_outstanding
min_outstanding-le [] h = absurd (not-mem-nil h)
min_outstanding-le (v ∷ ws) {w} h =
    Or.elim le_prop (mem-cons.0 h) (λ e. rw e (least-le_start v.outstanding_requests ws))
      (least-le v.outstanding_requests ws)

abbrev at_level : ℕ → WorkerNode → Bool
at_level n w = w.outstanding_requests == n

least-attained :
    (m : ℕ) (ws : Workers) → (least m ws ≡ m) ⊎ (0 < length (filter_by (at_level (least m ws)) ws))
unfolding least
least-attained m [] = inl refl
least-attained m (w ∷ ws) = ground (arith, least-attained (min m w.outstanding_requests) ws)

pub min_outstanding-attained :
    (w : WorkerNode) (ws : Workers)
    → 0 < length (filter_by (at_level (min_outstanding (w ∷ ws))) (w ∷ ws))
unfolding min_outstanding
min_outstanding-attained w ws = ground (arith, least-attained w.outstanding_requests ws)

insert_by_id-perm : (w : WorkerNode) (ws : Workers) → Perm (insert_by_id w ws) (w ∷ ws)
unfolding insert_by_id
insert_by_id-perm w [] = Perm.refl _
insert_by_id-perm w (v ∷ ws) = elim (Bool-cases (text_leb w.worker_id v.worker_id)) [
  | inl first ↦ rw first (Perm.refl _)
  | inr later ↦ rw later (Perm.trans (Perm.cons v (insert_by_id-perm w ws)) (Perm.swap w v ws))
]

pub sort_by_id-perm : (ws : Workers) → Perm (sort_by_id ws) ws
unfolding sort_by_id
sort_by_id-perm [] = Perm.refl _
sort_by_id-perm (w ∷ ws) =
    Perm.trans (insert_by_id-perm w (sort_by_id ws)) (Perm.cons w (sort_by_id-perm ws))

length-insert_by_id : (w : WorkerNode) (ws : Workers) → length (insert_by_id w ws) ≡ suc (length ws)
unfolding insert_by_id
length-insert_by_id w [] = refl
length-insert_by_id w (v ∷ ws) = ground (arith, length-insert_by_id w ws)

pub length-sort_by_id : (ws : Workers) → length (sort_by_id ws) ≡ length ws
unfolding sort_by_id
length-sort_by_id [] = refl
length-sort_by_id (w ∷ ws) = length-insert_by_id w (sort_by_id ws) ∙ ap suc (length-sort_by_id ws)

-- The candidates are the eligible workers with the fewest outstanding requests, and there is one.
pub mem-candidates :
    (ws : Workers) (w : WorkerNode)
    → Mem w (candidates ws)
    → Mem w ws × (w.outstanding_requests ≡ min_outstanding ws)
unfolding candidates
mem-candidates ws w h =
    let (m, e) =
      mem-filter_by (at_level (min_outstanding ws)) w ws ((Perm.mem_iff (sort_by_id-perm _)).0 h) in
    (m, (==_iff _ _).0 e)

pub candidates-pos : (w : WorkerNode) (ws : Workers) → 0 < length (candidates (w ∷ ws))
unfolding candidates
candidates-pos w ws = rw (length-sort_by_id _) (min_outstanding-attained w ws)
