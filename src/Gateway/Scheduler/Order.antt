-- ===== src/Gateway/Scheduler/Order.antt =====
-- The order in which the candidates stand: by their ids, each of them once.
use mathlib.Core.List.{mem-cons, mem-cons_of_mem, not-mem-nil}
use mathlib.Core.List.Perm
use mathlib.Core.Logic.Or
use distributed_model_server.Prelude.{
  ◌≡◌, ◌≢◌, refl, sym, Text, true, Bool, List, [], ◌∷◌, none, some, Mem, filter_by, mem-filter_by,
  filter_by-mem, text_leb, text_leb_total, text_leb_trans, if_cases, ◌≤◌, ==_iff, arith, ◌<◌, ◌↔◌,
  length, get_elem?-lt_length, get_elem?-mem,
}
use distributed_model_server.Gateway.Registry.{Workers, WorkerNode, find_worker}
use distributed_model_server.Gateway.Scheduler.{
  insert_by_id, sort_by_id, candidates, min_outstanding, is_available, healthy_workers,
}
use distributed_model_server.Gateway.Scheduler.Least.{
  sort_by_id-perm, mem-candidates, candidates-pos, min_outstanding-le,
}
use distributed_model_server.Gateway.Scheduler.Slots.{HasUniqueIds, find_worker-mem}
use distributed_model_server.Gateway.Config.{GatewayConfig}
use distributed_model_server.Gateway.Scheduler.Choice.{
  IsEligible, mem-eligible→IsEligible, IsEligible→mem-eligible,
}

-- Every worker of the list has a larger id.
abbrev pub IsBefore : WorkerNode → Workers → Type 0
IsBefore w [] = Unit
IsBefore w (v ∷ vs) =
    ((text_leb w.worker_id v.worker_id ≡ true) × (w.worker_id ≢ v.worker_id)) × IsBefore w vs

-- The ids grow from each place to all the later ones.
abbrev pub IsAscending : Workers → Type 0
IsAscending [] = Unit
IsAscending (w ∷ ws) = IsBefore w ws × IsAscending ws

-- No worker of the list has this one's id.
abbrev IsNew : WorkerNode → Workers → Type 0
IsNew w ws = (u : WorkerNode) → Mem u ws → u.worker_id ≢ w.worker_id

abbrev IsDistinct : Workers → Type 0
IsDistinct [] = Unit
IsDistinct (w ∷ ws) = IsNew w ws × IsDistinct ws

HasUniqueIds-IsDistinct : (ws : Workers) → HasUniqueIds ws → IsDistinct ws
HasUniqueIds-IsDistinct [] u = tt
HasUniqueIds-IsDistinct (w ∷ ws) u = (new, HasUniqueIds-IsDistinct ws u.1)
  where
    new : IsNew w ws
    new v m e =
        let found : find_worker v.worker_id ws ≡ some v = find_worker-mem v ws u.1 m in
        let gone : find_worker v.worker_id ws ≡ none = rw e u.0 in cc

filter_by-IsDistinct :
    (p : WorkerNode → Bool) (ws : Workers) → IsDistinct ws → IsDistinct (filter_by p ws)
filter_by-IsDistinct p [] d = tt
filter_by-IsDistinct p (w ∷ ws) d =
    if_cases IsDistinct (p w)
      (λ _. (λ u m. d.0 u (mem-filter_by p u ws m).0, filter_by-IsDistinct p ws d.1))
      (λ _. filter_by-IsDistinct p ws d.1)

IsBefore-trans :
    (w v : WorkerNode) (ws : Workers)
    → text_leb w.worker_id v.worker_id ≡ true
    → IsNew w ws
    → IsBefore v ws
    → IsBefore w ws
IsBefore-trans w v [] h n b = tt
IsBefore-trans w v (u ∷ ws) h n b = (
  (
    text_leb_trans w.worker_id v.worker_id u.worker_id h b.0.0,
    λ e. n u (mem-cons.1 (Or.inl refl)) (sym e),
  ),
  IsBefore-trans w v ws h (λ x m. n x (mem-cons_of_mem u m)) b.1,
)

insert_by_id-IsBefore :
    (v w : WorkerNode) (ws : Workers)
    → text_leb v.worker_id w.worker_id ≡ true
    → v.worker_id ≢ w.worker_id
    → IsBefore v ws
    → IsBefore v (insert_by_id w ws)
unfolding insert_by_id
insert_by_id-IsBefore v w [] h n b = ((h, n), tt)
insert_by_id-IsBefore v w (u ∷ ws) h n b =
    if_cases (IsBefore v) (text_leb w.worker_id u.worker_id) (λ _. ((h, n), b))
      (λ _. (b.0, insert_by_id-IsBefore v w ws h n b.1))

insert_by_id-IsAscending :
    (w : WorkerNode) (ws : Workers) → IsNew w ws → IsAscending ws → IsAscending (insert_by_id w ws)
unfolding insert_by_id
insert_by_id-IsAscending w [] n a = (tt, tt)
insert_by_id-IsAscending w (v ∷ ws) n a =
    let other = n v (mem-cons.1 (Or.inl refl)) in
    if_cases IsAscending (text_leb w.worker_id v.worker_id)
      (λ h. (
        ((h, λ e. other (sym e)), IsBefore-trans w v ws h (λ x m. n x (mem-cons_of_mem v m)) a.0),
        a,
      ))
      (λ h. (
        insert_by_id-IsBefore v w ws (text_leb_total w.worker_id v.worker_id h) other a.0,
        insert_by_id-IsAscending w ws (λ x m. n x (mem-cons_of_mem v m)) a.1,
      ))

sort_by_id-IsAscending : (ws : Workers) → IsDistinct ws → IsAscending (sort_by_id ws)
unfolding sort_by_id
sort_by_id-IsAscending [] d = tt
sort_by_id-IsAscending (w ∷ ws) d =
    insert_by_id-IsAscending w (sort_by_id ws)
      (λ u m. d.0 u ((Perm.mem_iff (sort_by_id-perm ws)).0 m)) (sort_by_id-IsAscending ws d.1)

module _ (p q : WorkerNode → Bool) (ws : Workers) where
  pub candidates-IsAscending :
      HasUniqueIds ws → IsAscending (candidates (filter_by p (filter_by q ws)))
  unfolding candidates
  candidates-IsAscending u = sort_by_id-IsAscending _ (
      filter_by-IsDistinct _ _
        (filter_by-IsDistinct p _ (filter_by-IsDistinct q ws (HasUniqueIds-IsDistinct ws u))))

-- A worker of the list that has no more requests than any other one has the smallest number.
least_lem :
    (w : WorkerNode) (ws : Workers)
    → Mem w ws
    → ((u : WorkerNode) → Mem u ws → w.outstanding_requests ≤ u.outstanding_requests)
    → w.outstanding_requests ≡ min_outstanding ws
least_lem w [] m h = absurd (not-mem-nil m)
least_lem w (x ∷ xs) m h =
    let (u, e) = get_elem?-lt_length (candidates (x ∷ xs)) 0 (candidates-pos x xs) in
    let (mu, lo) = mem-candidates (x ∷ xs) u (get_elem?-mem (candidates (x ∷ xs)) 0 u e) in
    omega (arith, lo, h u mu, min_outstanding-le (x ∷ xs) m)

mem-candidates-least :
    (w : WorkerNode) (ws : Workers)
    → Mem w ws
    → ((u : WorkerNode) → Mem u ws → w.outstanding_requests ≤ u.outstanding_requests)
    → Mem w (candidates ws)
unfolding candidates
mem-candidates-least w ws m h =
    (Perm.mem_iff (sort_by_id-perm _)).1
      (filter_by-mem _ w ws m ((==_iff _ _).1 (least_lem w ws m h)))

pub candidates-some : (w : WorkerNode) (ws : Workers) → Mem w ws → 0 < length (candidates ws)
candidates-some w [] m = absurd (not-mem-nil m)
candidates-some w (x ∷ xs) m = candidates-pos x xs

module _ (c : GatewayConfig) (exclude : List Text) (ws : Workers) where
  -- A worker that a request may go to, with the fewest requests of all these.
  pub record IsRival (w : WorkerNode) : Type 0 where
    pub is_known : Mem w ws
    pub is_eligible : IsEligible c exclude w
    pub has_fewest :
        (u : WorkerNode)
        → Mem u ws
        → IsEligible c exclude u
        → w.outstanding_requests ≤ u.outstanding_requests

  abbrev eligible : Workers
  eligible = filter_by (is_available c exclude) (healthy_workers ws)

  pub mem-candidates-IsRival : (w : WorkerNode) → Mem w (candidates eligible) ↔ IsRival w
  mem-candidates-IsRival w = (to, from)
    where
      to : Mem w (candidates eligible) → IsRival w
      to m =
          let (me, lo) = mem-candidates eligible w m in
          let (mw, el) = mem-eligible→IsEligible c exclude ws w me in
          record {
            is_known = mw;
            is_eligible = el;
            has_fewest = λ u mu eu.
                rw lo (min_outstanding-le eligible (IsEligible→mem-eligible c exclude ws u mu eu));
          }

      from : IsRival w → Mem w (candidates eligible)
      from r =
          mem-candidates-least w eligible
            (IsEligible→mem-eligible c exclude ws w r.is_known r.is_eligible)
            (λ u mu.
              let (mw, el) = mem-eligible→IsEligible c exclude ws u mu in r.has_fewest u mw el)

  pub rivals-IsAscending : HasUniqueIds ws → IsAscending (candidates eligible)
  unfolding healthy_workers
  rivals-IsAscending u = candidates-IsAscending (is_available c exclude) _ ws u
