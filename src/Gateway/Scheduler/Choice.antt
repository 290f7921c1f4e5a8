-- ===== src/Gateway/Scheduler/Choice.antt =====
-- What `select_worker` promises: which worker it takes, and when it refuses.
use mathlib.Core.List.{mem-cons, not-mem-nil, mem-cons_self}
use mathlib.Core.Logic.Or
use native.Mathlib.Nat.{mod-lt}
use distributed_model_server.Prelude.{
  ℕ, ◌%◌, ◌≤◌, ◌<◌, ◌≡◌, refl, ap, ◌≢◌, ◌⊎◌, inl, inr, Text, true, List, [], ◌∷◌, Mem, arith,
  length, get_elem?-lt_length, get_elem?-mem, filter_by, mem-filter_by, filter_by-mem, not, text_eq,
  text_eq→eq, text_eq_refl, ltb, ltb→lt, lt→ltb, &&-eq-true, Bool-cases,
}
use distributed_model_server.Errors.{default_no_healthy_worker, default_gateway_at_capacity}
use distributed_model_server.Gateway.Config.{GatewayConfig}
use distributed_model_server.Gateway.Registry.{
  HealthState, healthy, is_healthy, Workers, WorkerNode, update_worker,
}
use distributed_model_server.Gateway.State.{GatewayState, Result, ok, raised, crashed}
use distributed_model_server.Gateway.Scheduler.{
  mem_id, healthy_workers, is_available, candidates, min_outstanding, take_turn, choose_eligible,
  choose_healthy, choose, add_request, reserve, select_worker,
}
use distributed_model_server.Gateway.Scheduler.Least.{
  mem-candidates, candidates-pos, min_outstanding-le,
}

-- A worker that a request may go to.
pub record IsEligible (c : GatewayConfig) (exclude : List Text) (w : WorkerNode) : Type 0 where
  pub is_up : w.state ≡ healthy
  pub not_excluded : ¬ Mem w.worker_id exclude
  pub has_room : w.outstanding_requests < c.gateway_max_outstanding_per_worker

is_healthy→eq : (s : HealthState) → is_healthy s ≡ true → s ≡ healthy
is_healthy→eq s h = ground arith

mem_id→mem : (wid : Text) (ids : List Text) → mem_id wid ids ≡ true → Mem wid ids
unfolding mem_id
mem_id→mem wid [] h = cc
mem_id→mem wid (i ∷ ids) h = elim (Bool-cases (text_eq wid i)) [
  | inl e ↦ mem-cons.1 (Or.inl (text_eq→eq wid i e))
  | inr e ↦ mem-cons.1 (Or.inr (mem_id→mem wid ids (rw e at h)))
]

mem→mem_id : (wid : Text) (ids : List Text) → Mem wid ids → mem_id wid ids ≡ true
unfolding mem_id
mem→mem_id wid [] h = absurd (not-mem-nil h)
mem→mem_id wid (i ∷ ids) h =
    Or.elim (hlevel) (mem-cons.0 h) (λ e. rw (← e, text_eq_refl wid))
      (λ m. ground (arith, mem→mem_id wid ids m))

module _ (c : GatewayConfig) (exclude : List Text) (ws : Workers) where
  pub mem-eligible→IsEligible :
      (w : WorkerNode)
      → Mem w (filter_by (is_available c exclude) (healthy_workers ws))
      → Mem w ws × IsEligible c exclude w
  unfolding is_available healthy_workers
  mem-eligible→IsEligible w m =
      let (mh, av) = mem-filter_by _ w _ m in
      let (mw, up) = mem-filter_by _ w _ mh in
      let (out, room) =
        &&-eq-true (not (mem_id w.worker_id exclude))
          (ltb w.outstanding_requests c.gateway_max_outstanding_per_worker) av in
      (
        mw,
        record {
          is_up = is_healthy→eq w.state up;
          not_excluded = λ x. ground (arith, mem→mem_id w.worker_id exclude x);
          has_room = ltb→lt _ _ room;
        },
      )

  pub IsEligible→mem-eligible :
      (w : WorkerNode)
      → Mem w ws
      → IsEligible c exclude w
      → Mem w (filter_by (is_available c exclude) (healthy_workers ws))
  unfolding is_available healthy_workers
  IsEligible→mem-eligible w m v =
      filter_by-mem _ w _ (filter_by-mem _ w _ m (rw v.is_up))
        (elim (Bool-cases (mem_id w.worker_id exclude)) [
          | inl bad ↦ absurd (v.not_excluded (mem_id→mem w.worker_id exclude bad))
          | inr good ↦ rw (good, lt→ltb _ _ v.has_room)
        ])

  -- A choice takes an eligible worker with the fewest requests. It refuses for want of a healthy worker
  -- if there is none, and for want of capacity if some worker is healthy and none is eligible.
  abbrev pub Chooses : Result (WorkerNode × ℕ) → Type 0
  Chooses (ok (w, cursor)) =
      Mem w ws
      × IsEligible c exclude w
      × ((u : WorkerNode)
          → Mem u ws
          → IsEligible c exclude u
          → w.outstanding_requests ≤ u.outstanding_requests)
  Chooses (raised e) =
      ((e ≡ default_no_healthy_worker) × ((u : WorkerNode) → Mem u ws → u.state ≢ healthy))
      ⊎ ((e ≡ default_gateway_at_capacity)
          × ((h : WorkerNode) × Mem h ws × (h.state ≡ healthy))
          × ((u : WorkerNode) → Mem u ws → ¬ IsEligible c exclude u))
  Chooses crashed = ⊥

  -- `eligible` in the code, up to here.
  abbrev eligible : Workers
  eligible = filter_by (is_available c exclude) (healthy_workers ws)

  take_turn-Chooses :
      (cursor : ℕ) (cs : Workers)
      → 0 < length cs
      → ((w : WorkerNode)
          → Mem w cs
          → Mem w eligible × (w.outstanding_requests ≡ min_outstanding eligible))
      → Chooses (take_turn cursor cs)
  unfolding take_turn
  take_turn-Chooses cursor cs p least =
      let (w, e) = get_elem?-lt_length cs (cursor % length cs) (omega (arith, mod-lt cursor p)) in
      let (m, lo) = least w (get_elem?-mem cs _ w e) in
      let (mw, el) = mem-eligible→IsEligible w m in
      rw (e, take_turn)
        (mw, el, λ u mu eu. rw lo (min_outstanding-le eligible (IsEligible→mem-eligible u mu eu)))

  choose_eligible-Chooses :
      (cursor : ℕ) (es : Workers)
      → es ≡ eligible
      → ((h : WorkerNode) × Mem h ws × (h.state ≡ healthy))
      → Chooses (choose_eligible cursor es)
  unfolding choose_eligible
  choose_eligible-Chooses cursor [] e up =
      inr (refl, up, λ u mu eu. not-mem-nil (rw (← e) at (IsEligible→mem-eligible u mu eu)))
  choose_eligible-Chooses cursor (x ∷ xs) e up =
      take_turn-Chooses cursor (candidates (x ∷ xs)) (candidates-pos x xs)
        (λ w m. rw (← e) (mem-candidates (x ∷ xs) w m))

  choose_healthy-Chooses :
      (cursor : ℕ) (hs : Workers)
      → hs ≡ healthy_workers ws
      → Chooses (choose_healthy c exclude cursor hs)
  unfolding choose_healthy healthy_workers
  choose_healthy-Chooses cursor [] e = inl (
    refl,
    λ u mu up.
        not-mem-nil
          (rw (← e) at (filter_by-mem (λ (w : WorkerNode). is_healthy w.state) u ws mu (rw up))),
  )
  choose_healthy-Chooses cursor (x ∷ xs) e =
      let (m, up) = mem-filter_by _ x ws (rw e at (mem-cons_self {a = x} {l = xs})) in
      choose_eligible-Chooses cursor (filter_by (is_available c exclude) (x ∷ xs))
        (ap (filter_by (is_available c exclude)) e) (x, m, is_healthy→eq x.state up)

  pub choose-Chooses : (cursor : ℕ) → Chooses (choose c exclude cursor ws)
  unfolding choose
  choose-Chooses cursor = choose_healthy-Chooses cursor _ refl

-- What a call of `select_worker` did to the gateway, by how it ended.
module _ (c : GatewayConfig) (exclude : List Text) (g : GatewayState) where
  abbrev pub Selects : Result WorkerNode × GatewayState → Type 0
  Selects (ok w, g') =
      (v : WorkerNode) × Mem v g.workers
      × IsEligible c exclude v
      × ((u : WorkerNode)
          → Mem u g.workers
          → IsEligible c exclude u
          → v.outstanding_requests ≤ u.outstanding_requests)
      × (w ≡ add_request v)
      × (g'.workers ≡ update_worker v.worker_id add_request g.workers)
  Selects (raised e, g') =
      (g' ≡ g)
      × (((e ≡ default_no_healthy_worker)
            × ((u : WorkerNode) → Mem u g.workers → u.state ≢ healthy))
          ⊎ ((e ≡ default_gateway_at_capacity)
              × ((h : WorkerNode) × Mem h g.workers × (h.state ≡ healthy))
              × ((u : WorkerNode) → Mem u g.workers → ¬ IsEligible c exclude u)))
  Selects (crashed, g') = ⊥

  -- `select_worker` takes a healthy worker that is not excluded, has room and has the fewest outstanding
  -- requests of all such workers, and adds one request to that worker alone. It raises
  -- `NoHealthyWorkerError` if no worker is healthy and `GatewayAtCapacityError` if one is healthy but
  -- none can take the request; then it changes nothing. It never fails in another way.
  pub select_worker-Selects : Selects (select_worker c exclude g)
  unfolding select_worker reserve
  select_worker-Selects = go (choose c exclude g.cursor g.workers) refl
    where
      go :
          (r : Result (WorkerNode × ℕ))
          → choose c exclude g.cursor g.workers ≡ r
          → Selects (select_worker c exclude g)
      go (ok (w, k)) e =
          let (m, el, lo) = rw e at (choose-Chooses c exclude g.workers g.cursor) in
          rw (e, select_worker) (w, m, el, lo, refl, refl)
      go (raised x) e =
          rw (e, select_worker) (refl, rw e at (choose-Chooses c exclude g.workers g.cursor))
      go crashed e = absurd (rw e at (choose-Chooses c exclude g.workers g.cursor))
