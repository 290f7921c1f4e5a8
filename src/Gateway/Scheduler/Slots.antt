-- ===== src/Gateway/Scheduler/Slots.antt =====
-- Where a write through the dict of workers shows, and what selection and release do to the number of
-- requests that each worker has outstanding.
use mathlib.Core.List.{mem-cons, not-mem-nil}
use mathlib.Core.Logic.Or
use mathlib.Core.Option
use distributed_model_server.Prelude.{
  ℕ, ◌+◌, ◌-◌, ◌<◌, ◌≡◌, refl, Text, List, [], ◌∷◌, Mem, arith, Option, none, some, text_eq,
  text_eq→eq, text_eq_refl, text_eq_iff, Bool-cases, Option-cases, if◌then◌else◌, inl, inr,
}
use distributed_model_server.Gateway.Config.{GatewayConfig}
use distributed_model_server.Gateway.Registry.{
  Workers, WorkerNode, Emits, find_worker, update_worker,
}
use distributed_model_server.Gateway.State.{GatewayState, Result, ok, raised, crashed, on_worker}
use distributed_model_server.Gateway.Scheduler.{
  add_request, drop_request, select_worker, release_worker,
}
use distributed_model_server.Gateway.Scheduler.Choice.{Selects, select_worker-Selects}

-- A dict holds each key once.
abbrev pub HasUniqueIds : Workers → Type 0
HasUniqueIds [] = Unit
HasUniqueIds (w ∷ ws) = (find_worker w.worker_id ws ≡ none) × HasUniqueIds ws

pub find-update :
    (wid t : Text) (f : WorkerNode → WorkerNode) (ws : Workers)
    → ((w : WorkerNode) → (f w).worker_id ≡ w.worker_id)
    → find_worker t (update_worker wid f ws)
      ≡ (if text_eq wid t then Option.map f (find_worker t ws) else find_worker t ws)
unfolding find_worker update_worker
find-update wid t f [] keep = ground arith
find-update wid t f (w ∷ ws) keep = ground (
  arith,
  keep w,
  text_eq_iff w.worker_id wid,
  text_eq_iff w.worker_id t,
  text_eq_iff wid t,
  find-update wid t f ws keep,
)

pub update_worker-HasUniqueIds :
    (wid : Text) (f : WorkerNode → WorkerNode) (ws : Workers)
    → ((w : WorkerNode) → (f w).worker_id ≡ w.worker_id)
    → HasUniqueIds ws
    → HasUniqueIds (update_worker wid f ws)
unfolding update_worker
update_worker-HasUniqueIds wid f [] keep u = u
update_worker-HasUniqueIds wid f (w ∷ ws) keep u = ground (
  arith,
  keep w,
  find-update wid w.worker_id f ws keep,
  update_worker-HasUniqueIds wid f ws keep u.1,
)

-- In a dict, a worker is found under its own id.
pub find_worker-mem :
    (w : WorkerNode) (ws : Workers)
    → HasUniqueIds ws
    → Mem w ws
    → find_worker w.worker_id ws ≡ some w
unfolding find_worker
find_worker-mem w [] u m = absurd (not-mem-nil m)
find_worker-mem w (v ∷ ws) u m =
    Or.elim (hlevel) (mem-cons.0 m) (λ e. rw (← e, text_eq_refl w.worker_id))
      (λ later. ground (arith, text_eq_iff v.worker_id w.worker_id, find_worker-mem w ws u.1 later))

pub find_worker-id :
    (t : Text) (ws : Workers) (w : WorkerNode) → find_worker t ws ≡ some w → w.worker_id ≡ t
unfolding find_worker
find_worker-id t [] w e = cc
find_worker-id t (v ∷ ws) w e = ground (arith, text_eq_iff v.worker_id t, find_worker-id t ws w)

update_worker_const :
    (wid : Text) (f : WorkerNode → WorkerNode) (ws : Workers) (w : WorkerNode)
    → find_worker wid ws ≡ some w
    → update_worker wid (λ _. f w) ws ≡ update_worker wid f ws
unfolding find_worker update_worker
update_worker_const wid f [] w e = refl
update_worker_const wid f (v ∷ ws) w e = ground (arith, update_worker_const wid f ws w)

update_worker_missing :
    (wid : Text) (f : WorkerNode → WorkerNode) (ws : Workers)
    → find_worker wid ws ≡ none
    → update_worker wid f ws ≡ ws
unfolding find_worker update_worker
update_worker_missing wid f [] e = refl
update_worker_missing wid f (v ∷ ws) e = ground (arith, update_worker_missing wid f ws)

-- A method called on a worker object is a write through the dict.
pub workers-on_worker :
    (wid : Text) (f : WorkerNode → Emits WorkerNode) (g : GatewayState)
    → (on_worker wid f g).workers ≡ update_worker wid (λ w. (f w).0) g.workers
unfolding on_worker
workers-on_worker wid f g = elim (Option-cases (find_worker wid g.workers)) [
  | inl e ↦ rw (e, on_worker, update_worker_missing wid (λ (w : WorkerNode). (f w).0) g.workers e)
  | inr (w, e) ↦ rw (e, on_worker) (update_worker_const wid (λ w. (f w).0) g.workers w e)
]

pub update_worker_id :
    (wid : Text) (f g : WorkerNode → WorkerNode) (ws : Workers)
    → ((w : WorkerNode) → (f w).worker_id ≡ w.worker_id)
    → ((w : WorkerNode) → g (f w) ≡ w)
    → update_worker wid g (update_worker wid f ws) ≡ ws
unfolding update_worker
update_worker_id wid f g [] keep inv = refl
update_worker_id wid f g (v ∷ ws) keep inv =
    ground (arith, keep v, inv v, update_worker_id wid f g ws keep inv)

-- `outstanding_requests` of the worker with this id, and 0 if there is none.
abbrev pub requests : Option WorkerNode → ℕ
requests none = 0
requests (some w) = w.outstanding_requests

abbrev pub outstanding : Text → Workers → ℕ
outstanding t ws = requests (find_worker t ws)

requests-drop :
    (o : Option WorkerNode) → requests (Option.map (λ w. (drop_request w).0) o) ≡ requests o - 1
requests-drop none = omega arith
requests-drop (some w) = ground arith

drop_request-id : (w : WorkerNode) → (drop_request w).0.worker_id ≡ w.worker_id
drop_request-id w = ground arith

-- A release takes one request from the released worker and none from any other.
pub outstanding-release_worker :
    (wid t : Text) (g : GatewayState)
    → outstanding t (release_worker wid g).workers
      ≡ outstanding t g.workers - (if text_eq wid t then 1 else 0)
unfolding release_worker
outstanding-release_worker wid t g =
    rw
      (
        workers-on_worker wid drop_request g,
        find-update wid t (λ (w : WorkerNode). (drop_request w).0) g.workers drop_request-id,
      )
      (ground (arith, requests-drop (find_worker t g.workers)))

module _ (c : GatewayConfig) (exclude : List Text) (g : GatewayState) where
  -- What a selection that returned promises of the numbers of outstanding requests.
  abbrev pub Reserves : Result WorkerNode × GatewayState → Type 0
  Reserves (ok w, g') =
      (outstanding w.worker_id g.workers < c.gateway_max_outstanding_per_worker)
      × ¬ Mem w.worker_id exclude
      × ((t : Text)
          → outstanding t g'.workers
            ≡ outstanding t g.workers + (if text_eq w.worker_id t then 1 else 0))
      × HasUniqueIds g'.workers
      × ((release_worker w.worker_id g').workers ≡ g.workers)
  Reserves (raised e, g') = g' ≡ g
  Reserves (crashed, g') = ⊥

  requests-add :
      (o : Option WorkerNode) {v : WorkerNode}
      → o ≡ some v
      → requests (Option.map add_request o) ≡ requests o + 1
  requests-add none e = cc
  requests-add (some w) e = refl

  drop-add_request : (w : WorkerNode) → (drop_request (add_request w)).0 ≡ w
  drop-add_request w = ground arith

  module _ (v : WorkerNode) (found : find_worker v.worker_id g.workers ≡ some v) where
    outstanding-add :
        (t : Text)
        → outstanding t (update_worker v.worker_id add_request g.workers)
          ≡ outstanding t g.workers + (if text_eq v.worker_id t then 1 else 0)
    outstanding-add t = elim (Bool-cases (text_eq v.worker_id t)) [
      | inl same ↦
          let here : find_worker t g.workers ≡ some v =
            rw (← text_eq→eq v.worker_id t same) found in
          rw (find-update v.worker_id t add_request g.workers (λ w. refl), same)
            (requests-add (find_worker t g.workers) here)
      | inr other ↦
          rw (find-update v.worker_id t add_request g.workers (λ w. refl), other) (omega arith)
    ]

    release-add :
        (g' : GatewayState)
        → g'.workers ≡ update_worker v.worker_id add_request g.workers
        → (release_worker v.worker_id g').workers ≡ g.workers
    unfolding release_worker
    release-add g' e =
        rw (workers-on_worker v.worker_id drop_request g', e)
          (update_worker_id v.worker_id add_request (λ w. (drop_request w).0) g.workers (λ w. refl)
            drop-add_request)

  -- If the registry has one worker to an id:
  -- a selection fills one free place of the worker that it returns and touches no other worker, and the
  -- release that follows it restores every worker.
  pub select_worker-Reserves : HasUniqueIds g.workers → Reserves (select_worker c exclude g)
  select_worker-Reserves u = go (select_worker c exclude g) (select_worker-Selects c exclude g)
    where
      go : (r : Result WorkerNode × GatewayState) → Selects c exclude g r → Reserves r
      go (ok w, g') (v, m, el, lo, ew, eg) =
          let found = find_worker-mem v g.workers u m in
          rw ew (
            rw found el.has_room,
            el.not_excluded,
            λ t. rw eg (outstanding-add v found t),
            rw eg (update_worker-HasUniqueIds v.worker_id add_request g.workers (λ w. refl) u),
            release-add v found g' eg,
          )
      go (raised e, g') h = h.0
      go (crashed, g') h = h

-- A method that keeps a worker's identity and requests leaves every count as it was.
module _ (f : WorkerNode → Emits WorkerNode)
    (same_id : (w : WorkerNode) → (f w).0.worker_id ≡ w.worker_id) where
  pub on_worker-HasUniqueIds :
      (wid : Text) (g : GatewayState)
      → HasUniqueIds g.workers
      → HasUniqueIds (on_worker wid f g).workers
  on_worker-HasUniqueIds wid g u =
      rw (workers-on_worker wid f g)
        (update_worker-HasUniqueIds wid (λ w. (f w).0) g.workers same_id u)

  requests-map :
      ((w : WorkerNode) → (f w).0.outstanding_requests ≡ w.outstanding_requests)
      → (o : Option WorkerNode) → requests (Option.map (λ w. (f w).0) o) ≡ requests o
  requests-map same none = refl
  requests-map same (some w) = same w

  pub outstanding-on_worker :
      ((w : WorkerNode) → (f w).0.outstanding_requests ≡ w.outstanding_requests)
      → (wid t : Text) (g : GatewayState)
      → outstanding t (on_worker wid f g).workers ≡ outstanding t g.workers
  outstanding-on_worker same wid t g =
      rw
        (
          workers-on_worker wid f g,
          find-update wid t (λ (w : WorkerNode). (f w).0) g.workers same_id,
        )
        (ground (arith, requests-map same (find_worker t g.workers)))

pub release_worker-HasUniqueIds :
    (wid : Text) (g : GatewayState)
    → HasUniqueIds g.workers
    → HasUniqueIds (release_worker wid g).workers
unfolding release_worker
release_worker-HasUniqueIds wid g u = on_worker-HasUniqueIds drop_request drop_request-id wid g u
