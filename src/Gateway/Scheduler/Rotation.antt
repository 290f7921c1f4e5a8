-- ===== src/Gateway/Scheduler/Rotation.antt =====
-- The rotating cursor: requests that come one at a time go round the workers with the fewest requests.
use native.Mathlib.Nat.{mod-lt, mod-add-mod}
use distributed_model_server.Prelude.{
  ℕ, zero, suc, ◌+◌, ◌%◌, ◌<◌, ◌≡◌, refl, sym, subst, ap, ◌∙◌, Text, List, [], ◌∷◌, some, arith,
  length, get_elem?, get_elem?-lt_length, filter_by, Mem, ◌↔◌,
}
use distributed_model_server.Gateway.Config.{GatewayConfig}
use distributed_model_server.Gateway.Registry.{Workers, WorkerNode, Emits}
use distributed_model_server.Gateway.State.{
  GatewayState, Result, ok, raised, crashed, Action, on_worker, emit,
}
use distributed_model_server.Gateway.Scheduler.{
  healthy_workers, is_available, candidates, sort_by_id, take_turn, choose_eligible, choose_healthy,
  choose, add_request, reserve, select_worker, drop_request, release_worker,
}
use distributed_model_server.Gateway.Scheduler.Choice.{IsEligible, IsEligible→mem-eligible}
use distributed_model_server.Gateway.Scheduler.Order.{
  IsAscending, IsRival, mem-candidates-IsRival, rivals-IsAscending, candidates-some,
}
use distributed_model_server.Gateway.Scheduler.Slots.{
  HasUniqueIds, Reserves, select_worker-Reserves,
}

-- The request is over before the next one comes.
finish_one : Result WorkerNode × GatewayState → Result WorkerNode × GatewayState
unfolding release_worker
finish_one (ok w, g) = (ok w, release_worker w.worker_id g)
finish_one (raised e, g) = (raised e, g)
finish_one (crashed, g) = (crashed, g)

unfoldable pub serve_one : GatewayConfig → List Text → Action WorkerNode
unfolding select_worker finish_one
serve_one c exclude g = finish_one (select_worker c exclude g)

-- The gateway after `n` such requests.
unfoldable pub serve_many : GatewayConfig → List Text → ℕ → GatewayState → GatewayState
unfolding serve_one
serve_many c exclude zero g = g
serve_many c exclude (suc n) g = serve_many c exclude n (serve_one c exclude g).1

module _ (c : GatewayConfig) (exclude : List Text) where
  -- The workers that a request may go to with the fewest requests, by their ids.
  abbrev pub rivals : Workers → Workers
  rivals ws = candidates (filter_by (is_available c exclude) (healthy_workers ws))

  choose-take_turn :
      (cursor : ℕ) (ws : Workers)
      → 0 < length (rivals ws)
      → choose c exclude cursor ws ≡ take_turn cursor (rivals ws)
  unfolding choose choose_healthy choose_eligible candidates sort_by_id
  choose-take_turn cursor ws p = from_healthy (healthy_workers ws) p
    where
      from_eligible :
          (es : Workers)
          → 0 < length (candidates es)
          → choose_eligible cursor es ≡ take_turn cursor (candidates es)
      from_eligible [] p = absurd (omega (arith, p))
      from_eligible (w ∷ ws) p = refl

      from_healthy :
          (hs : Workers)
          → 0 < length (candidates (filter_by (is_available c exclude) hs))
          → choose_healthy c exclude cursor hs
            ≡ take_turn cursor (candidates (filter_by (is_available c exclude) hs))
      from_healthy [] p = absurd (omega (arith, p))
      from_healthy (w ∷ ws) p = from_eligible (filter_by (is_available c exclude) (w ∷ ws)) p

  on_worker-cursor :
      (wid : Text) (f : WorkerNode → Emits WorkerNode) (g : GatewayState)
      → (on_worker wid f g).cursor ≡ g.cursor
  unfolding on_worker emit
  on_worker-cursor wid f g = ground arith

  -- What one such request does.
  record Serves (g : GatewayState) (r : Result WorkerNode × GatewayState) : Type 0 where
    chosen : WorkerNode
    in_turn : get_elem? (rivals g.workers) (g.cursor % length (rivals g.workers)) ≡ some chosen
    answer : r.0 ≡ ok (add_request chosen)
    same_workers : r.1.workers ≡ g.workers
    next_cursor : r.1.cursor ≡ (g.cursor + 1) % length (rivals g.workers)

  take_turn_lem :
      (cursor : ℕ) (cs : Workers) (w : WorkerNode)
      → get_elem? cs (cursor % length cs) ≡ some w
      → take_turn cursor cs ≡ ok (w, (cursor + 1) % length cs)
  unfolding take_turn
  take_turn_lem cursor cs w e = rw (e, take_turn) refl

  from_selection :
      (w : WorkerNode) (k : ℕ) (g : GatewayState)
      → get_elem? (rivals g.workers) (g.cursor % length (rivals g.workers)) ≡ some w
      → k ≡ (g.cursor + 1) % length (rivals g.workers)
      → select_worker c exclude g ≡ (ok (add_request w), reserve w k g)
      → Reserves c exclude g (ok (add_request w), reserve w k g)
      → Serves g (serve_one c exclude g)
  unfolding serve_one finish_one reserve release_worker
  from_selection w k g e ek taken h =
      subst (λ r. Serves g (finish_one r)) (sym taken)
        (record {
          chosen = w;
          in_turn = e;
          answer = refl;
          same_workers = h.4;
          next_cursor = on_worker-cursor w.worker_id drop_request (reserve w k g) ∙ ek;
        })

  serve_one-Serves :
      (g : GatewayState)
      → HasUniqueIds g.workers
      → 0 < length (rivals g.workers)
      → Serves g (serve_one c exclude g)
  unfolding serve_one
  serve_one-Serves g u p =
      let cs = rivals g.workers in
      let (w, e) =
        get_elem?-lt_length cs (g.cursor % length cs) (omega (arith, mod-lt g.cursor p)) in
      let turn : choose c exclude g.cursor g.workers ≡ ok (w, (g.cursor + 1) % length cs) =
        choose-take_turn g.cursor g.workers p ∙ take_turn_lem g.cursor cs w e in
      let taken : select_worker c exclude g
          ≡ (ok (add_request w), reserve w ((g.cursor + 1) % length cs) g) =
        rw (turn, select_worker) refl in
      from_selection w ((g.cursor + 1) % length cs) g e refl taken
        (subst (Reserves c exclude g) taken (select_worker-Reserves c exclude g u))

  later_turn :
      (cursor n size k : ℕ) → k ≡ (cursor + 1) % size → (k + n) % size ≡ (cursor + suc n) % size
  later_turn cursor n size k e =
      let eq : cursor + 1 + n ≡ cursor + suc n = omega arith in
      ap (λ x. (x + n) % size) e ∙ (mod-add-mod (cursor + 1) size n ∙ ap (λ x. x % size) eq)

  serve_many-workers :
      (n : ℕ) (g : GatewayState)
      → HasUniqueIds g.workers
      → 0 < length (rivals g.workers)
      → ((serve_many c exclude n g).workers ≡ g.workers)
        × ((serve_many c exclude n g).cursor % length (rivals g.workers)
            ≡ (g.cursor + n) % length (rivals g.workers))
  unfolding serve_many
  serve_many-workers zero g u p = (refl, ap (λ n. n % length (rivals g.workers)) (omega arith))
  serve_many-workers (suc n) g u p =
      let v = serve_one-Serves g u p in
      let same = v.same_workers in
      let (ws, cur) =
        serve_many-workers n (serve_one c exclude g).1 (subst HasUniqueIds (sym same) u)
          (subst (λ x. 0 < length (rivals x)) (sym same) p) in
      (
        ws ∙ same,
        subst
              (λ x.
                (serve_many c exclude n (serve_one c exclude g).1).cursor % length (rivals x)
                ≡ ((serve_one c exclude g).1.cursor + n) % length (rivals x))
              same cur
            ∙ later_turn g.cursor n (length (rivals g.workers)) _ v.next_cursor,
      )

  -- If the registry has one worker to an id, some worker can take a request, and requests come one at a
  -- time, then the eligible workers with the fewest requests take turns in the order of their ids: they are
  -- the members of a list whose ids grow from place to place, and the request after `n` others goes to the
  -- worker that stands there `n` places behind the cursor, round and round.
  pub serve_many-rotates :
      (n : ℕ) (g : GatewayState) (v : WorkerNode)
      → HasUniqueIds g.workers
      → Mem v g.workers
      → IsEligible c exclude v
      → (cs : Workers) × IsAscending cs
        × ((u : WorkerNode) → Mem u cs ↔ IsRival c exclude g.workers u)
        × (w : WorkerNode) × (get_elem? cs ((g.cursor + n) % length cs) ≡ some w)
        × ((serve_one c exclude (serve_many c exclude n g)).0 ≡ ok (add_request w))
  serve_many-rotates n g v u m el =
      let p : 0 < length (rivals g.workers) =
        candidates-some v _ (IsEligible→mem-eligible c exclude g.workers v m el) in
      let (same, turn) = serve_many-workers n g u p in
      let g' = serve_many c exclude n g in
      let r =
        serve_one-Serves g' (subst HasUniqueIds (sym same) u)
          (subst (λ x. 0 < length (rivals x)) (sym same) p) in
      (
        rivals g.workers,
        rivals-IsAscending c exclude g.workers u,
        mem-candidates-IsRival c exclude g.workers,
        r.chosen,
        subst (λ i. get_elem? (rivals g.workers) i ≡ some r.chosen) turn
            (subst (λ x. get_elem? (rivals x) (g'.cursor % length (rivals x)) ≡ some r.chosen) same
              r.in_turn),
        r.answer,
      )
