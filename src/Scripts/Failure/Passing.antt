-- ===== src/Scripts/Failure/Passing.antt =====
-- When the scenario passes, and in what state it leaves the workers.
use distributed_model_server.Prelude.{
  ℕ, zero, suc, ◌+◌, ◌≤◌, ◌<◌, ◌≡◌, refl, ap, subst, Text, Bool, true, false, ◌↔◌, inl, inr, Option,
  some, ltb, ◌==◌, if◌then◌else◌, Bool-cases, Option-cases, contains, arith,
}
use distributed_model_server.Gateway.App.Json.{Members}
use distributed_model_server.Scripts.Failure.{
  http_get, passed, crashed, failed, World, has_predictions, from_worker_1, prediction, poll, hits,
  after_stop, scenario,
}

one-ne-zero : (b : Bool) (n : ℕ) → (if b then 1 else 0) + n ≡ 0 → b ≡ false
one-ne-zero true n e = absurd (omega arith)
one-ne-zero false n e = refl

zero_of_not_positive : (n : ℕ) → ltb 0 n ≡ false → n ≡ 0
zero_of_not_positive n e = ground arith

module _ (loads : Text → Option Members) (w : World) where
  poll→ready :
      (left k : ℕ)
      → poll loads w left k ≡ true
      → (j : ℕ) × (j < k + left) × ((http_get (w.ready j)).0 ≡ 200)
  unfolding poll
  poll→ready zero k e = cc
  poll→ready (suc left) k e = elim (Bool-cases ((http_get (w.ready k)).0 == 200)) [
    | inl h ↦ (k, omega arith, ground arith)
    | inr h ↦ let (j, l, r) = poll→ready left (k + 1) (rw h at e) in (j, omega (arith, l), r)
  ]

  ready→poll :
      (left k j : ℕ)
      → k ≤ j
      → j < k + left
      → (http_get (w.ready j)).0 ≡ 200
      → poll loads w left k ≡ true
  unfolding poll
  ready→poll zero k j l m e = absurd (omega arith)
  ready→poll (suc left) k j l m e = elim (Bool-cases ((http_get (w.ready k)).0 == 200)) [
    | inl h ↦ rw h refl
    | inr h ↦
        let later : k + 1 ≤ j = elim (Bool-cases (k == j)) [
          | inl same ↦
              let s : k ≡ j = ground arith in
              absurd (ground (arith, ap (λ i. (http_get (w.ready i)).0) s))
          | inr other ↦ ground arith
        ] in
        rw h (ready→poll left (k + 1) j later (omega (arith, m)) e)
  ]

  none_hit :
      (left k j : ℕ)
      → hits loads w left k ≡ 0
      → k ≤ j
      → j < k + left
      → from_worker_1 (prediction loads w j) ≡ false
  unfolding hits
  none_hit zero k j e l m = absurd (omega arith)
  none_hit (suc left) k j e l m = elim (Bool-cases (k == j)) [
    | inl same ↦
        let s : k ≡ j = ground arith in
        subst (λ i. from_worker_1 (prediction loads w i) ≡ false) s (one-ne-zero _ _ e)
    | inr other ↦ none_hit left (k + 1) j (ground arith) (ground arith) (omega arith)
  ]

  no_hits :
      (left k : ℕ)
      → ((j : ℕ) → k ≤ j → j < k + left → from_worker_1 (prediction loads w j) ≡ false)
      → hits loads w left k ≡ 0
  unfolding hits
  no_hits zero k h = refl
  no_hits (suc left) k h =
      rw (h k (omega arith) (omega arith))
        (omega (arith, no_hits left (k + 1) (λ j l m. h j (omega arith) (omega (arith, m)))))

  pub record Passes (sentinel : Text) : Type 0 where
    pub became_ready : (j : ℕ) × (j < 30) × ((http_get (w.ready j)).0 ≡ 200)
    pub predicted : has_predictions (prediction loads w 0) ≡ true
    pub stopped : w.stops ≡ true
    pub avoided : (j : ℕ) → 1 ≤ j → j < 21 → from_worker_1 (prediction loads w j) ≡ false
    pub started : w.starts ≡ true
    pub silent : (logs : Text) × (w.logs ≡ some logs) × (contains logs sentinel ≡ false)

  after_stop→silent :
      (sentinel : Text)
      → (after_stop loads w sentinel).verdict ≡ passed
      → (w.starts ≡ true)
        × ((logs : Text) × (w.logs ≡ some logs) × (contains logs sentinel ≡ false))
  unfolding after_stop
  after_stop→silent sentinel e = elim (Bool-cases w.starts) [
    | inr h ↦ absurd (never (rw h at e))
    | inl h ↦ elim (Option-cases w.logs) [
      | inl none_ ↦ absurd (never (rw (h, none_) at e))
      | inr (logs, l) ↦ elim (Bool-cases (contains logs sentinel)) [
        | inl found ↦ absurd (never_seven (rw (h, l, found) at e))
        | inr clean ↦ (h, (logs, l, clean))
      ]
    ]
  ]
    where
      never : crashed ≡ passed → ⊥
      never e = cc

      never_seven : failed 7 ≡ passed → ⊥
      never_seven e = cc

  scenario→Passes :
      (sentinel : Text) → (scenario loads w sentinel).verdict ≡ passed → Passes sentinel
  unfolding scenario
  scenario→Passes sentinel e = elim (Bool-cases (poll loads w 30 0)) [
    | inr a ↦ absurd (fails 1 (rw a at e))
    | inl a ↦ elim (Bool-cases (has_predictions (prediction loads w 0))) [
      | inr b ↦ absurd (fails 2 (rw (a, b) at e))
      | inl b ↦ elim (Bool-cases w.stops) [
        | inr c ↦ absurd (crashes (rw (a, b, c) at e))
        | inl c ↦ elim (Bool-cases (ltb 0 (hits loads w 20 1))) [
          | inl d ↦ absurd (fails 4 (rw (a, b, c, d) at e))
          | inr d ↦
              let rest = after_stop→silent sentinel (rw (a, b, c, d) at e) in
              let zero_hits = zero_of_not_positive (hits loads w 20 1) d in
              record {
                became_ready = poll→ready 30 0 a;
                predicted = b;
                stopped = c;
                avoided = λ j l m. none_hit 20 1 j zero_hits l m;
                started = rest.0;
                silent = rest.1;
              }
        ]
      ]
    ]
  ]
    where
      fails : (n : ℕ) → failed n ≡ passed → ⊥
      fails n e = cc

      crashes : crashed ≡ passed → ⊥
      crashes e = cc

  Passes→scenario :
      (sentinel : Text) → Passes sentinel → (scenario loads w sentinel).verdict ≡ passed
  unfolding scenario after_stop
  Passes→scenario sentinel p =
      let a = ready→poll 30 0 p.became_ready.0 (omega arith) p.became_ready.1 p.became_ready.2 in
      let d = no_hits 20 1 p.avoided in
      rw (a, p.predicted, p.stopped, d, p.started, p.silent.1, p.silent.2) refl

  -- The scenario passes exactly if one of the first thirty polls finds the gateway ready, the first
  -- prediction succeeds, docker stops and starts the worker and gives the logs, none of the twenty requests
  -- in between is answered by worker-1, and the sentinel is not in the logs.
  pub scenario_iff :
      (sentinel : Text) → ((scenario loads w sentinel).verdict ≡ passed) ↔ Passes sentinel
  scenario_iff sentinel = (scenario→Passes sentinel, Passes→scenario sentinel)
